-- ===== src/Syscalls.antt =====
-- syscall/syscall_manager.cpp: the table of system calls. A handler takes the world, whose type
-- is an argument, to a new one; `none` is an exception that it throws. The four handlers that
-- the constructor registers are in Syscalls.Handlers.
pub mod Handlers
pub mod Table
mod Tests
use kernelc_moderne.Prelude.{
  ℕ, ◌+◌, Bool, true, false, List, [], ◌∷◌, ◌++◌, Option, none, some, lookup,
}

-- EINVAL and the others.
pub data Errno : Type 0 where
  invalid access too_many_files again not_executable no_memory bad_file bad_address : Errno

-- The number that a handler returns: a value of its own, -1, a negated error code of the file,
-- the negated `errno` of a call, or the null pointer.
pub data Outcome : Type 0 where
  value : ℕ → Outcome
  minus_one null : Outcome
  failed : Errno → Outcome
  os_failed : ℕ → Outcome

module _ (World : Type 0) where
  abbrev pub Handler : Type 0
  Handler = World → List ℕ → Option (World × Outcome)

  -- `errors` are the numbers of the calls that `logError` was told of, the oldest first.
  pub record SystemCallManager : Type 0 where
    pub syscall_table : List (ℕ × Handler)
    pub syscall_counter : ℕ
    pub errors : List ℕ

module _ {World : Type 0} where
  -- `emplace` keeps an entry that is there.
  pub emplace : ℕ → Handler World → List (ℕ × Handler World) → List (ℕ × Handler World) × Bool
  emplace number handler table = elim (lookup number table) [
    | some old ↦ (table, false)
    | none ↦ (table ++ ((number, handler) ∷ []), true)
  ]

  pub register_syscall :
      SystemCallManager World → ℕ → Handler World → SystemCallManager World × Bool
  register_syscall m number handler = (
    record m { syscall_table = (emplace number handler m.syscall_table).0 },
    (emplace number handler m.syscall_table).1,
  )

  pub log_error : SystemCallManager World → ℕ → SystemCallManager World
  log_error m number = record m { errors = m.errors ++ (number ∷ []) }

  -- The world that an exception leaves is an argument of `handle_syscall`, since the call may
  -- have changed it.
  pub run :
      (World → World)
      → Handler World
      → SystemCallManager World
      → World
      → ℕ
      → List ℕ
      → SystemCallManager World × World × Outcome
  run unwound handler m w number params = elim (handler w params) [
    | some (w', outcome) ↦ (m, w', outcome)
    | none ↦ (log_error m number, unwound w, Outcome.minus_one)
  ]

  pub handle_syscall :
      (World → World)
      → SystemCallManager World
      → World
      → ℕ
      → List ℕ
      → SystemCallManager World × World × Outcome
  handle_syscall unwound m w number params = elim (lookup number m.syscall_table) [
    | none ↦ (log_error m number, w, Outcome.minus_one)
    | some handler ↦
        run unwound handler (record m { syscall_counter = m.syscall_counter + 1 }) w number params
  ]
