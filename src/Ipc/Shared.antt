-- ===== src/Ipc/Shared.antt =====
-- ipc/ipc_manager.hpp, SharedMemoryManager and SignalHandler. Names are only compared, so numbers
-- stand for them. What `mmap` returns is an argument; the calls of `munmap` are the result.
pub mod Laws
mod Tests
use kernelc_moderne.Prelude.{
  ℕ, ◌+◌, ◌-◌, Bool, true, false, List, [], ◌∷◌, Option, none, some, leb, ◌==◌, if◌then◌else◌,
  lookup, insert, erase,
}

pub record Segment : Type 0 where
  pub address : ℕ
  pub size : ℕ
  pub ref_count : ℕ

abbrev pub Segments : Type 0
Segments = List (ℕ × Segment)

-- `mapped` is what `mmap` gives, `none` for MAP_FAILED.
pub allocate : Segments → ℕ → ℕ → Option ℕ → Segments × Option ℕ
allocate segments name size mapped = elim (lookup name segments) [
  | some s ↦ (insert name (record s { ref_count = s.ref_count + 1 }) segments, some s.address)
  | none ↦ elim mapped [
    | none ↦ (segments, none)
    | some a ↦ (insert name (record { address = a; size = size; ref_count = 1 }) segments, some a)
  ]
]

-- The new table, the result, and the block that is unmapped. The count is an `int` that starts
-- at 1, so `--refCount <= 0` is a test for at most 1.
pub deallocate : Segments → ℕ → Segments × Bool × Option (ℕ × ℕ)
deallocate segments name = elim (lookup name segments) [
  | none ↦ (segments, false, none)
  | some s ↦
      if leb s.ref_count 1
      then (erase name segments, true, some (s.address, s.size))
      else (insert name (record s { ref_count = s.ref_count - 1 }) segments, true, none)
]

-- The destructor: every segment that has an address is unmapped, whatever its count.
pub destroy : Segments → List (ℕ × ℕ)
destroy [] = []
destroy ((name, s) ∷ rest) =
    let others = destroy rest in if s.address == 0 then others else (s.address, s.size) ∷ others

-- SignalHandler: callbacks are named by numbers. `none` where nothing is called.
pub register_handler : List (ℕ × ℕ) → ℕ → ℕ → List (ℕ × ℕ)
register_handler handlers signal callback = insert signal callback handlers

pub process_signal : List (ℕ × ℕ) → ℕ → Option (ℕ × ℕ)
process_signal handlers signal = elim (lookup signal handlers) [
  | none ↦ none
  | some callback ↦ some (callback, signal)
]

pub clear_all_handlers : List (ℕ × ℕ) → List (ℕ × ℕ)
clear_all_handlers handlers = []
