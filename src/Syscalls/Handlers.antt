-- ===== src/Syscalls/Handlers.antt =====
-- syscall/syscall_manager.cpp: the handlers. The managers that they call have no body in the
-- repository: they are the operations of an interface over a world. A pointer is a number, 0 the
-- null pointer; a text is its length and a name, since the handlers only look whether it is empty
-- and pass it on.
pub mod Cleanup
mod Tests
use Prim.Native.Nat.{bit_and, bit_or}
use kernelc_moderne.Prelude.{
  ℕ, zero, suc, ◌+◌, Bool, true, false, not, ◌||◌, List, [], ◌∷◌, Option, none, some, ltb, ◌==◌,
  if◌then◌else◌, ◌⊎◌, inl, inr, ◌^◌, ◌%◌,
}
use kernelc_moderne.Syscalls.{Errno, Outcome, SystemCallManager, register_syscall}

-- What the handlers call.
pub record Services (World : Type 0) : Type 0 where
  pub current_process : World → ℕ
  pub text_length : World → ℕ → ℕ
  pub check_access : World → ℕ → ℕ → ℕ → World × Bool
  -- A descriptor, or `errno`.
  pub open_file : World → ℕ → ℕ → World × (ℕ ⊎ ℕ)
  pub register_fd : World → ℕ → ℕ → World × Bool
  pub close : World → ℕ → World
  -- The `path`, `name` and `priority` of the parameters at an address.
  pub creation_params : World → ℕ → ℕ × ℕ × ℕ
  -- The name, the priority and the parent; `none` is INVALID_PROCESS_ID.
  pub create_process : World → ℕ → ℕ → ℕ → World × Option ℕ
  pub load_executable : World → ℕ → ℕ → World × Bool
  pub initialize_process : World → ℕ → World × Bool
  pub terminate_process : World → ℕ → World
  pub check_memory_limit : World → ℕ → ℕ → World × Bool
  -- 0 is the null pointer.
  pub allocate_memory : World → ℕ → World × ℕ
  pub register_memory_allocation : World → ℕ → ℕ → ℕ → World × Bool
  pub free_memory : World → ℕ → World
  pub validate_socket : World → ℕ → ℕ → World × Bool
  pub check_memory_access : World → ℕ → ℕ → ℕ → World × Bool
  pub check_network_access : World → ℕ → World × Bool
  -- The bytes that were moved, or `errno`.
  pub perform_io : World → ℕ → ℕ → ℕ → World × (ℕ ⊎ ℕ)

-- The constants that have no definition in the repository.
pub record Constants : Type 0 where
  pub file_read : ℕ
  pub file_write : ℕ
  pub file_append : ℕ
  pub file_create : ℕ
  pub o_rdonly : ℕ
  pub o_wronly : ℕ
  pub o_append : ℕ
  pub o_creat : ℕ
  pub exec_permission : ℕ
  pub max_allocation_size : ℕ

module _ {World : Type 0} (services : Services World) (constants : Constants) where
  -- `if (mode & bit) flags |= flag`
  pub add_flag : ℕ → ℕ → ℕ → ℕ → ℕ
  add_flag mode bit flag flags = if bit_and mode bit == 0 then flags else bit_or flags flag

  pub open_flags : ℕ → ℕ
  open_flags mode = add_flag mode constants.file_create constants.o_creat (
      add_flag mode constants.file_append constants.o_append (
        add_flag mode constants.file_write constants.o_wronly
          (add_flag mode constants.file_read constants.o_rdonly 0)))

  -- The end of `handleFileOpen`, from the registration of the descriptor.
  pub keep_fd : World → ℕ → World × Outcome
  keep_fd w fd =
      let (w', registered) = services.register_fd w (services.current_process w) fd in
      if not registered
      then (services.close w' fd, Outcome.failed Errno.too_many_files)
      else (w', Outcome.value fd)

  pub open_path : World → ℕ → ℕ → World × Outcome
  open_path w path mode =
      let (w', opened) = services.open_file w path (open_flags mode) in
      elim opened [ inr errno ↦ (w', Outcome.os_failed errno) | inl fd ↦ keep_fd w' fd ]

  -- `path` and `mode` are the two parameters, the mode cut to 32 bits.
  pub file_open : World → ℕ → ℕ → World × Outcome
  file_open w path mode =
      if path == 0 || services.text_length w path == 0
      then (w, Outcome.failed Errno.invalid)
      else (let (w', granted) = services.check_access w path (services.current_process w) mode in
          if not granted then (w', Outcome.failed Errno.access) else open_path w' path mode)

  pub handle_file_open : World → List ℕ → Option (World × Outcome)
  handle_file_open w [] = some (w, Outcome.minus_one)
  handle_file_open w (p ∷ []) = some (w, Outcome.minus_one)
  handle_file_open w (p ∷ (q ∷ rest)) = some (file_open w p (q % 2 ^ 32))

  -- From the executable on: each failure ends the process again.
  pub start_process : World → ℕ → ℕ → World × Outcome
  start_process w pid path =
      let (w', loaded) = services.load_executable w pid path in
      if not loaded
      then (services.terminate_process w' pid, Outcome.failed Errno.not_executable)
      else (let (w'', initialized) = services.initialize_process w' pid in
          if not initialized
          then (services.terminate_process w'' pid, Outcome.failed Errno.no_memory)
          else (w'', Outcome.value pid))

  pub spawn : World → ℕ → ℕ → ℕ → World × Outcome
  spawn w path name priority =
      let (w', created) = services.create_process w name priority (services.current_process w) in
      elim created [
        | none ↦ (w', Outcome.failed Errno.again)
        | some pid ↦ start_process w' pid path
      ]

  pub process_create : World → ℕ → World × Outcome
  process_create w p =
      let (path, name, priority) = services.creation_params w p in
      if p == 0
      then (w, Outcome.failed Errno.invalid)
      else if path == 0 || services.text_length w path == 0
      then (w, Outcome.failed Errno.invalid)
      else (let (w', granted) =
            services.check_access w path (services.current_process w) constants.exec_permission in
          if not granted then (w', Outcome.failed Errno.access) else spawn w' path name priority)

  pub handle_process_create : World → List ℕ → Option (World × Outcome)
  handle_process_create w [] = some (w, Outcome.minus_one)
  handle_process_create w (p ∷ rest) = some (process_create w p)

  -- From the registration of the block on.
  pub keep_block : World → ℕ → ℕ → ℕ → World × Outcome
  keep_block w pid address size =
      let (w', registered) = services.register_memory_allocation w pid address size in
      if not registered
      then (services.free_memory w' address, Outcome.null)
      else (w', Outcome.value address)

  pub obtain_block : World → ℕ → ℕ → World × Outcome
  obtain_block w pid size =
      let (w', address) = services.allocate_memory w size in
      if address == 0 then (w', Outcome.null) else keep_block w' pid address size

  pub memory_alloc : World → ℕ → World × Outcome
  memory_alloc w size =
      if size == 0 || ltb constants.max_allocation_size size
      then (w, Outcome.null)
      else (let (w', allowed) = services.check_memory_limit w (services.current_process w) size in
          if not allowed
          then (w', Outcome.null)
          else obtain_block w' (services.current_process w) size)

  pub handle_memory_alloc : World → List ℕ → Option (World × Outcome)
  handle_memory_alloc w [] = some (w, Outcome.minus_one)
  handle_memory_alloc w (size ∷ rest) = some (memory_alloc w size)

  pub perform : World → ℕ → ℕ → ℕ → World × Outcome
  perform w socket buffer length =
      let (w', done) = services.perform_io w socket buffer length in
      elim done [
        | inl moved ↦ (w', Outcome.value moved)
        | inr errno ↦ (w', Outcome.os_failed errno)
      ]

  -- The last check of `handleNetworkIO`.
  pub permitted_io : World → ℕ → ℕ → ℕ → ℕ → World × Outcome
  permitted_io w pid socket buffer length =
      let (w', allowed) = services.check_network_access w pid in
      if not allowed then (w', Outcome.failed Errno.access) else perform w' socket buffer length

  -- The checks for process `pid`, in order.
  pub checked_io : World → ℕ → ℕ → ℕ → ℕ → World × Outcome
  checked_io w pid socket buffer length =
      let (w', valid) = services.validate_socket w pid socket in
      if not valid
      then (w', Outcome.failed Errno.bad_file)
      else (let (w'', mapped) = services.check_memory_access w' pid buffer length in
          if not mapped
          then (w'', Outcome.failed Errno.bad_address)
          else permitted_io w'' pid socket buffer length)

  pub network_io : World → ℕ → ℕ → ℕ → World × Outcome
  network_io w socket buffer length =
      if buffer == 0 || length == 0
      then (w, Outcome.failed Errno.invalid)
      else checked_io w (services.current_process w) socket buffer length

  -- The socket is cut to the 32 bits of an `int`.
  pub handle_network_io : World → List ℕ → Option (World × Outcome)
  handle_network_io w [] = some (w, Outcome.minus_one)
  handle_network_io w (p ∷ []) = some (w, Outcome.minus_one)
  handle_network_io w (p ∷ (q ∷ [])) = some (w, Outcome.minus_one)
  handle_network_io w (p ∷ (q ∷ (r ∷ rest))) = some (network_io w (p % 2 ^ 32) q r)

  -- The four registrations of the constructor.
  pub initialize_syscall_table : SystemCallManager World → SystemCallManager World
  initialize_syscall_table m =
      let m1 = (register_syscall m 1 handle_file_open).0 in
      let m2 = (register_syscall m1 2 handle_process_create).0 in
      let m3 = (register_syscall m2 3 handle_memory_alloc).0 in
      (register_syscall m3 4 handle_network_io).0
