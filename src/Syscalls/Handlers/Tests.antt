-- ===== src/Syscalls/Handlers/Tests.antt =====
-- A world of descriptors and processes in which descriptors cannot be registered.
use kernelc_moderne.Prelude.{ℕ, refl, ap, inl, true, false, List, [], ◌∷◌, some}
use kernelc_moderne.Syscalls.Handlers.{Services, Constants, handle_file_open, handle_process_create}
use kernelc_moderne.Syscalls.Handlers.Cleanup.{Resources, Balanced, handle_file_open-Balanced}

abbrev World : Type 0
World = List ℕ × List ℕ

abbrev tail : List ℕ → List ℕ
tail [] = []
tail (x ∷ xs) = xs

abbrev services : Services World
services = record {
  current_process = λ w. 1;
  text_length = λ w a. a;
  check_access = λ w p u a. (w, true);
  open_file = λ w p f. ((3 ∷ w.0, w.1), inl 3);
  register_fd = λ w u fd. (w, false);
  close = λ w fd. (tail w.0, w.1);
  creation_params = λ w a. (a, 5, 2);
  create_process = λ w n p u. ((w.0, 8 ∷ w.1), some 8);
  load_executable = λ w pid p. (w, true);
  initialize_process = λ w pid. (w, false);
  terminate_process = λ w pid. (w.0, tail w.1);
  check_memory_limit = λ w u n. (w, true);
  allocate_memory = λ w n. (w, 64);
  register_memory_allocation = λ w u a n. (w, true);
  free_memory = λ w a. w;
  validate_socket = λ w u n. (w, true);
  check_memory_access = λ w u a n. (w, true);
  check_network_access = λ w u. (w, true);
  perform_io = λ w n a k. (w, inl k);
}

abbrev constants : Constants
constants = record {
  file_read = 1;
  file_write = 2;
  file_append = 4;
  file_create = 8;
  o_rdonly = 0;
  o_wronly = 1;
  o_append = 1024;
  o_creat = 64;
  exec_permission = 1;
  max_allocation_size = 4096;
}

resources : Resources services
resources = record {
  fds = λ w. w.0;
  processes = λ w. w.1;
  check_access-fds = λ w p u a. refl;
  check_access-processes = λ w p u a. refl;
  open_fd = λ w p f fd e. ap (λ n. n ∷ w.0) (cc e);
  open_error = λ w p f n e. absurd (cc e);
  register_fd-fds = λ w u fd. refl;
  close_last = λ w fd rest e. ap tail e;
  create_new = λ w n p u pid e. ap (λ k. k ∷ w.1) (cc e);
  create_none = λ w n p u e. absurd (cc e);
  load-processes = λ w pid p. refl;
  initialize-processes = λ w pid. refl;
  terminate_last = λ w pid rest e. ap tail e;
}

handle_file_open-Balanced_example :
    Balanced resources.fds
      ([], 1 ∷ [])
      (handle_file_open services constants ([], 1 ∷ []) (9 ∷ 3 ∷ []))
    × Balanced resources.processes
        ([], 1 ∷ [])
        (handle_process_create services constants ([], 1 ∷ []) (9 ∷ 3 ∷ []))
handle_file_open-Balanced_example =
    handle_file_open-Balanced services constants resources ([], 1 ∷ []) (9 ∷ 3 ∷ [])
