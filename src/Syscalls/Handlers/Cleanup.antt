-- ===== src/Syscalls/Handlers/Cleanup.antt =====
-- The handlers give back what they took when they fail.
use kernelc_moderne.Prelude.{
  ℕ, ◌≡◌, refl, ◌∙◌, ap, ◌⊎◌, inl, inr, ◌||◌, List, [], ◌∷◌, Option, none, some, Bool-cases, ◌==◌,
}
use kernelc_moderne.Syscalls.{Outcome}
use kernelc_moderne.Syscalls.Handlers.{
  Services, Constants, keep_fd, open_path, file_open, handle_file_open, start_process, spawn,
  process_create, handle_process_create, open_flags,
}

-- The open descriptors and live processes of a world, the newest first, and how the
-- services that take, give back and check act on them.
pub record Resources {World : Type 0} (s : Services World) : Type 0 where
  pub fds : World → List ℕ
  pub processes : World → List ℕ
  pub check_access-fds : (w : World) (p u a : ℕ) → fds (s.check_access w p u a).0 ≡ fds w
  pub check_access-processes :
      (w : World) (p u a : ℕ) → processes (s.check_access w p u a).0 ≡ processes w
  pub open_fd :
      (w : World) (p f fd : ℕ)
      → (s.open_file w p f).1 ≡ inl fd
      → fds (s.open_file w p f).0 ≡ fd ∷ fds w
  pub open_error :
      (w : World) (p f e : ℕ) → (s.open_file w p f).1 ≡ inr e → fds (s.open_file w p f).0 ≡ fds w
  pub register_fd-fds : (w : World) (u fd : ℕ) → fds (s.register_fd w u fd).0 ≡ fds w
  pub close_last :
      (w : World) (fd : ℕ) (rest : List ℕ) → fds w ≡ fd ∷ rest → fds (s.close w fd) ≡ rest
  pub create_new :
      (w : World) (n p u pid : ℕ)
      → (s.create_process w n p u).1 ≡ some pid
      → processes (s.create_process w n p u).0 ≡ pid ∷ processes w
  pub create_none :
      (w : World) (n p u : ℕ)
      → (s.create_process w n p u).1 ≡ none
      → processes (s.create_process w n p u).0 ≡ processes w
  pub load-processes :
      (w : World) (pid p : ℕ) → processes (s.load_executable w pid p).0 ≡ processes w
  pub initialize-processes :
      (w : World) (pid : ℕ) → processes (s.initialize_process w pid).0 ≡ processes w
  pub terminate_last :
      (w : World) (pid : ℕ) (rest : List ℕ)
      → processes w ≡ pid ∷ rest
      → processes (s.terminate_process w pid) ≡ rest

-- What a world holds after an outcome: one more resource, the value, on success, and otherwise
-- what was held before.
abbrev pub held : Outcome → List ℕ → List ℕ
held (Outcome.value v) before = v ∷ before
held Outcome.minus_one before = before
held Outcome.null before = before
held (Outcome.failed e) before = before
held (Outcome.os_failed e) before = before

module _ {World : Type 0} (s : Services World) (c : Constants) (r : Resources s) where
  keep_fd-fds :
      (w : World) (fd : ℕ) (before : List ℕ)
      → r.fds w ≡ fd ∷ before
      → r.fds (keep_fd s c w fd).0 ≡ held (keep_fd s c w fd).1 before
  unfolding keep_fd
  keep_fd-fds w fd before taken =
      let kept = r.register_fd-fds w (s.current_process w) fd ∙ taken in
      elim (Bool-cases (s.register_fd w (s.current_process w) fd).1) [
        | inl e ↦ rw e kept
        | inr e ↦ rw e (r.close_last _ fd before kept)
      ]

  open_path-fds :
      (w : World) (path mode : ℕ)
      → r.fds (open_path s c w path mode).0 ≡ held (open_path s c w path mode).1 (r.fds w)
  unfolding open_path
  open_path-fds w path mode = go (s.open_file w path (open_flags s c mode)).1 refl
    where
      go :
          (result : ℕ ⊎ ℕ)
          → (s.open_file w path (open_flags s c mode)).1 ≡ result
          → r.fds (open_path s c w path mode).0 ≡ held (open_path s c w path mode).1 (r.fds w)
      go (inl fd) e = rw (e, open_path) (keep_fd-fds _ fd (r.fds w) (r.open_fd w path _ fd e))
      go (inr errno) e = rw (e, open_path) (r.open_error w path _ errno e)

  file_open-fds :
      (w : World) (path mode : ℕ)
      → r.fds (file_open s c w path mode).0 ≡ held (file_open s c w path mode).1 (r.fds w)
  unfolding file_open
  file_open-fds w path mode = elim (Bool-cases (path == 0 || s.text_length w path == 0)) [
    | inl e ↦ rw e refl
    | inr e ↦ elim (Bool-cases (s.check_access w path (s.current_process w) mode).1) [
      | inl e' ↦
          rw (e, e')
            (open_path-fds _ path mode
              ∙ ap
                  (held
                    (open_path s c (s.check_access w path (s.current_process w) mode).0 path
                      mode).1)
                  (r.check_access-fds w path (s.current_process w) mode))
      | inr e' ↦ rw (e, e') (r.check_access-fds w path (s.current_process w) mode)
    ]
  ]

  start_process-processes :
      (w : World) (pid path : ℕ) (before : List ℕ)
      → r.processes w ≡ pid ∷ before
      → r.processes (start_process s c w pid path).0 ≡ held (start_process s c w pid path).1 before
  unfolding start_process
  start_process-processes w pid path before taken =
      let loaded = r.load-processes w pid path ∙ taken in
      let ready = r.initialize-processes (s.load_executable w pid path).0 pid ∙ loaded in
      elim (Bool-cases (s.load_executable w pid path).1) [
        | inr e ↦ rw e (r.terminate_last _ pid before loaded)
        | inl e ↦ elim (Bool-cases (s.initialize_process (s.load_executable w pid path).0 pid).1) [
          | inl e' ↦ rw (e, e') ready
          | inr e' ↦ rw (e, e') (r.terminate_last _ pid before ready)
        ]
      ]

  spawn-processes :
      (w : World) (path name priority : ℕ)
      → r.processes (spawn s c w path name priority).0
        ≡ held (spawn s c w path name priority).1 (r.processes w)
  unfolding spawn
  spawn-processes w path name priority =
      go (s.create_process w name priority (s.current_process w)).1 refl
    where
      go :
          (result : Option ℕ)
          → (s.create_process w name priority (s.current_process w)).1 ≡ result
          → r.processes (spawn s c w path name priority).0
            ≡ held (spawn s c w path name priority).1 (r.processes w)
      go none e = rw (e, spawn) (r.create_none w name priority _ e)
      go (some pid) e =
          rw (e, spawn)
            (start_process-processes _ pid path (r.processes w)
              (r.create_new w name priority _ pid e))

  process_create-processes :
      (w : World) (p : ℕ)
      → r.processes (process_create s c w p).0 ≡ held (process_create s c w p).1 (r.processes w)
  unfolding process_create
  process_create-processes w p = elim (Bool-cases (p == 0)) [
    | inl e ↦ rw e refl
    | inr e ↦ elim (Bool-cases (path == 0 || s.text_length w path == 0)) [
      | inl e' ↦ rw (e, e') refl
      | inr e' ↦
          elim (Bool-cases (s.check_access w path (s.current_process w) c.exec_permission).1) [
            | inl e'' ↦
                rw (e, e', e'')
                  (spawn-processes _ path _ _
                    ∙ ap
                        (held
                          (spawn s c
                            (s.check_access w path (s.current_process w) c.exec_permission).0 path
                            (s.creation_params w p).1 (s.creation_params w p).2).1)
                        (r.check_access-processes w path (s.current_process w) c.exec_permission))
            | inr e'' ↦
                rw (e, e', e'')
                  (r.check_access-processes w path (s.current_process w) c.exec_permission)
          ]
    ]
  ]
    where
      path : ℕ
      path = (s.creation_params w p).0

-- What an answer of a handler says of the resources that it counts.
abbrev pub Balanced :
    {World : Type 0} → (World → List ℕ) → World → Option (World × Outcome) → Type 0
Balanced counted w none = ⊥
Balanced counted w (some (w', outcome)) = counted w' ≡ held outcome (counted w)

-- Over services that act on descriptors and processes as their names say, the two handlers
-- return whatever the parameters are. A call of the first that succeeds leaves one more open
-- descriptor, the one that it returns, and a call of the second one more process; a call that
-- fails, at whatever point, leaves the descriptors or the processes as they were.
pub handle_file_open-Balanced :
    {World : Type 0} (s : Services World) (c : Constants) (r : Resources s) (w : World)
    (params : List ℕ)
    → Balanced r.fds w (handle_file_open s c w params)
      × Balanced r.processes w (handle_process_create s c w params)
unfolding handle_file_open handle_process_create
handle_file_open-Balanced s c r w [] = (refl, refl)
handle_file_open-Balanced s c r w (p ∷ []) = (refl, process_create-processes s c r w p)
handle_file_open-Balanced s c r w (p ∷ (q ∷ rest)) =
    (file_open-fds s c r w p _, process_create-processes s c r w p)
