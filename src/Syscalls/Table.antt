-- ===== src/Syscalls/Table.antt =====
-- The table of system calls: the first registration of a number stays, and every call is either
-- passed to it or recorded as an error.
use kernelc_moderne.Prelude.{
  ℕ, ◌≡◌, refl, sym, ◌∙◌, ap, inl, inr, List, [], ◌∷◌, ◌++◌, Option, none, some, ==_iff, ◌==◌,
  if◌then◌else◌, lookup, Bool-cases, Option-cases,
}
use kernelc_moderne.Syscalls.{Handler, SystemCallManager, emplace, register_syscall}

module _ {World : Type 0} where
  -- The handler of a number after more registrations, when `h` was its handler before.
  pub first_handler : ℕ → Option (Handler World) → List (ℕ × Handler World) → Option (Handler World)
  first_handler k (some h) registrations = some h
  first_handler k none [] = none
  first_handler k none ((n, g) ∷ rest) = first_handler k (if k == n then some g else none) rest

  pub register_all : SystemCallManager World → List (ℕ × Handler World) → SystemCallManager World
  register_all m [] = m
  register_all m ((n, g) ∷ rest) = register_all (register_syscall m n g).0 rest

  or_else : Option (Handler World) → Option (Handler World) → Option (Handler World)
  or_else none o = o
  or_else (some h) o = some h

  lookup-append :
      (k n : ℕ) (g : Handler World) (table : List (ℕ × Handler World))
      → lookup k (table ++ ((n, g) ∷ []))
        ≡ or_else (lookup k table) (if k == n then some g else none)
  unfolding or_else lookup
  lookup-append k n g [] = refl
  lookup-append k n g ((n', g') ∷ table) = elim (Bool-cases (k == n')) [
    | inl e ↦ rw e refl
    | inr e ↦ rw e (lookup-append k n g table)
  ]

  or_else-none : (o : Option (Handler World)) → or_else o none ≡ o
  unfolding or_else
  or_else-none none = refl
  or_else-none (some h) = refl

  kept :
      (k n : ℕ) (g h : Handler World) (table : List (ℕ × Handler World))
      → lookup n table ≡ some h
      → lookup k table ≡ or_else (lookup k table) (if k == n then some g else none)
  unfolding or_else
  kept k n g h table e = elim (Bool-cases (k == n)) [
    | inl same ↦
        let found = ap (λ j. lookup j table) ((==_iff k n).0 same) ∙ e in rw (same, found) refl
    | inr other ↦ rw other (sym (or_else-none (lookup k table)))
  ]

  -- What `emplace` does to the entries.
  lookup-emplace :
      (k n : ℕ) (g : Handler World) (table : List (ℕ × Handler World))
      → lookup k (emplace n g table).0 ≡ or_else (lookup k table) (if k == n then some g else none)
  unfolding emplace
  lookup-emplace k n g table = elim (Option-cases (lookup n table)) [
    | inl e ↦ rw (e, emplace) (lookup-append k n g table)
    | inr (h, e) ↦ rw (e, emplace) (kept k n g h table e)
  ]

  nothing_new : (k : ℕ) (o : Option (Handler World)) → first_handler k o [] ≡ o
  unfolding first_handler
  nothing_new k none = refl
  nothing_new k (some h) = refl

  one_more :
      (k n : ℕ) (g : Handler World) (rest : List (ℕ × Handler World)) (o : Option (Handler World))
      → first_handler k (or_else o (if k == n then some g else none)) rest
        ≡ first_handler k o ((n, g) ∷ rest)
  unfolding first_handler or_else
  one_more k n g rest none = refl
  one_more k n g rest (some h) = refl

  -- After any registrations a number has the handler that it had before them or, if it had
  -- none, the one registered for it first: no registration replaces a handler.
  pub register_all-first_handler :
      (m : SystemCallManager World) (registrations : List (ℕ × Handler World)) (k : ℕ)
      → lookup k (register_all m registrations).syscall_table
        ≡ first_handler k (lookup k m.syscall_table) registrations
  unfolding register_all register_syscall
  register_all-first_handler m [] k = sym (nothing_new k (lookup k m.syscall_table))
  register_all-first_handler m ((n, g) ∷ rest) k =
      register_all-first_handler (register_syscall m n g).0 rest k
      ∙ ap (λ o. first_handler k o rest) (lookup-emplace k n g m.syscall_table)
      ∙ one_more k n g rest (lookup k m.syscall_table)
