-- ===== src/Files/Paths/Mounts.antt =====
-- `getMountPoint` finds the longest mount point that starts the path, in whatever order the map
-- is walked.
use kernelc_moderne.Prelude.{
  ℕ, ◌≡◌, ◌≤◌, ◌<◌, refl, sym, subst, ◌⊎◌, inl, inr, true, false, ◌&&◌, [], ◌∷◌, arith, ltb, ltb→lt,
  length, Bool-cases, and_left, and_right, Text, starts_with,
}
use kernelc_moderne.Files.Paths.{Drivers, longest_mount, get_mount_point}

-- The mount point is in the table.
pub data Mounted (mount : Text) : Drivers → Type 0 where
  here : (d : ℕ) (rest : Drivers) → Mounted mount ((mount, d) ∷ rest)
  there : (e : Text × ℕ) {rest : Drivers} → Mounted mount rest → Mounted mount (e ∷ rest)

-- `mount` starts the path, is empty or in the table, and no mount point that starts the path is
-- longer.
pub record IsLongest (drivers : Drivers) (path mount : Text) : Type 0 where
  pub starts : starts_with mount path ≡ true
  pub known : (mount ≡ []) ⊎ Mounted mount drivers
  pub longest : (m : Text) → Mounted m drivers → starts_with m path ≡ true → length m ≤ length mount

-- Of two texts of one length that start the same path, one is the other.
starts_with_unique :
    (s t path : Text)
    → starts_with s path ≡ true
    → starts_with t path ≡ true
    → length s ≡ length t
    → s ≡ t
unfolding starts_with
starts_with_unique [] [] path a b same = refl
starts_with_unique [] (d ∷ t) path a b same = absurd (omega arith)
starts_with_unique (c ∷ s) [] path a b same = absurd (omega arith)
starts_with_unique (c ∷ s) (d ∷ t) [] a b same = cc
starts_with_unique (c ∷ s) (d ∷ t) (e ∷ path) a b same = ground (arith, starts_with_unique s t path)

-- What the loop makes of the rest of the table.
record Walked (path : Text) (rest : Drivers) (best result : Text) : Type 0 where
  starts : starts_with result path ≡ true
  at_least : length best ≤ length result
  known : (result ≡ best) ⊎ Mounted result rest
  longest : (m : Text) → Mounted m rest → starts_with m path ≡ true → length m ≤ length result

walk_taken :
    (path mount : Text) (d : ℕ) (rest : Drivers) (best result : Text)
    → length best < length mount
    → Walked path rest mount result
    → Walked path ((mount, d) ∷ rest) best result
walk_taken path mount d rest best result longer w = record {
  starts = w.starts;
  at_least = omega (arith, w.at_least);
  known = inr (elim w.known [
    | inl e ↦ subst (λ m. Mounted m ((mount, d) ∷ rest)) (sym e) (here d rest)
    | inr m ↦ there (mount, d) m
  ]);
  longest = all;
}
  where
    all :
        (m : Text)
        → Mounted m ((mount, d) ∷ rest)
        → starts_with m path ≡ true
        → length m ≤ length result
    all m (here _ _) h = w.at_least
    all m (there _ k) h = w.longest m k h

walk_passed :
    (path mount : Text) (d : ℕ) (rest : Drivers) (best result : Text)
    → (starts_with mount path && ltb (length best) (length mount)) ≡ false
    → Walked path rest best result
    → Walked path ((mount, d) ∷ rest) best result
walk_passed path mount d rest best result not_taken w = record {
  starts = w.starts;
  at_least = w.at_least;
  known = elim w.known [ inl e ↦ inl e | inr m ↦ inr (there (mount, d) m) ];
  longest = all;
}
  where
    all :
        (m : Text)
        → Mounted m ((mount, d) ∷ rest)
        → starts_with m path ≡ true
        → length m ≤ length result
    all m (here _ _) h = ground (arith, not_taken, h, w.at_least)
    all m (there _ k) h = w.longest m k h

walk :
    (path : Text) (rest : Drivers) (best : Text)
    → starts_with best path ≡ true
    → Walked path rest best (longest_mount path rest best)
unfolding longest_mount
walk path [] best h = record {
  starts = h;
  at_least = omega arith;
  known = inl refl;
  longest = λ m k. none_there m k;
}
  where
    none_there : (m : Text) → Mounted m [] → starts_with m path ≡ true → length m ≤ length best
    none_there m k = elim k [ ]
walk path ((mount, d) ∷ rest) best h =
    elim (Bool-cases (starts_with mount path && ltb (length best) (length mount))) [
      | inl e ↦ rw e (
          walk_taken path mount d rest best _ (ltb→lt _ _ (and_right _ _ e))
            (walk path rest mount (and_left _ _ e)))
      | inr e ↦ rw e (walk_passed path mount d rest best _ e (walk path rest best h))
    ]

-- `getMountPoint` gives a text that starts the path, is a mount point or empty, and at least as
-- long as every mount point that starts the path.
pub get_mount_point-IsLongest :
    (drivers : Drivers) (path : Text) → IsLongest drivers path (get_mount_point drivers path)
unfolding get_mount_point starts_with
get_mount_point-IsLongest drivers path =
    let w = walk path drivers [] refl in
    record { starts = w.starts; known = w.known; longest = w.longest }

shorter :
    (drivers drivers' : Drivers) (path r r' : Text)
    → ((m : Text) → Mounted m drivers → Mounted m drivers')
    → IsLongest drivers path r
    → IsLongest drivers' path r'
    → length r ≤ length r'
shorter drivers drivers' path r r' to a b = elim a.known [
  | inl e ↦ rw e (omega arith)
  | inr k ↦ b.longest r (to r k) a.starts
]

-- Two tables with the same mount points give every path the same mount point, whatever the order
-- in which they are walked.
pub get_mount_point_order :
    (drivers drivers' : Drivers) (path : Text)
    → ((m : Text) → Mounted m drivers → Mounted m drivers')
    → ((m : Text) → Mounted m drivers' → Mounted m drivers)
    → get_mount_point drivers path ≡ get_mount_point drivers' path
get_mount_point_order drivers drivers' path to from =
    let a = get_mount_point-IsLongest drivers path in
    let b = get_mount_point-IsLongest drivers' path in
    starts_with_unique _ _ path a.starts b.starts (
      omega (
        arith,
        shorter drivers drivers' path _ _ to a b,
        shorter drivers' drivers path _ _ from b a,
      ))
