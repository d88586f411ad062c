-- ===== src/Scheduler/Enhanced/Picking.antt =====
-- The thread that the parallel loop of `schedule` selects.
use kernelc_moderne.Prelude.{
  ℕ, ◌≤◌, ◌<◌, ◌≡◌, refl, ap, subst, inl, inr, Bool, true, false, ◌&&◌, List, [], ◌∷◌, ◌++◌, Option,
  none, some, arith, ltb, ltb→lt, ◌==◌, get_elem?, Bool-cases, Option-cases, All,
}
use kernelc_moderne.Scheduler.Enhanced.{ThreadContext, Order, assigned, dynamic_priority, pick}

module _ (threads : List ThreadContext) where
  -- If thread `i` is there and active, its priority is at most the bound.
  abbrev pub IsAtMost : ℕ → ℕ → Type 0
  IsAtMost bound i =
      (u : ThreadContext)
      → get_elem? threads i ≡ some u
      → u.is_active ≡ true
      → dynamic_priority u ≤ bound

  abbrev pub IsBelow : ℕ → ℕ → Type 0
  IsBelow bound i =
      (u : ThreadContext)
      → get_elem? threads i ≡ some u
      → u.is_active ≡ true
      → dynamic_priority u < bound

  -- The iterations of worker `w` reach active threads of at most this priority, or of less.
  abbrev pub AtMost : ℕ → ℕ → Order → Type 0
  AtMost w bound = All (λ e. e.0 ≡ w → IsAtMost bound e.1)

  abbrev pub Below : ℕ → ℕ → Order → Type 0
  Below w bound = All (λ e. e.0 ≡ w → IsBelow bound e.1)

  -- Worker `w` selects thread `k`, which is `t`: it is active, and among the active threads of the
  -- iterations of this worker, those before have less priority and those after have not more.
  pub record IsBest (order : Order) (w k : ℕ) (t : ThreadContext) : Type 0 where
    pub before : Order
    pub after : Order
    pub split : order ≡ before ++ ((w, k) ∷ after)
    pub here : get_elem? threads k ≡ some t
    pub active : t.is_active ≡ true
    pub first : Below w (dynamic_priority t) before
    pub highest : AtMost w (dynamic_priority t) after

  -- The result of the loop from private maxima and a selection so far: no worker beats its maximum
  -- and the selection stays, or a worker that beats its own has the last word.
  pub data Picked (order : Order) (best : ℕ → ℕ) (next r : Option (ℕ × ThreadContext))
      : Type 0 where
    kept : r ≡ next → ((w : ℕ) → AtMost w (best w) order) → Picked order best next r
    found :
        (w k : ℕ) (t : ThreadContext)
        → r ≡ some (k, t)
        → best w < dynamic_priority t
        → IsBest order w k t
        → Picked order best next r

  IsBest-cons :
      (v i : ℕ) (order : Order) (w k : ℕ) (t : ThreadContext)
      → (v ≡ w → IsBelow (dynamic_priority t) i)
      → IsBest order w k t
      → IsBest ((v, i) ∷ order) w k t
  IsBest-cons v i order w k t h b = record {
    before = (v, i) ∷ b.before;
    after = b.after;
    split = ap (λ l. (v, i) ∷ l) b.split;
    here = b.here;
    active = b.active;
    first = (h, b.first);
    highest = b.highest;
  }

  -- An iteration that selects nothing.
  passed :
      (v i : ℕ) (order : Order) (best : ℕ → ℕ) (next r : Option (ℕ × ThreadContext))
      → IsAtMost (best v) i
      → Picked order best next r
      → Picked ((v, i) ∷ order) best next r
  passed v i order best next r h (kept e m) = kept e (λ w. (λ same. rw (← same) h, m w))
  passed v i order best next r h (found w k t e lt b) = found w k t e lt (
      IsBest-cons v i order w k t (λ same u there on. omega (arith, h u there on, lt, ap best same))
        b)

  -- An iteration that selects its thread.
  selected :
      (v i : ℕ) (t : ThreadContext) (order : Order) (best : ℕ → ℕ)
      (next r : Option (ℕ × ThreadContext))
      → get_elem? threads i ≡ some t
      → t.is_active ≡ true
      → best v < dynamic_priority t
      → Picked order (assigned best v (dynamic_priority t)) (some (i, t)) r
      → Picked ((v, i) ∷ order) best next r
  unfolding assigned
  selected v i t order best next r there on lt (kept e m) =
      let own : assigned best v (dynamic_priority t) v ≡ dynamic_priority t = ground arith in
      found v i t e lt (record {
        before = [];
        after = order;
        split = refl;
        here = there;
        active = on;
        first = tt;
        highest = subst (λ b. AtMost v b order) own (m v);
      })
  selected v i t order best next r there on lt (found w k s e better b) =
      elim (Bool-cases (v == w)) [
        | inl same ↦
            let above : dynamic_priority t < dynamic_priority s = ground (arith, better, same) in
            let eq : v ≡ w = ground (arith, same) in
            found w k s e (omega (arith, lt, above, ap best eq))
              (IsBest-cons v i order w k s (λ _ u there' on'. rw (unique u there') above) b)
        | inr differ ↦
            found w k s e (ground (arith, better, differ))
              (IsBest-cons v i order w k s (λ same. absurd (ground (arith, same, differ))) b)
      ]
    where
      unique : (u : ThreadContext) → get_elem? threads i ≡ some u → u ≡ t
      unique u there' = cc

both : (a b : Bool) → (a && b) ≡ true → (a ≡ true) × (b ≡ true)
both a b h = ground arith

at_most : (a : Bool) (best p : ℕ) → (a && ltb best p) ≡ false → a ≡ true → p ≤ best
at_most a best p h on = ground arith

-- From any private maxima and any selection so far.
pick-Picked_from :
    (order : Order) (threads : List ThreadContext) (best : ℕ → ℕ)
    (next : Option (ℕ × ThreadContext))
    → Picked threads order best next (pick order threads best next)
unfolding pick
pick-Picked_from [] threads best next = kept refl (λ w. tt)
pick-Picked_from ((v, i) ∷ order) threads best next = elim (Option-cases (get_elem? threads i)) [
  | inl e ↦
      rw (pick, e)
        (passed threads v i order best next _ (λ u there. cc)
          (pick-Picked_from order threads best next))
  | inr (t, e) ↦ elim (Bool-cases (t.is_active && ltb (best v) (dynamic_priority t))) [
    | inl better ↦
        let (on, lt) = both _ _ better in
        rw (pick, e, better)
          (selected threads v i t order best next _ e on (ltb→lt _ _ lt)
            (pick-Picked_from order threads (assigned best v (dynamic_priority t)) (some (i, t))))
    | inr worse ↦
        let bound : IsAtMost threads (best v) i = λ u there on.
          let same : t ≡ u = cc in rw (← same) (at_most t.is_active _ _ worse (rw same on)) in
        rw (pick, e, worse)
          (passed threads v i order best next _ bound (pick-Picked_from order threads best next))
  ]
]

-- In whatever order the workers execute the iterations: either the loop selects no thread, and
-- every active thread that an iteration reaches has dynamic priority 0; or it selects a thread that
-- is active, has a positive priority, and is, for the worker that selects it, the first with the
-- highest priority among this worker's own iterations. Nothing is said of the other workers'.
pub pick-Picked :
    (order : Order) (threads : List ThreadContext)
    → Picked threads order (λ w. 0) none (pick order threads (λ w. 0) none)
pick-Picked order threads = pick-Picked_from order threads (λ w. 0) none
