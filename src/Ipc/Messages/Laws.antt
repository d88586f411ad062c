-- ===== src/Ipc/Messages/Laws.antt =====
-- No message is lost or made up, and what `receive` delivers and withholds.
use mathlib.Core.List.{Perm}
use mathlib.Core.List.Perm
use kernelc_moderne.Prelude.{
  ℕ, zero, suc, ◌≤◌, ◌≡◌, ◌≢◌, refl, ◌⊎◌, inl, inr, Bool, true, false, List, [], ◌∷◌, none, some,
  arith, ◌==◌, length, Bool-cases, Option-cases, All, All-map,
}
use kernelc_moderne.Ipc.Messages.{Message, empty_message, top, receive, clear}

module _ (below : Message → Message → Bool) where
  module _ (x : Message) (xs : List Message) where
    top_only : top below xs ≡ none → top below (x ∷ xs) ≡ some (x, xs)
    unfolding top
    top_only e = rw (e, top)

    module _ (t : Message) (r : List Message) (e : top below xs ≡ some (t, r)) where
      top_lower : below x t ≡ true → top below (x ∷ xs) ≡ some (t, x ∷ r)
      unfolding top
      top_lower l = rw (e, top, l)

      top_first : below x t ≡ false → top below (x ∷ xs) ≡ some (x, xs)
      unfolding top
      top_first l = rw (e, top, l)

  -- The three ways in which the top of a longer queue comes about.
  pub data Top (x : Message) (xs : List Message) : Type 0 where
    only : top below xs ≡ none → top below (x ∷ xs) ≡ some (x, xs) → Top x xs
    lower :
        (t : Message) (r : List Message)
        → top below xs ≡ some (t, r)
        → below x t ≡ true
        → top below (x ∷ xs) ≡ some (t, x ∷ r)
        → Top x xs
    first :
        (t : Message) (r : List Message)
        → top below xs ≡ some (t, r)
        → below x t ≡ false
        → top below (x ∷ xs) ≡ some (x, xs)
        → Top x xs

  Top-cons : (x : Message) (xs : List Message) → Top x xs
  Top-cons x xs = elim (Option-cases (top below xs)) [
    | inl e ↦ only e (top_only x xs e)
    | inr ((t, r), e) ↦ elim (Bool-cases (below x t)) [
      | inl l ↦ lower t r e l (top_lower x xs t r e l)
      | inr l ↦ first t r e l (top_first x xs t r e l)
    ]
  ]

  pub top-none : (queue : List Message) → top below queue ≡ none → queue ≡ []
  top-none [] e = refl
  top-none (x ∷ xs) e = elim (Top-cons x xs) [
    | only _ h ↦ cc
    | lower t r _ _ h ↦ cc
    | first t r _ _ h ↦ cc
  ]

  module _ (x : Message) (xs rest : List Message) (m : Message)
      (e : top below (x ∷ xs) ≡ some (m, rest)) where
    -- To show a fact of the top and the rest, show it in the three ways.
    top_rule {κ} :
        (P : Message → List Message → Type κ)
        → (top below xs ≡ none → P x xs)
        → ((t : Message) (r : List Message)
            → top below xs ≡ some (t, r)
            → below x t ≡ true
            → P t (x ∷ r))
        → ((t : Message) (r : List Message)
            → top below xs ≡ some (t, r)
            → below x t ≡ false
            → P x xs)
        → P m rest
    top_rule P p q s = elim (Top-cons x xs) [
      | only e' h ↦ same x xs h (p e')
      | lower t r e' l h ↦ same t (x ∷ r) h (q t r e' l)
      | first t r e' l h ↦ same x xs h (s t r e' l)
    ]
      where
        same :
            (y : Message) (ys : List Message)
            → top below (x ∷ xs) ≡ some (y, ys)
            → P y ys
            → P m rest
        same y ys h k = let heads : m ≡ y = cc in let tails : rest ≡ ys = cc in rw (heads, tails) k

  -- The queue holds its top and the messages that stay, as a bag.
  pub top-perm :
      (queue rest : List Message) (m : Message)
      → top below queue ≡ some (m, rest)
      → Perm queue (m ∷ rest)
  unfolding top
  top-perm [] rest m e = cc
  top-perm (x ∷ xs) rest m e =
      top_rule x xs rest m e (λ y ys. Perm (x ∷ xs) (y ∷ ys)) (λ _. Perm.refl (x ∷ xs))
        (λ t r e' _. Perm.trans (Perm.cons x (top-perm xs r t e')) (Perm.swap t x r))
        (λ t r _ _. Perm.refl (x ∷ xs))

  length-top :
      (queue rest : List Message) (m : Message)
      → top below queue ≡ some (m, rest)
      → length queue ≡ suc (length rest)
  unfolding top
  length-top [] rest m e = cc
  length-top (x ∷ xs) rest m e =
      top_rule x xs rest m e (λ y ys. suc (length xs) ≡ suc (length ys)) (λ _. refl)
        (λ t r e' _. omega (arith, length-top xs r t e')) (λ t r _ _. refl)

  -- `clear` empties the queue: its length is fuel enough.
  pub clear-empty :
      (fuel : ℕ) (queue : List Message) → length queue ≤ fuel → clear below fuel queue ≡ []
  unfolding clear
  clear-empty zero [] h = refl
  clear-empty zero (x ∷ xs) h = absurd (omega arith)
  clear-empty (suc fuel) queue h = elim (Option-cases (top below queue)) [
    | inl e ↦ rw (e, clear) (top-none queue e)
    | inr ((m, rest), e) ↦
        rw (e, clear) (clear-empty fuel rest (omega (arith, length-top queue rest m e)))
  ]

  -- A top of the queue: a message before which no other goes, with the others.
  abbrev pub IsTop : List Message → Message → List Message → Type 0
  IsTop queue t rest = Perm queue (t ∷ rest) × All (λ y. below t y ≡ false) queue

  -- The result of a receive. An empty queue gives nothing. Else there is a top, and it decides: if
  -- it is for the receiver, it is the result and the others stay; if not, nothing is given and the
  -- queue stays.
  abbrev pub Received : List Message → ℕ → List Message → Message → Type 0
  Received queue receiver queue' m =
      ((queue ≡ []) × (queue' ≡ []) × (m ≡ empty_message))
      ⊎ ((t : Message) × (rest : List Message) × IsTop queue t rest
          × (t.receiver ≡ receiver → (m ≡ t) × (queue' ≡ rest))
          × (t.receiver ≢ receiver → (m ≡ empty_message) × (queue' ≡ queue)))

  module _ (irreflexive : (a : Message) → below a a ≡ false)
      (asymmetric : (a b : Message) → below a b ≡ true → below b a ≡ false)
      (transitive : (a b c : Message)
        → below a b ≡ false
        → below b c ≡ false
        → below a c ≡ false) where
    -- Nothing in the queue goes before its top.
    pub top_highest :
        (queue rest : List Message) (m : Message)
        → top below queue ≡ some (m, rest)
        → All (λ y. below m y ≡ false) queue
    unfolding top
    top_highest [] rest m e = tt
    top_highest (x ∷ xs) rest m e =
        top_rule x xs rest m e (λ y _. All (λ z. below y z ≡ false) (x ∷ xs))
          (λ e'. (irreflexive x, rw (top-none xs e') tt))
          (λ t r e' l. (asymmetric x t l, top_highest xs r t e'))
          (λ t r e' l.
            (irreflexive x, All-map _ _ (λ z. transitive x t z l) xs (top_highest xs r t e')))

    -- Under a comparison that is irreflexive, asymmetric and whose failure is transitive: on an empty
    -- queue `receive` gives the empty message. On any other there is a message before which no
    -- other goes; if it is for the receiver, `receive` gives it and keeps exactly the others, and
    -- if it is not, it gives the empty message and leaves the queue as it was.
    pub receive-Received :
        (queue : List Message) (receiver : ℕ)
        → Received queue receiver (receive below queue receiver).0 (receive below queue receiver).1
    unfolding receive
    receive-Received queue receiver = elim (Option-cases (top below queue)) [
      | inl e ↦ let empty = top-none queue e in rw (e, receive) (inl (empty, empty, refl))
      | inr ((m, rest), e) ↦
          let is_top : IsTop queue m rest = (top-perm queue rest m e, top_highest queue rest m e) in
          elim (Bool-cases (m.receiver == receiver)) [
            | inl mine ↦
                let same : m.receiver ≡ receiver = ground arith in
                rw (e, receive, mine)
                  (inr (m, rest, is_top, (λ _. (refl, refl)), (λ other. absurd (other same))))
            | inr other ↦
                let differ : m.receiver ≢ receiver = λ h. ground (arith, h, other) in
                rw (e, receive, other)
                  (inr (m, rest, is_top, (λ same. absurd (differ same)), (λ _. (refl, refl))))
          ]
    ]
