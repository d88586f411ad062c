-- ===== src/Interrupts/Table.antt =====
-- The table of handlers implements a map from numbers below its size to handlers.
use kernelc_moderne.Prelude.{
  ℕ, ◌≡◌, ◌<◌, ◌≤◌, zero, suc, refl, sym, ◌∙◌, ap, subst, inl, inr, true, false, List, [], ◌∷◌,
  Option, none, arith, ltb, ltb→lt, ◌==◌, ==_iff, ◌≢◌, lt→ltb, if◌then◌else◌, length, get_or, set,
  length-set, get_or-set_self, get_or-set_ne, Bool-cases,
}
use kernelc_moderne.Interrupts.{
  InterruptDescriptor, InterruptManager, empty_descriptor, resize, initialize, register_handler,
  unregister_handler, handle_interrupt,
}

-- Registrations and removals.
pub data Change : Type 0 where
  registered : ℕ → Option ℕ → Change
  unregistered : ℕ → Change

pub apply : InterruptManager → List Change → InterruptManager
apply m [] = m
apply m (registered n h ∷ cs) = apply (register_handler m n h).0 cs
apply m (unregistered n ∷ cs) = apply (unregister_handler m n).0 cs

-- The handler of `k` after the changes, when `h` was its handler before: the last change of `k`
-- counts.
pub last_handler : ℕ → Option ℕ → List Change → Option ℕ
last_handler k h [] = h
last_handler k h (registered n g ∷ cs) = last_handler k (if n == k then g else h) cs
last_handler k h (unregistered n ∷ cs) = last_handler k (if n == k then none else h) cs

-- The call that a descriptor asks for.
abbrev call_of : InterruptDescriptor → Option ℕ
call_of d = if d.enabled then d.handler else none

call_of-set :
    (ds : List InterruptDescriptor) (n k : ℕ) (d : InterruptDescriptor)
    → n < length ds
    → call_of (get_or (set ds n d) k empty_descriptor)
      ≡ (if n == k then call_of d else call_of (get_or ds k empty_descriptor))
call_of-set ds n k d inside = elim (Bool-cases (n == k)) [
  | inl e ↦ rw e (
      subst (λ j. call_of (get_or (set ds n d) j empty_descriptor) ≡ call_of d) ((==_iff n k).0 e)
        (ap call_of (get_or-set_self ds n d empty_descriptor inside)))
  | inr e ↦ rw e (ap call_of (get_or-set_ne ds n k d empty_descriptor (differ n k e)))
]
  where
    differ : (a b : ℕ) → (a == b) ≡ false → a ≢ b
    differ a b apart = ground (arith, apart)

-- The table after a write that is dropped beyond its end.
abbrev written : List InterruptDescriptor → ℕ → InterruptDescriptor → List InterruptDescriptor
written ds n d = if ltb n (length ds) then set ds n d else ds

call_of-written :
    (ds : List InterruptDescriptor) (n k : ℕ) (d : InterruptDescriptor)
    → k < length ds
    → call_of (get_or (written ds n d) k empty_descriptor)
      ≡ (if n == k then call_of d else call_of (get_or ds k empty_descriptor))
call_of-written ds n k d inside = elim (Bool-cases (ltb n (length ds))) [
  | inl e ↦ rw e (call_of-set ds n k d (ltb→lt n (length ds) e))
  | inr e ↦ rw (e, apart n k (length ds) inside e) refl
]
  where
    apart : (a b l : ℕ) → b < l → ltb a l ≡ false → (a == b) ≡ false
    apart a b l below_ beyond = ground (arith, below_, beyond)

abbrev size : InterruptManager → ℕ
size m = length m.interrupt_handlers

module _ (m : InterruptManager) (k : ℕ) (k_inside : k < size m) where
  handled : handle_interrupt m k ≡ call_of (get_or m.interrupt_handlers k empty_descriptor)
  unfolding handle_interrupt
  handled = rw (lt→ltb _ _ k_inside) refl

module _ (m : InterruptManager) (n : ℕ) (h : Option ℕ) where
  table-register_handler :
      (register_handler m n h).0.interrupt_handlers
      ≡ written m.interrupt_handlers n (record { handler = h; enabled = true })
  unfolding register_handler
  table-register_handler = elim (Bool-cases (ltb n (size m))) [
    | inl e ↦ rw e refl
    | inr e ↦ rw e refl
  ]

  table-unregister_handler :
      (unregister_handler m n).0.interrupt_handlers
      ≡ written m.interrupt_handlers n empty_descriptor
  unfolding unregister_handler
  table-unregister_handler = elim (Bool-cases (ltb n (size m))) [
    | inl e ↦ rw e refl
    | inr e ↦ rw e refl
  ]

-- A manager whose table is written at `n` with a descriptor.
module _ (m m' : InterruptManager) (n : ℕ) (d : InterruptDescriptor)
    (is_written : m'.interrupt_handlers ≡ written m.interrupt_handlers n d) where
  size_written : size m' ≡ size m
  size_written = ap length is_written ∙ (elim (Bool-cases (ltb n (size m))) [
    | inl e ↦ rw e (length-set m.interrupt_handlers n d)
    | inr e ↦ rw e refl
  ])

  handle_interrupt_written :
      (k : ℕ)
      → k < size m
      → handle_interrupt m' k ≡ (if n == k then call_of d else handle_interrupt m k)
  handle_interrupt_written k k_inside =
      handled m' k (rw size_written k_inside)
      ∙ ap (λ ds. call_of (get_or ds k empty_descriptor)) is_written
      ∙ call_of-written m.interrupt_handlers n k d k_inside
      ∙ ap (λ c. if n == k then call_of d else c) (sym (handled m k k_inside))

pub handle_interrupt-apply_from :
    (m : InterruptManager) (cs : List Change) (k : ℕ)
    → k < size m
    → handle_interrupt (apply m cs) k ≡ last_handler k (handle_interrupt m k) cs
unfolding apply last_handler
handle_interrupt-apply_from m [] k k_inside = refl
handle_interrupt-apply_from m (registered n h ∷ cs) k k_inside =
    let t = table-register_handler m n h in
    handle_interrupt-apply_from (register_handler m n h).0 cs k
      (rw (size_written m (register_handler m n h).0 n _ t) k_inside)
    ∙ ap (λ g. last_handler k g cs)
        (handle_interrupt_written m (register_handler m n h).0 n _ t k k_inside)
handle_interrupt-apply_from m (unregistered n ∷ cs) k k_inside =
    let t = table-unregister_handler m n none in
    handle_interrupt-apply_from (unregister_handler m n).0 cs k
      (rw (size_written m (unregister_handler m n).0 n _ t) k_inside)
    ∙ ap (λ g. last_handler k g cs)
        (handle_interrupt_written m (unregister_handler m n).0 n _ t k k_inside)

size-apply : (m : InterruptManager) (cs : List Change) → size (apply m cs) ≡ size m
unfolding apply
size-apply m [] = refl
size-apply m (registered n h ∷ cs) =
    size-apply (register_handler m n h).0 cs
    ∙ size_written m (register_handler m n h).0 n _ (table-register_handler m n h)
size-apply m (unregistered n ∷ cs) =
    size-apply (unregister_handler m n).0 cs
    ∙ size_written m (unregister_handler m n).0 n _ (table-unregister_handler m n none)

length-resize : (n : ℕ) (ds : List InterruptDescriptor) → length (resize n ds) ≡ n
unfolding resize
length-resize zero ds = refl
length-resize (suc n) [] = ap suc (length-resize n [])
length-resize (suc n) (d ∷ ds) = ap suc (length-resize n ds)

call_of-resize : (n k : ℕ) → call_of (get_or (resize n []) k empty_descriptor) ≡ none
unfolding resize
call_of-resize zero k = refl
call_of-resize (suc n) zero = refl
call_of-resize (suc n) (suc k) = call_of-resize n k

beyond : (m : InterruptManager) (k : ℕ) → size m ≤ k → handle_interrupt m k ≡ none
unfolding handle_interrupt
beyond m k outside = rw (outside_ltb k (size m) outside) refl
  where
    outside_ltb : (a b : ℕ) → b ≤ a → ltb a b ≡ false
    outside_ltb a b le = ground (arith, le)

-- On a manager that was initialised with an empty table, after any registrations and removals
-- an interrupt below 256 calls the handler of the last registration of its number that was not
-- removed since, and nothing if there is none; one of 256 or more calls nothing.
pub handle_interrupt-apply :
    (m : InterruptManager) (cs : List Change) (k : ℕ)
    → m.interrupt_handlers ≡ []
    → handle_interrupt (apply (initialize m).0 cs) k
      ≡ (if ltb k 256 then last_handler k none cs else none)
unfolding initialize
handle_interrupt-apply m cs k is_empty = elim (Bool-cases (ltb k 256)) [
  | inl e ↦ rw e (
      handle_interrupt-apply_from start cs k (rw fresh (ltb→lt k 256 e))
      ∙ ap (λ g. last_handler k g cs)
          (handled start k (rw fresh (ltb→lt k 256 e))
            ∙ ap (λ ds. call_of (get_or (resize 256 ds) k empty_descriptor)) is_empty
            ∙ call_of-resize 256 k))
  | inr e ↦ rw e (beyond (apply start cs) k (rw (size-apply start cs, fresh) (at_least k 256 e)))
]
  where
    start : InterruptManager
    start = (initialize m).0

    fresh : size start ≡ 256
    fresh = length-resize 256 m.interrupt_handlers

    at_least : (a b : ℕ) → ltb a b ≡ false → b ≤ a
    at_least a b not_below = ground (arith, not_below)
