-- ===== src/Memory/Resources/Counting.antt =====
-- The count of the bytes in the cache against the bytes that it holds.
use kernelc_moderne.Prelude.{
  ℕ, ◌≡◌, ◌≤◌, ◌<◌, refl, sym, ◌∙◌, ap, subst, inl, inr, ◌+◌, ◌-◌, ◌%◌, Bool, true, false, not,
  ◌&&◌, List, [], ◌∷◌, ◌==◌, ==_iff, ltb, if◌then◌else◌, lookup, insert, erase, Bool-cases,
  and_left, and_right, arith,
}
use kernelc_moderne.Memory.Resources.{
  word, ResourceTracker, ResourceManager, cache_size, oldest, held_size, evict_least_used,
  make_room, preload_resource,
}

-- The bytes that the cache holds.
unfoldable pub held : List (ℕ × ResourceTracker) → ℕ
held [] = 0
held ((id, t) ∷ rest) = t.size + held rest

-- Each key stands in the cache once.
unfoldable pub is_known : ℕ → List (ℕ × ResourceTracker) → Bool
is_known id [] = false
is_known id ((id', t) ∷ rest) = let later = is_known id rest in if id == id' then true else later

unfoldable pub has_unique_keys : List (ℕ × ResourceTracker) → Bool
has_unique_keys [] = true
has_unique_keys ((id, t) ∷ rest) = not (is_known id rest) && has_unique_keys rest

held-insert :
    (id : ℕ) (t : ResourceTracker) (cache : List (ℕ × ResourceTracker))
    → held (insert id t cache) + held_size id cache ≡ held cache + t.size
unfolding held held_size insert lookup
held-insert id t [] = omega arith
held-insert id t ((id', old) ∷ rest) = elim (Bool-cases (id == id')) [
  | inl e ↦ rw (e, held_size) (omega arith)
  | inr e ↦ rw (e, held_size) (omega (arith, held-insert id t rest))
]

held-erase_unknown :
    (id : ℕ) (cache : List (ℕ × ResourceTracker))
    → is_known id cache ≡ false
    → (held (erase id cache) ≡ held cache) × (held_size id cache ≡ 0)
unfolding held held_size erase lookup is_known
held-erase_unknown id [] h = (refl, refl)
held-erase_unknown id ((id', t) ∷ rest) h = elim (Bool-cases (id == id')) [
  | inl e ↦ absurd (known e)
  | inr e ↦
      simp (e, held, held_size, erase, lookup)
        (
          ap (λ n. t.size + n) (held-erase_unknown id rest (later e)).0,
          (held-erase_unknown id rest (later e)).1,
        )
]
  where
    known : (id == id') ≡ true → ⊥
    known e = let here : is_known id ((id', t) ∷ rest) ≡ true = rw e refl in cc (sym here ∙ h)

    later : (id == id') ≡ false → is_known id rest ≡ false
    later e =
        let passed : is_known id ((id', t) ∷ rest) ≡ is_known id rest = rw e refl in sym passed ∙ h

from_negation : (b : Bool) → not b ≡ true → b ≡ false
from_negation true h = sym h
from_negation false h = refl

held-erase :
    (id : ℕ) (cache : List (ℕ × ResourceTracker))
    → has_unique_keys cache ≡ true
    → held (erase id cache) + held_size id cache ≡ held cache
unfolding held held_size erase lookup has_unique_keys
held-erase id [] h = refl
held-erase id ((id', t) ∷ rest) h = elim (Bool-cases (id == id')) [
  | inl e ↦
      let unknown =
        subst (λ k. is_known k rest ≡ false) (sym ((==_iff id id').0 e))
          (from_negation (is_known id' rest) (and_left _ _ h)) in
      rw (e, held_size) (omega (arith, (held-erase_unknown id rest unknown).0))
  | inr e ↦ rw (e, held_size) (omega (arith, held-erase id rest (and_right _ _ h)))
]

held_size-small : (id : ℕ) (cache : List (ℕ × ResourceTracker)) → held_size id cache ≤ held cache
unfolding held held_size lookup
held_size-small id [] = omega arith
held_size-small id ((id', t) ∷ rest) = elim (Bool-cases (id == id')) [
  | inl e ↦ rw (e, held_size) (omega arith)
  | inr e ↦ rw (e, held_size) (omega (arith, held_size-small id rest))
]

-- Making room keeps the difference between the count and the bytes that are held.
make_room-counted :
    (m : ResourceManager) (size : ℕ)
    → has_unique_keys m.gpu_cache ≡ true
    → held m.gpu_cache ≤ m.current_cache_size
    → m.current_cache_size < word
    → let m' = make_room m size in
      (m'.current_cache_size + held m.gpu_cache ≡ m.current_cache_size + held m'.gpu_cache)
      × (m'.current_cache_size ≤ m.current_cache_size)
unfolding make_room evict_least_used
make_room-counted m size unique counted small =
    elim (Bool-cases (ltb cache_size ((m.current_cache_size + size) % word))) [
      | inl e ↦ rw e (elim (Bool-cases (oldest m.gpu_cache (word - 1) 0 == 0)) [
        | inl e' ↦ rw e' (refl, omega arith)
        | inr e' ↦
            let target = oldest m.gpu_cache (word - 1) 0 in
            let removed = held-erase target m.gpu_cache unique in
            let less = held_size-small target m.gpu_cache in
            rw e'
              (omega (arith, removed, less, counted, small), omega (arith, less, counted, small))
      ])
      | inr e ↦ rw e (refl, omega arith)
    ]

-- On a cache without a repeated key, whose bytes are all counted, where the sum of the count and
-- the new size does not wrap: preloading a resource raises the excess of the count over the
-- bytes that are held by exactly the bytes that stood under its identifier once room was made.
pub preload_resource-counted :
    (m : ResourceManager) (now id contents size : ℕ)
    → has_unique_keys m.gpu_cache ≡ true
    → held m.gpu_cache ≤ m.current_cache_size
    → m.current_cache_size + size < word
    → let m' = preload_resource m now id contents size in
      m'.current_cache_size + held m.gpu_cache
      ≡ m.current_cache_size + held m'.gpu_cache + held_size id (make_room m size).gpu_cache
unfolding preload_resource
preload_resource-counted m now id contents size unique counted small =
    let room = make_room m size in
    let before = make_room-counted m size unique counted (omega (arith, small)) in
    let t : ResourceTracker = record {
      resource = contents;
      last_use_time = now;
      size = size;
      is_in_use = true;
      is_priority = false;
    } in
    omega (arith, before.0, before.1, held-insert id t room.gpu_cache, small)
