-- ===== src/Network/Buffers/Ring.antt =====
-- One ring as a queue of bytes: the window of stored bytes from `head` on.
use mathlib.Core.List.{append-nil, append_assoc}
use kernelc_moderne.Prelude.{
  ℕ, zero, suc, ◌+◌, ◌%◌, ◌≤◌, ◌<◌, ◌≡◌, refl, ap, ap₂, sym, ◌∙◌, List, [], ◌∷◌, ◌++◌, arith,
  get_or, set, length, length-set, get_or-set_self, get_or-set_ne, length-replicate,
}
use kernelc_moderne.Network.Buffers.{
  RingBuffer, word, ring_size, new_ring, used, put_byte, put_bytes, front, drop_byte, take_bytes,
}

-- The `n` bytes from position `h` on, round the ring.
pub window : ℕ → List ℕ → ℕ → List ℕ
window zero bytes h = []
window (suc n) bytes h = get_or bytes (h % ring_size) 0 ∷ window n bytes (h + 1)

-- What the ring holds, oldest byte first.
pub contents : RingBuffer → List ℕ
contents r = window (used r) r.bytes r.head

length-window : (n : ℕ) (bytes : List ℕ) (h : ℕ) → length (window n bytes h) ≡ n
unfolding window
length-window zero bytes h = refl
length-window (suc n) bytes h = ap suc (length-window n bytes (h + 1))

pub length-contents : (r : RingBuffer) → length (contents r) ≡ used r
unfolding contents
length-contents r = length-window (used r) r.bytes r.head

pub record IsRing (r : RingBuffer) : Type 0 where
  pub capacity_eq : r.capacity ≡ ring_size
  pub stored : length r.bytes ≡ ring_size
  pub head_lt : r.head < word
  pub tail_lt : r.tail < word
  pub used_le : used r ≤ ring_size

new_ring_fields :
    (n : ℕ)
    → ((new_ring n).capacity ≡ n)
      × (length (new_ring n).bytes ≡ n)
      × ((new_ring n).head ≡ 0)
      × ((new_ring n).tail ≡ 0)
unfolding new_ring
new_ring_fields n = (refl, length-replicate n 0, refl, refl)

pub new_ring_empty : (n : ℕ) → used (new_ring n) ≡ 0
new_ring_empty n = omega (arith, new_ring_fields n)

IsRing-of :
    (r : RingBuffer)
    → (r.capacity ≡ ring_size) × (length r.bytes ≡ ring_size) × (r.head ≡ 0) × (r.tail ≡ 0)
    → IsRing r
IsRing-of r (c, l, h, t) = record {
  capacity_eq = c;
  stored = l;
  head_lt = omega arith;
  tail_lt = omega arith;
  used_le = omega arith;
}

pub new_ring-IsRing : IsRing (new_ring ring_size)
new_ring-IsRing = IsRing-of (new_ring ring_size) (new_ring_fields ring_size)

window-mod :
    (n : ℕ) (bytes : List ℕ) (h k : ℕ)
    → h % ring_size ≡ k % ring_size
    → window n bytes h ≡ window n bytes k
unfolding window
window-mod zero bytes h k e = refl
window-mod (suc n) bytes h k e =
    ap₂ ◌∷◌ (ap (λ i. get_or bytes i 0) e) (window-mod n bytes (h + 1) (k + 1) (omega arith))

window-set :
    (n : ℕ) (bytes : List ℕ) (h t byte : ℕ)
    → t ≡ h + n
    → n < ring_size
    → length bytes ≡ ring_size
    → window (suc n) (set bytes (t % ring_size) byte) h ≡ window n bytes h ++ (byte ∷ [])
unfolding window
window-set zero bytes h t byte e lt len =
    let same : t ≡ h = omega arith in
    let at : get_or (set bytes (h % ring_size) byte) (h % ring_size) 0 ≡ byte =
      get_or-set_self bytes (h % ring_size) byte 0 (omega arith) in
    rw same (ap (λ x. x ∷ []) at)
window-set (suc n) bytes h t byte e lt len =
    ap₂ ◌∷◌ (get_or-set_ne bytes (t % ring_size) (h % ring_size) byte 0 (omega arith))
      (window-set n bytes (h + 1) t byte (omega arith) (omega arith) len)

module _ (r : RingBuffer) (v : IsRing r) where
  used-put : (byte : ℕ) → used r < ring_size → used (put_byte r byte) ≡ suc (used r)
  unfolding put_byte
  used-put byte h = omega (arith, v.head_lt, v.tail_lt)

  pub put_byte-IsRing : (byte : ℕ) → used r < ring_size → IsRing (put_byte r byte)
  unfolding put_byte
  put_byte-IsRing byte h = record {
    capacity_eq = v.capacity_eq;
    stored = length-set r.bytes (r.tail % r.capacity) byte ∙ v.stored;
    head_lt = v.head_lt;
    tail_lt = omega arith;
    used_le = omega (arith, used-put byte h);
  }

  contents_at :
      (byte : ℕ)
      → used r < ring_size
      → window (suc (used r)) (set r.bytes (r.tail % ring_size) byte) r.head
        ≡ contents r ++ (byte ∷ [])
  unfolding contents
  contents_at byte h =
      let t = r.head + used r in
      let same : r.tail % ring_size ≡ t % ring_size = omega (arith, v.head_lt, v.tail_lt) in
      rw same (window-set (used r) r.bytes r.head t byte refl h v.stored)

  pub contents-put_byte :
      (byte : ℕ) → used r < ring_size → contents (put_byte r byte) ≡ contents r ++ (byte ∷ [])
  unfolding contents put_byte
  contents-put_byte byte h = rw (used-put byte h, v.capacity_eq) (contents_at byte h)

  pub used-put_byte : (byte : ℕ) → used r < ring_size → used (put_byte r byte) ≡ used r + 1
  used-put_byte byte h = omega (arith, used-put byte h)

-- A write that fits appends its bytes and keeps the ring well formed.
pub put_bytes_lem :
    (bytes : List ℕ) (r : RingBuffer)
    → IsRing r
    → used r + length bytes ≤ ring_size
    → IsRing (put_bytes r bytes)
      × (contents (put_bytes r bytes) ≡ contents r ++ bytes)
      × (used (put_bytes r bytes) ≡ used r + length bytes)
unfolding put_bytes
put_bytes_lem [] r v h = (v, sym (append-nil (contents r)), omega arith)
put_bytes_lem (byte ∷ rest) r v h =
    let fits : used r < ring_size = omega arith in
    let one = used-put_byte r v byte fits in
    let (valid, held, count) =
      put_bytes_lem rest (put_byte r byte) (put_byte-IsRing r v byte fits) (omega arith) in
    (
      valid,
      held ∙ rw (contents-put_byte r v byte fits) (append_assoc (contents r) (byte ∷ []) rest),
      omega arith,
    )

window-suc :
    (m n : ℕ) (bytes : List ℕ) (h : ℕ)
    → m ≡ suc n
    → window m bytes h ≡ get_or bytes (h % ring_size) 0 ∷ window n bytes (h + 1)
unfolding window
window-suc m n bytes h e = rw e

module _ (r : RingBuffer) (v : IsRing r) (h : 0 < used r) where
  used_drop : used r ≡ suc (used (drop_byte r))
  unfolding drop_byte
  used_drop = omega (arith, v.head_lt, v.tail_lt)

  pub drop_byte-IsRing : IsRing (drop_byte r)
  unfolding drop_byte
  drop_byte-IsRing = record {
    capacity_eq = v.capacity_eq;
    stored = v.stored;
    head_lt = omega arith;
    tail_lt = v.tail_lt;
    used_le = omega (arith, used_drop, v.used_le);
  }

  contents_tail : window (used (drop_byte r)) r.bytes (r.head + 1) ≡ contents (drop_byte r)
  unfolding contents drop_byte
  contents_tail =
      window-mod (used (drop_byte r)) r.bytes (r.head + 1) ((r.head + 1) % word) (omega arith)

  pub contents-drop_byte : contents r ≡ front r ∷ contents (drop_byte r)
  unfolding contents
  contents-drop_byte =
      window-suc (used r) (used (drop_byte r)) r.bytes r.head used_drop
      ∙ ap₂ ◌∷◌ (ap (λ c. get_or r.bytes (r.head % c) 0) (sym v.capacity_eq)) contents_tail

-- A read that is covered returns the oldest bytes, in order, and leaves the rest.
pub take_bytes_lem :
    (n : ℕ) (r : RingBuffer)
    → IsRing r
    → n ≤ used r
    → IsRing (take_bytes n r).1
      × (contents r ≡ (take_bytes n r).0 ++ contents (take_bytes n r).1)
      × (length (take_bytes n r).0 ≡ n)
unfolding take_bytes
take_bytes_lem zero r v h = (v, refl, refl)
take_bytes_lem (suc n) r v h =
    let some_left : 0 < used r = omega arith in
    let (valid, split, count) =
      take_bytes_lem n (drop_byte r) (drop_byte-IsRing r v some_left)
        (omega (arith, used_drop r v some_left)) in
    (valid, contents-drop_byte r v some_left ∙ ap (◌∷◌ (front r)) split, omega arith)
