-- ===== src/Network/Buffers/Refine.antt =====
-- The buffer manager against a pair of byte queues.
use kernelc_moderne.Prelude.{
  ℕ, ◌+◌, ◌-◌, ◌%◌, ◌≤◌, ◌<◌, ◌≡◌, refl, sym, ◌∙◌, ◌⊎◌, inl, inr, Bool, true, false, List, [], ◌∷◌,
  ◌++◌, arith, length, length-append, ap, ltb, ltb→lt, Bool-cases,
}
use kernelc_moderne.Network.Buffers.{
  RingBuffer, BufferManager, word, ring_size, new_manager, used, put_bytes, take_bytes,
  write_to_tx_buffer, read_from_rx_buffer,
}
use kernelc_moderne.Network.Buffers.Ring.{
  IsRing, contents, length-contents, new_ring-IsRing, put_bytes_lem, take_bytes_lem,
}

pub record IsManager (m : BufferManager) : Type 0 where
  pub rx : IsRing m.rx_buffer
  pub tx : IsRing m.tx_buffer

-- The bytes of the transmit and of the receive queue.
abbrev pub tx_queue : BufferManager → List ℕ
tx_queue m = contents m.tx_buffer

abbrev pub rx_queue : BufferManager → List ℕ
rx_queue m = contents m.rx_buffer

pub new_manager-IsManager : IsManager new_manager
unfolding new_manager
new_manager-IsManager = record { rx = new_ring-IsRing; tx = new_ring-IsRing }

abbrev no_room : RingBuffer → ℕ → Bool
no_room r n = ltb ((r.capacity + word - used r) % word) n

no_room-true : (r : RingBuffer) (n : ℕ) → IsRing r → no_room r n ≡ true → ring_size < used r + n
no_room-true r n v e = omega (arith, ltb→lt _ _ e, v.capacity_eq, v.used_le)

no_room-false : (r : RingBuffer) (n : ℕ) → IsRing r → no_room r n ≡ false → used r + n ≤ ring_size
no_room-false r n v e =
    let le : n ≤ (r.capacity + word - used r) % word = ground arith in
    omega (arith, v.capacity_eq, v.used_le)

-- With well formed buffers a write succeeds exactly when the bytes fit. Then they are appended to
-- the transmit queue and one more packet is counted as sent; otherwise the queue stays and one
-- more overflow is counted. The receive queue is untouched, and the buffers stay well formed.
pub write_to_tx_buffer-queue :
    (m : BufferManager) (bytes : List ℕ)
    → IsManager m
    → let (m', done) = write_to_tx_buffer m bytes in
      IsManager m'
      × (rx_queue m' ≡ rx_queue m)
      × (((used m.tx_buffer + length bytes ≤ ring_size)
            × (done ≡ true)
            × (tx_queue m' ≡ tx_queue m ++ bytes)
            × (m'.stats.total_packets_sent ≡ m.stats.total_packets_sent + 1))
          ⊎ ((ring_size < used m.tx_buffer + length bytes)
              × (done ≡ false)
              × (tx_queue m' ≡ tx_queue m)
              × (m'.stats.tx_overflows ≡ m.stats.tx_overflows + 1)))
unfolding write_to_tx_buffer
write_to_tx_buffer-queue m bytes v = elim (Bool-cases (no_room m.tx_buffer (length bytes))) [
  | inl full ↦ rw full (
    record { rx = v.rx; tx = v.tx },
    refl,
    inr (no_room-true m.tx_buffer (length bytes) v.tx full, refl, refl, refl),
  )
  | inr room ↦
      let fits = no_room-false m.tx_buffer (length bytes) v.tx room in
      let (valid, held, count) = put_bytes_lem bytes m.tx_buffer v.tx fits in
      rw room (record { rx = v.rx; tx = valid }, refl, inl (fits, refl, held, refl))
]

-- With well formed buffers a read succeeds exactly when the receive queue holds enough bytes. Then
-- it returns the oldest `size` bytes in order, removes them and counts one more packet as
-- received; otherwise nothing changes. The transmit queue is untouched, and the buffers stay well
-- formed.
pub read_from_rx_buffer-queue :
    (m : BufferManager) (size : ℕ)
    → IsManager m
    → let (m', done, bytes) = read_from_rx_buffer m size in
      IsManager m'
      × (tx_queue m' ≡ tx_queue m)
      × (((size ≤ used m.rx_buffer)
            × (done ≡ true)
            × (rx_queue m ≡ bytes ++ rx_queue m')
            × (length bytes ≡ size)
            × (m'.stats.total_packets_received ≡ m.stats.total_packets_received + 1))
          ⊎ ((used m.rx_buffer < size) × (done ≡ false) × (bytes ≡ []) × (m' ≡ m)))
unfolding read_from_rx_buffer
read_from_rx_buffer-queue m size v = elim (Bool-cases (ltb (used m.rx_buffer) size)) [
  | inl short ↦ rw short (v, refl, inr (ltb→lt _ _ short, refl, refl, refl))
  | inr enough ↦
      let covered : size ≤ used m.rx_buffer = ground arith in
      let (valid, split, count) = take_bytes_lem size m.rx_buffer v.rx covered in
      rw enough (record { rx = valid; tx = v.tx }, refl, inl (covered, refl, split, count, refl))
]

same_prefix : (xs ys rest : List ℕ) → ys ≡ xs ++ rest → length xs ≡ length ys → xs ≡ ys
same_prefix [] [] rest e h = refl
same_prefix [] (y ∷ ys) rest e h = absurd (omega arith)
same_prefix (x ∷ xs) [] rest e h = absurd (omega arith)
same_prefix (x ∷ xs) (y ∷ ys) rest e h =
    let heads : y ≡ x = cc in
    let tails : ys ≡ xs ++ rest = cc in
    rw heads (ap (◌∷◌ x) (same_prefix xs ys rest tails (omega arith)))

-- On a well formed ring in which the bytes fit, reading back as many bytes as it holds after the
-- bytes are put returns what it held before, followed by those bytes.
pub take-put_bytes :
    (r : RingBuffer) (bytes : List ℕ)
    → IsRing r
    → used r + length bytes ≤ ring_size
    → (take_bytes (used r + length bytes) (put_bytes r bytes)).0 ≡ contents r ++ bytes
take-put_bytes r bytes v h =
    let n = used r + length bytes in
    let (valid, held, count) = put_bytes_lem bytes r v h in
    let (valid', split, count') = take_bytes_lem n (put_bytes r bytes) valid (omega arith) in
    same_prefix (take_bytes n (put_bytes r bytes)).0 (contents r ++ bytes)
      (contents (take_bytes n (put_bytes r bytes)).1) (sym held ∙ split)
      (omega (arith, length-append (contents r) bytes, length-contents r))
