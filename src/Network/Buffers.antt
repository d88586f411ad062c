-- ===== src/Network/Buffers.antt =====
-- network/network_stack.cpp, BufferManager: the transmit and receive ring buffers. `head` and
-- `tail` count bytes in 64 bits and wrap; a ring holds 2^20 bytes.
pub mod Ring
pub mod Refine
mod Tests
use kernelc_moderne.Prelude.{
  ℕ, zero, suc, ◌+◌, ◌-◌, ◌*◌, ◌%◌, ◌^◌, Bool, true, false, List, [], ◌∷◌, ltb, if◌then◌else◌,
  get_or, set, length, replicate,
}

abbrev pub word : ℕ
word = 2 ^ 64

abbrev pub ring_size : ℕ
ring_size = 1024 * 1024

pub record RingBuffer : Type 0 where
  pub bytes : List ℕ
  pub head : ℕ
  pub tail : ℕ
  pub capacity : ℕ

pub new_ring : ℕ → RingBuffer
new_ring size = record { bytes = replicate size 0; head = 0; tail = 0; capacity = size }

pub record BufferStats : Type 0 where
  pub rx_overflows : ℕ
  pub tx_overflows : ℕ
  pub total_packets_received : ℕ
  pub total_packets_sent : ℕ

pub record BufferManager : Type 0 where
  pub rx_buffer : RingBuffer
  pub tx_buffer : RingBuffer
  pub stats : BufferStats

pub new_manager : BufferManager
new_manager = record {
  rx_buffer = new_ring ring_size;
  tx_buffer = new_ring ring_size;
  stats = record {
    rx_overflows = 0;
    tx_overflows = 0;
    total_packets_received = 0;
    total_packets_sent = 0;
  };
}

-- `tail - head` in 64 bits
abbrev pub used : RingBuffer → ℕ
used r = (r.tail + word - r.head) % word

pub put_byte : RingBuffer → ℕ → RingBuffer
put_byte r byte = record r {
  bytes = set r.bytes (r.tail % r.capacity) byte;
  tail = (r.tail + 1) % word;
}

pub put_bytes : RingBuffer → List ℕ → RingBuffer
put_bytes r [] = r
put_bytes r (byte ∷ rest) = put_bytes (put_byte r byte) rest

abbrev pub front : RingBuffer → ℕ
front r = get_or r.bytes (r.head % r.capacity) 0

pub drop_byte : RingBuffer → RingBuffer
drop_byte r = record r { head = (r.head + 1) % word }

pub take_bytes : ℕ → RingBuffer → List ℕ × RingBuffer
take_bytes zero r = ([], r)
take_bytes (suc n) r = let (rest, r') = take_bytes n (drop_byte r) in (front r ∷ rest, r')

pub write_to_tx_buffer : BufferManager → List ℕ → BufferManager × Bool
write_to_tx_buffer m bytes =
    if ltb ((m.tx_buffer.capacity + word - used m.tx_buffer) % word) (length bytes)
    then (record m { stats = record (m.stats) { tx_overflows = m.stats.tx_overflows + 1 } }, false)
    else (
      record m {
        tx_buffer = put_bytes m.tx_buffer bytes;
        stats = record (m.stats) { total_packets_sent = m.stats.total_packets_sent + 1 };
      },
      true,
    )

-- The bytes that were read, empty where the call fails and leaves the caller's vector alone.
pub read_from_rx_buffer : BufferManager → ℕ → BufferManager × Bool × List ℕ
read_from_rx_buffer m size = if ltb (used m.rx_buffer) size then (m, false, []) else (
  record m {
    rx_buffer = (take_bytes size m.rx_buffer).1;
    stats = record (m.stats) { total_packets_received = m.stats.total_packets_received + 1 };
  },
  true,
  (take_bytes size m.rx_buffer).0,
)
