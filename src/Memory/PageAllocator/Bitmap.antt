-- ===== src/Memory/PageAllocator/Bitmap.antt =====
-- The bitmap of the page allocator: what a read sees after writes.
use Prim.Native.Nat.{bit_and, bit_or}
use kernelc_moderne.Prelude.{
  ℕ, zero, suc, ◌+◌, ◌*◌, ◌-◌, ◌/◌, ◌%◌, ◌^◌, ◌≤◌, ◌<◌, ◌≡◌, refl, inl, inr, Bool, true, false, not,
  ◌&&◌, List, arith, leb, ltb, ◌==◌, if◌then◌else◌, ==_iff, ==_ne, Bool-cases, length, get_or,
  length-set, get_or-set_self, get_or-set_ne, All, All-set, All-get_or, every_below,
  every_below-apply,
}
use kernelc_moderne.Memory.PageAllocator.{set_bit, get_bit, set_bits}

bit_eq : Bool → Bool → Bool
bit_eq true b = b
bit_eq false b = not b

bit_eq_sound : (a b : Bool) → bit_eq a b ≡ true → a ≡ b
unfolding bit_eq
bit_eq_sound a b h = ground arith

abbrev write : ℕ → ℕ → Bool → ℕ
write byte i v = if v then bit_or byte (2 ^ i) else bit_and byte (255 - 2 ^ i)

abbrev read : ℕ → ℕ → Bool
read byte j = not (bit_and byte (2 ^ j) == 0)

byte_law : Bool → ℕ → ℕ → ℕ → Bool
unfolding bit_eq
byte_law v byte i j =
    bit_eq (read (write byte i v) j) (if i == j then v else read byte j) && ltb (write byte i v) 256

byte_row : Bool → ℕ → ℕ → Bool
byte_row v byte i = every_below 8 (byte_law v byte i)

byte_rows : Bool → ℕ → Bool
byte_rows v byte = every_below 8 (byte_row v byte)

byte_table_true : (v : Bool) → every_below 256 (byte_rows v) ≡ true
unfolding byte_law byte_row byte_rows every_below
byte_table_true true = refl
byte_table_true false = refl

byte_rows-true : (v : Bool) (byte : ℕ) → byte < 256 → byte_rows v byte ≡ true
byte_rows-true v byte h = every_below-apply 256 (byte_rows v) byte (byte_table_true v) h

byte_row-true : (v : Bool) (byte i : ℕ) → byte < 256 → i < 8 → byte_row v byte i ≡ true
unfolding byte_rows
byte_row-true v byte i hb hi = every_below-apply 8 (byte_row v byte) i (byte_rows-true v byte hb) hi

byte_law-true : (v : Bool) (byte i j : ℕ) → byte < 256 → i < 8 → j < 8 → byte_law v byte i j ≡ true
unfolding byte_row
byte_law-true v byte i j hb hi hj =
    every_below-apply 8 (byte_law v byte i) j (byte_row-true v byte i hb hi) hj

and-true : (a b : Bool) → (a && b) ≡ true → (a ≡ true) × (b ≡ true)
and-true a b h = ground arith

-- One byte: a bit that is written is read back, and the other seven stay.
pub read-write :
    (v : Bool) (byte i j : ℕ)
    → byte < 256
    → i < 8
    → j < 8
    → read (write byte i v) j ≡ (if i == j then v else read byte j)
unfolding byte_law
read-write v byte i j hb hi hj =
    bit_eq_sound _ _ (and-true _ _ (byte_law-true v byte i j hb hi hj)).0

write-lt : (v : Bool) (byte i : ℕ) → byte < 256 → i < 8 → write byte i v < 256
unfolding byte_law
write-lt v byte i hb hi = ltb_lt (and-true _ _ (byte_law-true v byte i i hb hi hi)).1
  where
    ltb_lt : {a b : ℕ} → ltb a b ≡ true → a < b
    ltb_lt {a} {b} h = ground arith

-- Every element is a byte.
abbrev pub Bytes : List ℕ → Type 0
Bytes = All (λ x. x < 256)

pub length-set_bit : (b : List ℕ) (i : ℕ) (v : Bool) → length (set_bit b i v) ≡ length b
unfolding set_bit
length-set_bit b i v = length-set b (i / 8) _

pub set_bit-Bytes : (b : List ℕ) (i : ℕ) (v : Bool) → Bytes b → Bytes (set_bit b i v)
unfolding set_bit
set_bit-Bytes b i v h = All-set _ b (i / 8) _ h (
    write-lt v (get_or b (i / 8) 0) (i % 8) (All-get_or _ b (i / 8) 0 h (omega arith))
      (omega arith))

index_eq : (i j : ℕ) → i / 8 ≡ j / 8 → i % 8 ≡ j % 8 → i ≡ j
index_eq i j p q = omega arith

same_byte : (i j : ℕ) → i / 8 ≡ j / 8 → ((i % 8) == (j % 8)) ≡ (i == j)
same_byte i j p = ground (arith, index_eq i j p)

-- A page's bit after a write: the written value at that page, and the old one elsewhere.
pub get_bit-set_bit :
    (b : List ℕ) (i j : ℕ) (v : Bool)
    → Bytes b
    → i / 8 < length b
    → get_bit (set_bit b i v) j ≡ (if i == j then v else get_bit b j)
unfolding set_bit get_bit
get_bit-set_bit b i j v bytes h = elim (Bool-cases ((i / 8) == (j / 8))) [
  | inl e ↦
      let p = (==_iff (i / 8) (j / 8)).0 e in
      rw (← p, get_or-set_self b (i / 8) _ 0 h, ← same_byte i j p)
        (read-write v (get_or b (i / 8) 0) (i % 8) (j % 8)
          (All-get_or _ b (i / 8) 0 bytes (omega arith)) (omega arith) (omega arith))
  | inr e ↦
      rw (get_or-set_ne b (i / 8) (j / 8) _ 0 (ground arith), ==_ne i j (λ q. ground arith)) refl
]

-- The pages `start`, ..., `start + n - 1`.
abbrev pub in_run : ℕ → ℕ → ℕ → Bool
in_run n start j = leb start j && ltb j (start + n)

pub length-set_bits :
    (n : ℕ) (b : List ℕ) (start : ℕ) (v : Bool) → length (set_bits n b start v) ≡ length b
unfolding set_bits
length-set_bits zero b start v = refl
length-set_bits (suc n) b start v =
    omega (arith, length-set_bits n (set_bit b start v) (start + 1) v, length-set_bit b start v)

pub set_bits-Bytes :
    (n : ℕ) (b : List ℕ) (start : ℕ) (v : Bool) → Bytes b → Bytes (set_bits n b start v)
unfolding set_bits
set_bits-Bytes zero b start v h = h
set_bits-Bytes (suc n) b start v h =
    set_bits-Bytes n (set_bit b start v) (start + 1) v (set_bit-Bytes b start v h)

-- A run of writes sets the bits of its pages and no other.
pub get_bit-set_bits :
    (n : ℕ) (b : List ℕ) (start j : ℕ) (v : Bool)
    → Bytes b
    → start + n ≤ length b * 8
    → get_bit (set_bits n b start v) j ≡ (if in_run n start j then v else get_bit b j)
unfolding set_bits
get_bit-set_bits zero b start j v bytes h = ground arith
get_bit-set_bits (suc n) b start j v bytes h =
    rw
      (
        get_bit-set_bits n (set_bit b start v) (start + 1) j v (set_bit-Bytes b start v bytes)
            (omega (arith, length-set_bit b start v)),
        get_bit-set_bit b start j v bytes (omega arith),
      )
      (ground arith)
