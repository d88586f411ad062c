-- ===== src/Memory/Compression.antt =====
-- memory/vmm.hpp: the compression of a page, and the pass of the virtual memory manager that
-- compresses the inactive ones. `lz4_compress` has no body in the repository: it is the argument
-- `lz4`. A page is the list of its bytes; the clock's reading is an argument.
pub mod Runs
pub mod Inactive
mod Tests
use kernelc_moderne.Prelude.{
  ℕ, zero, suc, ◌+◌, ◌-◌, Bool, true, false, not, ◌&&◌, List, [], ◌∷◌, ◌++◌, Option, none, some,
  ltb, leb, ◌==◌, if◌then◌else◌, length, replicate, lookup, insert,
}

abbrev pub page_size : ℕ
page_size = 4096

-- The inner loop of `compressPage`: how many of at most `limit` bytes equal the current one, and
-- the bytes after them.
pub run : ℕ → ℕ → List ℕ → ℕ × List ℕ
run zero current bytes = (0, bytes)
run (suc limit) current [] = (0, [])
run (suc limit) current (b ∷ bytes) =
    let (count, rest) = run limit current bytes in
    if b == current then (suc count, rest) else (0, b ∷ bytes)

-- The outer loop, with the rounds that are left: a count of at most 255 and a byte for each run.
pub rle : ℕ → List ℕ → List ℕ
rle zero bytes = []
rle (suc rounds) [] = []
rle (suc rounds) (current ∷ bytes) =
    let (count, rest) = run 254 current bytes in suc count ∷ current ∷ rle rounds rest

-- What becomes of the page when lz4 did not make it smaller: the runs and zeros, if they fit.
pub rewrite : List ℕ → List ℕ
rewrite page =
    let compressed = rle (length page) page in
    if ltb (length compressed) page_size
    then compressed ++ replicate (page_size - length compressed) 0
    else page

-- The compressed pages that are kept, and the page.
pub compress_page : (List ℕ → List ℕ) → List (List ℕ) → List ℕ → List (List ℕ) × List ℕ
compress_page lz4 compressed_pages page =
    let compressed = lz4 page in
    (
      compressed_pages ++ (compressed ∷ []),
      (if leb page_size (length compressed) then rewrite page else page),
    )

pub record PageInfo : Type 0 where
  pub last_accessed : ℕ
  pub access_count : ℕ
  pub is_compressed : Bool
  pub is_huge_page : Bool
  pub numa_node : ℕ

pub record MemoryBlock : Type 0 where
  pub address : ℕ
  pub size : ℕ
  pub is_free : Bool
  pub flags : ℕ
  pub protection_bits : ℕ

-- The part of the state of the manager that the pass changes.
pub record Tracker : Type 0 where
  pub pages : List (ℕ × PageInfo)
  pub compressed_memory : ℕ

abbrev pub inactive_threshold : ℕ
inactive_threshold = 5000

pub is_inactive : ℕ → Option PageInfo → Bool
is_inactive now none = false
is_inactive now (some info) =
    ltb inactive_threshold (now - info.last_accessed) && ltb info.access_count 100

-- The body of the loop on one block, with the address that `compressPage` is called on.
pub compress_block : ℕ → Tracker → MemoryBlock → Tracker × List ℕ
compress_block now t block = elim (lookup block.address t.pages) [
  | none ↦ (t, [])
  | some info ↦
      if not block.is_free && is_inactive now (some info) && not info.is_compressed
      then (
        record {
          pages = insert block.address (record info { is_compressed = true }) t.pages;
          compressed_memory = t.compressed_memory + block.size;
        },
        block.address ∷ [],
      )
      else (t, [])
]

pub compress_inactive_pages : ℕ → Tracker → List MemoryBlock → Tracker × List ℕ
compress_inactive_pages now t [] = (t, [])
compress_inactive_pages now t (block ∷ blocks) =
    let (t', called) = compress_block now t block in
    let (t'', rest) = compress_inactive_pages now t' blocks in (t'', called ++ rest)
