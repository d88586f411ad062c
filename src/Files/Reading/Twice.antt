-- ===== src/Files/Reading/Twice.antt =====
-- Two reads in a row of a file that is not cached: the cache takes the first piece for the whole
-- file.
use kernelc_moderne.Prelude.{
  ℕ, zero, suc, ◌+◌, ◌-◌, ◌≤◌, ◌<◌, ◌≡◌, refl, sym, ◌∙◌, ap, inl, inr, true, false, List, [], ◌∷◌,
  none, some, arith, ltb, ◌==◌, ==_refl, if◌then◌else◌, length, Bool-cases, min,
}
use kernelc_moderne.Files.Pool.{acquire, buffer_size}
use kernelc_moderne.Files.Cache.{CacheLevel, Promotion, get, put, megabyte}
use kernelc_moderne.Files.Cache.Laws.{contents, get-contents_kept, contents-put, get_shape}
use kernelc_moderne.Files.Reading.{
  size_mod, take, drop, FileSystem, Disk, Descriptor, ReadResult, Outcome, get_file_size, copy_at,
  cached_size, read_cached, read_buffered, with_buffer, read_pooled, read_uncached, read,
  record_cache_miss,
}

length-take : (n : ℕ) (bytes : List ℕ) → length (take n bytes) ≡ min n (length bytes)
length-take zero bytes = ground arith
length-take (suc n) [] = ground arith
length-take (suc n) (b ∷ bytes) = ground (arith, length-take n bytes)

-- The bytes that the buffer gets, and those of them that the caller gets.
abbrev pub part : List ℕ → ℕ → List ℕ
part bytes position = take buffer_size (drop position bytes)

abbrev pub piece : List ℕ → ℕ → ℕ → List ℕ
piece bytes position size = take (min (length (part bytes position)) size) (part bytes position)

module _ (promote : Promotion) (disk : Disk) (now : ℕ) (fs : FileSystem) (fd : Descriptor)
    (size buffer : ℕ) (bytes : List ℕ) (asked : (size == 0) ≡ false)
    (missed : (get promote now fs.cache fd.path).1 ≡ none)
    (free : (acquire fs.buffer_pool).1 ≡ some buffer) (file : disk.contents fd.path ≡ some bytes)
    (small : ltb megabyte (length bytes) ≡ false) where
  -- The state in which the file is read.
  abbrev entered : FileSystem
  entered = record fs {
    cache = (get promote now fs.cache fd.path).0;
    metrics = record_cache_miss fs.metrics;
  }

  to_uncached : read promote disk now fs fd size ≡ read_uncached disk now entered fd size
  unfolding read
  to_uncached = rw (asked, read, missed) refl

  to_pooled : read_uncached disk now entered fd size ≡ read_pooled disk now entered fd size
  unfolding read_uncached get_file_size
  to_pooled = rw (file, get_file_size, small) refl

  to_buffer :
      read_pooled disk now entered fd size
      ≡ with_buffer disk now
          (record entered { buffer_pool = (acquire fs.buffer_pool).0 })
          fd
          buffer
          size
  unfolding read_pooled
  to_buffer = rw (free, read_pooled) refl

  module _ (some_byte : (length (part bytes fd.position) == 0) ≡ false) where
    abbrev after : Outcome
    after =
        with_buffer disk now (record entered { buffer_pool = (acquire fs.buffer_pool).0 }) fd buffer
          size

    after_lem :
        (after.0.cache ≡ put now entered.cache fd.path (piece bytes fd.position size) false)
        × (after.1
            ≡ record fd { position = fd.position + min (length (part bytes fd.position)) size })
        × (after.2 ≡ ReadResult.copied (piece bytes fd.position size))
    unfolding with_buffer read_buffered
    after_lem = rw (file, with_buffer, some_byte) (refl, refl, refl)

    first_read :
        ((read promote disk now fs fd size).0.cache
          ≡ put now entered.cache fd.path (piece bytes fd.position size) false)
        × ((read promote disk now fs fd size).1
            ≡ record fd { position = fd.position + min (length (part bytes fd.position)) size })
        × ((read promote disk now fs fd size).2 ≡ ReadResult.copied (piece bytes fd.position size))
    first_read =
        let same = to_uncached ∙ to_pooled ∙ to_buffer in
        (
          ap (λ o. o.0.cache) same ∙ after_lem.0,
          ap (λ o. o.1) same ∙ after_lem.1,
          ap (λ o. o.2) same ∙ after_lem.2,
        )

nothing_left : (size p : ℕ) (cached : List ℕ) → p ≡ length cached → cached_size size cached p ≡ 0
unfolding cached_size
nothing_left size p cached e = ground (arith, e)

inside : (p : ℕ) (cached : List ℕ) → p ≡ length cached → ltb (length cached) (p + 0) ≡ false
inside p cached e = ground (arith, e)

beyond :
    (size p : ℕ) (cached : List ℕ)
    → (size == 0) ≡ false
    → length cached < p
    → p < size_mod
    → ltb (length cached) (p + cached_size size cached p) ≡ true
unfolding cached_size
beyond size p cached asked h room = ground (arith, asked, h, room)

module _ (promote : Promotion) (disk : Disk) (now : ℕ) (fs : FileSystem) (fd : Descriptor)
    (size : ℕ) (cached : List ℕ) (asked : (size == 0) ≡ false)
    (hit : (get promote now fs.cache fd.path).1 ≡ some cached) where
  to_cached :
      read promote disk now fs fd size
      ≡ read_cached (record fs { cache = (get promote now fs.cache fd.path).0 }) fd cached size
  unfolding read
  to_cached = rw (asked, read, hit) refl

  -- At the end of the piece nothing is left.
  at_end : fd.position ≡ length cached → (read promote disk now fs fd size).2 ≡ ReadResult.copied []
  unfolding read_cached copy_at
  at_end e =
      ap (λ o. o.2) to_cached
      ∙ rw (nothing_left size fd.position cached e, inside fd.position cached e) refl

  -- Past it the difference wraps, and the copy leaves the cached bytes.
  past_end :
      length cached < fd.position
      → fd.position < size_mod
      → (read promote disk now fs fd size).2 ≡ ReadResult.undefined
  unfolding read_cached copy_at
  past_end h room = ap (λ o. o.2) to_cached ∙ rw (beyond size fd.position cached asked h room) refl

length-drop : (n : ℕ) (bytes : List ℕ) → length (drop n bytes) ≡ length bytes - n
length-drop zero bytes = ground arith
length-drop (suc n) [] = ground arith
length-drop (suc n) (b ∷ bytes) = ground (arith, length-drop n bytes)

min-suc : (m n : ℕ) → min (suc m) (suc n) ≡ suc (min m n)
min-suc m n = ground arith

take-nil : (n : ℕ) → take n [] ≡ []
take-nil zero = refl
take-nil (suc n) = refl

take-take :
    (m n : ℕ) (bytes : List ℕ)
    → take (min (length (take m bytes)) n) (take m bytes) ≡ take (min n m) bytes
take-take zero n bytes = ground arith
take-take (suc m) n [] =
    take-nil (min (length (take (suc m) [])) n) ∙ sym (take-nil (min n (suc m)))
take-take (suc m) zero (b ∷ bytes) = ground arith
take-take (suc m) (suc n) (b ∷ bytes) =
    rw (min-suc (length (take m bytes)) n, min-suc n m) (ap (λ l. b ∷ l) (take-take m n bytes))

-- Over a cache with a level and a promotion that changes nothing that the cache holds: a file of
-- at most 1 MiB is read that is not cached, from a position inside it and with a buffer that is
-- free. The call returns the bytes of the file from the position on, as many as were asked for
-- but 4096 at most. The next read of the same descriptor fails the caller, whatever it asks for:
-- if the first read started at 0 it returns no byte, and otherwise it copies from outside the
-- cached bytes.
pub read_twice :
    (promote : Promotion) (disk : Disk) (now now' : ℕ) (fs : FileSystem) (fd : Descriptor)
    (size size' buffer : ℕ) (bytes : List ℕ) (level : CacheLevel) (levels : List CacheLevel)
    → ((ls : List CacheLevel) (key : ℕ) (b : List ℕ) (i k : ℕ)
        → contents (promote ls key b i) k ≡ contents ls k)
    → fs.cache ≡ level ∷ levels
    → contents fs.cache fd.path ≡ none
    → (acquire fs.buffer_pool).1 ≡ some buffer
    → disk.contents fd.path ≡ some bytes
    → length bytes ≤ megabyte
    → fd.position < length bytes
    → 0 < size
    → 0 < size'
    → let (fs', fd', first) = read promote disk now fs fd size in
      (first ≡ ReadResult.copied (take (min size buffer_size) (drop fd.position bytes)))
      × ((read promote disk now' fs' fd' size').2
          ≡ (if fd.position == 0 then ReadResult.copied [] else ReadResult.undefined))
read_twice promote disk now now' fs fd size size' buffer bytes level levels keeps shape absent free
      file small within asked asked' =
    (
      first.2 ∙ ap ReadResult.copied (take-take buffer_size size (drop fd.position bytes)),
      elim (Bool-cases (fd.position == 0)) [
        | inl start ↦ rw start (
            at_end promote disk now' fs' fd' size' got asked_again hit
              (ground (arith, start, moved, got_length)))
        | inr later ↦ rw later (
            past_end promote disk now' fs' fd' size' got asked_again hit
              (ground (arith, later, moved, got_length))
              (omega (arith, moved, part_length, small, within)))
      ],
    )
  where
    got : List ℕ
    got = piece bytes fd.position size

    fs' : FileSystem
    fs' = (read promote disk now fs fd size).0

    fd' : Descriptor
    fd' = (read promote disk now fs fd size).1

    part_length : length (part bytes fd.position) ≡ min buffer_size (length bytes - fd.position)
    part_length =
        length-take buffer_size (drop fd.position bytes)
        ∙ ap (min buffer_size) (length-drop fd.position bytes)

    got_length : length got ≡ min (length (part bytes fd.position)) size
    got_length =
        ground
          (arith, length-take (min (length (part bytes fd.position)) size) (part bytes fd.position))

    missed : (get promote now fs.cache fd.path).1 ≡ none
    missed = (get-contents_kept promote keeps now fs.cache fd.path fd.path).0 ∙ absent

    first :
        (fs'.cache ≡ put now (get promote now fs.cache fd.path).0 fd.path got false)
        × (fd' ≡ record fd { position = fd.position + min (length (part bytes fd.position)) size })
        × ((read promote disk now fs fd size).2 ≡ ReadResult.copied got)
    first =
        first_read promote disk now fs fd size buffer bytes (ground arith) missed free file
          (ground arith) (ground (arith, part_length))

    moved : fd'.position ≡ fd.position + min (length (part bytes fd.position)) size
    moved = ap (λ d. d.position) first.1

    held : contents fs'.cache fd.path ≡ some got
    held =
        ap (λ c. contents c fd.path) first.0
        ∙ ap (λ c. contents (put now c fd.path got false) fd.path)
            (ap (λ c. (get promote now c fd.path).0) shape
              ∙ get_shape promote now level levels fd.path
                  (ap (λ c. contents c fd.path) (sym shape) ∙ absent))
        ∙ contents-put now fd.path got false _ _ fd.path
        ∙ rw (==_refl fd.path) refl

    hit : (get promote now' fs'.cache fd'.path).1 ≡ some got
    hit =
        ap (λ d. (get promote now' fs'.cache d.path).1) first.1
        ∙ (get-contents_kept promote keeps now' fs'.cache fd.path fd.path).0
        ∙ held

    asked_again : (size' == 0) ≡ false
    asked_again = ground arith
