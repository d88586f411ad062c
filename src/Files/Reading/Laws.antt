-- ===== src/Files/Reading/Laws.antt =====
-- What `read` returns, and what it leaves behind.
use mathlib.Core.Option.{some-injective}
use kernelc_moderne.Prelude.{
  ℕ, ◌+◌, ◌≡◌, refl, ◌∙◌, ap, subst, inl, inr, Bool, List, Option, none, some, ltb, leb, ◌==◌,
  length, lookup, Bool-cases, Option-cases,
}
use kernelc_moderne.Files.Pool.{acquire, release}
use kernelc_moderne.Files.Pool.Laws.{Acquired, acquire-Acquired}
use kernelc_moderne.Files.Cache.{Promotion, get, megabyte}
use kernelc_moderne.Files.Reading.{
  FileSystem, Disk, Descriptor, get_file_size, copy_at, read_cached, read_region, read_mapped,
  read_buffered, with_buffer, read_pooled, read_uncached, read, map_file, MappedFile,
}

release-acquire :
    (pool : List Bool) (k : ℕ) → (acquire pool).1 ≡ some k → release (acquire pool).0 k ≡ pool
release-acquire pool k e = go (acquire pool) e (acquire-Acquired pool)
  where
    go : (r : List Bool × Option ℕ) → r.1 ≡ some k → Acquired pool r → release r.0 k ≡ pool
    go (pool', none) e a = absurd (cc e)
    go (pool', some j) e a = subst (λ n. release pool' n ≡ pool) (some-injective _ _ e) a.4

module _ (disk : Disk) (now : ℕ) (fd : Descriptor) (size : ℕ) where
  pool-copy_at : (fs : FileSystem) (bytes : List ℕ) (n : ℕ) → (copy_at fs fd bytes n).0 ≡ fs
  unfolding copy_at
  pool-copy_at fs bytes n = elim (Bool-cases (ltb (length bytes) (fd.position + n))) [
    | inl e ↦ rw e refl
    | inr e ↦ rw e refl
  ]

  pool-read_region :
      (fs : FileSystem) (f : MappedFile)
      → (read_region now fs fd f size).0.buffer_pool ≡ fs.buffer_pool
  unfolding read_region
  pool-read_region fs f = elim (Bool-cases (leb f.file_size fd.position)) [
    | inl e ↦ rw e refl
    | inr e ↦ elim (Option-cases f.region) [
      | inl e' ↦ rw (e, e') refl
      | inr (bytes, e') ↦ rw (e, e') refl
    ]
  ]

  pool-read_mapped :
      (fs : FileSystem) → (read_mapped disk now fs fd size).0.buffer_pool ≡ fs.buffer_pool
  unfolding read_mapped
  pool-read_mapped fs = elim (Option-cases (lookup fd.path fs.mapped_files)) [
    | inr (f, e) ↦ rw (e, read_mapped) (pool-read_region fs f)
    | inl e ↦ elim (Bool-cases (map_file (disk.mapping fd.path)).1) [
      | inl e' ↦ rw (e, read_mapped, e') (pool-read_region _ _)
      | inr e' ↦ rw (e, read_mapped, e') refl
    ]
  ]

  pool-read_buffered :
      (fs : FileSystem) (part : List ℕ)
      → (read_buffered now fs fd part size).0.buffer_pool ≡ fs.buffer_pool
  unfolding read_buffered
  pool-read_buffered fs part = elim (Bool-cases (length part == 0)) [
    | inl e ↦ rw e refl
    | inr e ↦ rw e refl
  ]

  pool-with_buffer :
      (fs : FileSystem) (buffer : ℕ)
      → (with_buffer disk now fs fd buffer size).0.buffer_pool ≡ release fs.buffer_pool buffer
  unfolding with_buffer
  pool-with_buffer fs buffer = elim (Option-cases (disk.contents fd.path)) [
    | inl e ↦ rw (e, with_buffer) refl
    | inr (bytes, e) ↦ rw (e, with_buffer) (ap (λ p. release p buffer) (pool-read_buffered fs _))
  ]

  pool-read_pooled :
      (fs : FileSystem) → (read_pooled disk now fs fd size).0.buffer_pool ≡ fs.buffer_pool
  unfolding read_pooled
  pool-read_pooled fs = elim (Option-cases (acquire fs.buffer_pool).1) [
    | inl e ↦ rw (e, read_pooled) refl
    | inr (k, e) ↦ rw (e, read_pooled) (pool-with_buffer _ k ∙ release-acquire fs.buffer_pool k e)
  ]

  pool-read_uncached :
      (fs : FileSystem) → (read_uncached disk now fs fd size).0.buffer_pool ≡ fs.buffer_pool
  unfolding read_uncached
  pool-read_uncached fs = elim (Bool-cases (ltb megabyte (get_file_size disk fd.path))) [
    | inl e ↦ rw e (pool-read_mapped fs)
    | inr e ↦ rw e (pool-read_pooled fs)
  ]

-- Whatever a call of `read` meets, it leaves the buffer pool as it was: on every path, the buffer
-- that it acquires is given back.
pub buffer_pool-read :
    (promote : Promotion) (disk : Disk) (now : ℕ) (fs : FileSystem) (fd : Descriptor) (size : ℕ)
    → (read promote disk now fs fd size).0.buffer_pool ≡ fs.buffer_pool
unfolding read read_cached
buffer_pool-read promote disk now fs fd size = elim (Bool-cases (size == 0)) [
  | inl e ↦ rw e refl
  | inr e ↦ elim (Option-cases (get promote now fs.cache fd.path).1) [
    | inl e' ↦ rw (e, read, e') (pool-read_uncached disk now fd size _)
    | inr (bytes, e') ↦
        rw (e, read, e') (ap (λ f. f.buffer_pool) (pool-copy_at disk now fd size _ bytes _))
  ]
]
