-- ===== src/Files/Reading.antt =====
-- filesystem/VirtualFileSystem.cpp: `read` of the file system with its cache, memory mapped files,
-- buffer pool and counters. Paths are only compared, so numbers. The files on the disk are an
-- argument: what a path holds when it is opened, and what mapping it gives. The file and the
-- mapping are read at once, and a mapped region is what it held when it was mapped. Latencies
-- are left out. Sizes are 64-bit values. The calls of `put` leave its third argument out, which
-- the declaration does not allow: it is taken as `false`.
pub mod Laws
pub mod Twice
mod Tests
use kernelc_moderne.Prelude.{
  ℕ, zero, suc, ◌+◌, ◌-◌, ◌*◌, ◌^◌, ◌%◌, Bool, true, false, not, ◌||◌, List, [], ◌∷◌, Option, none,
  some, ltb, leb, ◌==◌, if◌then◌else◌, length, lookup, insert, min,
}
use kernelc_moderne.Files.Pool.{acquire, release, buffer_size}
use kernelc_moderne.Files.Cache.{CacheLevel, Promotion, get, put, megabyte}

abbrev pub size_mod : ℕ
size_mod = 2 ^ 64

-- The first `n` bytes, and those after them.
abbrev pub take : ℕ → List ℕ → List ℕ
take zero bytes = []
take (suc n) [] = []
take (suc n) (b ∷ bytes) = b ∷ take n bytes

abbrev pub drop : ℕ → List ℕ → List ℕ
drop zero bytes = bytes
drop (suc n) [] = []
drop (suc n) (b ∷ bytes) = drop n bytes

pub record Metrics : Type 0 where
  pub read_ops : ℕ
  pub cache_hits : ℕ
  pub cache_misses : ℕ
  pub total_bytes_read : ℕ

pub record_read : Metrics → ℕ → Metrics
record_read m bytes = record m {
  read_ops = m.read_ops + 1;
  total_bytes_read = m.total_bytes_read + bytes;
}

pub record_cache_hit : Metrics → Metrics
record_cache_hit m = record m { cache_hits = m.cache_hits + 1 }

pub record_cache_miss : Metrics → Metrics
record_cache_miss m = record m { cache_misses = m.cache_misses + 1 }

-- The region, `none` for the null pointer.
pub record MappedFile : Type 0 where
  pub region : Option (List ℕ)
  pub file_size : ℕ

-- What `map` meets: the open or `fstat` fails, `mmap` fails on a file of this size, or it maps
-- these bytes.
pub data Mapping : Type 0 where
  no_file : Mapping
  refused : ℕ → Mapping
  mapped : List ℕ → Mapping

-- A fresh object, and whether `map` returns true.
pub map_file : Mapping → MappedFile × Bool
map_file no_file = (record { region = none; file_size = 0 }, false)
map_file (refused size) = (record { region = none; file_size = size }, false)
map_file (mapped bytes) = (record { region = some bytes; file_size = length bytes }, true)

pub unmap : MappedFile → MappedFile
unmap f = record f { region = none }

pub record FileSystem : Type 0 where
  pub buffer_pool : List Bool
  pub cache : List CacheLevel
  pub metrics : Metrics
  pub mapped_files : List (ℕ × MappedFile)

-- The files: the size of a path, 0 where it cannot be opened, its bytes, and its mapping.
pub record Disk : Type 0 where
  pub contents : ℕ → Option (List ℕ)
  pub mapping : ℕ → Mapping

pub get_file_size : Disk → ℕ → ℕ
get_file_size disk path = elim (disk.contents path) [ none ↦ 0 | some bytes ↦ length bytes ]

pub record Descriptor : Type 0 where
  pub path : ℕ
  pub position : ℕ

-- -1, the bytes that were copied, or a read outside the source's memory.
pub data ReadResult : Type 0 where
  failed undefined : ReadResult
  copied : List ℕ → ReadResult

abbrev pub Outcome : Type 0
Outcome = FileSystem × Descriptor × ReadResult

-- `memcpy` of `size` bytes at the position, which moves on.
pub copy_at : FileSystem → Descriptor → List ℕ → ℕ → Outcome
copy_at fs fd bytes size =
    if ltb (length bytes) (fd.position + size) then (fs, fd, ReadResult.undefined) else (
      fs,
      record fd { position = fd.position + size },
      ReadResult.copied (take size (drop fd.position bytes)),
    )

-- `min(size, cachedData.size() - fd->position)`, where the difference wraps.
pub cached_size : ℕ → List ℕ → ℕ → ℕ
cached_size size bytes position = min size ((length bytes + size_mod - position) % size_mod)

-- The branch on a cached path.
pub read_cached : FileSystem → Descriptor → List ℕ → ℕ → Outcome
read_cached fs fd bytes size =
    let n = cached_size size bytes fd.position in
    copy_at (record fs { metrics = record_read (record_cache_hit fs.metrics) n }) fd bytes n

-- The end of the branch on a mapped file: the copied part becomes the cached contents.
pub read_region : ℕ → FileSystem → Descriptor → MappedFile → ℕ → Outcome
read_region now fs fd f size =
    if leb f.file_size fd.position then (fs, fd, ReadResult.copied []) else (elim f.region [
      | none ↦ (fs, fd, ReadResult.undefined)
      | some bytes ↦
          let n = min size (f.file_size - fd.position) in
          let part = take n (drop fd.position bytes) in
          (
            record fs { cache = put now fs.cache fd.path part false },
            record fd { position = fd.position + n },
            ReadResult.copied part,
          )
    ])

pub read_mapped : Disk → ℕ → FileSystem → Descriptor → ℕ → Outcome
read_mapped disk now fs fd size = elim (lookup fd.path fs.mapped_files) [
  | some f ↦ read_region now fs fd f size
  | none ↦
      let (f, done) = map_file (disk.mapping fd.path) in
      let fs' : FileSystem = record fs { mapped_files = insert fd.path f fs.mapped_files } in
      if not done then (fs', fd, ReadResult.failed) else read_region now fs' fd f size
]

-- The reading of an open file through a buffer of 4096 bytes; `part` is what `read` gave.
pub read_buffered : ℕ → FileSystem → Descriptor → List ℕ → ℕ → Outcome
read_buffered now fs fd part size =
    if length part == 0
    then (fs, fd, ReadResult.copied [])
    else (let piece = take (min (length part) size) part in
        (
          record fs { cache = put now fs.cache fd.path piece false },
          record fd { position = fd.position + min (length part) size },
          ReadResult.copied piece,
        ))

-- The buffer that was acquired is given back at the end.
pub with_buffer : Disk → ℕ → FileSystem → Descriptor → ℕ → ℕ → Outcome
with_buffer disk now fs fd buffer size = elim (disk.contents fd.path) [
  | none ↦ (record fs { buffer_pool = release fs.buffer_pool buffer }, fd, ReadResult.failed)
  | some bytes ↦
      let (fs', fd', result) =
        read_buffered now fs fd (take buffer_size (drop fd.position bytes)) size in
      (record fs' { buffer_pool = release fs'.buffer_pool buffer }, fd', result)
]

pub read_pooled : Disk → ℕ → FileSystem → Descriptor → ℕ → Outcome
read_pooled disk now fs fd size = elim (acquire fs.buffer_pool).1 [
  | none ↦ (fs, fd, ReadResult.failed)
  | some buffer ↦
      with_buffer disk now (record fs { buffer_pool = (acquire fs.buffer_pool).0 }) fd buffer size
]

-- The branches on a path that is not cached.
pub read_uncached : Disk → ℕ → FileSystem → Descriptor → ℕ → Outcome
read_uncached disk now fs fd size =
    if ltb megabyte (get_file_size disk fd.path)
    then read_mapped disk now fs fd size
    else read_pooled disk now fs fd size

-- The descriptor and the caller's buffer are not null.
pub read : Promotion → Disk → ℕ → FileSystem → Descriptor → ℕ → Outcome
read promote disk now fs fd size =
    if size == 0
    then (fs, fd, ReadResult.failed)
    else (let (cache', found) = get promote now fs.cache fd.path in
        elim found [
          | some bytes ↦ read_cached (record fs { cache = cache' }) fd bytes size
          | none ↦
              read_uncached disk now
                (record fs { cache = cache'; metrics = record_cache_miss fs.metrics }) fd size
        ])
