-- ===== src/Files/Reading/Tests.antt =====
-- A file of four bytes that is not cached, read two bytes at a time.
use kernelc_moderne.Prelude.{
  ◌≡◌, refl, true, false, [], ◌∷◌, some, arith, ◌==◌, if◌then◌else◌, min, lookup,
}
use kernelc_moderne.Files.Pool.{acquire, acquire_from, buffer_size}
use kernelc_moderne.Files.Cache.{CacheLevel, Promotion}
use kernelc_moderne.Files.Cache.Laws.{contents}
use kernelc_moderne.Files.Reading.{
  FileSystem, Disk, Descriptor, ReadResult, Mapping, read, take, drop,
}
use kernelc_moderne.Files.Reading.Laws.{buffer_pool-read}
use kernelc_moderne.Files.Reading.Twice.{read_twice}

abbrev stay : Promotion
stay levels key bytes i = levels

abbrev level : CacheLevel
level = record { size = 100; entries = []; hit_count = 0; miss_count = 0 }

abbrev files : FileSystem
files = record {
  buffer_pool = true ∷ false ∷ [];
  cache = level ∷ [];
  metrics = record { read_ops = 0; cache_hits = 0; cache_misses = 0; total_bytes_read = 0 };
  mapped_files = [];
}

abbrev disk : Disk
disk = record { contents = λ path. some (1 ∷ 2 ∷ 3 ∷ 4 ∷ []); mapping = λ path. Mapping.no_file }

abbrev descriptor : Descriptor
descriptor = record { path = 5; position = 0 }

buffer_pool-read_example : (read stay disk 9 files descriptor 2).0.buffer_pool ≡ files.buffer_pool
buffer_pool-read_example = buffer_pool-read stay disk 9 files descriptor 2

read_twice_example :
    let (fs', fd', first) = read stay disk 9 files descriptor 2 in
    (first ≡ ReadResult.copied (take (min 2 buffer_size) (drop 0 (1 ∷ 2 ∷ 3 ∷ 4 ∷ []))))
    × ((read stay disk 9 fs' fd' 2).2
        ≡ (if 0 == 0 then ReadResult.copied [] else ReadResult.undefined))
unfolding contents lookup acquire acquire_from
read_twice_example =
    read_twice stay disk 9 9 files descriptor 2 2 1 (1 ∷ 2 ∷ 3 ∷ 4 ∷ []) level []
      (λ ls key b i k. refl) refl refl refl refl (omega arith) (omega arith) (omega arith)
      (omega arith)
