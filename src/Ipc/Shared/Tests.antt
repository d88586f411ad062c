-- ===== src/Ipc/Shared/Tests.antt =====
-- Two holders of one segment.
use kernelc_moderne.Prelude.{◌≡◌, refl, [], none, some, lookup, insert}
use kernelc_moderne.Ipc.Shared.{Segments, allocate, deallocate}
use kernelc_moderne.Ipc.Shared.Laws.{IsCounted, holders, allocate-IsCounted, deallocate-holders}

-- The second request wants more than the segment has and gets it all the same.
abbrev shared : Segments
shared = (allocate (allocate [] 1 4096 (some 0x7000)).0 1 8192 none).0

second : (allocate (allocate [] 1 4096 (some 0x7000)).0 1 8192 none).1 ≡ some 0x7000
unfolding allocate lookup insert
second = refl

none-IsCounted : IsCounted []
unfolding lookup
none-IsCounted name s e = cc

shared-IsCounted : IsCounted shared
shared-IsCounted =
    allocate-IsCounted _ 1 8192 none (allocate-IsCounted [] 1 4096 (some 0x7000) none-IsCounted)

allocate-IsCounted_example : IsCounted (allocate [] 1 4096 (some 0x7000)).0
allocate-IsCounted_example = allocate-IsCounted [] 1 4096 (some 0x7000) none-IsCounted

deallocate-holders_example : holders (deallocate shared 1).0 2 ≡ holders shared 2
deallocate-holders_example = (deallocate-holders shared 1 2 shared-IsCounted).0
