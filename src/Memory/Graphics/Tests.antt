-- ===== src/Memory/Graphics/Tests.antt =====
-- Two free blocks with one in use behind them, out of order.
use kernelc_moderne.Prelude.{◌<◌, ◌≡◌, refl, [], ◌∷◌, true, false, some, ◌++◌, length, arith}
use kernelc_moderne.Memory.Graphics.{
  MemoryBlock, MemoryPool, insert_block, sort_blocks, merge_from, merge_free, compact, defragment,
  reserve_in, Reservation, reserve_memory_block,
}
use kernelc_moderne.Memory.Graphics.Merging.{byte_count, used_blocks, is_merged, free_size}
use kernelc_moderne.Memory.Graphics.Compacting.{drop, compact-used_blocks}
use kernelc_moderne.Memory.Graphics.Reserving.{is_nonempty, reserve_memory_block-running}

abbrev first : MemoryBlock
first = record { address = 0; size = 100; is_free = true }

abbrev second : MemoryBlock
second = record { address = 100; size = 50; is_free = true }

abbrev third : MemoryBlock
third = record { address = 150; size = 200; is_free = false }

program : Unit {0}
unfolding insert_block sort_blocks merge_from merge_free compact defragment reserve_in
    reserve_memory_block byte_count used_blocks is_merged free_size is_nonempty drop
program = tt

-- The block in use is in the list twice, and the free bytes are not in it any more.
defragment_test :
    defragment (third ∷ second ∷ first ∷ []) ≡ some (third ∷ third ∷ [], (150, 0, 200) ∷ [])
unfolding program
defragment_test = refl

reserve_test :
    reserve_memory_block 1 40
      (record { total_size = 350; used_size = 200; blocks = first ∷ third ∷ [] })
    ≡ Reservation.reserved (record {
      total_size = 350;
      used_size = 240;
      blocks =
          record { address = 0; size = 40; is_free = false }
          ∷ record { address = 40; size = 60; is_free = true }
          ∷ third
          ∷ [];
    })
unfolding program
reserve_test = refl

compact-used_blocks_example :
    (compact (length (first ∷ third ∷ [])) 0 0 (first ∷ third ∷ [])).0
    ≡ used_blocks (first ∷ third ∷ [])
      ++ drop (length (used_blocks (first ∷ third ∷ []))) (first ∷ third ∷ [])
compact-used_blocks_example = compact-used_blocks (first ∷ third ∷ [])

abbrev pool : MemoryPool
pool = record { total_size = 350; used_size = 200; blocks = third ∷ second ∷ first ∷ [] }

pool_nonempty : is_nonempty pool.blocks ≡ true
unfolding program
pool_nonempty = refl

pool_free : free_size pool.blocks < 200
unfolding program
pool_free = omega arith

reserve_memory_block-running_example : reserve_memory_block 1000 200 pool ≡ Reservation.running
reserve_memory_block-running_example =
    reserve_memory_block-running 1000 200 pool pool_nonempty pool_free
