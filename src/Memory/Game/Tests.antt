-- ===== src/Memory/Game/Tests.antt =====
-- The theorems at concrete inputs: one page in use, and another.
use kernelc_moderne.Prelude.{refl, some, arith, lookup}
use kernelc_moderne.Memory.Game.{GameMemory, new_memory, allocate_game_memory}
use kernelc_moderne.Memory.Game.Sizes.{total_size}
use kernelc_moderne.Memory.Game.Balance.{IsBalanced, Step, Reach, Reach-IsBalanced}

abbrev one_page : GameMemory
one_page = (allocate_game_memory (some 0x1000) 4096 new_memory).0

one_page-Reach : Reach one_page
unfolding lookup total_size
one_page-Reach = Reach.more Reach.start (Step.allocating (some 0x1000) 4096 (refl, omega arith))

Reach-IsBalanced_example : IsBalanced one_page
Reach-IsBalanced_example = Reach-IsBalanced one_page one_page-Reach
