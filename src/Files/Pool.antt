-- ===== src/Files/Pool.antt =====
-- filesystem/VirtualFileSystem.cpp, BufferPool and ErrorManager. A buffer is named by its index
-- and stands by its flag `in_use`: its bytes are read back only inside the call that wrote them.
-- Texts are numbers, since the log only keeps them.
pub mod Laws
use kernelc_moderne.Prelude.{
  ℕ, zero, suc, ◌+◌, Bool, true, false, not, List, [], ◌∷◌, ◌++◌, Option, none, some, ltb,
  if◌then◌else◌, length, set, replicate, reverse, min,
}

abbrev pub pool_size : ℕ
pool_size = 1024

abbrev pub buffer_size : ℕ
buffer_size = 4096

pub new_pool : ℕ → List Bool
new_pool n = replicate n false

-- The loop of `acquire`, with the index of the first of the buffers.
unfoldable pub acquire_from : ℕ → List Bool → Option ℕ
acquire_from i [] = none
acquire_from i (used ∷ rest) =
    let later = acquire_from (i + 1) rest in if not used then some i else later

unfoldable pub acquire : List Bool → List Bool × Option ℕ
acquire pool = elim (acquire_from 0 pool) [
  | none ↦ (pool, none)
  | some i ↦ (set pool i true, some i)
]

unfoldable pub release : List Bool → ℕ → List Bool
release pool i = set pool i false

-- `pool.resize(pool.size() + size)`
pub expand : List Bool → ℕ → List Bool
expand pool size = pool ++ replicate size false

pub record ErrorContext : Type 0 where
  pub operation : ℕ
  pub path : ℕ
  pub error_code : ℕ
  pub timestamp : ℕ

abbrev pub max_errors : ℕ
max_errors = 1000

pub pop_front : List ErrorContext → List ErrorContext
pop_front [] = []
pop_front (e ∷ es) = es

pub log_error : List ErrorContext → ErrorContext → List ErrorContext
log_error error_log e =
    let longer = error_log ++ (e ∷ []) in
    if ltb max_errors (length longer) then pop_front longer else longer

-- The first `n` elements.
pub take : ℕ → List ErrorContext → List ErrorContext
take zero es = []
take (suc n) [] = []
take (suc n) (e ∷ es) = e ∷ take n es

-- The newest errors, the newest first.
pub get_recent_errors : List ErrorContext → ℕ → List ErrorContext
get_recent_errors error_log count = take (min count (length error_log)) (reverse error_log)
