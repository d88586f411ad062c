-- ===== src/Memory/Resources/Collecting.antt =====
-- The collection of resources that are out of use.
use kernelc_moderne.Prelude.{ℕ, ◌+◌, List, [], ◌∷◌, if◌then◌else◌}
use kernelc_moderne.Memory.Resources.{ResourceTracker, is_garbage}

-- The resources that are to stay, those that are to go, and their bytes.
unfoldable pub staying : ℕ → List ResourceTracker → List ResourceTracker
staying now [] = []
staying now (t ∷ rest) =
    let others = staying now rest in if is_garbage now t then others else t ∷ others

unfoldable pub going : ℕ → List ResourceTracker → List ℕ
going now [] = []
going now (t ∷ rest) =
    let others = going now rest in if is_garbage now t then t.resource ∷ others else others

unfoldable pub going_size : ℕ → List ResourceTracker → ℕ
going_size now [] = 0
going_size now (t ∷ rest) = (if is_garbage now t then t.size else 0) + going_size now rest
