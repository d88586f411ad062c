-- ===== src/Files/Descriptors/Tests.antt =====
-- A table with two descriptors, and a cache of paths.
use kernelc_moderne.Prelude.{inl, Bool, true, false, ◌||◌, List, [], ◌∷◌, Text, eq_text}
use kernelc_moderne.Files.Descriptors.{FileTable, Backend, open_file}
use kernelc_moderne.Files.Descriptors.Opening.{Outcome, open_file-Outcome}

-- "/a"
abbrev path : Text
path = 47 ∷ 97 ∷ []

abbrev table : FileTable
table = record {
  next_file_descriptor_id = 3;
  open_files =
      record { id = 0; path = path; flags = 1; position = 5 }
      ∷ record { id = 2; path = path; flags = 1; position = 0 }
      ∷ [];
}

abbrev knows : Text → List Text → Bool
knows p [] = false
knows p (q ∷ qs) = eq_text q p || knows p qs

-- The world is the list of the cached paths.
abbrev backend : Backend (List Text)
backend = record {
  permitted = λ w p. false;
  cached = λ w p. knows p w;
  store = λ w p file. p ∷ w;
  is_initialized = λ w d. true;
  initialize = λ w d. (w, true);
  open_on = λ w d p flags. (w, inl 4);
}

-- The cache does not know the path: the driver 6 of the mount point "/" opens it as file 4.
open_file-Outcome_example :
    Outcome backend
      ((47 ∷ [], 6) ∷ [])
      []
      table
      path
      1
      (open_file backend ((47 ∷ [], 6) ∷ []) [] table path 1)
open_file-Outcome_example = open_file-Outcome backend ((47 ∷ [], 6) ∷ []) [] table path 1
