-- ===== src/Files/Descriptors/Table.antt =====
-- The table of descriptors: no identifier stands in it twice.
use kernelc_moderne.Prelude.{
  ℕ, ◌+◌, ◌-◌, ◌≤◌, ◌<◌, ◌≡◌, refl, subst, ==_iff, inl, inr, Bool, true, false, List, [], ◌∷◌, ◌++◌,
  Option, none, some, arith, ◌==◌, if◌then◌else◌, Bool-cases, Option-cases, Text,
}
use kernelc_moderne.Files.Descriptors.{
  FileDescriptor, FileTable, id_mod, create_file_descriptor, find_descriptor, erase_descriptor,
  close_file_descriptor,
}

-- How many descriptors have the identifier.
unfoldable pub count : ℕ → List FileDescriptor → ℕ
count k [] = 0
count k (fd ∷ fds) = let rest = count k fds in if fd.id == k then 1 + rest else rest

count-append :
    (k : ℕ) (fds more : List FileDescriptor) → count k (fds ++ more) ≡ count k fds + count k more
unfolding count
count-append k [] more = omega arith
count-append k (fd ∷ fds) more = ground (arith, count-append k fds more)

count-erase_descriptor :
    (k id : ℕ) (fds : List FileDescriptor)
    → count k (erase_descriptor id fds) ≡ (if id == k then count k fds - 1 else count k fds)
unfolding count erase_descriptor
count-erase_descriptor k id [] = ground arith
count-erase_descriptor k id (fd ∷ fds) = ground (arith, count-erase_descriptor k id fds)

find_descriptor-none :
    (k : ℕ) (fds : List FileDescriptor) → count k fds ≡ 0 → find_descriptor k fds ≡ none
unfolding count find_descriptor
find_descriptor-none k [] h = refl
find_descriptor-none k (fd ∷ fds) h = ground (arith, h, find_descriptor-none k fds)

find_descriptor-append :
    (k : ℕ) (fds : List FileDescriptor) (fd : FileDescriptor)
    → count fd.id fds ≡ 0
    → find_descriptor k (fds ++ (fd ∷ [])) ≡ (if fd.id == k then some fd else find_descriptor k fds)
unfolding count find_descriptor
find_descriptor-append k [] fd h = refl
find_descriptor-append k (g ∷ fds) fd h = ground (arith, h, find_descriptor-append k fds fd)

find_descriptor-erase_descriptor :
    (k id : ℕ) (fds : List FileDescriptor)
    → count id fds ≤ 1
    → find_descriptor k (erase_descriptor id fds)
      ≡ (if id == k then none else find_descriptor k fds)
unfolding count find_descriptor erase_descriptor
find_descriptor-erase_descriptor k id [] h = ground arith
find_descriptor-erase_descriptor k id (fd ∷ fds) h =
    ground (arith, h, find_descriptor-erase_descriptor k id fds, find_descriptor-none k fds)

-- No identifier stands in the table twice, and those from the next one on are unused.
pub record IsValid (t : FileTable) : Type 0 where
  pub once : (k : ℕ) → count k t.open_files ≤ 1
  pub unused : (k : ℕ) → t.next_file_descriptor_id ≤ k → count k t.open_files ≡ 0

-- In a valid table whose next identifier is below 2^32 - 1, a new descriptor has an identifier
-- that no other has, is found under it, and changes no other lookup; the table stays valid.
pub create_file_descriptor-IsValid :
    (t : FileTable) (path : Text) (flags k : ℕ)
    → IsValid t
    → t.next_file_descriptor_id + 1 < id_mod
    → let (t', fd) = create_file_descriptor t path flags in
      IsValid t'
      × (find_descriptor fd.id t.open_files ≡ none)
      × (find_descriptor k t'.open_files
          ≡ (if fd.id == k then some fd else find_descriptor k t.open_files))
unfolding create_file_descriptor count
create_file_descriptor-IsValid t path flags k v room =
    let fd : FileDescriptor = record {
      id = t.next_file_descriptor_id;
      path = path;
      flags = flags;
      position = 0;
    } in
    let unused = v.unused t.next_file_descriptor_id (omega arith) in
    (
      record {
        once = λ j. ground (arith, count-append j t.open_files (fd ∷ []), v.once j, v.unused j);
        unused =
            λ j le. ground (arith, le, room, count-append j t.open_files (fd ∷ []), v.unused j);
      },
      find_descriptor-none fd.id t.open_files unused,
      find_descriptor-append k t.open_files fd unused,
    )

unfoldable pub is_found : Option FileDescriptor → Bool
is_found none = false
is_found (some fd) = true

missing :
    (t : FileTable) (id k : ℕ)
    → find_descriptor id t.open_files ≡ none
    → find_descriptor k t.open_files ≡ (if id == k then none else find_descriptor k t.open_files)
missing t id k e = elim (Bool-cases (id == k)) [
  | inl same ↦ rw same (subst (λ j. find_descriptor j t.open_files ≡ none) ((==_iff id k).0 same) e)
  | inr other ↦ rw other refl
]

-- In a valid table, a close succeeds exactly when the identifier is found. Afterwards it is not
-- found any more, and every other lookup is as it was; the table stays valid.
pub close_file_descriptor-IsValid :
    (t : FileTable) (id k : ℕ)
    → IsValid t
    → let (t', done) = close_file_descriptor t id in
      IsValid t'
      × (done ≡ is_found (find_descriptor id t.open_files))
      × (find_descriptor k t'.open_files
          ≡ (if id == k then none else find_descriptor k t.open_files))
unfolding close_file_descriptor is_found
close_file_descriptor-IsValid t id k v = elim (Option-cases (find_descriptor id t.open_files)) [
  | inl e ↦ rw (e, close_file_descriptor) (v, refl, missing t id k e)
  | inr (fd, e) ↦
      rw (e, close_file_descriptor)
        (
          record {
            once = λ j. ground (arith, count-erase_descriptor j id t.open_files, v.once j);
            unused =
                λ j le. ground (arith, le, count-erase_descriptor j id t.open_files, v.unused j);
          },
          refl,
          find_descriptor-erase_descriptor k id t.open_files (v.once id),
        )
]
