-- ===== src/Files/Descriptors/Opening.antt =====
-- What `openFile` does on each of its paths.
use kernelc_moderne.Prelude.{
  ℕ, ◌≡◌, ◌≢◌, refl, sym, ap, subst, ◌+◌, ◌%◌, ◌^◌, inl, inr, ◌⊎◌, true, false, [], ◌∷◌, ◌++◌,
  Option, none, some, Bool-cases, Option-cases, Text, eq_text, eq_text_sound, eq_text_refl,
}
use kernelc_moderne.Files.Paths.{Drivers, get_mount_point, validate_path}
use kernelc_moderne.Files.Paths.Mounts.{Mounted, here, there, IsLongest, get_mount_point-IsLongest}
use kernelc_moderne.Files.Descriptors.{
  FileDescriptor, FileTable, OpenError, Backend, create_file_descriptor, driver_at, ready_driver,
  get_driver_for_path, open_with, open_uncached, open_file,
}

-- `d` is the driver of the first entry of the mount point.
pub data Entry (mount : Text) : Drivers → ℕ → Type 0 where
  at_head : {d : ℕ} {rest : Drivers} → Entry mount ((mount, d) ∷ rest) d
  in_rest :
      {other : Text} {e d : ℕ} {rest : Drivers}
      → other ≢ mount
      → Entry mount rest d
      → Entry mount ((other, e) ∷ rest) d

-- The descriptor that a successful call returns, and the table with it.
abbrev pub added_descriptor : FileTable → Text → ℕ → FileDescriptor
added_descriptor t path flags = record {
  id = t.next_file_descriptor_id;
  path = path;
  flags = flags;
  position = 0;
}

abbrev pub added : FileTable → Text → ℕ → FileTable
added t path flags = record {
  next_file_descriptor_id = (t.next_file_descriptor_id + 1) % 2 ^ 32;
  open_files = t.open_files ++ (added_descriptor t path flags ∷ []);
}

module _ {World : Type 0} (backend : Backend World) (drivers : Drivers) where
  -- The driver of the longest mount point that starts the path, with the world that its
  -- initialisation leaves: none if that mount point is empty or the initialisation fails.
  pub data Chosen (w : World) (path : Text) : World → Option ℕ → Type 0 where
    unmounted : IsLongest drivers path [] → Chosen w path w none
    failed :
        (mount : Text) (d : ℕ) (w' : World)
        → mount ≢ []
        → IsLongest drivers path mount
        → Entry mount drivers d
        → backend.is_initialized w d ≡ false
        → backend.initialize w d ≡ (w', false)
        → Chosen w path w' none
    already :
        (mount : Text) (d : ℕ)
        → mount ≢ []
        → IsLongest drivers path mount
        → Entry mount drivers d
        → backend.is_initialized w d ≡ true
        → Chosen w path w (some d)
    initialized :
        (mount : Text) (d : ℕ) (w' : World)
        → mount ≢ []
        → IsLongest drivers path mount
        → Entry mount drivers d
        → backend.is_initialized w d ≡ false
        → backend.initialize w d ≡ (w', true)
        → Chosen w path w' (some d)

  -- The five ways in which the call ends, each with what leads there and its whole result.
  pub data Outcome (w : World) (t : FileTable) (path : Text) (flags : ℕ)
      : World × FileTable × (FileDescriptor ⊎ OpenError) → Type 0 where
    invalid :
        validate_path (backend.permitted w) drivers path ≡ false
        → Outcome w t path flags (w, t, inr OpenError.invalid_path)
    from_cache :
        validate_path (backend.permitted w) drivers path ≡ true
        → backend.cached w path ≡ true
        → Outcome w t path flags (w, added t path flags, inl (added_descriptor t path flags))
    without_driver :
        (w' : World)
        → validate_path (backend.permitted w) drivers path ≡ true
        → backend.cached w path ≡ false
        → Chosen w path w' none
        → Outcome w t path flags (w', t, inr OpenError.no_driver)
    refused :
        (w' w'' : World) (d e : ℕ)
        → validate_path (backend.permitted w) drivers path ≡ true
        → backend.cached w path ≡ false
        → Chosen w path w' (some d)
        → backend.open_on w' d path flags ≡ (w'', inr e)
        → Outcome w t path flags (w'', t, inr (OpenError.driver_failed e))
    opened :
        (w' w'' : World) (d file : ℕ)
        → validate_path (backend.permitted w) drivers path ≡ true
        → backend.cached w path ≡ false
        → Chosen w path w' (some d)
        → backend.open_on w' d path flags ≡ (w'', inl file)
        → Outcome w t path flags
            (backend.store w'' path file, added t path flags, inl (added_descriptor t path flags))

driver_at-Entry :
    (mount : Text) (table : Drivers)
    → Mounted mount table
    → (d : ℕ) × (driver_at mount table ≡ some d) × Entry mount table d
unfolding driver_at
driver_at-Entry mount [] m = elim m [ ]
driver_at-Entry mount ((_, _) ∷ _) (here d rest) = (d, rw (eq_text_refl mount) refl, at_head)
driver_at-Entry mount ((_, _) ∷ _) (there (other, e) {rest} m) =
    let (d, found, entry) = driver_at-Entry mount rest m in
    elim (Bool-cases (eq_text other mount)) [
      | inl same ↦ (
        e,
        rw same refl,
        subst (λ k. Entry mount ((k, e) ∷ rest) e) (sym (eq_text_sound other mount same)) at_head,
      )
      | inr differ ↦ (d, rw differ found, in_rest (distinct differ) entry)
    ]
  where
    distinct : eq_text other mount ≡ false → other ≢ mount
    distinct differ eq = let same : eq_text other mount ≡ true = rw eq (eq_text_refl mount) in cc

module _ {World : Type 0} (backend : Backend World) (drivers : Drivers) (w : World)
    (path : Text) where
  ready_driver-Chosen :
      (d : ℕ)
      → get_mount_point drivers path ≢ []
      → Entry (get_mount_point drivers path) drivers d
      → Chosen backend drivers w path
          (ready_driver backend drivers w d).0
          (ready_driver backend drivers w d).1
  unfolding ready_driver
  ready_driver-Chosen d some_mount entry =
      let longest = get_mount_point-IsLongest drivers path in
      elim (Bool-cases (backend.is_initialized w d)) [
        | inl e ↦ rw e (already _ d some_mount longest entry e)
        | inr e ↦ elim (Bool-cases (backend.initialize w d).1) [
          | inl f ↦
              rw (ready_driver, e, f)
                (initialized _ d _ some_mount longest entry e
                  (ap (λ b. ((backend.initialize w d).0, b)) f))
          | inr f ↦
              rw (ready_driver, e, f)
                (failed _ d _ some_mount longest entry e
                  (ap (λ b. ((backend.initialize w d).0, b)) f))
        ]
      ]

  get_driver_for_path-Chosen :
      Chosen backend drivers w path
        (get_driver_for_path backend drivers w path).0
        (get_driver_for_path backend drivers w path).1
  unfolding get_driver_for_path
  get_driver_for_path-Chosen =
      let longest = get_mount_point-IsLongest drivers path in
      elim (Bool-cases (eq_text (get_mount_point drivers path) [])) [
        | inl e ↦ rw e (
            unmounted (
              subst (IsLongest drivers path) (eq_text_sound (get_mount_point drivers path) [] e)
                longest))
        | inr e ↦ elim longest.known [
          | inl empty ↦ absurd (clash e empty)
          | inr m ↦
              let (d, found, entry) = driver_at-Entry (get_mount_point drivers path) drivers m in
              rw (e, found) (ready_driver-Chosen d (clash e) entry)
        ]
      ]
    where
      clash : eq_text (get_mount_point drivers path) [] ≡ false → get_mount_point drivers path ≢ []
      clash e eq =
          let same : eq_text (get_mount_point drivers path) [] ≡ true = rw eq (eq_text_refl []) in
          cc

  module _ (t : FileTable) (flags : ℕ) where
    open_with-Outcome :
        (w' : World) (d : ℕ)
        → validate_path (backend.permitted w) drivers path ≡ true
        → backend.cached w path ≡ false
        → Chosen backend drivers w path w' (some d)
        → Outcome backend drivers w t path flags (open_with backend drivers w' t d path flags)
    unfolding open_with create_file_descriptor
    open_with-Outcome w' d valid uncached chosen = go (backend.open_on w' d path flags).1 refl
      where
        go :
            (result : ℕ ⊎ ℕ)
            → (backend.open_on w' d path flags).1 ≡ result
            → Outcome backend drivers w t path flags (open_with backend drivers w' t d path flags)
        go (inr e) f =
            rw (f, open_with)
              (refused w' _ d e valid uncached chosen
                (ap (λ r. ((backend.open_on w' d path flags).0, r)) f))
        go (inl file) f =
            rw (f, open_with)
              (opened w' _ d file valid uncached chosen
                (ap (λ r. ((backend.open_on w' d path flags).0, r)) f))

    open_uncached-Outcome :
        validate_path (backend.permitted w) drivers path ≡ true
        → backend.cached w path ≡ false
        → Outcome backend drivers w t path flags (open_uncached backend drivers w t path flags)
    unfolding open_uncached
    open_uncached-Outcome valid uncached =
        elim (Option-cases (get_driver_for_path backend drivers w path).1) [
          | inl e ↦
              rw (e, open_uncached)
                (without_driver _ valid uncached
                  (subst (Chosen backend drivers w path _) e get_driver_for_path-Chosen))
          | inr (d, e) ↦
              rw (e, open_uncached)
                (open_with-Outcome _ d valid uncached
                  (subst (Chosen backend drivers w path _) e get_driver_for_path-Chosen))
        ]

-- `openFile` ends in one of five ways. A path that is not valid is refused and changes nothing. A
-- cached path gets a descriptor. Otherwise the driver is the first one of the longest mount point
-- that starts the path, initialised if it was not; if that mount point is empty or the
-- initialisation fails, the call fails for want of a driver; if the driver does not open the file,
-- the call fails with the driver's error; and if it does, the file is stored in the cache, whatever
-- the cache then holds, and the path gets a descriptor. Only a success changes the table: it adds
-- the descriptor that the call returns, with the next identifier, position 0 and the flags.
pub open_file-Outcome :
    {World : Type 0} (backend : Backend World) (drivers : Drivers) (w : World) (t : FileTable)
    (path : Text) (flags : ℕ)
    → Outcome backend drivers w t path flags (open_file backend drivers w t path flags)
unfolding open_file create_file_descriptor
open_file-Outcome backend drivers w t path flags =
    elim (Bool-cases (validate_path (backend.permitted w) drivers path)) [
      | inr e ↦ rw e (invalid e)
      | inl e ↦ elim (Bool-cases (backend.cached w path)) [
        | inl e' ↦ rw (e, e') (from_cache e e')
        | inr e' ↦ rw (e, e') (open_uncached-Outcome backend drivers w path t flags e e')
      ]
    ]
