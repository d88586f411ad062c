-- ===== src/Files/Descriptors.antt =====
-- filesystem/VirtualFileSystem.hpp: opening files, finding their driver, and the table of
-- descriptors. The file cache and the drivers have no body in the repository: they are the
-- operations of an interface over a world. The lock makes each operation one step.
pub mod Table
pub mod Opening
mod Tests
use kernelc_moderne.Prelude.{
  ℕ, ◌+◌, ◌%◌, ◌^◌, Bool, true, false, not, List, [], ◌∷◌, ◌++◌, Option, none, some, ◌==◌,
  if◌then◌else◌, inl, inr, ◌⊎◌, Text, eq_text,
}
use kernelc_moderne.Files.Paths.{Drivers, validate_path, get_mount_point}

pub record FileDescriptor : Type 0 where
  pub id : ℕ
  pub path : Text
  pub flags : ℕ
  pub position : ℕ

pub record FileTable : Type 0 where
  pub next_file_descriptor_id : ℕ
  pub open_files : List FileDescriptor

-- The identifiers have 32 bits.
abbrev pub id_mod : ℕ
id_mod = 2 ^ 32

pub create_file_descriptor : FileTable → Text → ℕ → FileTable × FileDescriptor
create_file_descriptor t path flags =
    let fd : FileDescriptor = record {
      id = t.next_file_descriptor_id;
      path = path;
      flags = flags;
      position = 0;
    } in
    (
      record {
        next_file_descriptor_id = (t.next_file_descriptor_id + 1) % id_mod;
        open_files = t.open_files ++ (fd ∷ []);
      },
      fd,
    )

-- `find_if` on the identifier
pub find_descriptor : ℕ → List FileDescriptor → Option FileDescriptor
find_descriptor id [] = none
find_descriptor id (fd ∷ fds) =
    let rest = find_descriptor id fds in if fd.id == id then some fd else rest

-- `openFiles.erase(it)` for what it finds
pub erase_descriptor : ℕ → List FileDescriptor → List FileDescriptor
erase_descriptor id [] = []
erase_descriptor id (fd ∷ fds) =
    let rest = erase_descriptor id fds in if fd.id == id then fds else fd ∷ rest

-- `false` is the error "Invalid file descriptor".
pub close_file_descriptor : FileTable → ℕ → FileTable × Bool
close_file_descriptor t id = elim (find_descriptor id t.open_files) [
  | none ↦ (t, false)
  | some fd ↦ (record t { open_files = erase_descriptor id t.open_files }, true)
]

pub data OpenError : Type 0 where
  invalid_path no_driver : OpenError
  driver_failed : ℕ → OpenError

-- What `openFile` calls. A driver is the number that the table of mount points gives.
pub record Backend (World : Type 0) : Type 0 where
  pub permitted : World → Text → Bool
  pub cached : World → Text → Bool
  pub store : World → Text → ℕ → World
  pub is_initialized : World → ℕ → Bool
  pub initialize : World → ℕ → World × Bool
  -- A file, or the driver's error.
  pub open_on : World → ℕ → Text → ℕ → World × (ℕ ⊎ ℕ)

-- `fsDrivers.at(mountPoint)`, `none` where it throws.
pub driver_at : Text → Drivers → Option ℕ
driver_at mount [] = none
driver_at mount ((m, d) ∷ rest) =
    let later = driver_at mount rest in if eq_text m mount then some d else later

module _ {World : Type 0} (backend : Backend World) (drivers : Drivers) where
  -- The part of `getDriverForPath` on a driver that was found.
  pub ready_driver : World → ℕ → World × Option ℕ
  ready_driver w d =
      if backend.is_initialized w d
      then (w, some d)
      else (let (w', done) = backend.initialize w d in
          if not done then (w', none) else (w', some d))

  pub get_driver_for_path : World → Text → World × Option ℕ
  get_driver_for_path w path =
      if eq_text (get_mount_point drivers path) []
      then (w, none)
      else (elim (driver_at (get_mount_point drivers path) drivers) [
        | none ↦ (w, none)
        | some d ↦ ready_driver w d
      ])

  -- The end of `openFile`, from the call of the driver.
  pub open_with :
      World → FileTable → ℕ → Text → ℕ → World × FileTable × (FileDescriptor ⊎ OpenError)
  open_with w t d path flags =
      let (w', opened) = backend.open_on w d path flags in
      elim opened [
        | inr e ↦ (w', t, inr (OpenError.driver_failed e))
        | inl file ↦
            let (t', fd) = create_file_descriptor t path flags in
            (backend.store w' path file, t', inl fd)
      ]

  -- `openFile` past the cache.
  pub open_uncached :
      World → FileTable → Text → ℕ → World × FileTable × (FileDescriptor ⊎ OpenError)
  open_uncached w t path flags =
      let (w', driver) = get_driver_for_path w path in
      elim driver [ none ↦ (w', t, inr OpenError.no_driver) | some d ↦ open_with w' t d path flags ]

  pub open_file : World → FileTable → Text → ℕ → World × FileTable × (FileDescriptor ⊎ OpenError)
  open_file w t path flags =
      if not (validate_path (backend.permitted w) drivers path)
      then (w, t, inr OpenError.invalid_path)
      else if backend.cached w path
      then (let (t', fd) = create_file_descriptor t path flags in (w, t', inl fd))
      else open_uncached w t path flags
