-- ===== src/Boot/Stages/Reached.antt =====
-- How far `loadKernel` and the stages behind it get.
use kernelc_moderne.Prelude.{
  ◌≡◌, ◌≢◌, refl, ◌∙◌, ◌⊎◌, inl, inr, Bool, true, false, List, [], ◌∷◌, ◌++◌, append_assoc, none,
  some, Option-cases,
}
use kernelc_moderne.Boot.Image.{ImageError, validate_kernel_image}
use kernelc_moderne.Boot.Stages.{
  BootStage, Attempt, BootError, Environment, Loader, handle_boot_error, initialize_memory,
  mount_filesystems, load_kernel,
}

pub Attempt-cases : (a : Attempt) → (a ≡ Attempt.raised) ⊎ ((b : Bool) × (a ≡ Attempt.returned b))
Attempt-cases Attempt.raised = inl refl
Attempt-cases (Attempt.returned b) = inr (b, refl)

abbrev pub ImageOf : Environment → Type 0
ImageOf env = validate_kernel_image env.read_header env.header_size env.kernel_file ≡ none

abbrev pub Made : Attempt → Type 0
Made a = (b : Bool) × (a ≡ Attempt.returned b)

-- The three places where the stages can come to rest, with what leads there.
pub data Rest (env : Environment) (l : Loader) : Loader → Bool → Type 0 where
  booted :
      {l' : Loader}
      → env.kernel_exists ≡ Attempt.returned true
      → ImageOf env
      → Made env.root_made
      → Made env.home_made
      → l'.stage ≡ BootStage.boot_screen
      → l'.errors ≡ l.errors
      → Rest env l l' true
  unmounted :
      {l' : Loader}
      → env.kernel_exists ≡ Attempt.returned true
      → ImageOf env
      → (env.root_made ≡ Attempt.raised) ⊎ (env.home_made ≡ Attempt.raised)
      → l'.stage ≡ BootStage.filesystem_mount
      → l'.errors ≡ l.errors ++ (BootError.mounting_failed ∷ [])
      → Rest env l l' false
  unloaded :
      {l' : Loader}
      → (env.kernel_exists ≢ Attempt.returned true)
        ⊎ ((e : ImageError) × (validate_kernel_image env.read_header env.header_size env.kernel_file
              ≡ some e))
      → l'.stage ≡ l.stage
      → (e : BootError) × (more : List BootError) × (l'.errors ≡ l.errors ++ (e ∷ more))
      → Rest env l l' false

no_kernel_raised :
    (env : Environment) (l : Loader)
    → env.kernel_exists ≡ Attempt.raised
    → load_kernel env l ≡ (handle_boot_error l BootError.loading_error, false)
unfolding load_kernel
no_kernel_raised env l e = rw (load_kernel, e) refl

no_kernel :
    (env : Environment) (l : Loader)
    → env.kernel_exists ≡ Attempt.returned false
    → load_kernel env l ≡ (handle_boot_error l BootError.kernel_missing, false)
unfolding load_kernel
no_kernel env l e = rw (load_kernel, e) refl

bad_image :
    (env : Environment) (l : Loader) (x : ImageError)
    → env.kernel_exists ≡ Attempt.returned true
    → validate_kernel_image env.read_header env.header_size env.kernel_file ≡ some x
    → load_kernel env l ≡ (
      handle_boot_error (handle_boot_error l (BootError.image_error x)) BootError.validation_failed,
      false,
    )
unfolding load_kernel
bad_image env l x e v = rw (load_kernel, e, v) refl

good_image :
    (env : Environment) (l : Loader)
    → env.kernel_exists ≡ Attempt.returned true
    → ImageOf env
    → load_kernel env l ≡ mount_filesystems env (record l { stage = BootStage.filesystem_mount })
unfolding load_kernel mount_filesystems
good_image env l e v = rw (load_kernel, e, v) refl

module _ (env : Environment) (l : Loader) where
  no_root :
      env.root_made ≡ Attempt.raised
      → mount_filesystems env l ≡ (handle_boot_error l BootError.mounting_failed, false)
  unfolding mount_filesystems
  no_root e = rw (mount_filesystems, e) refl

  no_home :
      Made env.root_made
      → env.home_made ≡ Attempt.raised
      → mount_filesystems env l ≡ (handle_boot_error l BootError.mounting_failed, false)
  unfolding mount_filesystems
  no_home (b, e) e' = rw (mount_filesystems, e, e') refl

  mounted :
      Made env.root_made
      → Made env.home_made
      → mount_filesystems env l ≡ (record l { stage = BootStage.boot_screen }, true)
  unfolding mount_filesystems initialize_memory
  mounted (b, e) (b', e') = rw (mount_filesystems, e, e') refl

-- `loadKernel` comes to rest at the boot screen and returns true if the kernel exists, its image
-- is valid and both directories are made; at the mounting of the file systems and returns false if
-- a directory fails; and in the stage where it began and returns false if there is no kernel or
-- the image is not valid. It logs an error exactly if it returns false.
pub load_kernel-Rest :
    (env : Environment) (l : Loader)
    → (l' : Loader) × (ok : Bool) × (load_kernel env l ≡ (l', ok)) × Rest env l l' ok
unfolding handle_boot_error
load_kernel-Rest env l = elim (Attempt-cases env.kernel_exists) [
  | inl e ↦ (
    _,
    _,
    no_kernel_raised env l e,
    Rest.unloaded (inl (λ h. cc)) refl (BootError.loading_error, [], refl),
  )
  | inr (false, e) ↦ (
    _,
    _,
    no_kernel env l e,
    Rest.unloaded (inl (λ h. cc)) refl (BootError.kernel_missing, [], refl),
  )
  | inr (true, e) ↦
      elim (Option-cases (validate_kernel_image env.read_header env.header_size env.kernel_file)) [
        | inr (x, v) ↦ (
          _,
          _,
          bad_image env l x e v,
          Rest.unloaded (inr (x, v)) refl (
            BootError.image_error x,
            BootError.validation_failed ∷ [],
            append_assoc l.errors _ _,
          ),
        )
        | inl v ↦ elim (Attempt-cases env.root_made) [
          | inl f ↦
              (_, _, good_image env l e v ∙ no_root env _ f, Rest.unmounted e v (inl f) refl refl)
          | inr f ↦ elim (Attempt-cases env.home_made) [
            | inl g ↦ (
              _,
              _,
              good_image env l e v ∙ no_home env _ f g,
              Rest.unmounted e v (inr g) refl refl,
            )
            | inr g ↦
                (_, _, good_image env l e v ∙ mounted env _ f g, Rest.booted e v f g refl refl)
          ]
        ]
      ]
]
