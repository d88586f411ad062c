-- ===== src/Boot/Pci/Endless.antt =====
-- The loop over the buses never ends: its variable wraps before it reaches 256.
use mathlib.Core.List.{append-nil}
use kernelc_moderne.Prelude.{
  ℕ, zero, suc, ◌≡◌, ◌<◌, refl, sym, ◌∙◌, ap, ◌+◌, ◌*◌, ◌%◌, List, [], ◌++◌, append_assoc, lt→ltb,
  arith,
}
use kernelc_moderne.Boot.Pci.{PciDevice, PciRead, probe_devices, Probing, probe_buses}

-- The devices of some buses, from `bus` on and back to 0 after 255.
unfoldable pub scan : PciRead → ℕ → ℕ → List PciDevice
scan pci_read zero bus = []
scan pci_read (suc n) bus = probe_devices pci_read 32 bus 0 ++ scan pci_read n ((bus + 1) % 256)

unfoldable pub copies : ℕ → List PciDevice → List PciDevice
copies zero devices = []
copies (suc k) devices = devices ++ copies k devices

module _ (pci_read : PciRead) where
  pub probe_buses-scan :
      (rounds bus : ℕ) (found : List PciDevice)
      → bus < 256
      → probe_buses pci_read rounds bus found ≡ Probing.probing (found ++ scan pci_read rounds bus)
  unfolding probe_buses scan
  probe_buses-scan zero bus found h = ap Probing.probing (sym (append-nil found))
  probe_buses-scan (suc rounds) bus found h = rw (lt→ltb bus 256 h) (
      probe_buses-scan rounds ((bus + 1) % 256) (found ++ probe_devices pci_read 32 bus 0)
        (omega arith)
      ∙ ap Probing.probing (append_assoc found _ _))

  pub scan_add :
      (m n bus : ℕ)
      → bus < 256
      → scan pci_read (m + n) bus ≡ scan pci_read m bus ++ scan pci_read n ((bus + m) % 256)
  unfolding scan
  scan_add zero n bus h =
      let same : 0 + n ≡ n = omega arith in
      let back : (bus + 0) % 256 ≡ bus = omega (arith, h) in rw (same, back) refl
  scan_add (suc m) n bus h =
      let next : suc m + n ≡ suc (m + n) = omega arith in
      let there : ((bus + 1) % 256 + m) % 256 ≡ (bus + suc m) % 256 = omega arith in
      rw (next, scan_add m n ((bus + 1) % 256) (omega arith), there)
        (sym (append_assoc (probe_devices pci_read 32 bus 0) _ _))

  scan-none : (bus : ℕ) → scan pci_read 0 bus ≡ []
  unfolding scan
  scan-none bus = refl

  pub scan-copies : (k : ℕ) → scan pci_read (k * 256) 0 ≡ copies k (scan pci_read 256 0)
  unfolding copies
  scan-copies zero = scan-none 0
  scan-copies (suc k) =
      let next : suc k * 256 ≡ 256 + k * 256 = omega arith in
      rw (next, scan_add 256 (k * 256) 0 (omega arith))
        (ap (λ l. scan pci_read 256 0 ++ l) (scan-copies k))

-- The loop over the buses never comes to an end. After every 256 rounds, it has put all devices of
-- all buses into the list once more.
pub probe_buses-endless :
    (pci_read : PciRead) (rounds k : ℕ)
    → ((found : List PciDevice) × (probe_buses pci_read rounds 0 [] ≡ Probing.probing found))
      × (probe_buses pci_read (k * 256) 0 [] ≡ Probing.probing (copies k (scan pci_read 256 0)))
probe_buses-endless pci_read rounds k = (
  (scan pci_read rounds 0, probe_buses-scan pci_read rounds 0 [] (omega arith)),
  probe_buses-scan pci_read (k * 256) 0 [] (omega arith)
      ∙ ap Probing.probing (scan-copies pci_read k),
)
