-- ===== src/Fpga/Life/Loop.antt =====
-- The end of fpga_pci_probe, from the loop over the adapters on.
use meta_bisdn_linux.Base.{
  ℕ, ◌+◌, ◌≤◌, ◌<◌, ◌≡◌, refl, sym, ap, subst, ◌∙◌, inl, inr, arith, [], ◌∷◌, ℤ, pos, true, false,
  is_zero, ◌==◌, if◌then◌else◌, Bool-cases,
}
use meta_bisdn_linux.Fpga.Bus.{max_channel}
use meta_bisdn_linux.Fpga.Life.{
  Resource, driver_data, dev_number, fpga_class, fpga_udev, pci_device, pci_region, mapping, irq,
  fpga_cdev, adapter, acquired, stored, cdev_added, has_fpga_base, pci_region_requested,
  pci_enabled, has_fpga_udev, has_fpga_class, has_fpga_dev_number, set_drvdata, set_master,
  mask_all_intr, init_smbus, Log, Answers, probe_adapters, fail_to_add_i2c_adapter,
}
use meta_bisdn_linux.Fpga.Life.Balance.{
  Ended, use_of, added, at_adapter, complete, end_of_adapters, left_of, takes, add_adapters_lem,
  added-failed, added-le, takes_adapter, takes_other, deleted_adapter, deleted_other,
}

-- The log of the probe, as it grows.
abbrev pub with_data : Log
with_data = set_drvdata true ∷ acquired driver_data ∷ []

abbrev pub with_number : Log
with_number = stored has_fpga_dev_number true ∷ acquired dev_number ∷ with_data

abbrev pub with_class : Log
with_class = stored has_fpga_class true ∷ acquired fpga_class ∷ with_number

abbrev pub with_udev : Log
with_udev = stored has_fpga_udev true ∷ acquired fpga_udev ∷ with_class

abbrev pub with_device : Log
with_device = stored pci_enabled true ∷ acquired pci_device ∷ with_udev

abbrev pub with_region : Log
with_region = stored pci_region_requested true ∷ acquired pci_region ∷ with_device

abbrev pub with_mapping : Log
with_mapping =
    mask_all_intr ∷ set_master ∷ stored has_fpga_base true ∷ acquired mapping ∷ with_region

abbrev pub ready : Log
ready = stored cdev_added true ∷ acquired fpga_cdev ∷ with_mapping

failed_left :
    (k : ℕ) (r : Resource)
    → k < max_channel
    → use_of r (fail_to_add_i2c_adapter (takes k 0 ready)) ≡ left_of (at_adapter k) r
unfolding fail_to_add_i2c_adapter
failed_left k driver_data h = rw (deleted_other driver_data k ready (λ j. refl)) refl
failed_left k dev_number h = rw (deleted_other dev_number k ready (λ j. refl)) refl
failed_left k fpga_class h = rw (deleted_other fpga_class k ready (λ j. refl)) refl
failed_left k fpga_udev h = rw (deleted_other fpga_udev k ready (λ j. refl)) refl
failed_left k pci_device h = rw (deleted_other pci_device k ready (λ j. refl)) refl
failed_left k pci_region h = rw (deleted_other pci_region k ready (λ j. refl)) refl
failed_left k mapping h = deleted_other mapping k ready (λ j. refl)
failed_left k irq h = rw (deleted_other irq k ready (λ j. refl)) refl
failed_left k fpga_cdev h = deleted_other fpga_cdev k ready (λ j. refl)
failed_left k (adapter i) h = deleted_adapter i k ready h refl

complete_left :
    (r : Resource) → use_of r (init_smbus ∷ takes max_channel 0 ready) ≡ left_of complete r
complete_left driver_data = takes_other driver_data max_channel 0 ready (λ j. refl)
complete_left dev_number = takes_other dev_number max_channel 0 ready (λ j. refl)
complete_left fpga_class = takes_other fpga_class max_channel 0 ready (λ j. refl)
complete_left fpga_udev = takes_other fpga_udev max_channel 0 ready (λ j. refl)
complete_left pci_device = takes_other pci_device max_channel 0 ready (λ j. refl)
complete_left pci_region = takes_other pci_region max_channel 0 ready (λ j. refl)
complete_left mapping = takes_other mapping max_channel 0 ready (λ j. refl)
complete_left irq = takes_other irq max_channel 0 ready (λ j. refl)
complete_left fpga_cdev = takes_other fpga_cdev max_channel 0 ready (λ j. refl)
complete_left (adapter i) = takes_adapter i max_channel 0 ready ∙ ground arith

-- The rest of the probe, after the loop over the adapters.
abbrev pub finish : ℤ × Log → ℤ × Log
finish (retval, log) = elim (is_zero retval) [
  | true ↦ (pos 0, init_smbus ∷ log)
  | false ↦ (retval, fail_to_add_i2c_adapter log)
]

finish_end :
    (k : ℕ) (x : ℤ)
    → k ≤ max_channel
    → ((k == max_channel) ≡ false → is_zero x ≡ false)
    → Ended (end_of_adapters k) (finish ((if k == max_channel then pos 0 else x), takes k 0 ready))
finish_end k x h failed = elim (Bool-cases (k == max_channel)) [
  | inl all ↦
      let e : max_channel ≡ k = ground arith in
      rw all (
        refl,
        λ r.
            subst (λ n. use_of r (init_smbus ∷ takes n 0 ready) ≡ left_of complete r) e
              (complete_left r),
      )
  | inr less ↦
      let bad = failed less in
      let few : k < max_channel = ground arith in
      rw less (rw (bad, finish) (bad, λ r. failed_left k r few))
]

pub adapters_end :
    (a : Answers)
    → Ended (end_of_adapters (added a.i2c_add_adapter max_channel 0)) (probe_adapters a ready)
unfolding probe_adapters
adapters_end a =
    let f = a.i2c_add_adapter in
    let k = added f max_channel 0 in
    subst (Ended (end_of_adapters k)) (sym (ap finish (add_adapters_lem a max_channel 0 ready)))
      (finish_end k (f (0 + k)) (added-le f max_channel 0) (added-failed f max_channel 0))
