-- ===== src/Fpga/Life/Stored.antt =====
-- The fields of the driver's data after a probe that came to its end.
use meta_bisdn_linux.Base.{
  ℕ, zero, suc, ◌+◌, ◌≡◌, refl, sym, subst, ◌∙◌, inl, inr, [], ◌∷◌, ℤ, pos, Bool, true, false,
  true≢false, is_zero, ◌==◌, if◌then◌else◌, Bool-cases,
}
use meta_bisdn_linux.Fpga.Bus.{max_channel}
use meta_bisdn_linux.Fpga.Life.{
  adapter, acquired, Field, cdev_added, has_irq, has_irq_vec_count, has_fpga_base,
  pci_region_requested, pci_enabled, has_fpga_udev, has_fpga_class, has_fpga_dev_number, Log, field,
  has_data, Answers, probe_adapters, probe_cdev, probe_mapping, probe_region, probe_device,
  probe_udev, probe_class, probe_number, fpga_pci_probe,
}
use meta_bisdn_linux.Fpga.Life.Balance.{
  End, is_complete, end_of, end_of_mapping, end_of_device, end_of_class, end_of_adapters, added,
  takes, add_adapters_lem,
}
use meta_bisdn_linux.Fpga.Life.Loop.{with_number, with_udev, with_region, ready, finish}

-- All fields are set but those of the interrupt.
abbrev pub probed : Field → Bool
probed has_irq = false
probed has_irq_vec_count = false
probed _ = true

abbrev pub Known : Log → Type 0
Known log = ((f : Field) → field f log ≡ probed f) × (has_data log ≡ true)

-- A probe that comes to its end has set the fields.
abbrev pub Stored : End → ℤ × Log → Type 0
Stored end r = is_complete end ≡ true → Known r.1

ready-field : (f : Field) → field f ready ≡ probed f
ready-field cdev_added = refl
ready-field has_irq = refl
ready-field has_irq_vec_count = refl
ready-field has_fpga_base = refl
ready-field pci_region_requested = refl
ready-field pci_enabled = refl
ready-field has_fpga_udev = refl
ready-field has_fpga_class = refl
ready-field has_fpga_dev_number = refl

takes-Known : (n i : ℕ) (log : Log) → Known log → Known (takes n i log)
takes-Known zero i log known = known
takes-Known (suc n) i log known = takes-Known n (i + 1) (acquired (adapter i) ∷ log) known

-- One step of the probe: a failure is not the end.
step_Stored :
    (ok : Bool) (end last : End) (err : ℤ) (log : Log) (rest : ℤ × Log)
    → is_complete last ≡ false
    → Stored end rest
    → Stored (if ok then end else last) (elim ok [ true ↦ rest | false ↦ (err, log) ])
step_Stored true end last err log rest h next = next
step_Stored false end last err log rest h next = λ e. absurd (true≢false (sym e ∙ h))

finish-Stored :
    (k : ℕ) (x : ℤ)
    → Stored (end_of_adapters k) (finish ((if k == max_channel then pos 0 else x), takes k 0 ready))
finish-Stored k x = elim (Bool-cases (k == max_channel)) [
  | inl all ↦ rw all (λ _. takes-Known k 0 ready (ready-field, refl))
  | inr less ↦ rw less (λ e. absurd (true≢false (sym e)))
]

adapters_Stored :
    (a : Answers)
    → Stored (end_of_adapters (added a.i2c_add_adapter max_channel 0)) (probe_adapters a ready)
unfolding probe_adapters
adapters_Stored a =
    let f = a.i2c_add_adapter in
    let k = added f max_channel 0 in
    subst (λ o. Stored (end_of_adapters k) (finish o))
      (sym (add_adapters_lem a max_channel 0 ready)) (finish-Stored k (f (0 + k)))

mapping_Stored : (a : Answers) → Stored (end_of_mapping a) (probe_mapping a with_region)
unfolding probe_mapping probe_cdev
mapping_Stored a =
    step_Stored a.pci_iomap _ _ _ _ _ refl
      (step_Stored (is_zero a.cdev_add) _ _ _ _ _ refl (adapters_Stored a))

device_Stored : (a : Answers) → Stored (end_of_device a) (probe_device a with_udev)
unfolding probe_device probe_region
device_Stored a =
    step_Stored (is_zero a.pci_enable_device) _ _ _ _ _ refl
      (step_Stored (is_zero a.pci_request_region) _ _ _ _ _ refl (mapping_Stored a))

class_Stored : (a : Answers) → Stored (end_of_class a) (probe_class a with_number)
unfolding probe_class probe_udev
class_Stored a =
    step_Stored (is_zero a.class_create) _ _ _ _ _ refl
      (step_Stored (is_zero a.device_create) _ _ _ _ _ refl (device_Stored a))

pub probe-Stored : (a : Answers) → Stored (end_of a) (fpga_pci_probe a [])
unfolding fpga_pci_probe probe_number
probe-Stored a =
    step_Stored a.kzalloc _ _ _ _ _ refl
      (step_Stored (is_zero a.alloc_chrdev_region) _ _ _ _ _ refl (class_Stored a))
