-- ===== src/Fpga/Life/Left.antt =====
-- What is still held after probing and removing the FPGA, whatever the kernel answers.
use meta_bisdn_linux.Base.{
  ℕ, ◌+◌, ◌≡◌, refl, ap, subst, ◌∙◌, arith, [], ◌∷◌, ℤ, Bool, true, false, is_zero, ltb, leb, ◌&&◌,
  if◌then◌else◌,
}
use meta_bisdn_linux.Fpga.Bus.{max_channel}
use meta_bisdn_linux.Fpga.Life.{
  Resource, driver_data, dev_number, fpga_class, fpga_udev, pci_device, pci_region, mapping, irq,
  fpga_cdev, adapter, released, stored, cdev_added, has_irq, has_irq_vec_count, has_fpga_base,
  pci_region_requested, pci_enabled, has_fpga_udev, has_fpga_class, has_fpga_dev_number,
  del_adapters, Log, Answers, probe_cdev, probe_mapping, probe_region, probe_device, probe_udev,
  probe_class, probe_number, fpga_pci_probe, fpga_pci_remove, fail_to_alloc_fpga_pci_dev,
  fail_to_alloc_dev_number, fail_to_create_fpga_class, fail_to_create_fpga_udev,
  fail_to_enable_pci_device, fail_to_request_pci_region, fail_to_remap_pci_resource,
  fail_to_add_fpga_cdev,
}
use meta_bisdn_linux.Fpga.Life.Balance.{
  is_complete, Ended, use_of, End, before_mapping, at_cdev, complete, end_of, end_of_mapping,
  end_of_device, end_of_class, left_of, dels_adapter, dels_other,
}
use meta_bisdn_linux.Base.Uses.{free, give}
use meta_bisdn_linux.Fpga.Life.Loop.{
  with_data, with_number, with_class, with_udev, with_device, with_region, with_mapping,
  adapters_end,
}
use meta_bisdn_linux.Fpga.Life.Stored.{Known, probe-Stored}

-- It is enough to look at each resource.
each :
    (end : End) (log : Log)
    → use_of driver_data log ≡ left_of end driver_data
    → use_of dev_number log ≡ left_of end dev_number
    → use_of fpga_class log ≡ left_of end fpga_class
    → use_of fpga_udev log ≡ left_of end fpga_udev
    → use_of pci_device log ≡ left_of end pci_device
    → use_of pci_region log ≡ left_of end pci_region
    → use_of mapping log ≡ left_of end mapping
    → use_of irq log ≡ left_of end irq
    → use_of fpga_cdev log ≡ left_of end fpga_cdev
    → ((i : ℕ) → use_of (adapter i) log ≡ left_of end (adapter i))
    → (r : Resource) → use_of r log ≡ left_of end r
each end log a b c d e f g h i j driver_data = a
each end log a b c d e f g h i j dev_number = b
each end log a b c d e f g h i j fpga_class = c
each end log a b c d e f g h i j fpga_udev = d
each end log a b c d e f g h i j pci_device = e
each end log a b c d e f g h i j pci_region = f
each end log a b c d e f g h i j mapping = g
each end log a b c d e f g h i j irq = h
each end log a b c d e f g h i j fpga_cdev = i
each end log a b c d e f g h i j (adapter k) = j k

-- One step of the probe: on a failure it ends, otherwise it goes on.
step_end :
    (ok : Bool) (end last : End) (err : ℤ) (log : Log) (rest : ℤ × Log)
    → (ok ≡ false → is_zero err ≡ is_complete last)
    → ((r : Resource) → use_of r log ≡ left_of last r)
    → Ended end rest
    → Ended (if ok then end else last) (elim ok [ true ↦ rest | false ↦ (err, log) ])
step_end true end last err log rest h left e = e
step_end false end last err log rest h left e = (h refl, left)

mapping_end : (a : Answers) → Ended (end_of_mapping a) (probe_mapping a with_region)
unfolding probe_mapping probe_cdev
mapping_end a =
    step_end a.pci_iomap _ _ _ _ _ (λ e. refl)
      (each before_mapping (fail_to_remap_pci_resource (stored has_fpga_base false ∷ with_region))
        refl refl refl refl refl refl refl refl refl (λ i. refl))
      (step_end (is_zero a.cdev_add) _ _ _ _ _ (λ e. e)
        (each at_cdev (fail_to_add_fpga_cdev with_mapping) refl refl refl refl refl refl refl refl
          refl (λ i. refl))
        (adapters_end a))

device_end : (a : Answers) → Ended (end_of_device a) (probe_device a with_udev)
unfolding probe_device probe_region
device_end a =
    step_end (is_zero a.pci_enable_device) _ _ _ _ _ (λ e. e)
      (each before_mapping (fail_to_enable_pci_device with_udev) refl refl refl refl refl refl refl
        refl refl (λ i. refl))
      (step_end (is_zero a.pci_request_region) _ _ _ _ _ (λ e. e)
        (each before_mapping (fail_to_request_pci_region with_device) refl refl refl refl refl refl
          refl refl refl (λ i. refl))
        (mapping_end a))

class_end : (a : Answers) → Ended (end_of_class a) (probe_class a with_number)
unfolding probe_class probe_udev
class_end a =
    step_end (is_zero a.class_create) _ _ _ _ _ (λ e. e)
      (each before_mapping (fail_to_create_fpga_class (stored has_fpga_class true ∷ with_number))
        refl refl refl refl refl refl refl refl refl (λ i. refl))
      (step_end (is_zero a.device_create) _ _ _ _ _ (λ e. e)
        (each before_mapping (fail_to_create_fpga_udev (stored has_fpga_udev true ∷ with_class))
          refl refl refl refl refl refl refl refl refl (λ i. refl))
        (device_end a))

-- Whatever the kernel answers, fpga_pci_probe returns 0 exactly if it comes to its end. Before the
-- registers are mapped, a probe that fails leaves nothing; after it, the mapping stays, an
-- interrupt is freed that was never requested, and, once the character device is added, that stays
-- as well and all adapters are deleted, also those that were not added. At its end it holds all it
-- took.
pub probe_left : (a : Answers) → Ended (end_of a) (fpga_pci_probe a [])
unfolding fpga_pci_probe probe_number
probe_left a =
    step_end a.kzalloc _ _ _ _ _ (λ e. refl)
      (each before_mapping (fail_to_alloc_fpga_pci_dev []) refl refl refl refl refl refl refl refl
        refl (λ i. refl))
      (step_end (is_zero a.alloc_chrdev_region) _ _ _ _ _ (λ e. e)
        (each before_mapping (fail_to_alloc_dev_number with_data) refl refl refl refl refl refl refl
          refl refl (λ i. refl))
        (class_end a))

-- What fpga_pci_remove has given back before the loop over the adapters, after such a probe.
abbrev given_back : Log → Log
given_back log =
    released dev_number
    ∷ released fpga_class
    ∷ released fpga_udev
    ∷ released pci_device
    ∷ released pci_region
    ∷ released mapping
    ∷ released fpga_cdev
    ∷ log

remove_lem :
    (log : Log)
    → Known log
    → fpga_pci_remove log ≡ released driver_data ∷ del_adapters max_channel 0 (given_back log)
unfolding fpga_pci_remove
remove_lem log (known, given) =
    rw
      (
        given,
        known cdev_added,
        known has_irq,
        known has_irq_vec_count,
        known has_fpga_base,
        known pci_region_requested,
        known pci_enabled,
        known has_fpga_udev,
        known has_fpga_class,
        known has_fpga_dev_number,
        fpga_pci_remove,
      )
      refl

removed_left :
    (log : Log)
    → ((r : Resource) → use_of r log ≡ left_of complete r)
    → (r : Resource)
    → use_of r (released driver_data ∷ del_adapters max_channel 0 (given_back log)) ≡ free
removed_left log h driver_data =
    ap give (dels_other driver_data max_channel 0 (given_back log) (λ j. refl) ∙ h driver_data)
removed_left log h dev_number =
    dels_other dev_number max_channel 0 (given_back log) (λ j. refl) ∙ ap give (h dev_number)
removed_left log h fpga_class =
    dels_other fpga_class max_channel 0 (given_back log) (λ j. refl) ∙ ap give (h fpga_class)
removed_left log h fpga_udev =
    dels_other fpga_udev max_channel 0 (given_back log) (λ j. refl) ∙ ap give (h fpga_udev)
removed_left log h pci_device =
    dels_other pci_device max_channel 0 (given_back log) (λ j. refl) ∙ ap give (h pci_device)
removed_left log h pci_region =
    dels_other pci_region max_channel 0 (given_back log) (λ j. refl) ∙ ap give (h pci_region)
removed_left log h mapping =
    dels_other mapping max_channel 0 (given_back log) (λ j. refl) ∙ ap give (h mapping)
removed_left log h fpga_cdev =
    dels_other fpga_cdev max_channel 0 (given_back log) (λ j. refl) ∙ ap give (h fpga_cdev)
removed_left log h irq = dels_other irq max_channel 0 (given_back log) (λ j. refl) ∙ h irq
removed_left log h (adapter i) =
    dels_adapter i max_channel 0 (given_back log)
    ∙ ap (λ u. if leb 0 i && ltb i (0 + max_channel) then give u else u) (h (adapter i))
    ∙ ground arith

-- fpga_pci_remove after a probe that came to its end, with the data as that probe left them, leaves
-- every resource free, given back once.
pub remove_left :
    (a : Answers) (r : Resource)
    → end_of a ≡ complete
    → use_of r (fpga_pci_remove (fpga_pci_probe a []).1) ≡ free
remove_left a r e =
    let log = (fpga_pci_probe a []).1 in
    let known = probe-Stored a (ap is_complete e) in
    ap (use_of r) (remove_lem log known)
    ∙ removed_left log
        (subst (λ end. (q : Resource) → use_of q log ≡ left_of end q) e (probe_left a).1) r
