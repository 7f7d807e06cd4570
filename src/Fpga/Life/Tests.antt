-- ===== src/Fpga/Life/Tests.antt =====
-- Runs of fpga_pci_probe and fpga_pci_remove, and the theorems at them.
use meta_bisdn_linux.Base.{◌≡◌, refl, ℤ, pos, negsuc, true, ◌==◌, if◌then◌else◌, []}
use meta_bisdn_linux.Fpga.Life.{
  Answers, fpga_pci_probe, fpga_pci_remove, adapter, mapping, pci_region, add_adapters,
  del_adapters,
}
use meta_bisdn_linux.Fpga.Life.Balance.{Ended, use_of, end_of, added}
use meta_bisdn_linux.Base.Uses.{free, held, misused}
use meta_bisdn_linux.Fpga.Life.Left.{probe_left, remove_left}

abbrev all_good : Answers
all_good = record {
  kzalloc = true;
  alloc_chrdev_region = pos 0;
  class_create = pos 0;
  device_create = pos 0;
  pci_enable_device = pos 0;
  pci_request_region = pos 0;
  pci_iomap = true;
  cdev_add = pos 0;
  i2c_add_adapter = λ i. pos 0;
}

-- No number is left for the adapter of channel 5.
abbrev sixth_fails : Answers
sixth_fails = record all_good { i2c_add_adapter = λ i. if i == 5 then negsuc 15 else pos 0 }

status : Answers → ℤ
unfolding fpga_pci_probe add_adapters
status a = (fpga_pci_probe a []).0

statuses : (status all_good ≡ pos 0) × (status sixth_fails ≡ negsuc 15)
unfolding status
statuses = (refl, refl)

sixth_use :
    (use_of (adapter 4) (fpga_pci_probe sixth_fails []).1 ≡ free)
    × (use_of (adapter 5) (fpga_pci_probe sixth_fails []).1 ≡ misused)
    × (use_of mapping (fpga_pci_probe sixth_fails []).1 ≡ held)
    × (use_of pci_region (fpga_pci_probe sixth_fails []).1 ≡ free)
unfolding fpga_pci_probe add_adapters del_adapters
sixth_use = (refl, refl, refl, refl)

probe_left_example : Ended (end_of sixth_fails) (fpga_pci_probe sixth_fails [])
probe_left_example = probe_left sixth_fails

remove_left_example : use_of (adapter 33) (fpga_pci_remove (fpga_pci_probe all_good []).1) ≡ free
unfolding added
remove_left_example = remove_left all_good (adapter 33) refl
