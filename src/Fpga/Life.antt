-- ===== src/Fpga/Life.antt =====
-- fpga_pci_probe and fpga_pci_remove, without INTERRUPT_SUPPORT: what they take from the kernel and
-- give back.
pub mod Balance
pub mod Loop
pub mod Stored
pub mod Left
mod Tests
use meta_bisdn_linux.Base.{
  ℕ, zero, suc, ◌+◌, List, [], ◌∷◌, ℤ, pos, negsuc, Bool, true, false, is_zero, if◌then◌else◌,
}
use meta_bisdn_linux.Fpga.Bus.{max_channel}

pub data Resource : Type 0 where
  driver_data dev_number fpga_class fpga_udev pci_device pci_region mapping irq fpga_cdev : Resource
  -- the adapter of a channel
  adapter : ℕ → Resource

-- The fields of the driver's data that fpga_pci_remove tests.
pub data Field : Type 0 where
  cdev_added has_irq has_irq_vec_count has_fpga_base pci_region_requested pci_enabled : Field
  has_fpga_udev has_fpga_class has_fpga_dev_number : Field

pub data Act : Type 0 where
  acquired released : Resource → Act
  -- an assignment to a field, of something that is not 0 and not NULL or of something that is
  stored : Field → Bool → Act
  -- pci_set_drvdata, with the data or with NULL
  set_drvdata : Bool → Act
  set_master mask_all_intr init_smbus free_irq_vectors : Act

-- The latest act stands first.
abbrev pub Log : Type 0
Log = List Act

abbrev same_field : Field → Field → Bool
same_field cdev_added cdev_added = true
same_field has_irq has_irq = true
same_field has_irq_vec_count has_irq_vec_count = true
same_field has_fpga_base has_fpga_base = true
same_field pci_region_requested pci_region_requested = true
same_field pci_enabled pci_enabled = true
same_field has_fpga_udev has_fpga_udev = true
same_field has_fpga_class has_fpga_class = true
same_field has_fpga_dev_number has_fpga_dev_number = true
same_field _ _ = false

-- Whether a field is not 0 or not NULL: what was stored there last, or the zero of kzalloc.
abbrev pub field : Field → Log → Bool
field f [] = false
field f (stored g b ∷ log) = if same_field f g then b else field f log
field f (acquired driver_data ∷ log) = false
field f (_ ∷ log) = field f log

-- Whether pci_get_drvdata returns the data.
abbrev pub has_data : Log → Bool
has_data [] = false
has_data (set_drvdata b ∷ log) = b
has_data (_ ∷ log) = has_data log

-- What the kernel answers: whether there was memory or an address, or a status; of the calls that
-- return a pointer, 0 for a good one and the error of an ERR_PTR.
pub record Answers : Type 0 where
  pub kzalloc : Bool
  pub alloc_chrdev_region : ℤ
  pub class_create : ℤ
  pub device_create : ℤ
  pub pci_enable_device : ℤ
  pub pci_request_region : ℤ
  pub pci_iomap : Bool
  pub cdev_add : ℤ
  pub i2c_add_adapter : ℕ → ℤ

abbrev pub enomem : ℤ
enomem = negsuc 11

abbrev pub enodev : ℤ
enodev = negsuc 18

-- The labels, from the last to the first; each goes on to those after it.
unfoldable pub fail_to_alloc_fpga_pci_dev : Log → Log
fail_to_alloc_fpga_pci_dev log = set_drvdata false ∷ log

unfoldable pub fail_to_alloc_dev_number : Log → Log
unfolding fail_to_alloc_fpga_pci_dev
fail_to_alloc_dev_number log =
    fail_to_alloc_fpga_pci_dev (released driver_data ∷ stored has_fpga_dev_number false ∷ log)

unfoldable pub fail_to_create_fpga_class : Log → Log
unfolding fail_to_alloc_dev_number
fail_to_create_fpga_class log =
    fail_to_alloc_dev_number (stored has_fpga_class false ∷ released dev_number ∷ log)

unfoldable pub fail_to_create_fpga_udev : Log → Log
unfolding fail_to_create_fpga_class
fail_to_create_fpga_udev log =
    fail_to_create_fpga_class (stored has_fpga_udev false ∷ released fpga_class ∷ log)

unfoldable pub fail_to_enable_pci_device : Log → Log
unfolding fail_to_create_fpga_udev
fail_to_enable_pci_device log =
    fail_to_create_fpga_udev (stored pci_enabled false ∷ released fpga_udev ∷ log)

unfoldable pub fail_to_request_pci_region : Log → Log
unfolding fail_to_enable_pci_device
fail_to_request_pci_region log =
    fail_to_enable_pci_device (stored pci_region_requested false ∷ released pci_device ∷ log)

unfoldable pub fail_to_remap_pci_resource : Log → Log
unfolding fail_to_request_pci_region
fail_to_remap_pci_resource log =
    fail_to_request_pci_region (stored has_fpga_base false ∷ released pci_region ∷ log)

unfoldable pub fail_to_add_fpga_cdev : Log → Log
unfolding fail_to_remap_pci_resource
fail_to_add_fpga_cdev log =
    fail_to_remap_pci_resource (stored cdev_added false ∷ released irq ∷ log)

-- i2c_del_adapter for `n` channels from `i` on.
unfoldable pub del_adapters : ℕ → ℕ → Log → Log
del_adapters zero i log = log
del_adapters (suc n) i log = del_adapters n (i + 1) (released (adapter i) ∷ log)

unfoldable pub fail_to_add_i2c_adapter : Log → Log
unfolding fail_to_add_fpga_cdev del_adapters
fail_to_add_i2c_adapter log = fail_to_add_fpga_cdev (del_adapters max_channel 0 log)

module _ (a : Answers) where
  -- The loop over the channels, `n` of them from `i` on: the status and the log.
  unfoldable pub add_adapters : ℕ → ℕ → Log → ℤ × Log
  add_adapters zero i log = (pos 0, log)
  add_adapters (suc n) i log = elim (is_zero (a.i2c_add_adapter i)) [
    | true ↦ add_adapters n (i + 1) (acquired (adapter i) ∷ log)
    | false ↦ (a.i2c_add_adapter i, log)
  ]

  -- fpga_pci_probe, from its last part to its first. The pointers of class_create and device_create
  -- are stored before they are looked at.
  unfoldable pub probe_adapters : Log → ℤ × Log
  unfolding add_adapters fail_to_add_i2c_adapter
  probe_adapters log =
      let (retval, log') = add_adapters max_channel 0 log in
      elim (is_zero retval) [
        | true ↦ (pos 0, init_smbus ∷ log')
        | false ↦ (retval, fail_to_add_i2c_adapter log')
      ]

  unfoldable pub probe_cdev : Log → ℤ × Log
  unfolding probe_adapters fail_to_add_fpga_cdev
  probe_cdev log = elim (is_zero a.cdev_add) [
    | true ↦ probe_adapters (stored cdev_added true ∷ acquired fpga_cdev ∷ log)
    | false ↦ (a.cdev_add, fail_to_add_fpga_cdev log)
  ]

  unfoldable pub probe_mapping : Log → ℤ × Log
  unfolding probe_cdev fail_to_remap_pci_resource
  probe_mapping log = elim a.pci_iomap [
    | true ↦
        probe_cdev (mask_all_intr ∷ set_master ∷ stored has_fpga_base true ∷ acquired mapping ∷ log)
    | false ↦ (enodev, fail_to_remap_pci_resource (stored has_fpga_base false ∷ log))
  ]

  unfoldable pub probe_region : Log → ℤ × Log
  unfolding probe_mapping fail_to_request_pci_region
  probe_region log = elim (is_zero a.pci_request_region) [
    | true ↦ probe_mapping (stored pci_region_requested true ∷ acquired pci_region ∷ log)
    | false ↦ (a.pci_request_region, fail_to_request_pci_region log)
  ]

  unfoldable pub probe_device : Log → ℤ × Log
  unfolding probe_region fail_to_enable_pci_device
  probe_device log = elim (is_zero a.pci_enable_device) [
    | true ↦ probe_region (stored pci_enabled true ∷ acquired pci_device ∷ log)
    | false ↦ (a.pci_enable_device, fail_to_enable_pci_device log)
  ]

  unfoldable pub probe_udev : Log → ℤ × Log
  unfolding probe_device fail_to_create_fpga_udev
  probe_udev log = elim (is_zero a.device_create) [
    | true ↦ probe_device (stored has_fpga_udev true ∷ acquired fpga_udev ∷ log)
    | false ↦ (a.device_create, fail_to_create_fpga_udev (stored has_fpga_udev true ∷ log))
  ]

  unfoldable pub probe_class : Log → ℤ × Log
  unfolding probe_udev fail_to_create_fpga_class
  probe_class log = elim (is_zero a.class_create) [
    | true ↦ probe_udev (stored has_fpga_class true ∷ acquired fpga_class ∷ log)
    | false ↦ (a.class_create, fail_to_create_fpga_class (stored has_fpga_class true ∷ log))
  ]

  unfoldable pub probe_number : Log → ℤ × Log
  unfolding probe_class fail_to_alloc_dev_number
  probe_number log = elim (is_zero a.alloc_chrdev_region) [
    | true ↦ probe_class (stored has_fpga_dev_number true ∷ acquired dev_number ∷ log)
    | false ↦ (a.alloc_chrdev_region, fail_to_alloc_dev_number log)
  ]

  unfoldable pub fpga_pci_probe : Log → ℤ × Log
  unfolding probe_number fail_to_alloc_fpga_pci_dev
  fpga_pci_probe log = elim a.kzalloc [
    | true ↦ probe_number (set_drvdata true ∷ acquired driver_data ∷ log)
    | false ↦ (enomem, fail_to_alloc_fpga_pci_dev log)
  ]

abbrev pub act_if : Bool → Act → Log → Log
act_if test act log = if test then act ∷ log else log

-- The part of fpga_pci_remove before the loop over the adapters.
abbrev pub before_adapters : Log → Log
before_adapters log =
    let log1 = act_if (field cdev_added log) (released fpga_cdev) log in
    let log2 = act_if (field has_irq log) (released irq) log1 in
    let log3 = act_if (field has_irq_vec_count log) free_irq_vectors log2 in
    let log4 = act_if (field has_fpga_base log) (released mapping) log3 in
    let log5 = act_if (field pci_region_requested log) (released pci_region) log4 in
    let log6 = act_if (field pci_enabled log) (released pci_device) log5 in
    let log7 = act_if (field has_fpga_udev log) (released fpga_udev) log6 in
    let log8 = act_if (field has_fpga_class log) (released fpga_class) log7 in
    act_if (field has_fpga_dev_number log) (released dev_number) log8

unfoldable pub fpga_pci_remove : Log → Log
unfolding del_adapters
fpga_pci_remove log = elim (has_data log) [
  | true ↦ released driver_data ∷ del_adapters max_channel 0 (before_adapters log)
  | false ↦ log
]
