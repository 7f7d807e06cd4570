-- ===== src/Cpld/Life.antt =====
-- accton_i2c_cpld_probe and accton_i2c_cpld_remove: what they take from the kernel and give back,
-- and the list of clients. The data and the sensors are freed by the kernel's device core.
pub mod Settled
pub mod Cycle
mod Tests
use meta_bisdn_linux.Base.{
  ℕ, ◌==◌, Bool, true, false, List, [], ◌∷◌, ℤ, pos, negsuc, is_zero, if◌then◌else◌,
}
use meta_bisdn_linux.Cpld.Bus.{I2cClient, eio}
use meta_bisdn_linux.Cpld.Ports.{Model, sfp_num}
use meta_bisdn_linux.Cpld.Attributes.{CpldData, no_attributes, add_attributes, enomem}
use meta_bisdn_linux.Cpld.Registry.{
  ClientList, accton_i2c_cpld_add_client, accton_i2c_cpld_remove_client,
}

pub data Resource : Type 0 where
  group_attrs attribute_group hwmon_dev : Resource

pub data Act : Type 0 where
  acquired released : Resource → Act

-- What the driver has done, the latest act first, and `cpld_client_list`.
pub record Held : Type 0 where
  pub log : List Act
  pub clients : ClientList

-- What the kernel answers: whether the adapter can transfer bytes and whether there was memory, for
-- the data, for each allocation of add_attributes and for the node of the list; statuses; of
-- hwmon_device_register, 0 for a good pointer and the error of an ERR_PTR.
pub record Answers : Type 0 where
  pub check_functionality : Bool
  pub kzalloc_data : Bool
  pub memory : ℕ → Bool
  pub sysfs_create_group : ℤ
  pub hwmon_device_register : ℤ
  pub kzalloc_node : Bool

abbrev pub enodev : ℤ
enodev = negsuc 18

abbrev pub act : Act → Held → Held
act a held = record held { log = a ∷ held.log }

-- kfree of `data->group.attrs`, which may be NULL.
abbrev pub kfree_attrs : CpldData → Held → Held
kfree_attrs d held = if d.has_attrs then act (released group_attrs) held else held

module _ (a : Answers) (client : I2cClient) where
  -- accton_i2c_cpld_probe, from its last part to its first. `out_kfree` is kfree_attrs.
  unfoldable pub probe_hwmon : CpldData → Held → ℤ × Held
  unfolding accton_i2c_cpld_add_client
  probe_hwmon d held = elim (is_zero a.hwmon_device_register) [
    | true ↦
        let registered = act (acquired hwmon_dev) held in
        (
          pos 0,
          record registered {
            clients = accton_i2c_cpld_add_client a.kzalloc_node client held.clients;
          },
        )
    | false ↦ (a.hwmon_device_register, kfree_attrs d (act (released attribute_group) held))
  ]

  unfoldable pub probe_group : CpldData → Held → ℤ × Held
  unfolding probe_hwmon
  probe_group d held = elim (is_zero a.sysfs_create_group) [
    | true ↦ probe_hwmon d (act (acquired attribute_group) held)
    | false ↦ (a.sysfs_create_group, kfree_attrs d held)
  ]

  unfoldable pub probe_attributes : Model → Held → ℤ × CpldData × Held
  unfolding probe_group add_attributes
  probe_attributes model held =
      let (status, d) = add_attributes a.memory client.addr model no_attributes in
      let held' = if d.has_attrs then act (acquired group_attrs) held else held in
      let (status', rest) = probe_group d held' in
      if is_zero status
      then (if d.num_attributes == 0 then (enodev, d, kfree_attrs d held') else (status', d, rest))
      else (status, d, kfree_attrs d held')

  -- The status, the data and what is held.
  unfoldable pub accton_i2c_cpld_probe : Model → Held → ℤ × CpldData × Held
  unfolding probe_attributes
  accton_i2c_cpld_probe model held =
      if a.check_functionality
      then (if a.kzalloc_data then probe_attributes model held else (enomem, no_attributes, held))
      else (eio, no_attributes, held)

unfoldable pub accton_i2c_cpld_remove : I2cClient → CpldData → Held → ℤ × Held
unfolding accton_i2c_cpld_remove_client
accton_i2c_cpld_remove client d held =
    let freed = kfree_attrs d (act (released attribute_group) (act (released hwmon_dev) held)) in
    (pos 0, record freed { clients = accton_i2c_cpld_remove_client client held.clients })
