-- ===== src/Cpld/Life/Tests.antt =====
-- A CPLD that is probed and removed, with and without memory for its node.
use meta_bisdn_linux.Base.{◌≡◌, refl, true, false, [], ◌∷◌, pos, negsuc, ltb}
use meta_bisdn_linux.Base.Uses.{free}
use meta_bisdn_linux.Cpld.Bus.{I2cClient, Smbus, eperm, mutex_lock, mutex_unlock}
use meta_bisdn_linux.Cpld.Ports.{csp7551, sfp_num}
use meta_bisdn_linux.Cpld.Attributes.{
  add_attributes, add_attributes_cmn, add_attributes_portly, add_ports, add_sensor,
}
use meta_bisdn_linux.Cpld.Registry.{accton_i2c_cpld_read}
use meta_bisdn_linux.Cpld.Registry.Routes.{start}
use meta_bisdn_linux.Cpld.Life.{
  Answers, Resource, Held, accton_i2c_cpld_probe, accton_i2c_cpld_remove, probe_attributes,
  probe_group, probe_hwmon,
}
use meta_bisdn_linux.Cpld.Life.Settled.{use_of, Settled, probe_registers}
use meta_bisdn_linux.Cpld.Life.Cycle.{probe_then_remove}

abbrev good : Answers
good = record {
  check_functionality = true;
  kzalloc_data = true;
  memory = λ k. true;
  sysfs_create_group = pos 0;
  hwmon_device_register = pos 0;
  kzalloc_node = true;
}

-- No memory for the node.
abbrev unlisted : Answers
unlisted = record good { kzalloc_node = false }

-- No memory from the fourth allocation on.
abbrev scarce : Answers
scarce = record good { memory = λ k. ltb k 3; hwmon_device_register = negsuc 11 }

abbrev cpld : I2cClient
cpld = record { handle = 7; addr = 0x62 }

abbrev nothing : Held
nothing = record { log = []; clients = [] }

abbrev silent : Smbus
silent = record { read_status = λ t client reg. pos 3; write_status = λ t client reg v. pos 0 }

unlisted_status : (accton_i2c_cpld_probe unlisted cpld csp7551 nothing).0 ≡ pos 0
unfolding accton_i2c_cpld_probe probe_attributes probe_group probe_hwmon add_attributes
    add_attributes_cmn add_attributes_portly add_ports add_sensor sfp_num
unlisted_status = refl

scarce_status : (accton_i2c_cpld_probe scarce cpld csp7551 nothing).0 ≡ negsuc 11
unfolding accton_i2c_cpld_probe probe_attributes probe_group probe_hwmon add_attributes
    add_attributes_cmn add_attributes_portly add_ports add_sensor sfp_num
scarce_status = refl

probe_registers_example : Settled true cpld [] (accton_i2c_cpld_probe scarce cpld csp7551 nothing)
probe_registers_example = probe_registers scarce cpld [] csp7551

-- The probe returns 0, and yet the CPLD is not reached.
probe_then_remove_example :
    let (status, d, h) = accton_i2c_cpld_probe unlisted cpld csp7551 nothing in
    let (status', h') = accton_i2c_cpld_remove cpld d h in
    (accton_i2c_cpld_read silent h.clients 0x62 0x60 [] ≡ (eperm, mutex_unlock ∷ mutex_lock ∷ []))
    × (h'.clients ≡ [])
    × ((r : Resource) → use_of r h'.log ≡ free)
probe_then_remove_example =
    probe_then_remove unlisted cpld [] csp7551 silent 0x60 [] start tt tt unlisted_status
