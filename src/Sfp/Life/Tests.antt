-- ===== src/Sfp/Life/Tests.antt =====
-- Probing and removing a port on an adapter with word transfers, and the theorems at them.
use meta_bisdn_linux.Base.{◌≡◌, refl, Bool, true, false, some, [], pos, negsuc}
use meta_bisdn_linux.Base.Uses.{held}
use meta_bisdn_linux.Sfp.Bus.{word_data}
use meta_bisdn_linux.Sfp.Client.{qsfp}
use meta_bisdn_linux.Sfp.Life.{
  Func, read_word_data, write_word_data, read_byte_data, write_byte_data, Client, Answers, Probed,
  sfp_device_probe, sfp_device_remove, probe_data, probe_mode, choose_use_smbus, probe_writebuf,
  probe_port, qsfp_probe, probe_group, probe_eeprom, port_data,
}
use meta_bisdn_linux.Sfp.Life.Held.{use_of, Settled}
use meta_bisdn_linux.Sfp.Life.Settled.{probe_settles}
use meta_bisdn_linux.Sfp.Life.Removed.{remove_leaks}

abbrev offers : Func → Bool
offers read_word_data = true
offers write_word_data = true
offers read_byte_data = true
offers write_byte_data = true
offers _ = false

abbrev eighth : Client
eighth = record { addr = 0x50; check_functionality = offers; driver_data = 7 }

abbrev good : Answers
good = record {
  kzalloc_data = true;
  kmalloc_writebuf = true;
  kzalloc_qsfp = true;
  sysfs_create_group = pos 0;
  sysfs_create_bin_file = pos 0;
}

-- There is a file of that name already.
abbrev clash : Answers
clash = record good { sysfs_create_bin_file = negsuc 16 }

abbrev by_word : Probed
by_word = record {
  data_of = record { driver_type = qsfp; use_smbus = word_data; write_max = 1 };
  has_writebuf = true;
}

good_data : (sfp_device_probe good eighth []).1 ≡ some by_word
unfolding sfp_device_probe probe_data probe_mode choose_use_smbus probe_writebuf probe_port
    qsfp_probe probe_group probe_eeprom
good_data = refl

clash_status : (sfp_device_probe clash eighth []).0 ≡ negsuc 16
unfolding sfp_device_probe probe_data probe_mode choose_use_smbus probe_writebuf probe_port
    qsfp_probe probe_group probe_eeprom
clash_status = refl

probe_settles_example : Settled eighth (sfp_device_probe clash eighth [])
probe_settles_example = probe_settles clash eighth refl refl

remove_leaks_example :
    use_of port_data (sfp_device_remove qsfp (sfp_device_probe good eighth []).2).1 ≡ held
remove_leaks_example = remove_leaks good eighth by_word refl refl good_data port_data
