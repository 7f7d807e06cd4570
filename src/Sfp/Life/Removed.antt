-- ===== src/Sfp/Life/Removed.antt =====
-- What sfp_device_remove leaves behind.
use meta_bisdn_linux.Base.{◌≡◌, ap, subst, Bool, some, [], pos, if◌then◌else◌}
use meta_bisdn_linux.Base.Uses.{Use, free, held, give}
use meta_bisdn_linux.Sfp.Client.{qsfp}
use meta_bisdn_linux.Sfp.Life.{
  Client, Answers, Resource, port_data, writebuf, qsfp_data, qsfp_group, eeprom_file, msa_data,
  msa_group, ddm_client, Log, Probed, sfp_device_probe, sfp_device_remove, qsfp_remove,
}
use meta_bisdn_linux.Sfp.Life.Held.{use_of, held_by, Fits, Settled, IsStatus}
use meta_bisdn_linux.Sfp.Life.Settled.{probe_settles}

-- What is still held after the removal.
abbrev pub leaked : Bool → Resource → Use
leaked has_buf port_data = held
leaked has_buf writebuf = if has_buf then held else free
leaked has_buf r = free

removed :
    (b : Bool) (log : Log)
    → ((r : Resource) → use_of r log ≡ held_by b r)
    → (r : Resource) → use_of r (sfp_device_remove qsfp log).1 ≡ leaked b r
unfolding sfp_device_remove qsfp_remove
removed b log h port_data = h port_data
removed b log h writebuf = h writebuf
removed b log h qsfp_data = ap give (h qsfp_data)
removed b log h qsfp_group = ap give (h qsfp_group)
removed b log h eeprom_file = ap give (h eeprom_file)
removed b log h msa_data = h msa_data
removed b log h msa_group = h msa_group
removed b log h ddm_client = h ddm_client

module _ (a : Answers) (c : Client) (d : Probed) (group_status : IsStatus a.sysfs_create_group)
    (file_status : IsStatus a.sysfs_create_bin_file)
    (has_data : (sfp_device_probe a c []).1 ≡ some d) where
  probed :
      ((sfp_device_probe a c []).0 ≡ pos 0)
      × Fits c d
      × ((r : Resource) → use_of r (sfp_device_probe a c []).2 ≡ held_by d.has_writebuf r)
  probed =
      let o = sfp_device_probe a c [] in
      subst (λ x. Settled c (o.0, x, o.2)) has_data (probe_settles a c group_status file_status)

  -- After a probe that gave the client its data, where sysfs returns 0 or an error, the removal
  -- gives back the attributes, the EEPROM file and the data of the QSFP port, once each, and leaves
  -- the port's data and its buffer for writes.
  pub remove_leaks :
      (r : Resource)
      → use_of r (sfp_device_remove d.data_of.driver_type (sfp_device_probe a c []).2).1
        ≡ leaked d.has_writebuf r
  remove_leaks r =
      let (zero_status, fits, holds) = probed in
      rw fits.is_qsfp (removed d.has_writebuf (sfp_device_probe a c []).2 holds r)
