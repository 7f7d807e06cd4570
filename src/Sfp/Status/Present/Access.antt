-- ===== src/Sfp/Status/Present/Access.antt =====
-- The accesses to the EEPROM of a port, which ask first whether a module is in it.
use meta_bisdn_linux.Base.{
  List, ℕ, zero, suc, ◌+◌, ◌-◌, ◌*◌, ◌/◌, ◌%◌, ◌≤◌, ◌<◌, ◌≡◌, refl, arith, Option, some, [], ℤ, pos,
  negsuc, bit, bit-le, ◌==◌, if◌then◌else◌,
}
use meta_bisdn_linux.Sfp.Bus.{Trace, Wire}
use meta_bisdn_linux.Sfp.Attempt.{Got}
use meta_bisdn_linux.Sfp.Client.{PortData, Opcode, read_op, write_op}
use meta_bisdn_linux.Sfp.Port.{sfp_port_read_write}
use meta_bisdn_linux.Sfp.Status.{CpldAccess, Port}
use meta_bisdn_linux.Sfp.Status.Present.{
  enodev, sfp_is_port_present, sfp_bin_access, sfp_bin_read, sfp_bin_write,
}
use meta_bisdn_linux.Sfp.Status.Present.Single.{is_port_present-read, is_port_present-failed}

-- A status that is an error or a byte.
abbrev pub ErrorOrByte : ℤ → Type 0
ErrorOrByte (negsuc k) = Unit {0}
ErrorOrByte (pos v) = v < 256

-- What an access comes to, from the status of the read of the register of the port.
abbrev pub after_presence : ℤ → ℕ → Wire → PortData → Opcode → ℕ → ℕ → Trace → Option Got × Trace
after_presence (negsuc k) port w port_data op off count t = (some (negsuc k, []), t)
after_presence (pos v) port w port_data op off count t =
    if bit v (port % 8) == 0
    then sfp_port_read_write w port_data op off count t
    else (some (enodev, []), t)

module _ {S : Type 0} (cpld : CpldAccess S) (w : Wire) (port_data : PortData) where
  present_access :
      (b port : ℕ) (op : Opcode) (off count : ℕ) (p : Port S) (t : Trace)
      → b ≤ 1
      → (sfp_is_port_present cpld port p).0 ≡ pos (1 - b)
      → let r = sfp_bin_access cpld w port_data port op off count p t in
        (r.0, r.2) ≡ (
          if b == 0 then sfp_port_read_write w port_data op off count t else (some (enodev, []), t))
  unfolding sfp_bin_access
  present_access zero port op off count p t h e = rw (e, sfp_bin_access) refl
  present_access (suc zero) port op off count p t h e = rw (e, sfp_bin_access) refl
  present_access (suc (suc b)) port op off count p t h e = absurd (omega arith)

  access_lem :
      (port : ℕ) (op : Opcode) (off count : ℕ) (p : Port S) (t : Trace) (status : ℤ)
      → port < 32
      → ErrorOrByte status
      → (cpld.read (0x62 + 2 * (port / 16)) (0x60 + port % 16 / 8) p.world).0 ≡ status
      → let r = sfp_bin_access cpld w port_data port op off count p t in
        (r.0, r.2) ≡ after_presence status port w port_data op off count t
  unfolding sfp_bin_access
  access_lem port op off count p t (negsuc k) h b e =
      rw (is_port_present-failed cpld port k p h e, sfp_bin_access) refl
  access_lem port op off count p t (pos v) h b e =
      present_access (bit v (port % 8)) port op off count p t (bit-le v (port % 8))
        (is_port_present-read cpld port v p h b e)

  -- sfp_bin_read and sfp_bin_write read the register of the port first, whatever the CPLD answers:
  -- an error of it is returned. A bit of the port that is 1 is answered with -ENODEV, in both cases
  -- without a transfer to the module. Otherwise what sfp_port_read_write does is returned.
  pub bin_access_needs_module :
      (port room : ℕ) (buf : List ℕ) (off count : ℕ) (p : Port S) (t : Trace) (status : ℤ)
      → port < 32
      → ErrorOrByte status
      → (cpld.read (0x62 + 2 * (port / 16)) (0x60 + port % 16 / 8) p.world).0 ≡ status
      → let r = sfp_bin_read cpld w port_data port room off count p t in
        let r' = sfp_bin_write cpld w port_data port buf off count p t in
        ((r.0, r.2) ≡ after_presence status port w port_data (read_op room) off count t)
        × ((r'.0, r'.2) ≡ after_presence status port w port_data (write_op buf) off count t)
  unfolding sfp_bin_read sfp_bin_write
  bin_access_needs_module port room buf off count p t status h b e = (
    access_lem port (read_op room) off count p t status h b e,
    access_lem port (write_op buf) off count p t status h b e,
  )
