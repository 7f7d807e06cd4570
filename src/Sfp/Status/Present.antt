-- ===== src/Sfp/Status/Present.antt =====
-- Whether a port has a module in it: sfp_update_present, sfp_update_present_by_port,
-- sfp_is_port_present, show_present, and the accesses to the EEPROM that ask it first.
pub mod Single
pub mod Agree
pub mod Access
pub mod Drivers
use meta_bisdn_linux.Base.{
  ℕ, zero, suc, ◌&&◌, ◌+◌, ◌-◌, ◌*◌, ◌/◌, ◌%◌, ◌^◌, Option, none, some, List, [], ◌∷◌, ℤ, pos,
  negsuc, bit_and, bit_or, ltb, leb, ◌==◌, if◌then◌else◌,
}
use meta_bisdn_linux.Sfp.Bus.{Trace, Wire, enxio}
use meta_bisdn_linux.Sfp.Attempt.{Got}
use meta_bisdn_linux.Sfp.Client.{PortData, Opcode, read_op, write_op}
use meta_bisdn_linux.Sfp.Port.{sfp_port_read_write}
use meta_bisdn_linux.Sfp.Mutex.{mutex_since}
use meta_bisdn_linux.Sfp.Status.{
  CpldAccess, Port, Updated, err_ptr, data_ptr, err_or_data, Shown, failed, printed, shl64, cpld1,
  cpld2, i2c_addr, take_lock, give_lock, cpld_read,
}

-- `regs`
abbrev pub present_regs : List ℕ
present_regs = 0x60 ∷ 0x61 ∷ 0x60 ∷ 0x61 ∷ []

-- The address, the register and `bit_shift` of a port.
abbrev pub present_place : ℕ → Option (ℕ × ℕ × ℕ)
present_place port =
    if leb port 7
    then some (i2c_addr cpld1, 0x60, 0)
    else (if leb 8 port && leb port 15
        then some (i2c_addr cpld1, 0x61, 1)
        else (if leb 16 port && leb port 23
            then some (i2c_addr cpld2, 0x60, 2)
            else (if leb 24 port && leb port 31 then some (i2c_addr cpld2, 0x61, 3) else none)))

-- The index of the attribute: PRESENT_ALL, or another.
pub data PresentAttr : Type 0 where
  present_attr present_all : PresentAttr

-- `~(u8)(data->present >> (i * 8))`
abbrev pub present_value : ℕ → ℕ → ℕ
present_value word i = 255 - word / 2 ^ (i * 8) % 256

abbrev pub enodev : ℤ
enodev = negsuc 18

module _ {S : Type 0} (cpld : CpldAccess S) where
  -- The loop over the registers from `i` on, with the status of the round before.
  unfoldable pub present_loop : ℕ → List ℕ → ℤ → Port S → ℤ × Port S
  present_loop i [] status p = (status, p)
  present_loop i (reg ∷ regs) _ p =
      let (status, p') = cpld_read cpld (i2c_addr (if ltb i 2 then cpld1 else cpld2)) reg p in
      elim status [
        | negsuc k ↦ (negsuc k, p')
        | pos n ↦
            present_loop (i + 1) regs (pos n)
              (record p' { present = bit_or p'.present (shl64 n (i * 8)) })
      ]

  unfoldable pub sfp_update_present : Port S → Updated × Port S
  unfolding present_loop
  sfp_update_present p =
      let (status, p') =
        present_loop 0 present_regs (negsuc 0) (record (take_lock p) { present = 0 }) in
      (err_or_data status, give_lock p')

  -- The read of the port's register, once its place is known.
  unfoldable pub present_at : Option (ℕ × ℕ × ℕ) → Port S → ℤ × Port S
  present_at none p = (enxio, p)
  present_at (some (addr, reg, bit_shift)) p =
      let (status, p') = cpld_read cpld addr reg p in
      elim status [
        | negsuc k ↦ (negsuc k, p')
        | pos n ↦ (pos n, record p' { present = bit_or p'.present (shl64 n (bit_shift * 8)) })
      ]

  unfoldable pub sfp_update_present_by_port : ℕ → Port S → Updated × Port S
  unfolding present_at
  sfp_update_present_by_port port p =
      let (status, p') = present_at (present_place port) (record (take_lock p) { present = 0 }) in
      (err_or_data status, give_lock p')

  unfoldable pub sfp_is_port_present : ℕ → Port S → ℤ × Port S
  unfolding sfp_update_present_by_port
  sfp_is_port_present port p =
      let (updated, p') = sfp_update_present_by_port port p in
      elim updated [
        | err_ptr e ↦ (e, p')
        | data_ptr ↦ ((if bit_and p'.present (2 ^ port) == 0 then pos 1 else pos 0), p')
      ]

  unfoldable pub show_present : PresentAttr → ℕ → Port S → Shown × Port S
  unfolding sfp_update_present sfp_is_port_present
  show_present present_all port p =
      let (updated, p') = sfp_update_present p in
      elim updated [
        | err_ptr e ↦ (failed e, p')
        | data_ptr ↦ (
          printed (
              present_value p'.present 0
              ∷ present_value p'.present 1
              ∷ present_value p'.present 2
              ∷ present_value p'.present 3
              ∷ []),
          p',
        )
      ]
  show_present present_attr port p =
      let (present, p') = sfp_is_port_present port p in
      elim present [ negsuc k ↦ (failed (negsuc k), p') | pos n ↦ (printed (n ∷ []), p') ]

  -- The body of sfp_bin_read and sfp_bin_write: the trace is that of the transfers to the EEPROM,
  -- and what it has of the mutex becomes of the port's.
  unfoldable pub sfp_bin_access :
      Wire → PortData → ℕ → Opcode → ℕ → ℕ → Port S → Trace → Option Got × Port S × Trace
  unfolding sfp_is_port_present
  sfp_bin_access w port_data port op off count p t =
      let (present, p') = sfp_is_port_present port p in
      elim present [
        | negsuc k ↦ (some (negsuc k, []), p', t)
        | pos zero ↦ (some (enodev, []), p', t)
        | pos (suc n) ↦
            let (out, t') = sfp_port_read_write w port_data op off count t in
            (out, record p' { update_lock = mutex_since p'.update_lock t t' }, t')
      ]

  -- `room` is that of the caller's buffer.
  unfoldable pub sfp_bin_read :
      Wire → PortData → ℕ → ℕ → ℕ → ℕ → Port S → Trace → Option Got × Port S × Trace
  unfolding sfp_bin_access
  sfp_bin_read w port_data port room = sfp_bin_access w port_data port (read_op room)

  unfoldable pub sfp_bin_write :
      Wire → PortData → ℕ → List ℕ → ℕ → ℕ → Port S → Trace → Option Got × Port S × Trace
  unfolding sfp_bin_access
  sfp_bin_write w port_data port buf = sfp_bin_access w port_data port (write_op buf)
