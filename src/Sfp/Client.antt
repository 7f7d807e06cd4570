-- ===== src/Sfp/Client.antt =====
-- sff_8436_translate_offset and sff_8436_eeprom_update_client.
use meta_bisdn_linux.Base.{
  ℕ, zero, suc, ◌+◌, ◌-◌, ◌/◌, ◌%◌, ◌^◌, true, false, none, List, [], ◌∷◌, ◌++◌, ℤ, pos, negsuc,
  ltb, ◌==◌, if◌then◌else◌, drop, is_neg, length,
}
use meta_bisdn_linux.Sfp.Bus.{Mode, Event, Wire, Action, pure, log, ◌>>=◌, ◌>>◌, word}
use meta_bisdn_linux.Sfp.Attempt.{Got, ssize}
use meta_bisdn_linux.Sfp.Eeprom.{
  sff_8436_page_size, carried, write_count, sff_8436_eeprom_read, sff_8436_eeprom_write,
}

pub data DriverType : Type 0 where
  sfp_msa sfp_ddm qsfp xfp : DriverType

-- The fields of `struct sfp_port_data` that the EEPROM code reads.
pub record PortData : Type 0 where
  pub driver_type : DriverType
  pub use_smbus : Mode
  pub write_max : ℕ

-- The caller's buffer is in it: `read_op` carries the room that is left there, `write_op` the bytes
-- that are left to be written.
pub data Opcode : Type 0 where
  read_op : ℕ → Opcode
  write_op : List ℕ → Opcode

abbrev pub sff_8436_page_select_reg : ℕ
sff_8436_page_select_reg = 0x7F

-- The page, returned as a `uint8_t`, and the offset in the client's 256 bytes. The offset is not
-- negative.
unfoldable pub sff_8436_translate_offset : ℕ → ℕ × ℕ
sff_8436_translate_offset offset =
    if ltb offset sff_8436_page_size
    then (0, offset)
    else ((offset / 2 ^ 7 - 1) % 256, sff_8436_page_size + offset % 0x80)

-- `buf += n`
abbrev pub advance : ℕ → Opcode → Opcode
advance n (read_op room) = read_op (room - n)
advance n (write_op buf) = write_op (drop n buf)

-- The transport is told to go on past the end of the caller's buffer.
abbrev pub overrun : {A : Type 0} → Action A
overrun t = (none, t)

-- A sum of counts in an `ssize_t`.
abbrev pub total : ℕ → ℤ
total retval = ssize (retval % word)

module _ (w : Wire) (p : PortData) where
  -- One transfer, inside the caller's buffer.
  unfoldable pub transfer : Opcode → ℕ → ℕ → Action Got
  unfolding sff_8436_eeprom_read sff_8436_eeprom_write carried write_count ssize
  transfer (read_op room) offset count = elim (ltb room (carried p.use_smbus count)) [
    | true ↦ overrun
    | false ↦ sff_8436_eeprom_read w p.use_smbus offset count
  ]
  transfer (write_op buf) offset count =
      elim (ltb (length buf) (carried p.use_smbus (write_count p.write_max offset count))) [
        | true ↦ overrun
        | false ↦ do
          status ← sff_8436_eeprom_write w p.use_smbus p.write_max buf offset count
          pure (status, [])
      ]

  -- `while (count)`, on fuel: what was moved so far is `retval`, and `got` what was read.
  unfoldable pub update_loop : ℕ → Opcode → ℕ → ℕ → ℕ → List ℕ → Action Got
  update_loop zero op offset count retval got =
      if count == 0 then pure (total retval, got) else λ t. (none, t)
  update_loop (suc fuel) op offset count retval got = elim (count == 0) [
    | true ↦ pure (total retval, got)
    | false ↦ do
      (status, bytes) ← transfer op offset count
      elim status [
        | negsuc k ↦ pure (if retval % word == 0 then negsuc k else total retval, got)
        | pos zero ↦ pure (total retval, got)
        | pos (suc n) ↦
            update_loop fuel (advance (suc n) op) (offset + suc n) (count - suc n) (retval + suc n)
              (got ++ bytes)
      ]
  ]

  -- The page register is written if `page` is not 0; an error ends the call.
  unfoldable pub select_page : ℕ → Action ℤ
  unfolding sff_8436_eeprom_write
  select_page page = do
    ret ← sff_8436_eeprom_write w p.use_smbus p.write_max (page ∷ []) sff_8436_page_select_reg 1
    elim (is_neg ret) [ true ↦ pure ret | false ↦ do log (Event.msleep 1); pure ret ]

  -- sff_8436_eeprom_update_client once it knows the page and the offset on the client.
  unfoldable pub update_on_page : Opcode → ℕ → ℕ → ℕ → Action Got
  unfolding update_loop select_page
  update_on_page op page phy_offset count = elim (page == 0) [
    | true ↦ update_loop count op phy_offset count 0 []
    | false ↦ do
      ret ← select_page page
      elim (is_neg ret) [
        | true ↦ pure (ret, [])
        | false ↦ do
          (retval, got) ← update_loop count op phy_offset count 0 []
          ret' ← select_page 0
          elim (is_neg ret') [ true ↦ pure (ret', got) | false ↦ pure (retval, got) ]
      ]
  ]

  unfoldable pub sff_8436_eeprom_update_client : Opcode → ℕ → ℕ → Action Got
  unfolding update_on_page sff_8436_translate_offset
  sff_8436_eeprom_update_client op off count =
      let (page, phy_offset) = sff_8436_translate_offset off in
      update_on_page op page phy_offset count
