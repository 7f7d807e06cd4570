-- ===== src/Fpga/Adapter.antt =====
-- fpga_smbus_access of fpga_driver.c, and the names of the adapters that fpga_pci_probe registers.
pub mod Routes
use meta_bisdn_linux.Base.{
  ℕ, ◌+◌, ◌/◌, ◌%◌, Bool, Option, none, some, List, [], ◌∷◌, ◌++◌, take, drop, ltb, if◌then◌else◌,
  ℤ, pos, ◌⊎◌, inl, inr,
}
use meta_bisdn_linux.Fpga.Bus.{Board, Trace}
use meta_bisdn_linux.Fpga.Transfer.{einval}
use meta_bisdn_linux.Fpga.Read.{fpga_smbus_read}
use meta_bisdn_linux.Fpga.Write.{fpga_smbus_write}

-- The values of `size` that the switch names, and any other.
pub data Size : Type 0 where
  smbus_byte smbus_byte_data smbus_word_data smbus_block_data smbus_i2c_block_data : Size
  smbus_quick other_size : Size

pub data Direction : Type 0 where
  smbus_read smbus_write other_direction : Direction

unfoldable pub transfer_length : Size → ℕ
transfer_length smbus_byte = 1
transfer_length smbus_byte_data = 1
transfer_length smbus_word_data = 2
transfer_length smbus_block_data = 32
transfer_length smbus_i2c_block_data = 32
transfer_length smbus_quick = 0
transfer_length other_size = 1

-- `sizeof(union i2c_smbus_data)`: a block of 32 bytes, its length and one byte more.
abbrev pub smbus_data_size : ℕ
smbus_data_size = 34

-- FPGA_SMBUS_NAME, "Accton_FPGA_SMBus_".
abbrev pub fpga_smbus_name : List ℕ
fpga_smbus_name =
    b'A' ∷ b'c' ∷ b'c' ∷ b't' ∷ b'o' ∷ b'n' ∷ b'_' ∷ b'F' ∷ b'P' ∷ b'G' ∷ b'A' ∷ b'_' ∷ b'S' ∷ b'M'
    ∷ b'B' ∷ b'u' ∷ b's' ∷ b'_' ∷ []

-- "%s%02d adapter" for a number below 100.
unfoldable pub adapter_name : ℕ → List ℕ
adapter_name i =
    fpga_smbus_name
    ++ (b'0' + i / 10)
      ∷ (b'0' + i % 10)
      ∷ b' '
      ∷ b'a'
      ∷ b'd'
      ∷ b'a'
      ∷ b'p'
      ∷ b't'
      ∷ b'e'
      ∷ b'r'
      ∷ []

-- What kstrtou8 of the kernel makes of a text in base 10: an error or a number.
abbrev pub Parser : Type 0
Parser = List ℕ → ℤ ⊎ ℕ

-- `memcpy(cha_num_str, (adap->name+18), 2)`
unfoldable pub channel_digits : List ℕ → List ℕ
channel_digits name = take 2 (drop 18 name)

-- `channel` stays 0 where the digits are refused.
abbrev pub channel_of : ℤ ⊎ ℕ → ℕ
channel_of (inl _) = 0
channel_of (inr n) = n

abbrev pub status_of : ℤ ⊎ ℕ → ℤ
status_of (inl e) = e
status_of (inr _) = pos 0

abbrev pub with_no_data : Option (ℤ × Unit {0}) × Trace → Option (ℤ × List ℕ) × Trace
with_no_data (r, t) = (elim r [ none ↦ none | some (rc, _) ↦ some (rc, []) ], t)

-- The return value and the bytes stored in `data`. `attached` says that i2c_get_adapdata is not
-- NULL, `bytes` are those of `data`, and `addr`, a `u16`, is handed on as an `unsigned char`.
unfoldable pub fpga_smbus_access :
    Board
    → Parser
    → Bool
    → List ℕ
    → ℕ
    → Direction
    → ℕ
    → Size
    → List ℕ
    → Trace
    → Option (ℤ × List ℕ) × Trace
unfolding fpga_smbus_read fpga_smbus_write transfer_length channel_digits
fpga_smbus_access b kstrtou8 attached name addr direction offset size bytes t =
    let parsed = kstrtou8 (channel_digits name) in
    let channel = channel_of parsed in
    let n = transfer_length size in
    if attached
    then (if ltb 34 n then (some (einval, []), t) else elim direction [
      | smbus_read ↦ fpga_smbus_read b smbus_data_size channel (addr % 256) offset n t
      | smbus_write ↦ with_no_data (fpga_smbus_write b channel (addr % 256) offset n bytes t)
      | other_direction ↦ (some (status_of parsed, []), t)
    ])
    else (some (einval, []), t)
