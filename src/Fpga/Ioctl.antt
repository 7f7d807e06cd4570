-- ===== src/Fpga/Ioctl.antt =====
-- The operations of the character device of fpga_driver.c: fpga_ioctl, and the others, which touch
-- no device.
pub mod Requests
use meta_bisdn_linux.Base.{
  ℕ, zero, suc, ◌+◌, ◌*◌, ◌%◌, ◌^◌, Bool, Option, none, some, List, [], ◌∷◌, ◌++◌, drop, length,
  ltb, if◌then◌else◌, is_zero, ℤ, pos, negsuc, get_or, set,
}
use meta_bisdn_linux.Fpga.Bus.{Board, Trace, mmio_read, mmio_write, max_buff_size}
use meta_bisdn_linux.Fpga.Transfer.{einval}
use meta_bisdn_linux.Fpga.Read.{fpga_smbus_read}
use meta_bisdn_linux.Fpga.Write.{fpga_smbus_write}

-- `struct file`, with NULL as `none`; `Device` stands for the driver's data.
pub record File (Device : Type 0) : Type 0 where
  pub private_data : Option Device

module _ {Device : Type 0} where
  abbrev pub fpga_open : Device → File Device → ℤ × File Device
  fpga_open fpga_pci_dev filp = (pos 0, record filp { private_data = some fpga_pci_dev })

  abbrev pub fpga_release : File Device → ℤ × File Device
  fpga_release filp = (pos 0, filp)

  -- The return value, with the bytes given to the user.
  abbrev pub fpga_read : File Device → ℕ → ℤ × List ℕ
  fpga_read filp size = (pos 0, [])

  -- The bytes of the user are not looked at.
  abbrev pub fpga_write : File Device → List ℕ → ℤ
  fpga_write filp user_data = pos (length user_data)

-- `struct fpga_access`: four bytes and an array of `max_buff_size` bytes.
pub record FpgaAccess : Type 0 where
  pub addr : ℕ
  pub offset : ℕ
  pub len : ℕ
  pub channel : ℕ
  pub buff : List ℕ

-- The values of `cmd` that are told apart.
pub data Request : Type 0 where
  fpga_read_cmd fpga_write_cmd fpga_lock fpga_unlock fpga_spi_read fpga_spi_write unknown : Request

-- The user's memory at `user_addr`, as the kernel's functions find it.
pub record User : Type 0 where
  pub access_ok : Bool
  pub copied : Option FpgaAccess  -- copy_from_user, `none` if it fails
  pub writable : Bool  -- whether copy_to_user succeeds

abbrev pub max_eeprom_size : ℕ
max_eeprom_size = 256

abbrev pub efault : ℤ
efault = negsuc 13

-- The return value, and what was copied back to the user.
abbrev pub Reply : Type 0
Reply = Option (ℤ × Option FpgaAccess) × Trace

abbrev pub refuse : ℤ → Trace → Reply
refuse e t = (some (e, none), t)

-- `copy_to_user` and the return after a transfer that returned `rc` and stored `bytes` in `buff`.
abbrev pub answer_read : User → FpgaAccess → Option (ℤ × List ℕ) × Trace → Reply
answer_read u acc (none, t) = (none, t)
answer_read u acc (some (rc, bytes), t) =
    if is_zero rc
    then (if u.writable
        then (some (pos 0, some (record acc { buff = bytes ++ drop (length bytes) acc.buff })), t)
        else refuse efault t)
    else refuse rc t

abbrev pub answer_write : Option (ℤ × Unit {0}) × Trace → Reply
answer_write (none, t) = (none, t)
answer_write (some (rc, _), t) = if is_zero rc then refuse (pos 0) t else refuse rc t

-- `(acc.buff[0]<<8) + acc.buff[1]` in an `unsigned short`
abbrev pub spi_offset : FpgaAccess → ℕ
spi_offset acc = (get_or acc.buff 0 0 * 2 ^ 8 + get_or acc.buff 1 0) % 2 ^ 16

-- What is copied back; whether that succeeds is not looked at.
abbrev shown : User → FpgaAccess → Option FpgaAccess
shown u acc = if u.writable then some acc else none

-- What the branches do once the arguments are copied in.
unfoldable pub serve : Board → User → Request → FpgaAccess → Trace → Reply
unfolding fpga_smbus_read fpga_smbus_write
serve b u fpga_read_cmd acc t =
    if ltb max_eeprom_size (acc.len + acc.offset)
    then refuse einval t
    else answer_read u acc
        (fpga_smbus_read b max_buff_size acc.channel acc.addr acc.offset acc.len t)
serve b u fpga_write_cmd acc t =
    if ltb max_eeprom_size (acc.len + acc.offset)
    then refuse einval t
    else answer_write (fpga_smbus_write b acc.channel acc.addr acc.offset acc.len acc.buff t)
serve b u fpga_spi_read acc t =
    let (v, t') = mmio_read b (spi_offset acc) t in
    (some (pos 0, shown u (record acc { buff = set acc.buff 2 (v % 256) })), t')
serve b u fpga_spi_write acc t =
    let (_, t') = mmio_write (spi_offset acc) (get_or acc.buff 2 0) t in
    (some (pos 0, shown u acc), t')
serve b u _ acc t = refuse (pos 0) t

unfoldable pub fpga_ioctl : Board → User → Request → Trace → Reply
unfolding serve
fpga_ioctl b u fpga_lock t = refuse (pos 0) t
fpga_ioctl b u fpga_unlock t = refuse (pos 0) t
fpga_ioctl b u unknown t = refuse einval t
fpga_ioctl b u r t =
    if u.access_ok
    then elim u.copied [ none ↦ refuse efault t | some acc ↦ serve b u r acc t ]
    else refuse einval t
