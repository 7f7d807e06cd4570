-- ===== src/Sfp/Life.antt =====
-- sfp_device_probe and sfp_device_remove, with qsfp_probe and qsfp_remove: what they take from the
-- kernel and give back, and the transport that is chosen for a port.
pub mod Held
pub mod Settled
pub mod Removed
mod Tests
use meta_bisdn_linux.Base.{
  ℕ, ◌/◌, ◌==◌, Bool, true, false, not, ◌&&◌, ◌||◌, Option, none, some, List, [], ◌∷◌, ℤ, pos,
  negsuc, is_zero, is_neg, ltb, leb, if◌then◌else◌,
}
use meta_bisdn_linux.Base.Uses.{Use, free, take, give}
use meta_bisdn_linux.Sfp.Bus.{Mode, plain_i2c, i2c_block_data, word_data, byte_data, enxio}
use meta_bisdn_linux.Sfp.Client.{PortData, DriverType, sfp_msa, sfp_ddm, qsfp, xfp}
use meta_bisdn_linux.Sfp.Eeprom.{block_max}

-- The I2C_FUNC bits that the probe looks at.
pub data Func : Type 0 where
  i2c read_i2c_block read_word_data read_byte_data : Func
  write_i2c_block write_word_data write_byte_data : Func

-- The client that the driver is bound to, with its entry of sfp_device_id.
pub record Client : Type 0 where
  pub addr : ℕ
  pub check_functionality : Func → Bool
  pub driver_data : ℕ

-- Whether there was memory, or a status.
pub record Answers : Type 0 where
  pub kzalloc_data : Bool
  pub kmalloc_writebuf : Bool
  pub kzalloc_qsfp : Bool
  pub sysfs_create_group : ℤ
  pub sysfs_create_bin_file : ℤ

pub data Resource : Type 0 where
  port_data writebuf qsfp_data qsfp_group eeprom_file : Resource
  msa_data msa_group ddm_client : Resource

pub data Act : Type 0 where
  acquired released : Resource → Act
  set_clientdata : Act

-- The latest act stands first.
abbrev pub Log : Type 0
Log = List Act

-- The data of the driver after the probe: whether `writebuf` is not NULL, and all else that the
-- accesses to the EEPROM use.
pub record Probed : Type 0 where
  pub data_of : PortData
  pub has_writebuf : Bool

abbrev pub sfp_eeprom_a0_i2c_addr : ℕ
sfp_eeprom_a0_i2c_addr = 0xA0 / 2

abbrev pub csp7551_port1 : ℕ
csp7551_port1 = 0

abbrev pub csp7551_port32 : ℕ
csp7551_port32 = 31

abbrev pub io_limit : ℕ
io_limit = 128

abbrev pub enomem : ℤ
enomem = negsuc 11

abbrev pub enodev : ℤ
enodev = negsuc 18

abbrev pub epfnosupport : ℤ
epfnosupport = negsuc 95

-- `none` where the adapter offers no transfer that reads.
unfoldable pub choose_use_smbus : (Func → Bool) → Option Mode
choose_use_smbus has =
    if has i2c
    then some plain_i2c
    else if has read_i2c_block
    then some i2c_block_data
    else if has read_word_data
    then some word_data
    else if has read_byte_data
    then some byte_data
    else none

abbrev pub is_smbus : Mode → Bool
is_smbus plain_i2c = false
is_smbus _ = true

abbrev pub can_write : (Func → Bool) → Mode → Bool
can_write has mode =
    not (is_smbus mode) || has write_i2c_block || has write_word_data || has write_byte_data

-- 1, cut to `io_limit` and to what SMBus carries.
abbrev pub probed_write_max : Mode → ℕ
probed_write_max mode =
    let write_max = if ltb io_limit 1 then io_limit else 1 in
    if is_smbus mode && ltb block_max write_max then block_max else write_max

-- The label exit_kfree_buf: `writebuf`, where there is one, and the data.
abbrev pub exit_kfree_buf : Bool → Log → Log
exit_kfree_buf has_buf log = released port_data ∷ (if has_buf then released writebuf ∷ log else log)

module _ (a : Answers) where
  -- sfp_sysfs_eeprom_init and what follows it.
  unfoldable pub probe_eeprom : Log → ℤ × Log
  probe_eeprom log = elim (is_zero a.sysfs_create_bin_file) [
    | true ↦ (pos 0, acquired eeprom_file ∷ log)
    | false ↦ (a.sysfs_create_bin_file, released qsfp_data ∷ released qsfp_group ∷ log)
  ]

  unfoldable pub probe_group : Log → ℤ × Log
  unfolding probe_eeprom
  probe_group log = elim (is_zero a.sysfs_create_group) [
    | true ↦ probe_eeprom (acquired qsfp_group ∷ log)
    | false ↦ (a.sysfs_create_group, released qsfp_data ∷ log)
  ]

  unfoldable pub qsfp_probe : Log → ℤ × Log
  unfolding probe_group
  qsfp_probe log = elim a.kzalloc_qsfp [
    | true ↦ probe_group (acquired qsfp_data ∷ log)
    | false ↦ (enomem, log)
  ]

  module _ (c : Client) where
    -- The end of the probe, with the data filled in.
    unfoldable pub probe_port : Probed → Log → ℤ × Option Probed × Log
    unfolding qsfp_probe
    probe_port d log =
        let log0 = set_clientdata ∷ log in
        let is_port = leb csp7551_port1 c.driver_data && leb c.driver_data csp7551_port32 in
        let (ret, log') = if is_port then qsfp_probe log0 else (negsuc 0, log0) in
        elim (is_neg ret) [
          | true ↦ (ret, none, exit_kfree_buf d.has_writebuf log')
          | false ↦ (ret, some d, log')
        ]

    -- The buffer for writes, for a port that uses `mode`.
    unfoldable pub probe_writebuf : Mode → Log → ℤ × Option Probed × Log
    unfolding probe_port
    probe_writebuf mode log = elim (can_write c.check_functionality mode) [
      | true ↦ elim a.kmalloc_writebuf [
        | true ↦
            probe_port
              (record {
                data_of = record {
                  driver_type = qsfp;
                  use_smbus = mode;
                  write_max = probed_write_max mode;
                };
                has_writebuf = true;
              })
              (acquired writebuf ∷ log)
        | false ↦ (enomem, none, released port_data ∷ log)
      ]
      | false ↦
          probe_port
            (record {
              data_of = record { driver_type = qsfp; use_smbus = mode; write_max = 0 };
              has_writebuf = false;
            })
            log
    ]

    unfoldable pub probe_mode : Option Mode → Log → ℤ × Option Probed × Log
    unfolding probe_writebuf
    probe_mode none log = (epfnosupport, none, released port_data ∷ log)
    probe_mode (some mode) log = probe_writebuf mode log

    unfoldable pub probe_data : Log → ℤ × Option Probed × Log
    unfolding probe_mode choose_use_smbus
    probe_data log = elim a.kzalloc_data [
      | true ↦ probe_mode (choose_use_smbus c.check_functionality) (acquired port_data ∷ log)
      | false ↦ (enomem, none, log)
    ]

    -- The status, the data that the client holds, and the log.
    unfoldable pub sfp_device_probe : Log → ℤ × Option Probed × Log
    unfolding probe_data
    sfp_device_probe log =
        let is_unknown = ltb c.driver_data csp7551_port1 || ltb csp7551_port32 c.driver_data in
        if not (c.addr == sfp_eeprom_a0_i2c_addr)
        then (enodev, none, log)
        else if is_unknown
        then (enxio, none, log)
        else probe_data log

unfoldable pub sfp_msa_remove : Log → ℤ × Log
sfp_msa_remove log = (
  pos 0,
  released msa_data ∷ released msa_group ∷ released ddm_client ∷ released eeprom_file ∷ log,
)

unfoldable pub qsfp_remove : Log → ℤ × Log
qsfp_remove log = (pos 0, released qsfp_data ∷ released qsfp_group ∷ released eeprom_file ∷ log)

-- Each case of the switch returns, so that nothing after it is run.
unfoldable pub sfp_device_remove : DriverType → Log → ℤ × Log
unfolding sfp_msa_remove qsfp_remove
sfp_device_remove sfp_msa log = sfp_msa_remove log
sfp_device_remove sfp_ddm log = qsfp_remove log
sfp_device_remove qsfp log = qsfp_remove log
sfp_device_remove xfp log = qsfp_remove log
