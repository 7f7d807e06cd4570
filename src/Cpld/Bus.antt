-- ===== src/Cpld/Bus.antt =====
-- Byte transfers to and from the CPLDs, the sleeps between them and the mutexes around them.
use meta_bisdn_linux.Base.{ℕ, List, ◌∷◌, ℤ, negsuc}

-- `handle` stands for the address of the structure, `addr` for its field.
pub record I2cClient : Type 0 where
  pub handle : ℕ
  pub addr : ℕ

pub data Event : Type 0 where
  -- the client, the register; the status, which is the byte if it is not negative
  read_byte_data : I2cClient → ℕ → ℤ → Event
  -- the client, the register, the byte; the status
  write_byte_data : I2cClient → ℕ → ℕ → ℤ → Event
  msleep : ℕ → Event
  mutex_lock mutex_unlock : Event

-- The latest event stands first.
abbrev pub Trace : Type 0
Trace = List Event

-- What i2c_smbus_read_byte_data and i2c_smbus_write_byte_data return, from all that happened
-- before.
pub record Smbus : Type 0 where
  pub read_status : Trace → I2cClient → ℕ → ℤ
  pub write_status : Trace → I2cClient → ℕ → ℕ → ℤ

abbrev pub smbus_read : Smbus → I2cClient → ℕ → Trace → ℤ × Trace
smbus_read bus client reg t =
    let status = bus.read_status t client reg in (status, read_byte_data client reg status ∷ t)

abbrev pub smbus_write : Smbus → I2cClient → ℕ → ℕ → Trace → ℤ × Trace
smbus_write bus client reg value t =
    let status = bus.write_status t client reg value in
    (status, write_byte_data client reg value status ∷ t)

abbrev pub eperm : ℤ
eperm = negsuc 0

abbrev pub eio : ℤ
eio = negsuc 4

abbrev pub einval : ℤ
einval = negsuc 21
