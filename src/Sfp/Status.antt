-- ===== src/Sfp/Status.antt =====
-- The attributes of a port: the state they work on, and what they reach outside the driver.
pub mod Present
pub mod Registers
pub mod Switches
pub mod Signals
pub mod Invariant
pub mod Msa
mod Tests
use meta_bisdn_linux.Base.{ℕ, ◌+◌, ◌*◌, ◌%◌, ◌^◌, Bool, List, [], ◌∷◌, ℤ, pos, negsuc}
use meta_bisdn_linux.Sfp.Mutex.{Mutex, lock, unlock}

-- accton_i2c_cpld_read and accton_i2c_cpld_write, which the driver of the CPLDs exports, on a world
-- of a type `S`.
pub record CpldAccess (S : Type 0) : Type 0 where
  pub read : ℕ → ℕ → S → ℤ × S
  pub write : ℕ → ℕ → ℕ → S → ℤ × S

-- The fields of `struct sfp_port_data` and `struct qsfp_data` that the attributes change, beside
-- the world. `status` has 3 bytes.
pub record Port (S : Type 0) : Type 0 where
  pub world : S
  pub update_lock : Mutex
  pub present : ℕ
  pub valid : Bool
  pub last_updated : ℕ
  pub status : List ℕ

-- A pointer to the data, or ERR_PTR of an error.
pub data Updated : Type 0 where
  err_ptr : ℤ → Updated
  data_ptr : Updated

-- `(status < 0) ? ERR_PTR(status) : data`
abbrev pub err_or_data : ℤ → Updated
err_or_data (negsuc k) = err_ptr (negsuc k)
err_or_data (pos n) = data_ptr

-- What a show function returns: an error, or the numbers it prints.
pub data Shown : Type 0 where
  failed : ℤ → Shown
  printed : List ℕ → Shown

-- CPLD_PORT_TO_FRONT_PORT of the port.
abbrev pub show_port_number : ℕ → Shown
show_port_number port = printed ((port + 1) ∷ [])

-- A shift of a `u64` to the left.
abbrev pub shl64 : ℕ → ℕ → ℕ
shl64 x k = x * 2 ^ k % 2 ^ 64

pub data Cpld : Type 0 where
  cpld1 cpld2 : Cpld

-- I2C_ADDR_CPLD1 and I2C_ADDR_CPLD2
abbrev pub i2c_addr : Cpld → ℕ
i2c_addr cpld1 = 0x62
i2c_addr cpld2 = 0x64

module _ {S : Type 0} where
  abbrev pub take_lock : Port S → Port S
  take_lock p = record p { update_lock = lock p.update_lock }

  abbrev pub give_lock : Port S → Port S
  give_lock p = record p { update_lock = unlock p.update_lock }

  module _ (cpld : CpldAccess S) where
    abbrev pub cpld_read : ℕ → ℕ → Port S → ℤ × Port S
    cpld_read addr reg p =
        let (status, s) = cpld.read addr reg p.world in (status, record p { world = s })

    abbrev pub cpld_write : ℕ → ℕ → ℕ → Port S → ℤ × Port S
    cpld_write addr reg value p =
        let (status, s) = cpld.write addr reg value p.world in (status, record p { world = s })
