-- ===== src/Fpga/Bus.antt =====
-- The accesses of fpga_driver.c to its device: registers behind BAR0, sleeps and semaphores.
-- What a register read returns, and what `down_interruptible` returns, is the device's and the
-- kernel's business: a `Board` answers each from all that happened before.
use meta_bisdn_linux.Base.{ℕ, ◌+◌, ◌*◌, ◌/◌, ◌%◌, ◌^◌, List, ◌∷◌, ℤ, Bool, ◌&&◌, leb}

-- One access, with the value that went over.
pub data Access : Type 0 where
  write : ℕ → ℕ → Access  -- address, value
  read : ℕ → ℕ → Access  -- address, value returned
  sleep : ℕ → ℕ → Access  -- usleep_range(min, max)
  down : ℕ → ℤ → Access  -- channel, the return value of down_interruptible
  up : ℕ → Access

-- The latest access stands first.
abbrev pub Trace : Type 0
Trace = List Access

pub record Board : Type 0 where
  pub register : Trace → ℕ → ℕ
  pub interrupted : Trace → ℕ → ℤ
  -- the module's parameters
  pub max_retry_time : ℕ
  pub delay_ack : ℕ
  pub delay_tip : ℕ
  pub delay_busy : ℕ

abbrev pub max_buff_size : ℕ
max_buff_size = 128

abbrev pub max_channel : ℕ
max_channel = 34

-- Registers of a channel: offset + channel * 0x20.
abbrev pub prer_lo_addr : ℕ → ℕ
prer_lo_addr c = 0x0400 + c * 0x20

abbrev pub prer_hi_addr : ℕ → ℕ
prer_hi_addr c = 0x0404 + c * 0x20

abbrev pub control_addr : ℕ → ℕ
control_addr c = 0x0408 + c * 0x20

abbrev pub txr_addr : ℕ → ℕ
txr_addr c = 0x040C + c * 0x20

abbrev pub cmd_stat_addr : ℕ → ℕ
cmd_stat_addr c = 0x0410 + c * 0x20

-- Address `a` is one of the registers of channel `c`.
abbrev pub in_window : ℕ → ℕ → Bool
in_window c a = leb (prer_lo_addr c) a && leb a (cmd_stat_addr c)

abbrev pub prer_lo_default : ℕ
prer_lo_default = 0x007f

abbrev pub prer_hi_default : ℕ
prer_hi_default = 0x0000

abbrev pub control_disable : ℕ
control_disable = 0x0000

abbrev pub control_enable : ℕ
control_enable = 0x0080

abbrev pub command_start_write : ℕ
command_start_write = 0x0090

abbrev pub command_enable_write : ℕ
command_enable_write = 0x0010

abbrev pub command_read : ℕ
command_read = 0x0020

abbrev pub command_ack_stop_read : ℕ
command_ack_stop_read = 0x0068

abbrev pub command_stop : ℕ
command_stop = 0x0040

abbrev pub busy_bit : ℕ
busy_bit = 0x40

abbrev pub tip_bit : ℕ
tip_bit = 0x2

abbrev pub ack_bit : ℕ
ack_bit = 0x80

-- An action that always returns.
abbrev pub Io : Type 0 → Type 0
Io A = Trace → A × Trace

-- A write access under FPGA_ACCESS.
abbrev pub mmio_write : ℕ → ℕ → Io (Unit {0})
mmio_write a v t = (tt, write a v ∷ t)

-- FPGA_SLEEP(X): `usleep_range((X*8/10), X)` on `unsigned int`.
abbrev pub fpga_sleep : ℕ → Io (Unit {0})
fpga_sleep x t = (tt, sleep (x * 8 % 2 ^ 32 / 10) x ∷ t)

-- A read access under FPGA_ACCESS.
abbrev pub mmio_read : Board → ℕ → Io ℕ
mmio_read b a t = (b.register t a, read a (b.register t a) ∷ t)
