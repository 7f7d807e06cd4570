-- ===== src/Fpga/Write.antt =====
-- fpga_smbus_write of fpga_driver.c.
pub mod Transcript
use meta_bisdn_linux.Base.{ℕ, ◌&&◌, Option, List, [], ◌∷◌, leb, if◌then◌else◌, length, take, ℤ}
use meta_bisdn_linux.Fpga.Bus.{
  Board, Trace, mmio_write, cmd_stat_addr, max_buff_size, command_start_write, command_enable_write,
  command_stop,
}
use meta_bisdn_linux.Fpga.Transfer.{
  fault, Action, pure, jump, lift, ◌>>=◌, ◌>>◌, send, await_idle, with_channel,
}
use meta_bisdn_linux.Fpga.Read.{address_write}

-- `memcpy(buff, data, length)` from an array of which `src` are the bytes.
abbrev pub copy_in : ℕ → List ℕ → Action (List ℕ)
copy_in n src = if leb n max_buff_size && leb n (length src) then pure (take n src) else jump fault

module _ (b : Board) (c : ℕ) where
  -- The loop of steps 7 to 10, on the bytes of `buff` that are left.
  unfoldable pub write_bytes : List ℕ → ℕ → Action ℕ
  write_bytes [] stat = pure stat
  write_bytes (v ∷ buff) stat = do
    stat₁ ← send b c v command_enable_write 9 stat
    write_bytes buff stat₁

  -- From the copy of the caller's bytes to step 11.
  unfoldable pub write_transfer : ℕ → ℕ → ℕ → List ℕ → Action (Unit {0})
  unfolding write_bytes
  write_transfer addr offset n src = do
    buff ← copy_in n src
    stat₁ ← send b c (address_write addr) command_start_write 3 0
    stat₂ ← send b c offset command_enable_write 6 stat₁
    stat₃ ← write_bytes buff stat₂
    lift (mmio_write (cmd_stat_addr c) command_stop)
    await_idle b c 12 stat₃
    pure tt

-- The return value; `src` are the bytes of the array `data`.
unfoldable pub fpga_smbus_write :
    Board → ℕ → ℕ → ℕ → ℕ → List ℕ → Trace → Option (ℤ × Unit {0}) × Trace
unfolding write_transfer with_channel
fpga_smbus_write b channel addr offset n src =
    with_channel b channel addr tt (write_transfer b channel addr offset n src)
