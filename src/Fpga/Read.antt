-- ===== src/Fpga/Read.antt =====
-- fpga_smbus_read of fpga_driver.c.
pub mod Transcript
use meta_bisdn_linux.Base.{
  ℕ, zero, suc, ◌+◌, ◌*◌, ◌%◌, ◌&&◌, Option, List, [], ◌∷◌, ◌++◌, ltb, leb, ◌==◌, if◌then◌else◌,
  length, take, ℤ,
}
use meta_bisdn_linux.Fpga.Bus.{
  Board, Trace, mmio_write, mmio_read, txr_addr, cmd_stat_addr, max_buff_size, command_start_write,
  command_enable_write, command_read, command_ack_stop_read,
}
use meta_bisdn_linux.Fpga.Transfer.{
  fault, Action, pure, jump, lift, ◌>>=◌, ◌>>◌, await_ack, send, await_idle, with_channel,
}

-- `buff[temp_offset] = i2c_txr_data;` where `temp_offset` bytes are stored so far.
abbrev pub store_byte : List ℕ → ℕ → Action (List ℕ)
store_byte buff v =
    if ltb (length buff) max_buff_size then pure (buff ++ (v % 256 ∷ [])) else jump fault

-- `memcpy(data, buff, length)` into an array of `size` bytes.
abbrev pub copy_out : ℕ → ℕ → List ℕ → Action (List ℕ)
copy_out size n buff = if leb n max_buff_size && leb n size then pure (take n buff) else jump fault

-- The value of TXR that addresses the slave: `addr << 1`, with the lowest bit cleared or set.
abbrev pub address_write : ℕ → ℕ
address_write addr = addr * 2

abbrev pub address_read : ℕ → ℕ
address_read addr = addr * 2 + 1

module _ (b : Board) (c : ℕ) where
  -- The loop of steps 10 to 12, on `byte_to_rw` and the bytes in `buff`.
  unfoldable pub read_bytes : ℕ → List ℕ → ℕ → Action (ℕ × List ℕ)
  read_bytes zero buff stat = pure (0, buff)
  read_bytes (suc zero) buff stat = pure (1, buff)
  read_bytes (suc (suc n)) buff stat = do
    lift (mmio_write (cmd_stat_addr c) command_read)
    stat₁ ← await_ack b c 11 stat
    v ← lift (mmio_read b (txr_addr c))
    buff' ← store_byte buff v
    read_bytes (suc n) buff' stat₁

  -- `if(byte_to_rw)`: the last byte.
  unfoldable pub read_last : ℕ × List ℕ → Action (List ℕ)
  read_last (byte_to_rw, buff) =
      if byte_to_rw == 0
      then pure buff
      else (do v ← lift (mmio_read b (txr_addr c)); store_byte buff v)

  -- Steps 1 to 13, and the copy into the caller's `size` bytes.
  unfoldable pub read_transfer : ℕ → ℕ → ℕ → ℕ → Action (List ℕ)
  unfolding read_bytes read_last
  read_transfer size addr offset n = do
    stat₁ ← send b c (address_write addr) command_start_write 3 0
    stat₂ ← send b c offset command_enable_write 6 stat₁
    stat₃ ← send b c (address_read addr) command_start_write 9 stat₂
    got ← read_bytes n [] stat₃
    lift (mmio_write (cmd_stat_addr c) command_ack_stop_read)
    await_idle b c 13 stat₃
    buff ← read_last got
    copy_out size n buff

-- The return value and the bytes written to `data`, an array of `size` bytes.
unfoldable pub fpga_smbus_read : Board → ℕ → ℕ → ℕ → ℕ → ℕ → Trace → Option (ℤ × List ℕ) × Trace
unfolding read_transfer with_channel
fpga_smbus_read b size channel addr offset n =
    with_channel b channel addr [] (read_transfer b channel size addr offset n)
