-- ===== src/Fpga/Poll.antt =====
-- The three polling loops of fpga_driver.c. Each takes the rounds left, the address of the status
-- register and the caller's `i2c_stat`, and returns whether it failed beside the new `i2c_stat`.
pub mod Bounds
use meta_bisdn_linux.Base.{ℕ, zero, suc, Bool, true, false, bit_and, ◌==◌}
use meta_bisdn_linux.Fpga.Bus.{Board, Io, mmio_read, fpga_sleep, busy_bit, tip_bit, ack_bit}

module _ (b : Board) where
  unfoldable pub check_busy_loop : ℕ → ℕ → ℕ → Io (Bool × ℕ)
  check_busy_loop zero a stat t = ((true, stat), t)
  check_busy_loop (suc n) a stat t =
      let (_, t₁) = fpga_sleep b.delay_busy t in
      let (stat', t₂) = mmio_read b a t₁ in
      elim (bit_and stat' busy_bit == 0) [
        | true ↦ ((false, stat'), t₂)
        | false ↦ check_busy_loop n a stat' t₂
      ]

  unfoldable pub fpga_smbus_check_busy : ℕ → ℕ → Io (Bool × ℕ)
  unfolding check_busy_loop
  fpga_smbus_check_busy = check_busy_loop b.max_retry_time

  unfoldable pub check_tip_loop : ℕ → ℕ → ℕ → Io (Bool × ℕ)
  check_tip_loop zero a stat t = ((true, stat), t)
  check_tip_loop (suc n) a stat t =
      let (_, t₁) = fpga_sleep b.delay_tip t in
      let (stat', t₂) = mmio_read b a t₁ in
      elim (bit_and stat' tip_bit == 0) [
        | true ↦ ((false, stat'), t₂)
        | false ↦ check_tip_loop n a stat' t₂
      ]

  unfoldable pub fpga_smbus_check_tip : ℕ → ℕ → Io (Bool × ℕ)
  unfolding check_tip_loop
  fpga_smbus_check_tip = check_tip_loop b.max_retry_time

  -- This loop tests first and reads again afterwards, and the last value read is tested once more.
  unfoldable pub check_ack_loop : ℕ → ℕ → ℕ → Io (Bool × ℕ)
  check_ack_loop zero a stat t = elim (bit_and stat ack_bit == 0) [
    | true ↦ ((false, stat), t)
    | false ↦ ((true, stat), t)
  ]
  check_ack_loop (suc n) a stat t = elim (bit_and stat ack_bit == 0) [
    | true ↦ ((false, stat), t)
    | false ↦
        let (_, t₁) = fpga_sleep b.delay_ack t in
        let (stat', t₂) = mmio_read b a t₁ in check_ack_loop n a stat' t₂
  ]

  unfoldable pub fpga_smbus_check_ack : ℕ → ℕ → Io (Bool × ℕ)
  unfolding check_ack_loop
  fpga_smbus_check_ack = check_ack_loop b.max_retry_time
