-- ===== src/Fpga/Setup.antt =====
-- fpga_init_smbus and fpga_mask_all_intr of fpga_driver.c.
pub mod Configured
use meta_bisdn_linux.Base.{ℕ, zero, suc, ◌+◌, ◌∷◌}
use meta_bisdn_linux.Fpga.Bus.{
  Trace, Io, mmio_write, prer_lo_addr, prer_hi_addr, control_addr, prer_lo_default, prer_hi_default,
  control_enable, max_channel,
}

-- The loop over the channels: the rounds left, and `temp_channel`.
unfoldable pub init_channels : ℕ → ℕ → Io (Unit {0})
init_channels zero c t = (tt, t)
init_channels (suc n) c t =
    let (_, t₁) = mmio_write (prer_lo_addr c) prer_lo_default t in
    let (_, t₂) = mmio_write (prer_hi_addr c) prer_hi_default t₁ in
    let (_, t₃) = mmio_write (control_addr c) control_enable t₂ in init_channels n (c + 1) t₃

unfoldable pub fpga_init_smbus : Io (Unit {0})
unfolding init_channels
fpga_init_smbus = init_channels max_channel 0

unfoldable pub fpga_mask_all_intr : Io (Unit {0})
fpga_mask_all_intr t = let (_, t₁) = mmio_write 0x38 0xFFFFFFFF t in mmio_write 0x3C 0x00000007 t₁
