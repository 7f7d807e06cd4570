-- ===== src/Sfp/Status/Switches.antt =====
-- The reset and the low power mode of a port: get_mode_reset, set_mode_reset, get_lp_mode_sel and
-- set_lp_mode_sel.
pub mod RoundTrip
use meta_bisdn_linux.Base.{
  ℕ, zero, suc, ◌+◌, ◌*◌, ◌/◌, ◌%◌, ◌^◌, ◌≤◌, ◌<◌, ◌≡◌, refl, sym, ap, subst, ◌∙◌, arith, Option,
  none, some, List, [], ◌∷◌, ℤ, pos, negsuc, Bool, true, false, not, ◌&&◌, is_zero, bit, bit_and,
  ltb, ◌==◌, if◌then◌else◌, get_elem?, low_byte, with_bit, bit-written, bit_and-two_pow, bit-low,
  two_pow-positive, Bool-cases, inl, inr,
}
use meta_bisdn_linux.Sfp.Status.{
  CpldAccess, Port, Cpld, cpld1, cpld2, i2c_addr, take_lock, give_lock, cpld_read, cpld_write,
}
use meta_bisdn_linux.Sfp.Status.Registers.{KeepsRegisters}

-- `reset_reg_addr` for the registers of reset and of low power, which begin at 0x78 and 0x70.
abbrev pub rows : ℕ → List ℕ
rows base = base ∷ (base + 1) ∷ base ∷ (base + 1) ∷ []

abbrev pub reset_regs : ℕ
reset_regs = 0x78

abbrev pub lp_regs : ℕ
lp_regs = 0x70

-- `cpld_addr[port_bit/PORTS_PER_CPLD]` and `reset_reg_addr[port_bit/PORTS_PER_REG]`; `none` is past
-- the end of an array.
abbrev pub pick : ℕ → ℕ → ℕ → Option (ℕ × ℕ)
pick base c k = elim (get_elem? (i2c_addr cpld1 ∷ i2c_addr cpld2 ∷ []) c) [
  | none ↦ none
  | some addr ↦ elim (get_elem? (rows base) k) [ none ↦ none | some reg ↦ some (addr, reg) ]
]

abbrev pub place : ℕ → ℕ → Option (ℕ × ℕ)
place base port = pick base (port / 16) (port / 8)

module _ {S : Type 0} (cpld : CpldAccess S) where
  -- The number that is printed. The status of the read is stored in a `u8`.
  abbrev pub get_bit : ℕ → Option (ℕ × ℕ) → Port S → Option (ℕ × Port S)
  get_bit i none p = none
  get_bit i (some (addr, reg)) p =
      let (status, p') = cpld_read cpld addr reg (take_lock p) in
      some (bit_and (low_byte status) (2 ^ i) / 2 ^ i, give_lock p')

  abbrev pub set_bit : ℕ → Option (ℕ × ℕ) → ℤ → ℕ → Port S → Option (ℤ × Port S)
  set_bit i none number count p = none
  set_bit i (some (addr, reg)) number count p =
      let (value, p₁) = cpld_read cpld addr reg (take_lock p) in
      let byte = with_bit (not (is_zero number)) (2 ^ i) (low_byte value) in
      let (status, p₂) = cpld_write cpld addr reg byte p₁ in some (pos count, give_lock p₂)

  unfoldable pub get_mode_reset : ℕ → Port S → Option (ℕ × Port S)
  get_mode_reset port = get_bit (port % 8) (place reset_regs port)

  -- `parsed`: the status of kstrtol and the number.
  unfoldable pub set_mode_reset : ℕ → ℤ × ℤ → ℕ → Port S → Option (ℤ × Port S)
  set_mode_reset port (error, reset) count p = elim (is_zero error) [
    | false ↦ some (error, p)
    | true ↦ set_bit (port % 8) (place reset_regs port) reset count p
  ]

  unfoldable pub get_lp_mode_sel : ℕ → Port S → Option (ℕ × Port S)
  get_lp_mode_sel port = get_bit (port % 8) (place lp_regs port)

  unfoldable pub set_lp_mode_sel : ℕ → ℤ × ℤ → ℕ → Port S → Option (ℤ × Port S)
  set_lp_mode_sel port (error, reset) count p = elim (is_zero error) [
    | false ↦ some (error, p)
    | true ↦ set_bit (port % 8) (place lp_regs port) reset count p
  ]
