-- ===== src/Cpld/Bits.antt =====
-- The attributes of one bit, show_bit and set_1bit.
use meta_bisdn_linux.Base.{
  ℕ, ◌≡◌, refl, inl, inr, ◌∷◌, ℤ, pos, Bool, true, false, not, Bool-cases, is_neg, is_zero, ◌==◌,
  if◌then◌else◌, bit_and, low_byte, with_bit,
}
use meta_bisdn_linux.Cpld.Bus.{
  I2cClient, read_byte_data, write_byte_data, mutex_lock, mutex_unlock, Trace, Smbus,
}
use meta_bisdn_linux.Cpld.Retry.{cpld_read_internal, cpld_write_internal, Tried, internal_retries}

-- The fields of `struct cpld_sensor` that these attributes use.
pub record CpldSensor : Type 0 where
  pub reg : ℕ
  pub mask : ℕ
  pub invert : Bool

-- The number that is printed, before the newline.
abbrev pub shown_bit : CpldSensor → ℤ → ℕ
shown_bit sensor value =
    let masked = bit_and (low_byte value) sensor.mask in
    if sensor.invert then (if masked == 0 then 1 else 0) else masked

module _ (bus : Smbus) (client : I2cClient) (sensor : CpldSensor) where
  unfoldable pub show_bit : Trace → ℕ × Trace
  unfolding cpld_read_internal
  show_bit t =
      let (value, t') = cpld_read_internal bus client sensor.reg (mutex_lock ∷ t) in
      (shown_bit sensor value, mutex_unlock ∷ t')

  -- `parsed`: the status of kstrtol and the number. The status of the read is not looked at.
  unfoldable pub set_1bit : ℤ × ℤ → ℕ → Trace → ℤ × Trace
  unfolding cpld_read_internal cpld_write_internal
  set_1bit (status, number) count t = elim (is_zero status) [
    | false ↦ (status, t)
    | true ↦
        let (value, t₁) = cpld_read_internal bus client sensor.reg (mutex_lock ∷ t) in
        let asked = not (is_zero number) in
        let is_reset = if sensor.invert then not asked else asked in
        let (status', t₂) =
          cpld_write_internal bus client sensor.reg (with_bit is_reset sensor.mask (low_byte value))
            t₁ in
        elim (is_neg status') [
          | true ↦ (status', mutex_unlock ∷ t₂)
          | false ↦ (pos count, mutex_unlock ∷ t₂)
        ]
  ]

  -- set_1bit refuses a text that kstrtol refuses, with its error, and touches nothing. Otherwise it
  -- reads the register under the mutex, trying up to 10 times, and then writes it, trying up to 10
  -- times: what it read with its bit changed, whether the read failed or not. It returns the length
  -- of the text, or the last error of the write, after giving the mutex back.
  pub set_1bit_correct :
      (status number : ℤ) (count : ℕ) (t : Trace)
      → let is_reset = if sensor.invert then not (not (is_zero number)) else not (is_zero number) in
        (is_zero status ≡ false → set_1bit (status, number) count t ≡ (status, t))
        × (is_zero status ≡ true
            → (r : ℤ × Trace) × (r' : ℤ × Trace) × Tried
                (read_byte_data client sensor.reg)
                10
                (mutex_lock ∷ t)
                r
              × Tried
                  (write_byte_data client sensor.reg (with_bit is_reset sensor.mask (low_byte r.0)))
                  10
                  r.1
                  r'
              × (set_1bit (status, number) count t
                  ≡ ((if is_neg r'.0 then r'.0 else pos count), mutex_unlock ∷ r'.1)))
  unfolding set_1bit
  set_1bit_correct status number count t =
      let is_reset = if sensor.invert then not (not (is_zero number)) else not (is_zero number) in
      let r = cpld_read_internal bus client sensor.reg (mutex_lock ∷ t) in
      let value = with_bit is_reset sensor.mask (low_byte r.0) in
      let r' = cpld_write_internal bus client sensor.reg value r.1 in
      (
        λ refused. rw (refused, set_1bit) refl,
        λ parsed. (
          r,
          r',
          (internal_retries bus client sensor.reg value (mutex_lock ∷ t)).0,
          (internal_retries bus client sensor.reg value r.1).1,
          rw (parsed, set_1bit)
              (elim (Bool-cases (is_neg r'.0)) [
                | inl bad ↦ rw (bad, set_1bit) refl
                | inr good ↦ rw (good, set_1bit) refl
              ]),
        ),
      )
