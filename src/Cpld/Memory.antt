-- ===== src/Cpld/Memory.antt =====
-- CPLDs whose registers hold what was last written to them, and what the attributes of one bit do
-- to such registers.
use meta_bisdn_linux.Base.{
  ℕ, ◌*◌, ◌%◌, ◌^◌, ◌≤◌, ◌<◌, ◌≡◌, refl, sym, ap, ◌∙◌, arith, [], ◌∷◌, ℤ, pos, negsuc, Bool, true,
  false, not, ◌&&◌, is_neg, is_zero, eq→==, subst, ◌==◌, if◌then◌else◌, bit_and, bit,
  bit_and-two_pow, two_pow-positive, masked_zero, bit-written, bit-low, low_byte, with_bit, bit-le,
}
use meta_bisdn_linux.Cpld.Bus.{
  I2cClient, read_byte_data, write_byte_data, msleep, mutex_lock, mutex_unlock, Trace, Smbus,
}
use meta_bisdn_linux.Cpld.Retry.{read_retry, write_retry, cpld_read_internal, cpld_write_internal}
use meta_bisdn_linux.Cpld.Bits.{CpldSensor, shown_bit, show_bit, set_1bit}

-- What register `reg` of the device at `addr` holds after a trace.
abbrev pub contents : (ℕ → ℕ → ℕ) → Trace → ℕ → ℕ → ℕ
contents initial [] addr reg = initial addr reg
contents initial (write_byte_data c r v (pos n) ∷ t) addr reg =
    if c.addr == addr && r == reg then v else contents initial t addr reg
contents initial (write_byte_data c r v (negsuc n) ∷ t) addr reg = contents initial t addr reg
contents initial (read_byte_data c r s ∷ t) addr reg = contents initial t addr reg
contents initial (msleep n ∷ t) addr reg = contents initial t addr reg
contents initial (mutex_lock ∷ t) addr reg = contents initial t addr reg
contents initial (mutex_unlock ∷ t) addr reg = contents initial t addr reg

-- Every transfer succeeds, and a read gives the contents.
pub record HoldsRegisters (bus : Smbus) (initial : ℕ → ℕ → ℕ) : Type 0 where
  pub reads :
      (t : Trace) (c : I2cClient) (reg : ℕ)
      → bus.read_status t c reg ≡ pos (contents initial t c.addr reg)
  pub writes : (t : Trace) (c : I2cClient) (reg v : ℕ) → bus.write_status t c reg v ≡ pos 0

module _ (bus : Smbus) (initial : ℕ → ℕ → ℕ) (holds : HoldsRegisters bus initial)
    (client : I2cClient) where
  pub cpld_read_internal-holds :
      (reg : ℕ) (t : Trace)
      → let v = contents initial t client.addr reg in
        cpld_read_internal bus client reg t ≡ (pos v, read_byte_data client reg (pos v) ∷ t)
  unfolding cpld_read_internal read_retry
  cpld_read_internal-holds reg t =
      let e = holds.reads t client reg in
      rw (e, read_retry) (ap (λ (s : ℤ). (s, read_byte_data client reg s ∷ t)) e)

  pub cpld_write_internal-holds :
      (reg v : ℕ) (t : Trace)
      → cpld_write_internal bus client reg v t ≡ (pos 0, write_byte_data client reg v (pos 0) ∷ t)
  unfolding cpld_write_internal write_retry
  cpld_write_internal-holds reg v t =
      let e = holds.writes t client reg v in
      rw (e, write_retry) (ap (λ (s : ℤ). (s, write_byte_data client reg v s ∷ t)) e)

-- What show_bit prints of a register, where the mask is one bit.
shown_bit-one :
    (sensor : CpldSensor) (i v b : ℕ)
    → i < 8
    → sensor.mask ≡ 2 ^ i
    → bit v i ≡ b
    → shown_bit sensor (pos v)
      ≡ (if sensor.invert then (if b == 0 then 1 else 0) else b * sensor.mask)
shown_bit-one sensor i v b h e e' =
    let m : bit_and (v % 256) sensor.mask ≡ b * sensor.mask =
      ap (bit_and (v % 256)) e
      ∙ bit_and-two_pow (v % 256) i
      ∙ ap (λ x. x * 2 ^ i) (bit-low v i h ∙ e')
      ∙ ap (λ x. b * x) (sym e) in
    let z =
      masked_zero b sensor.mask (subst (λ x. x ≤ 1) e' (bit-le v i))
        (subst (λ x. 0 < x) (sym e) (two_pow-positive i)) in
    rw (m, z) refl

shown_asked :
    (invert number_is_zero : Bool) (m : ℕ)
    → let asked = not number_is_zero in
      let b : ℕ = if (if invert then not asked else asked) then 1 else 0 in
      (if invert then (if b == 0 then 1 else 0) else b * m)
      ≡ (if number_is_zero then 0 else (if invert then 1 else m))
shown_asked true true m = refl
shown_asked true false m = refl
shown_asked false true m = omega arith
shown_asked false false m = omega arith

module _ (bus : Smbus) (initial : ℕ → ℕ → ℕ) (holds : HoldsRegisters bus initial)
    (client : I2cClient) (sensor : CpldSensor) where
  show_bit-holds :
      (t : Trace)
      → (show_bit bus client sensor t).0
        ≡ shown_bit sensor (pos (contents initial t client.addr sensor.reg))
  unfolding show_bit
  show_bit-holds t =
      ap (λ (r : ℤ × Trace). shown_bit sensor r.0)
        (cpld_read_internal-holds bus initial holds client sensor.reg (mutex_lock ∷ t))

  -- What set_1bit leaves: the mutex, the read, the write and the mutex again.
  abbrev after_set : ℤ → Trace → Trace
  after_set number t =
      let v = contents initial t client.addr sensor.reg in
      let asked = not (is_zero number) in
      let is_reset = if sensor.invert then not asked else asked in
      mutex_unlock
      ∷ write_byte_data client sensor.reg (with_bit is_reset sensor.mask (v % 256)) (pos 0)
      ∷ read_byte_data client sensor.reg (pos v)
      ∷ mutex_lock
      ∷ t

  set_1bit-holds :
      (number : ℤ) (count : ℕ) (t : Trace)
      → set_1bit bus client sensor (pos 0, number) count t ≡ (pos count, after_set number t)
  unfolding set_1bit
  set_1bit-holds number count t =
      let asked = not (is_zero number) in
      let is_reset = if sensor.invert then not asked else asked in
      let finish : ℤ × Trace → ℤ × Trace = λ r. elim (is_neg r.0) [
        | true ↦ (r.0, mutex_unlock ∷ r.1)
        | false ↦ (pos count, mutex_unlock ∷ r.1)
      ] in
      let write = λ (r : ℤ × Trace). finish (
        cpld_write_internal bus client sensor.reg (with_bit is_reset sensor.mask (low_byte r.0))
          r.1) in
      ap write (cpld_read_internal-holds bus initial holds client sensor.reg (mutex_lock ∷ t))
      ∙ ap finish (cpld_write_internal-holds bus initial holds client sensor.reg _ _)

  -- The bits of every register after that, where the mask is one bit.
  bit-after_set :
      (i j addr reg : ℕ) (number : ℤ) (t : Trace)
      → i < 8
      → j < 8
      → sensor.mask ≡ 2 ^ i
      → let asked = not (is_zero number) in
        let is_reset = if sensor.invert then not asked else asked in
        bit (contents initial (after_set number t) addr reg) j ≡ (
          if client.addr == addr && sensor.reg == reg && i == j
          then (if is_reset then 1 else 0)
          else bit (contents initial t addr reg) j)
  bit-after_set i j addr reg number t h h' m =
      let asked = not (is_zero number) in
      let is_reset = if sensor.invert then not asked else asked in
      let v = contents initial t client.addr sensor.reg in
      ap
        (λ x.
          bit
            (if client.addr == addr && sensor.reg == reg
              then with_bit is_reset x (v % 256)
              else contents initial t addr reg)
            j)
        m
      ∙ bit-written (contents initial t) is_reset client.addr sensor.reg i addr reg j h h'

  -- On registers that keep their values, where the mask of the attribute is the bit `i`, set_1bit
  -- with a number succeeds. show_bit then prints that the bit is set exactly if the number is not
  -- 0: the mask or 0, and 1 or 0 for an inverted attribute. Every other bit `j` below 8 of this and
  -- of all other registers keeps its value.
  pub set_1bit-show_bit :
      (i j addr reg : ℕ) (number : ℤ) (count : ℕ) (t : Trace)
      → i < 8
      → j < 8
      → sensor.mask ≡ 2 ^ i
      → let asked = not (is_zero number) in
        let is_reset = if sensor.invert then not asked else asked in
        let (status, u) = set_1bit bus client sensor (pos 0, number) count t in
        (status ≡ pos count)
        × ((show_bit bus client sensor u).0
            ≡ (if is_zero number then 0 else (if sensor.invert then 1 else sensor.mask)))
        × (bit (contents initial u addr reg) j ≡ (
            if client.addr == addr && sensor.reg == reg && i == j
            then (if is_reset then 1 else 0)
            else bit (contents initial t addr reg) j))
  set_1bit-show_bit i j addr reg number count t h h' m =
      let own = bit-after_set i i client.addr sensor.reg number t h h m in
      rw (set_1bit-holds number count t) (
        refl,
        (show_bit-holds (after_set number t)
            ∙ shown_bit-one sensor i _ _ h m own
            ∙ rw
                (
                  eq→== client.addr client.addr refl,
                  eq→== sensor.reg sensor.reg refl,
                  eq→== i i refl,
                )
                (shown_asked sensor.invert (is_zero number) sensor.mask)),
        bit-after_set i j addr reg number t h h' m,
      )
