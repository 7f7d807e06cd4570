-- ===== src/Sfp/Status/Switches/RoundTrip.antt =====
-- A port whose reset or low power mode is set, on CPLDs that keep their registers.
use meta_bisdn_linux.Base.{
  ℕ, zero, suc, ◌+◌, ◌*◌, ◌/◌, ◌%◌, ◌^◌, ◌≤◌, ◌<◌, ◌≡◌, refl, sym, ap, subst, ◌∙◌, arith, Option,
  none, some, ℤ, pos, Bool, true, false, not, ◌&&◌, is_zero, bit, ne→==, ◌==◌, if◌then◌else◌,
  low_byte, with_bit, bit-written, masked_bit, Bool-cases, inl, inr, ◌⊎◌,
}
use meta_bisdn_linux.Sfp.Status.{
  CpldAccess, Port, Cpld, i2c_addr, take_lock, give_lock, cpld_read, cpld_write,
}
use meta_bisdn_linux.Sfp.Status.Registers.{KeepsRegisters, cpld_of, cpld_of-addr}
use meta_bisdn_linux.Sfp.Status.Switches.{
  pick, place, get_bit, set_bit, reset_regs, lp_regs, get_mode_reset, set_mode_reset,
  get_lp_mode_sel, set_lp_mode_sel,
}

-- The number that a get function prints.
abbrev pub number_of : {S : Type 0} → Option (ℕ × Port S) → Option ℕ
number_of none = none
number_of (some (n, p)) = some n

place_row :
    (base port c k reg : ℕ)
    → port / 16 ≡ c
    → port / 8 ≡ k
    → base + port % 16 / 8 ≡ reg
    → pick base c k ≡ some (0x62 + 2 * c, reg)
    → place base port ≡ some (0x62 + 2 * (port / 16), base + port % 16 / 8)
place_row base port c k reg e e' r h =
    ap (λ x. pick base x (port / 8)) e
    ∙ ap (pick base c) e'
    ∙ h
    ∙ ap (λ x. some (0x62 + 2 * x, reg)) (sym e)
    ∙ ap (λ x. some (0x62 + 2 * (port / 16), x)) (sym r)

place_at :
    (base port k : ℕ)
    → port / 8 ≡ k
    → port < 32
    → place base port ≡ some (0x62 + 2 * (port / 16), base + port % 16 / 8)
place_at base port zero e h = place_row base port 0 0 base (omega arith) e (omega arith) refl
place_at base port (suc zero) e h =
    place_row base port 0 1 (base + 1) (omega arith) e (omega arith) refl
place_at base port (suc (suc zero)) e h =
    place_row base port 1 2 base (omega arith) e (omega arith) refl
place_at base port (suc (suc (suc zero))) e h =
    place_row base port 1 3 (base + 1) (omega arith) e (omega arith) refl
place_at base port (suc (suc (suc (suc k)))) e h = absurd (omega arith)

place_lem :
    (base port : ℕ)
    → port < 32
    → place base port ≡ some (i2c_addr (cpld_of port), base + port % 16 / 8)
place_lem base port h = rw (cpld_of-addr port h) (place_at base port (port / 8) refl h)

same_place :
    (base port q : ℕ)
    → port < 32
    → q < 32
    → (0x62 + 2 * (port / 16) == 0x62 + 2 * (q / 16)
        && base + port % 16 / 8 == base + q % 16 / 8
        && port % 8 == q % 8)
      ≡ (port == q)
same_place base port q h h' = ground arith

never : (a b : Bool) (x y : ℕ) → (if a && false && b then x else y) ≡ y
never true b x y = refl
never false b x y = refl

module _ {S : Type 0} (cpld : CpldAccess S) (value : S → ℕ → ℕ → ℕ)
    (keeps : KeepsRegisters cpld value) where
  -- The bit of a port in its row of registers.
  abbrev bit_of : ℕ → ℕ → S → ℕ
  bit_of base port s = bit (value s (0x62 + 2 * (port / 16)) (base + port % 16 / 8)) (port % 8)

  get_bit_lem :
      (base port : ℕ) (p : Port S)
      → port < 32
      → number_of (get_bit cpld (port % 8) (place base port) p) ≡ some (bit_of base port p.world)
  get_bit_lem base port p h =
      let v = value p.world (0x62 + 2 * (port / 16)) (base + port % 16 / 8) in
      rw (place_lem base port h) (
        rw (keeps.reads (cpld_of port) (base + port % 16 / 8) p.world)
          (rw (cpld_of-addr port h) (ap some (masked_bit v (port % 8) (omega arith)))))

  written_value :
      (c : Cpld) (reg i : ℕ) (asked : Bool) (s : S) (a r : ℕ)
      → let (status, s₁) = cpld.read (i2c_addr c) reg s in
        value (cpld.write (i2c_addr c) reg (with_bit asked (2 ^ i) (low_byte status)) s₁).1 a r ≡ (
          if i2c_addr c == a && reg == r
          then with_bit asked (2 ^ i) (value s (i2c_addr c) reg % 256)
          else value s a r)
  written_value c reg i asked s a r =
      let s₁ = (cpld.read (i2c_addr c) reg s).1 in
      keeps.writes c reg _ s₁ a r
      ∙ ap
          (λ (x : ℤ).
            if i2c_addr c == a && reg == r
            then with_bit asked (2 ^ i) (low_byte x)
            else value s₁ a r)
          (keeps.reads c reg s)
      ∙ ap
          (λ x.
            if i2c_addr c == a && reg == r
            then with_bit asked (2 ^ i) (value s (i2c_addr c) reg % 256)
            else x)
          (keeps.read_keeps c reg s a r)

  -- What setting the bit of a port leaves.
  abbrev after_set : ℕ → ℕ → ℤ → Port S → Port S
  after_set base port number p =
      let (status, p₁) =
        cpld_read cpld (i2c_addr (cpld_of port)) (base + port % 16 / 8) (take_lock p) in
      let byte = with_bit (not (is_zero number)) (2 ^ (port % 8)) (low_byte status) in
      give_lock (cpld_write cpld (i2c_addr (cpld_of port)) (base + port % 16 / 8) byte p₁).1

  set_bit_lem :
      (base port : ℕ) (number : ℤ) (count : ℕ) (p : Port S)
      → port < 32
      → set_bit cpld (port % 8) (place base port) number count p
        ≡ some (pos count, after_set base port number p)
  set_bit_lem base port number count p h = rw (place_lem base port h) refl

  -- Setting the bit of a port changes that bit only.
  bit_of-after_set :
      (base port base' q : ℕ) (number : ℤ) (p : Port S)
      → port < 32
      → bit_of base' q (after_set base port number p).world ≡ (
          if 0x62 + 2 * (port / 16) == 0x62 + 2 * (q / 16)
            && base + port % 16 / 8 == base' + q % 16 / 8
            && port % 8 == q % 8
          then (if not (is_zero number) then 1 else 0)
          else bit_of base' q p.world)
  bit_of-after_set base port base' q number p h =
      let c = cpld_of port in
      let reg = base + port % 16 / 8 in
      let asked = not (is_zero number) in
      let a = 0x62 + 2 * (q / 16) in
      let r = base' + q % 16 / 8 in
      subst
        (λ addr.
          bit
            (value
              (cpld.write (i2c_addr c) reg
                (with_bit asked (2 ^ (port % 8)) (low_byte (cpld.read (i2c_addr c) reg p.world).0))
                (cpld.read (i2c_addr c) reg p.world).1).1
              a r)
            (q % 8)
          ≡ (if addr == a && reg == r && port % 8 == q % 8
              then (if asked then 1 else 0)
              else bit (value p.world a r) (q % 8)))
        (cpld_of-addr port h)
        (ap (λ x. bit x (q % 8)) (written_value c reg (port % 8) asked p.world a r)
          ∙ bit-written (value p.world) asked (i2c_addr c) reg (port % 8) a r (q % 8) (omega arith)
              (omega arith))

  -- The rows of the two kinds of registers are apart.
  rows_apart :
      (base base' port q : ℕ)
      → (base' + 2 ≤ base) ⊎ (base + 2 ≤ base')
      → (base + port % 16 / 8 == base' + q % 16 / 8) ≡ false
  rows_apart base base' port q h =
      ne→== (base + port % 16 / 8) (base' + q % 16 / 8) (λ e. absurd (ground arith))

  -- One kind of register is set; `base'` is the other kind.
  switch_round_trip :
      (base base' port q : ℕ) (number : ℤ) (count : ℕ) (p : Port S)
      → port < 32
      → q < 32
      → (base' + 2 ≤ base) ⊎ (base + 2 ≤ base')
      → let asked : ℕ = if not (is_zero number) then 1 else 0 in
        let shown : ℕ → Port S → Option ℕ = λ b x. number_of (get_bit cpld (q % 8) (place b q) x) in
        (p' : Port S) × (set_bit cpld (port % 8) (place base port) number count p
          ≡ some (pos count, p'))
        × (shown base p' ≡ (if port == q then some asked else shown base p))
        × (shown base' p' ≡ shown base' p)
  switch_round_trip base base' port q number count p h h' apart =
      let p' = after_set base port number p in
      let asked : ℕ = if not (is_zero number) then 1 else 0 in
      let own : bit_of base q p'.world ≡ (if port == q then asked else bit_of base q p.world) =
        bit_of-after_set base port base q number p h
        ∙ ap (λ b. if b then asked else bit_of base q p.world) (same_place base port q h h') in
      let other = bit_of-after_set base port base' q number p h in
      let here = get_bit_lem base q in
      let there = get_bit_lem base' q in
      (
        p',
        set_bit_lem base port number count p h,
        elim (Bool-cases (port == q)) [
          | inl same ↦ rw same (here p' h' ∙ ap some (own ∙ rw same refl))
          | inr different ↦
              rw different (here p' h' ∙ ap some (own ∙ rw different refl) ∙ sym (here p h'))
        ],
        there p' h'
            ∙ ap some (other ∙ rw (rows_apart base base' port q apart) (never _ _ _ _))
            ∙ sym (there p h'),
      )

  -- set_mode_reset and set_lp_mode_sel with a number succeed on CPLDs that keep their registers.
  -- get_mode_reset then prints for that port whether the number is not 0, and for every other port,
  -- and get_lp_mode_sel for all ports, what they printed before; and the other way round.
  pub switches_round_trip :
      (port q : ℕ) (number : ℤ) (count : ℕ) (p : Port S)
      → port < 32
      → q < 32
      → let asked : ℕ = if not (is_zero number) then 1 else 0 in
        ((p' : Port S) × (set_mode_reset cpld port (pos 0, number) count p ≡ some (pos count, p'))
          × (number_of (get_mode_reset cpld q p')
              ≡ (if port == q then some asked else number_of (get_mode_reset cpld q p)))
          × (number_of (get_lp_mode_sel cpld q p') ≡ number_of (get_lp_mode_sel cpld q p)))
        × ((p' : Port S) × (set_lp_mode_sel cpld port (pos 0, number) count p
              ≡ some (pos count, p'))
            × (number_of (get_lp_mode_sel cpld q p')
                ≡ (if port == q then some asked else number_of (get_lp_mode_sel cpld q p)))
            × (number_of (get_mode_reset cpld q p') ≡ number_of (get_mode_reset cpld q p)))
  unfolding get_mode_reset set_mode_reset get_lp_mode_sel set_lp_mode_sel
  switches_round_trip port q number count p h h' = (
    switch_round_trip reset_regs lp_regs port q number count p h h' (inl (omega arith)),
    switch_round_trip lp_regs reset_regs port q number count p h h' (inr (omega arith)),
  )
