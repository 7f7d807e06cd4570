-- ===== src/Sfp/Status/Present/Agree.antt =====
-- The two ways to ask whether a port has a module in it, on CPLDs that keep their registers.
use meta_bisdn_linux.Base.{
  ℕ, zero, suc, max, ◌+◌, ◌-◌, ◌*◌, ◌/◌, ◌%◌, ◌^◌, ◌<◌, ◌≡◌, refl, sym, ap, subst, ◌∙◌, arith, List,
  [], ◌∷◌, ℤ, pos, negsuc, bit, bit_or, bit-above, bit-inverted, bit-low, bit-div, ltb, ◌==◌,
  if◌then◌else◌, get_or,
}
use meta_bisdn_linux.Sfp.Status.{
  CpldAccess, take_lock, give_lock, Port, cpld1, cpld2, i2c_addr, Shown, failed, printed, shl64,
  err_ptr, data_ptr, err_or_data,
}
use meta_bisdn_linux.Sfp.Status.Present.{
  present_attr, present_all, present_value, present_loop, sfp_update_present, show_present,
}
use meta_bisdn_linux.Sfp.Status.Present.Single.{or_bit, is_port_present-read}
use meta_bisdn_linux.Sfp.Status.Registers.{KeepsRegisters, cpld_of, cpld_of-addr}

-- Four bytes in a word, as sfp_update_present puts them there.
abbrev word_of : ℕ → ℕ → ℕ → ℕ → ℕ
word_of v₀ v₁ v₂ v₃ =
    bit_or (bit_or (bit_or (bit_or 0 (shl64 v₀ 0)) (shl64 v₁ 8)) (shl64 v₂ 16)) (shl64 v₃ 24)

word_bits :
    (v₀ v₁ v₂ v₃ q j : ℕ)
    → v₀ < 256
    → v₁ < 256
    → v₂ < 256
    → v₃ < 256
    → q < 4
    → j < 8
    → bit (word_of v₀ v₁ v₂ v₃) (8 * q + j) ≡ bit (get_or (v₀ ∷ v₁ ∷ v₂ ∷ v₃ ∷ []) q 0) j
word_bits v₀ v₁ v₂ v₃ q j b₀ b₁ b₂ b₃ h h' =
    or_bit _ v₃ 3 q j _ b₃ (omega arith) h' (
      or_bit _ v₂ 2 q j _ b₂ (omega arith) h' (
        or_bit _ v₁ 1 q j _ b₁ (omega arith) h' (
          or_bit 0 v₀ 0 q j 0 b₀ (omega arith) h'
            (bit-above 0 0 (8 * q + j) (omega arith) (omega arith)))))
    ∙ chosen q h
  where
    chosen :
        (q : ℕ)
        → q < 4
        → max
            (max
              (max (max 0 (if 0 == q then bit v₀ j else 0)) (if 1 == q then bit v₁ j else 0))
              (if 2 == q then bit v₂ j else 0))
            (if 3 == q then bit v₃ j else 0)
          ≡ bit (get_or (v₀ ∷ v₁ ∷ v₂ ∷ v₃ ∷ []) q 0) j
    chosen zero h = omega arith
    chosen (suc zero) h = omega arith
    chosen (suc (suc zero)) h = omega arith
    chosen (suc (suc (suc zero))) h = omega arith
    chosen (suc (suc (suc (suc q)))) h = absurd (omega arith)

-- The bit of a port in a byte that present_value prints.
bit-present_value :
    (v₀ v₁ v₂ v₃ q j : ℕ)
    → v₀ < 256
    → v₁ < 256
    → v₂ < 256
    → v₃ < 256
    → q < 4
    → j < 8
    → bit (present_value (word_of v₀ v₁ v₂ v₃) q) j
      ≡ 1 - bit (get_or (v₀ ∷ v₁ ∷ v₂ ∷ v₃ ∷ []) q 0) j
bit-present_value v₀ v₁ v₂ v₃ q j b₀ b₁ b₂ b₃ h h' =
    let w = word_of v₀ v₁ v₂ v₃ in
    let order : q * 8 ≡ 8 * q = omega arith in
    bit-inverted (w / 2 ^ (q * 8) % 256) j (omega arith) h'
    ∙ ap (λ x. 1 - x)
        (bit-low (w / 2 ^ (q * 8)) j h'
          ∙ bit-div w (q * 8) j
          ∙ ap (λ x. bit w (x + j)) order
          ∙ word_bits v₀ v₁ v₂ v₃ q j b₀ b₁ b₂ b₃ h h')

-- The bytes that are printed for all ports.
abbrev all_bytes : ℕ → List ℕ
all_bytes w = present_value w 0 ∷ present_value w 1 ∷ present_value w 2 ∷ present_value w 3 ∷ []

byte_of_port : (w q : ℕ) → q < 4 → get_or (all_bytes w) q 0 ≡ present_value w q
byte_of_port w zero h = refl
byte_of_port w (suc zero) h = refl
byte_of_port w (suc (suc zero)) h = refl
byte_of_port w (suc (suc (suc zero))) h = refl
byte_of_port w (suc (suc (suc (suc q)))) h = absurd (omega arith)

at_register :
    (f : ℕ → ℕ → ℕ) (port a r : ℕ)
    → 0x62 + 2 * (port / 16) ≡ a
    → 0x60 + port % 16 / 8 ≡ r
    → f a r ≡ f (0x62 + 2 * (port / 16)) (0x60 + port % 16 / 8)
at_register f port a r e e' = ap (f a) (sym e') ∙ ap (λ x. f x (0x60 + port % 16 / 8)) (sym e)

-- The register of a port, among the four that are read.
register_of_port :
    (f : ℕ → ℕ → ℕ) (port q : ℕ)
    → port / 8 ≡ q
    → port < 32
    → get_or (f 0x62 0x60 ∷ f 0x62 0x61 ∷ f 0x64 0x60 ∷ f 0x64 0x61 ∷ []) q 0
      ≡ f (0x62 + 2 * (port / 16)) (0x60 + port % 16 / 8)
register_of_port f port zero e h = at_register f port 0x62 0x60 (omega arith) (omega arith)
register_of_port f port (suc zero) e h = at_register f port 0x62 0x61 (omega arith) (omega arith)
register_of_port f port (suc (suc zero)) e h =
    at_register f port 0x64 0x60 (omega arith) (omega arith)
register_of_port f port (suc (suc (suc zero))) e h =
    at_register f port 0x64 0x61 (omega arith) (omega arith)
register_of_port f port (suc (suc (suc (suc q)))) e h = absurd (omega arith)

module _ {S : Type 0} (cpld : CpldAccess S) (value : S → ℕ → ℕ → ℕ)
    (keeps : KeepsRegisters cpld value) where
  abbrev present_word : S → ℕ
  present_word s =
      word_of (value s 0x62 0x60) (value s 0x62 0x61) (value s 0x64 0x60) (value s 0x64 0x61)

  -- The port after round `i` of the loop.
  abbrev round : ℕ → ℕ → Port S → Port S
  round i reg p =
      let addr = i2c_addr (if ltb i 2 then cpld1 else cpld2) in
      record p {
        world = (cpld.read addr reg p.world).1;
        present = bit_or p.present (shl64 (value p.world addr reg) (i * 8));
      }

  loop_step :
      (i reg : ℕ) (regs : List ℕ) (status : ℤ) (p : Port S)
      → present_loop cpld i (reg ∷ regs) status p
        ≡ present_loop cpld
            (i + 1)
            regs
            (pos (value p.world (i2c_addr (if ltb i 2 then cpld1 else cpld2)) reg))
            (round i reg p)
  unfolding present_loop
  loop_step i reg regs status p =
      rw (keeps.reads (if ltb i 2 then cpld1 else cpld2) reg p.world, present_loop) refl

  -- The values of the three registers that are read after others.
  later_values :
      (s : S)
      → let s₁ = (cpld.read 0x62 0x60 s).1 in
        let s₂ = (cpld.read 0x62 0x61 s₁).1 in
        let s₃ = (cpld.read 0x64 0x60 s₂).1 in
        (value s₁ 0x62 0x61 ≡ value s 0x62 0x61)
        × (value s₂ 0x64 0x60 ≡ value s 0x64 0x60)
        × (value s₃ 0x64 0x61 ≡ value s 0x64 0x61)
  later_values s =
      let s₁ = (cpld.read 0x62 0x60 s).1 in
      let s₂ = (cpld.read 0x62 0x61 s₁).1 in
      let first = keeps.read_keeps cpld1 0x60 s in
      let second = keeps.read_keeps cpld1 0x61 s₁ in
      let third = keeps.read_keeps cpld2 0x60 s₂ in
      (
        first 0x62 0x61,
        second 0x64 0x60 ∙ first 0x64 0x60,
        third 0x64 0x61 ∙ second 0x64 0x61 ∙ first 0x64 0x61,
      )

  all_lem :
      (port : ℕ) (p : Port S)
      → let w = present_word p.world in
        (show_present cpld present_all port p).0 ≡ printed (all_bytes w)
  unfolding show_present sfp_update_present present_loop
  all_lem port p =
      let (e₁, e₂, e₃) = later_values p.world in
      let v₀ = value p.world 0x62 0x60 in
      let finish : ℤ × Port S → Shown = λ r.
        (elim (err_or_data r.0) as (λ x. Shown × Port S) [
          | err_ptr e ↦ (failed e, give_lock r.1)
          | data_ptr ↦ (printed (all_bytes r.1.present), give_lock r.1)
        ]).0 in
      let p₀ : Port S = record (take_lock p) { present = 0 } in
      let p₁ = round 0 0x60 p₀ in
      let p₂ = round 1 0x61 p₁ in
      let p₃ = round 2 0x60 p₂ in
      let v₁ = value p.world 0x62 0x61 in
      let v₂ = value p.world 0x64 0x60 in
      ap finish (
        loop_step 0 0x60 (0x61 ∷ 0x60 ∷ 0x61 ∷ []) (negsuc 0) p₀
        ∙ loop_step 1 0x61 (0x60 ∷ 0x61 ∷ []) (pos v₀) p₁
        ∙ loop_step 2 0x60 (0x61 ∷ []) (pos (value p₁.world 0x62 0x61)) p₂
        ∙ loop_step 3 0x61 [] (pos (value p₂.world 0x64 0x60)) p₃)
      ∙ ap (λ w. printed (all_bytes w))
          (ap (λ v. word_of v₀ v (value p₂.world 0x64 0x60) (value p₃.world 0x64 0x61)) e₁
            ∙ ap (λ v. word_of v₀ v₁ v (value p₃.world 0x64 0x61)) e₂
            ∙ ap (λ v. word_of v₀ v₁ v₂ v) e₃)

  one_lem :
      (port : ℕ) (p : Port S)
      → port < 32
      → value p.world (0x62 + 2 * (port / 16)) (0x60 + port % 16 / 8) < 256
      → (show_present cpld present_attr port p).0
        ≡ printed (
            (1 - bit (value p.world (0x62 + 2 * (port / 16)) (0x60 + port % 16 / 8)) (port % 8))
            ∷ [])
  unfolding show_present
  one_lem port p h b =
      let reg = 0x60 + port % 16 / 8 in
      let v = value p.world (0x62 + 2 * (port / 16)) reg in
      let read : (cpld.read (0x62 + 2 * (port / 16)) reg p.world).0 ≡ pos v =
        subst (λ a. (cpld.read a reg p.world).0 ≡ pos (value p.world a reg)) (cpld_of-addr port h)
          (keeps.reads (cpld_of port) reg p.world) in
      rw (is_port_present-read cpld port v p h b read, show_present) refl

  -- On CPLDs that keep their registers, as bytes, the attribute that shows the presence of one port
  -- prints 1 if the bit of the port in its register is 0, and 0 if it is 1; and the attribute that
  -- shows the presence of all ports prints 4 bytes, in which the bit of the port is the same.
  pub present_agrees :
      (port : ℕ) (p : Port S)
      → port < 32
      → ((addr reg : ℕ) → value p.world addr reg < 256)
      → let absent =
          bit (value p.world (0x62 + 2 * (port / 16)) (0x60 + port % 16 / 8)) (port % 8) in
        ((show_present cpld present_attr port p).0 ≡ printed ((1 - absent) ∷ []))
        × (bytes : List ℕ) × ((show_present cpld present_all port p).0 ≡ printed bytes)
        × (bit (get_or bytes (port / 8) 0) (port % 8) ≡ 1 - absent)
  present_agrees port p h b =
      let v = λ (addr : ℕ) (reg : ℕ). value p.world addr reg in
      let q = port / 8 in
      let j = port % 8 in
      let w = present_word p.world in
      (
        one_lem port p h (b (0x62 + 2 * (port / 16)) (0x60 + port % 16 / 8)),
        all_bytes w,
        all_lem port p,
        ap (λ x. bit x j) (byte_of_port w q (omega arith))
            ∙ bit-present_value (v 0x62 0x60) (v 0x62 0x61) (v 0x64 0x60) (v 0x64 0x61) q j
                (b 0x62 0x60) (b 0x62 0x61) (b 0x64 0x60) (b 0x64 0x61) (omega arith) (omega arith)
            ∙ ap (λ x. 1 - bit x j) (register_of_port v port q refl h),
      )
