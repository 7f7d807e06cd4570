-- ===== src/Sfp/Status/Signals/Lanes.antt =====
-- The signals of the lanes of a module whose registers keep their bytes.
use meta_bisdn_linux.Base.{
  ℕ, ◌+◌, ◌/◌, ◌%◌, ◌≡◌, refl, ap, ◌∙◌, arith, List, [], ◌∷◌, map, ℤ, pos, Bool, true, false, ◌&&◌,
  is_neg, bit_and, bit_and-nibble, ◌==◌, if◌then◌else◌, low_byte,
}
use meta_bisdn_linux.Sfp.Bus.{word, time_before}
use meta_bisdn_linux.Sfp.Status.{Port, data_ptr}
use meta_bisdn_linux.Sfp.Status.Signals.{
  EepromAccess, signal_regs, retry_loop, signals_loop, signals, sfp_eeprom_read, sfp_eeprom_write,
  qsfp_update_tx_rx_status,
}

-- Every transfer succeeds, a read gives the byte that the register holds, and only a write changes
-- it.
pub record KeepsBytes {S : Type 0} (eeprom : EepromAccess S) (byte : S → ℕ → ℕ) : Type 0 where
  pub reads : (r : ℕ) (s : S) → (eeprom.read_byte_data r s).0 ≡ pos (byte s r)
  pub read_keeps : (r : ℕ) (s : S) (a : ℕ) → byte (eeprom.read_byte_data r s).1 a ≡ byte s a
  pub writes : (r v : ℕ) (s : S) → (eeprom.write_byte_data r v s).0 ≡ pos 0
  pub write_changes :
      (r v : ℕ) (s : S) (a : ℕ)
      → byte (eeprom.write_byte_data r v s).1 a ≡ (if r == a then v else byte s a)
  pub jiffies_keeps : (s : S) (a : ℕ) → byte (eeprom.jiffies s).1 a ≡ byte s a
  pub msleep_keeps : (n : ℕ) (s : S) (a : ℕ) → byte (eeprom.msleep n s) a ≡ byte s a

-- The status that the registers stand for.
abbrev pub status_of : (ℕ → ℕ) → List ℕ → List ℕ
status_of f regs = map (λ r. f r % 16) regs

pub status_of-same :
    (f g : ℕ → ℕ) (regs : List ℕ) → ((a : ℕ) → f a ≡ g a) → status_of f regs ≡ status_of g regs
status_of-same f g [] h = refl
status_of-same f g (r ∷ regs) h =
    ap (λ x. (x % 16) ∷ status_of f regs) (h r)
    ∙ ap (λ (xs : List ℕ). (g r % 16) ∷ xs) (status_of-same f g regs h)

pub and_false : (b : Bool) → (b && false) ≡ false
and_false true = refl
and_false false = refl

low_nibble : (x : ℕ) → bit_and (x % 256) 15 ≡ x % 16
low_nibble x = bit_and-nibble (x % 256) ∙ omega arith

module _ {S : Type 0} (eeprom : EepromAccess S) (byte : S → ℕ → ℕ)
    (keeps : KeepsBytes eeprom byte) where
  retry_lem :
      (transfer : S → ℤ × S) (v : ℕ) (status : ℤ) (s : S)
      → (transfer s).0 ≡ pos v
      → retry_loop eeprom transfer 10 status s ≡ (pos v, (transfer s).1)
  unfolding retry_loop
  retry_lem transfer v status s e = rw (e, retry_loop) (ap (λ (x : ℤ). (x, (transfer s).1)) e)

  eeprom_read_lem :
      (r buf : ℕ) (s : S)
      → sfp_eeprom_read eeprom r buf s ≡ (pos 1, byte s r % 256, (eeprom.read_byte_data r s).1)
  unfolding sfp_eeprom_read
  eeprom_read_lem r buf s =
      let finish : ℤ × S → ℤ × ℕ × S =
        λ o. elim (is_neg o.0) [ true ↦ (o.0, buf, o.1) | false ↦ (pos 1, low_byte o.0, o.1) ] in
      ap finish (retry_lem (eeprom.read_byte_data r) (byte s r) (pos 0) s (keeps.reads r s))

  pub eeprom_write_lem :
      (r v : ℕ) (s : S) → sfp_eeprom_write eeprom r v s ≡ (pos 1, (eeprom.write_byte_data r v s).1)
  unfolding sfp_eeprom_write
  eeprom_write_lem r v s =
      let finish : ℤ × S → ℤ × S =
        λ o. elim (is_neg o.0) [ true ↦ (o.0, o.1) | false ↦ (pos 1, o.1) ] in
      ap finish (retry_lem (eeprom.write_byte_data r v) 0 (pos 0) s (keeps.writes r v s))

  signals_step :
      (r : ℕ) (regs : List ℕ) (status : ℤ) (buf : ℕ) (s : S)
      → let o = signals_loop eeprom regs (pos 1) (byte s r % 256) (eeprom.read_byte_data r s).1 in
        signals_loop eeprom (r ∷ regs) status buf s ≡ (o.0, bit_and (byte s r % 256) 15 ∷ o.1, o.2)
  unfolding signals_loop
  signals_step r regs status buf s =
      let next : ℤ × ℕ × S → ℤ × List ℕ × S = λ i. elim (is_neg i.0) [
        | true ↦ (i.0, 0 ∷ map (λ _. 0) regs, i.2)
        | false ↦ let o = signals_loop eeprom regs i.0 i.1 i.2 in (o.0, bit_and i.1 15 ∷ o.1, o.2)
      ] in
      ap next (eeprom_read_lem r buf s)

  signals_loop_lem :
      (regs : List ℕ) (status : ℤ) (buf : ℕ) (s : S)
      → is_neg status ≡ false
      → let o = signals_loop eeprom regs status buf s in
        (is_neg o.0 ≡ false) × (o.1 ≡ status_of (byte s) regs) × ((a : ℕ) → byte o.2 a ≡ byte s a)
  unfolding signals_loop
  signals_loop_lem [] status buf s h = (h, refl, λ a. refl)
  signals_loop_lem (r ∷ regs) status buf s h =
      let s' = (eeprom.read_byte_data r s).1 in
      let e = signals_step r regs status buf s in
      let (good, bytes, same) = signals_loop_lem regs (pos 1) (byte s r % 256) s' refl in
      let kept = keeps.read_keeps r s in
      (
        ap (λ (o : ℤ × List ℕ × S). is_neg o.0) e ∙ good,
        ap (λ (o : ℤ × List ℕ × S). o.1) e
            ∙ ap (λ (xs : List ℕ). bit_and (byte s r % 256) 15 ∷ xs)
                (bytes ∙ status_of-same (byte s') (byte s) regs kept)
            ∙ ap (λ x. x ∷ status_of (byte s) regs) (low_nibble (byte s r)),
        λ a. ap (λ (o : ℤ × List ℕ × S). byte o.2 a) e ∙ same a ∙ kept a,
      )

  signals_lem :
      (s : S)
      → let o = signals eeprom s in
        (is_neg o.0 ≡ false)
        × (o.1 ≡ status_of (byte s) signal_regs)
        × ((a : ℕ) → byte o.2 a ≡ byte s a)
  unfolding signals signals_loop
  signals_lem s =
      let first = signals_loop eeprom signal_regs (pos 0) 0 s in
      let (good, ignored, same) = signals_loop_lem signal_regs (pos 0) 0 s refl in
      let s₁ = eeprom.msleep 200 first.2 in
      let (good', bytes, same') = signals_loop_lem signal_regs first.0 0 s₁ good in
      let kept : (a : ℕ) → byte s₁ a ≡ byte s a = λ a. keeps.msleep_keeps 200 first.2 a ∙ same a in
      rw (good, signals)
        (good', bytes ∙ status_of-same (byte s₁) (byte s) signal_regs kept, λ a. same' a ∙ kept a)

  -- A status that is not valid is read from the module.
  pub update_lem :
      (p : Port S)
      → p.valid ≡ false
      → let o = qsfp_update_tx_rx_status eeprom p in
        (o.0 ≡ data_ptr)
        × (o.1.status ≡ status_of (byte p.world) signal_regs)
        × ((a : ℕ) → byte o.1.world a ≡ byte p.world a)
  unfolding qsfp_update_tx_rx_status
  update_lem p invalid =
      let (now, s) = eeprom.jiffies p.world in
      let o = signals eeprom s in
      let recent = time_before now ((p.last_updated + eeprom.hz + eeprom.hz / 2) % word) in
      let stale : (recent && p.valid) ≡ false = ap (λ v. recent && v) invalid ∙ and_false recent in
      let (good, bytes, same) = signals_lem s in
      let kept = keeps.jiffies_keeps p.world in
      rw (stale, qsfp_update_tx_rx_status)
        (rw (good, qsfp_update_tx_rx_status)
          (
            refl,
            bytes ∙ status_of-same (byte s) (byte p.world) signal_regs kept,
            λ a. keeps.jiffies_keeps o.2 a ∙ same a ∙ kept a,
          ))
