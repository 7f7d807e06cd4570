-- ===== src/Sfp/Status/Invariant/Steps.antt =====
-- The accesses to the attributes and the EEPROM of a port, as steps, and what they keep.
use meta_bisdn_linux.Base.{
  ℕ, zero, suc, ◌<◌, ◌≡◌, refl, ap, ◌⊎◌, inl, inr, arith, List, [], ◌∷◌, map, set, get_or, ℤ,
  negsuc, Bool, not, is_zero, is_neg, bit_and-nibble, with_bit, with_bit-low, with_bit-all,
  Bool-cases, ℤ-cases, ◌+◌, ◌/◌, ◌%◌, ◌&&◌,
}
use meta_bisdn_linux.Sfp.Bus.{time_before, word}
use meta_bisdn_linux.Sfp.Mutex.{unlocked, lock, unlock}
use meta_bisdn_linux.Sfp.Status.{CpldAccess, Port, Updated, err_ptr, data_ptr}
use meta_bisdn_linux.Sfp.Status.Present.{sfp_is_port_present}
use meta_bisdn_linux.Sfp.Status.Signals.{
  EepromAccess, SignalAttr, whole, lane, signal_regs, signals_loop, signals, sfp_eeprom_read,
  sfp_eeprom_write, disable_mask, sff8436_tx_disable_addr, qsfp_update_tx_rx_status,
  qsfp_show_tx_rx_status, write_disable, qsfp_set_tx_disable,
}
use meta_bisdn_linux.Sfp.Status.Invariant.{Low, IsAttr, WellFormed, is_present-WellFormed}

Low-zeros : (regs : List ℕ) → Low regs (map (λ _. 0) regs)
Low-zeros [] = tt
Low-zeros (r ∷ regs) = (omega arith, Low-zeros regs)

Updated-cases : (u : Updated) → ((e : ℤ) × (u ≡ err_ptr e)) ⊎ (u ≡ data_ptr)
Updated-cases (err_ptr e) = inl (e, refl)
Updated-cases data_ptr = inr refl

Low-middle : (xs : List ℕ) → Low signal_regs xs → get_or xs 1 0 < 16
Low-middle [] h = absurd h
Low-middle (a ∷ []) (h, h') = absurd h'
Low-middle (a ∷ b ∷ xs) (h, (h', rest)) = h'

Low-set : (xs : List ℕ) (b : ℕ) → b < 16 → Low signal_regs xs → Low signal_regs (set xs 1 b)
Low-set [] b l h = absurd h
Low-set (a ∷ []) b l (h, h') = absurd h'
Low-set (a ∷ c ∷ xs) b l (h, (h', rest)) = (h, (l, rest))

disabled-low :
    (attr : SignalAttr) (asked : Bool) (x : ℕ)
    → IsAttr attr
    → x < 16
    → with_bit asked (disable_mask attr) x < 16
disabled-low (whole s) asked x h l = with_bit-all asked x l
disabled-low (lane s i) asked x h l = with_bit-low asked i x h l

module _ {S : Type 0} (eeprom : EepromAccess S) where
  signals_loop-Low :
      (regs : List ℕ) (status : ℤ) (buf : ℕ) (s : S)
      → Low regs (signals_loop eeprom regs status buf s).1
  unfolding signals_loop
  signals_loop-Low [] status buf s = tt
  signals_loop-Low (reg ∷ regs) status buf s =
      let (status', buf', s') = sfp_eeprom_read eeprom reg buf s in
      elim (Bool-cases (is_neg status')) [
        | inl bad ↦ rw (bad, signals_loop) (omega arith, Low-zeros regs)
        | inr good ↦
            rw (good, signals_loop)
              (omega (arith, bit_and-nibble buf'), signals_loop-Low regs status' buf' s')
      ]

  signals-Low : (s : S) → Low signal_regs (signals eeprom s).1
  unfolding signals
  signals-Low s =
      let r = signals_loop eeprom signal_regs (negsuc 0) 0 s in
      elim (Bool-cases (is_neg r.0)) [
        | inl bad ↦ rw (bad, signals) (Low-zeros signal_regs)
        | inr good ↦ rw (good, signals) (signals_loop-Low signal_regs r.0 0 _)
      ]

  update-WellFormed : (p : Port S) → WellFormed p → WellFormed (qsfp_update_tx_rx_status eeprom p).1
  unfolding qsfp_update_tx_rx_status
  update-WellFormed p w =
      let (now, s) = eeprom.jiffies p.world in
      let r = signals eeprom s in
      let fine : (unlock (lock p.update_lock) ≡ unlocked) × Low signal_regs r.1 =
        (ap (λ m. unlock (lock m)) w.0, signals-Low s) in
      elim (Bool-cases
        (time_before now ((p.last_updated + eeprom.hz + eeprom.hz / 2) % word) && p.valid)) [
          | inl recent ↦ rw (recent, qsfp_update_tx_rx_status) w
          | inr old ↦
              rw (old, qsfp_update_tx_rx_status)
                (elim (Bool-cases (is_neg r.0)) [
                  | inl bad ↦ rw (bad, qsfp_update_tx_rx_status) fine
                  | inr good ↦ rw (good, qsfp_update_tx_rx_status) fine
                ])
        ]

  write_disable-WellFormed :
      (attr : SignalAttr) (disable : ℤ) (count : ℕ) (p : Port S)
      → IsAttr attr
      → WellFormed p
      → WellFormed (write_disable eeprom attr disable count p).1
  unfolding write_disable
  write_disable-WellFormed attr disable count p a (free, low) =
      let byte = with_bit (not (is_zero disable)) (disable_mask attr) (get_or p.status 1 0) in
      let small = disabled-low attr (not (is_zero disable)) _ a (Low-middle p.status low) in
      let fine : (unlock (lock p.update_lock) ≡ unlocked) × Low signal_regs (set p.status 1 byte) =
        (ap (λ m. unlock (lock m)) free, Low-set p.status byte small low) in
      elim (Bool-cases (is_neg (sfp_eeprom_write eeprom sff8436_tx_disable_addr byte p.world).0)) [
        | inl bad ↦ rw (bad, write_disable) fine
        | inr good ↦ rw (good, write_disable) fine
      ]

  module _ (cpld : CpldAccess S) (port : ℕ) where
    pub show_signal-WellFormed :
        (attr : SignalAttr) (p : Port S)
        → WellFormed p
        → WellFormed (qsfp_show_tx_rx_status eeprom cpld attr port p).1
    unfolding qsfp_show_tx_rx_status
    show_signal-WellFormed attr p w =
        let (present, p₁) = sfp_is_port_present cpld port p in
        let fine = is_present-WellFormed cpld port p w in
        elim (ℤ-cases present) [
          | inl (k, e) ↦ rw (e, qsfp_show_tx_rx_status) fine
          | inr (zero, e) ↦ rw (e, qsfp_show_tx_rx_status) fine
          | inr (suc n, e) ↦
              let fine' = update-WellFormed p₁ fine in
              rw (e, qsfp_show_tx_rx_status)
                (elim (Updated-cases (qsfp_update_tx_rx_status eeprom p₁).0) [
                  | inl (k, e') ↦ rw (e', qsfp_show_tx_rx_status) fine'
                  | inr e' ↦ rw (e', qsfp_show_tx_rx_status) fine'
                ])
        ]

    pub set_disable-WellFormed :
        (attr : SignalAttr) (error disable : ℤ) (count : ℕ) (p : Port S)
        → IsAttr attr
        → WellFormed p
        → WellFormed (qsfp_set_tx_disable eeprom cpld attr port (error, disable) count p).1
    unfolding qsfp_set_tx_disable
    set_disable-WellFormed attr error disable count p a w =
        let (present, p₁) = sfp_is_port_present cpld port p in
        let fine = is_present-WellFormed cpld port p w in
        elim (ℤ-cases present) [
          | inl (k, e) ↦ rw (e, qsfp_set_tx_disable) fine
          | inr (zero, e) ↦ rw (e, qsfp_set_tx_disable) fine
          | inr (suc n, e) ↦
              rw (e, qsfp_set_tx_disable)
                (elim (Bool-cases (is_zero error)) [
                  | inr refused ↦ rw (refused, qsfp_set_tx_disable) fine
                  | inl parsed ↦
                      let u = qsfp_update_tx_rx_status eeprom p₁ in
                      let fine' = update-WellFormed p₁ fine in
                      rw (parsed, qsfp_set_tx_disable)
                        (elim (Updated-cases u.0) [
                          | inl (k, e') ↦ rw (e', qsfp_set_tx_disable) fine'
                          | inr e' ↦
                              rw (e', qsfp_set_tx_disable)
                                (write_disable-WellFormed attr disable count u.1 a fine')
                        ])
                ])
        ]
