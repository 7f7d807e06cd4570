-- ===== src/Sfp/Status/Invariant.antt =====
-- What every sequence of accesses to the attributes and the EEPROM of a port leaves in its data.
pub mod Steps
pub mod Reachable
use meta_bisdn_linux.Base.{
  ℕ, zero, suc, ◌≤◌, ◌<◌, ◌≡◌, refl, sym, ap, subst, ◌∙◌, ◌⊎◌, inl, inr, arith, Option, none, some,
  List, [], ◌∷◌, map, set, get_or, ℤ, pos, negsuc, Bool, true, false, not, is_zero, is_neg, bit_and,
  bit_and-nibble, with_bit, with_bit-low, with_bit-all, Bool-cases, Option-cases, ℤ-cases, ltb, ◌+◌,
  ◌*◌, ◌/◌, ◌%◌, ◌^◌, ◌==◌, if◌then◌else◌, ◌&&◌,
}
use meta_bisdn_linux.Sfp.Bus.{Trace, Wire, time_before, word}
use meta_bisdn_linux.Sfp.Attempt.{Got}
use meta_bisdn_linux.Sfp.Client.{PortData, Opcode}
use meta_bisdn_linux.Sfp.Mutex.{Mutex, unlocked, lock, unlock, port_read_write-Unlocks}
use meta_bisdn_linux.Sfp.Status.{
  CpldAccess, Port, Cpld, cpld1, cpld2, i2c_addr, Updated, err_ptr, data_ptr, err_or_data, shl64,
  take_lock, give_lock, cpld_read,
}
use meta_bisdn_linux.Sfp.Status.Present.{
  PresentAttr, present_regs, present_attr, present_all, present_place, present_loop,
  sfp_update_present, present_at, sfp_update_present_by_port, sfp_is_port_present, show_present,
  sfp_bin_access,
}
use meta_bisdn_linux.Sfp.Status.Switches.{
  get_bit, set_bit, place, get_mode_reset, set_mode_reset, get_lp_mode_sel, set_lp_mode_sel,
}
use meta_bisdn_linux.Sfp.Status.Signals.{
  EepromAccess, Signal, SignalAttr, whole, lane, signal_regs, signals_loop, signals,
  sfp_eeprom_read, sfp_eeprom_write, disable_mask, qsfp_update_tx_rx_status, qsfp_show_tx_rx_status,
  write_disable, qsfp_set_tx_disable,
}

-- A value for each register, without its high bits.
abbrev pub Low : List ℕ → List ℕ → Type 0
Low [] [] = Unit {0}
Low [] (b ∷ bs) = ⊥
Low (r ∷ rs) [] = ⊥
Low (r ∷ rs) (b ∷ bs) = (b < 16) × Low rs bs

-- An attribute of the driver has one of four lanes.
abbrev pub IsAttr : SignalAttr → Type 0
IsAttr (whole s) = Unit {0}
IsAttr (lane s i) = i < 4

-- The port after an operation that may read past an array.
abbrev pub left_in : {A S : Type 0} → Port S → Option (A × Port S) → Port S
left_in p none = p
left_in p (some (a, q)) = q

-- The mutex of the port is free, and its status has three values of four bits.
abbrev pub WellFormed : {S : Type 0} → Port S → Type 0
WellFormed p = (p.update_lock ≡ unlocked) × Low signal_regs p.status

module _ {S : Type 0} where
  -- Two states of a port with the same mutex and the same status.
  abbrev Kept : Port S → Port S → Type 0
  Kept p q = (q.update_lock ≡ p.update_lock) × (q.status ≡ p.status)

  -- Work under the mutex that keeps both.
  pub under_lock : (p q : Port S) → WellFormed p → Kept (take_lock p) q → WellFormed (give_lock q)
  under_lock p q (free, low) (e, e') =
      (ap unlock (e ∙ ap lock free), subst (Low signal_regs) (sym e') low)

  module _ (cpld : CpldAccess S) where
    present_loop-Kept :
        (i : ℕ) (regs : List ℕ) (status : ℤ) (p : Port S)
        → Kept p (present_loop cpld i regs status p).1
    unfolding present_loop
    present_loop-Kept i [] status p = (refl, refl)
    present_loop-Kept i (reg ∷ regs) status p =
        let addr = i2c_addr (if ltb i 2 then cpld1 else cpld2) in
        elim (ℤ-cases (cpld.read addr reg p.world).0) [
          | inl (k, e) ↦ rw (e, present_loop) (refl, refl)
          | inr (n, e) ↦ rw (e, present_loop) (present_loop-Kept (i + 1) regs (pos n) _)
        ]

    present_at-Kept : (o : Option (ℕ × ℕ × ℕ)) (p : Port S) → Kept p (present_at cpld o p).1
    unfolding present_at
    present_at-Kept none p = (refl, refl)
    present_at-Kept (some (addr, reg, bit_shift)) p =
        elim (ℤ-cases (cpld.read addr reg p.world).0) [
          | inl (k, e) ↦ rw (e, present_at) (refl, refl)
          | inr (n, e) ↦ rw (e, present_at) (refl, refl)
        ]

    pub is_present-WellFormed :
        (port : ℕ) (p : Port S) → WellFormed p → WellFormed (sfp_is_port_present cpld port p).1
    unfolding sfp_is_port_present
    is_present-WellFormed port p w =
        let p₀ : Port S = record (take_lock p) { present = 0 } in
        let r = present_at cpld (present_place port) p₀ in
        let fine = under_lock p r.1 w (present_at-Kept (present_place port) p₀) in
        elim (ℤ-cases r.0) [
          | inl (k, e) ↦ rw (e, sfp_update_present_by_port, sfp_is_port_present) fine
          | inr (n, e) ↦ rw (e, sfp_update_present_by_port, sfp_is_port_present) fine
        ]

    pub show_present-WellFormed :
        (attr : PresentAttr) (port : ℕ) (p : Port S)
        → WellFormed p
        → WellFormed (show_present cpld attr port p).1
    unfolding show_present
    show_present-WellFormed present_all port p w =
        let p₀ : Port S = record (take_lock p) { present = 0 } in
        let r = present_loop cpld 0 present_regs (negsuc 0) p₀ in
        let fine = under_lock p r.1 w (present_loop-Kept 0 present_regs (negsuc 0) p₀) in
        elim (ℤ-cases r.0) [
          | inl (k, e) ↦ rw (e, sfp_update_present, show_present) fine
          | inr (n, e) ↦ rw (e, sfp_update_present, show_present) fine
        ]
    show_present-WellFormed present_attr port p w =
        let fine = is_present-WellFormed port p w in
        elim (ℤ-cases (sfp_is_port_present cpld port p).0) [
          | inl (k, e) ↦ rw (e, show_present) fine
          | inr (n, e) ↦ rw (e, show_present) fine
        ]

    pub bin_access-WellFormed :
        (w : Wire) (d : PortData) (port : ℕ) (op : Opcode) (off count : ℕ) (p : Port S) (t : Trace)
        (out : Got)
        → (sfp_bin_access cpld w d port op off count p t).0 ≡ some out
        → WellFormed p
        → WellFormed (sfp_bin_access cpld w d port op off count p t).1
    unfolding sfp_bin_access
    bin_access-WellFormed w d port op off count p t out =
        let q = (sfp_is_port_present cpld port p).1 in
        elim (ℤ-cases (sfp_is_port_present cpld port p).0) [
          | inl (k, e) ↦ rw (e, sfp_bin_access) (λ e' h. is_present-WellFormed port p h)
          | inr (zero, e) ↦ rw (e, sfp_bin_access) (λ e' h. is_present-WellFormed port p h)
          | inr (suc n, e) ↦
              rw (e, sfp_bin_access)
                (λ e' h.
                  let (free, low) = is_present-WellFormed port p h in
                  (port_read_write-Unlocks w d op off count t q.update_lock out free e', low))
        ]

    pub get_bit-WellFormed :
        (i : ℕ) (o : Option (ℕ × ℕ)) (p : Port S)
        → WellFormed p
        → WellFormed (left_in p (get_bit cpld i o p))
    get_bit-WellFormed i none p w = w
    get_bit-WellFormed i (some (addr, reg)) p w = (ap (λ m. unlock (lock m)) w.0, w.1)

    pub set_bit-WellFormed :
        (i : ℕ) (o : Option (ℕ × ℕ)) (number : ℤ) (count : ℕ) (p : Port S)
        → WellFormed p
        → WellFormed (left_in p (set_bit cpld i o number count p))
    set_bit-WellFormed i none number count p w = w
    set_bit-WellFormed i (some (addr, reg)) number count p w = (ap (λ m. unlock (lock m)) w.0, w.1)
