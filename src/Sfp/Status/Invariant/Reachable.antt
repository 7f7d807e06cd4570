-- ===== src/Sfp/Status/Invariant/Reachable.antt =====
-- The states that a port can come to.
use meta_bisdn_linux.Base.{
  ℕ, ◌≡◌, refl, inl, inr, arith, Option, some, [], ◌∷◌, ℤ, true, false, is_zero, Bool-cases, ◌%◌,
}
use meta_bisdn_linux.Sfp.Bus.{Trace, Wire}
use meta_bisdn_linux.Sfp.Attempt.{Got}
use meta_bisdn_linux.Sfp.Client.{PortData, Opcode}
use meta_bisdn_linux.Sfp.Mutex.{unlocked}
use meta_bisdn_linux.Sfp.Status.{CpldAccess, Port}
use meta_bisdn_linux.Sfp.Status.Present.{PresentAttr, show_present, sfp_bin_access}
use meta_bisdn_linux.Sfp.Status.Switches.{
  reset_regs, lp_regs, set_bit, place, get_mode_reset, set_mode_reset, get_lp_mode_sel,
  set_lp_mode_sel,
}
use meta_bisdn_linux.Sfp.Status.Signals.{
  EepromAccess, SignalAttr, qsfp_show_tx_rx_status, qsfp_set_tx_disable,
}
use meta_bisdn_linux.Sfp.Status.Invariant.{
  IsAttr, left_in, WellFormed, show_present-WellFormed, bin_access-WellFormed, get_bit-WellFormed,
  set_bit-WellFormed,
}
use meta_bisdn_linux.Sfp.Status.Invariant.Steps.{show_signal-WellFormed, set_disable-WellFormed}

-- A port after kzalloc and mutex_init.
abbrev pub probed_port : {S : Type 0} → S → Port S
probed_port s = record {
  world = s;
  update_lock = unlocked;
  present = 0;
  valid = false;
  last_updated = 0;
  status = 0 ∷ 0 ∷ 0 ∷ [];
}

module _ {S : Type 0} (eeprom : EepromAccess S) (cpld : CpldAccess S) (port : ℕ) where
  -- One access from user space, or something elsewhere that changes the world. `kstrtol` is what
  -- that function makes of the text that is written.
  pub data Step : Port S → Port S → Type 0 where
    present_shown : (attr : PresentAttr) (p : Port S) → Step p (show_present cpld attr port p).1
    eeprom_accessed :
        (w : Wire) (d : PortData) (op : Opcode) (off count : ℕ) (t : Trace) (p : Port S) (out : Got)
        → (sfp_bin_access cpld w d port op off count p t).0 ≡ some out
        → Step p (sfp_bin_access cpld w d port op off count p t).1
    reset_shown : (p : Port S) → Step p (left_in p (get_mode_reset cpld port p))
    reset_set :
        (kstrtol : ℤ × ℤ) (count : ℕ) (p : Port S)
        → Step p (left_in p (set_mode_reset cpld port kstrtol count p))
    lp_mode_shown : (p : Port S) → Step p (left_in p (get_lp_mode_sel cpld port p))
    lp_mode_set :
        (kstrtol : ℤ × ℤ) (count : ℕ) (p : Port S)
        → Step p (left_in p (set_lp_mode_sel cpld port kstrtol count p))
    signal_shown :
        (attr : SignalAttr) (p : Port S) → Step p (qsfp_show_tx_rx_status eeprom cpld attr port p).1
    disable_set :
        (attr : SignalAttr) (kstrtol : ℤ × ℤ) (count : ℕ) (p : Port S)
        → IsAttr attr
        → Step p (qsfp_set_tx_disable eeprom cpld attr port kstrtol count p).1
    elsewhere : (s : S) (p : Port S) → Step p (record p { world = s })

  pub data Reachable : Port S → Type 0 where
    probed : (s : S) → Reachable (probed_port s)
    stepped : (p q : Port S) → Reachable p → Step p q → Reachable q

  set-WellFormed :
      (error : ℤ) (o : Option (ℕ × ℕ)) (number : ℤ) (count : ℕ) (p : Port S)
      → WellFormed p
      → WellFormed (
          left_in p (elim (is_zero error) as (λ x. Option (ℤ × Port S)) [
            | false ↦ some (error, p)
            | true ↦ set_bit cpld (port % 8) o number count p
          ]))
  set-WellFormed error o number count p w = elim (Bool-cases (is_zero error)) [
    | inl parsed ↦ rw parsed (set_bit-WellFormed cpld (port % 8) o number count p w)
    | inr refused ↦ rw refused w
  ]

  Step-WellFormed : (p q : Port S) → WellFormed p → Step p q → WellFormed q
  unfolding get_mode_reset set_mode_reset get_lp_mode_sel set_lp_mode_sel
  Step-WellFormed p _ w (present_shown attr _) = show_present-WellFormed cpld attr port p w
  Step-WellFormed p _ h (eeprom_accessed w d op off count t _ out e) =
      bin_access-WellFormed cpld w d port op off count p t out e h
  Step-WellFormed p _ w (reset_shown _) =
      get_bit-WellFormed cpld (port % 8) (place reset_regs port) p w
  Step-WellFormed p _ w (reset_set (error, number) count _) =
      set-WellFormed error (place reset_regs port) number count p w
  Step-WellFormed p _ w (lp_mode_shown _) =
      get_bit-WellFormed cpld (port % 8) (place lp_regs port) p w
  Step-WellFormed p _ w (lp_mode_set (error, number) count _) =
      set-WellFormed error (place lp_regs port) number count p w
  Step-WellFormed p _ w (signal_shown attr _) = show_signal-WellFormed eeprom cpld port attr p w
  Step-WellFormed p _ w (disable_set attr (error, disable) count _ a) =
      set_disable-WellFormed eeprom cpld port attr error disable count p a w
  Step-WellFormed p _ w (elsewhere s _) = w

  -- In every state that probing and any accesses to the attributes and to the EEPROM of a port that
  -- return lead to, whatever the CPLD, the module and the clock answer, the mutex of the port, also
  -- as sfp_port_read_write takes it and gives it back, is unlocked, and its status is three values
  -- below 16.
  pub Reachable-WellFormed : (p : Port S) → Reachable p → WellFormed p
  Reachable-WellFormed _ (probed s) = (refl, (omega arith, (omega arith, (omega arith, tt))))
  Reachable-WellFormed _ (stepped p q r step) = Step-WellFormed p q (Reachable-WellFormed p r) step
