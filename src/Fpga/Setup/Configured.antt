-- ===== src/Fpga/Setup/Configured.antt =====
-- The registers after fpga_init_smbus.
use meta_bisdn_linux.Base.{
  ℕ, zero, suc, ◌+◌, ◌≤◌, ◌<◌, ◌≡◌, ◌⊎◌, inl, inr, Option, none, some, [], ◌∷◌, ◌==◌, if◌then◌else◌,
  arith, ◌≢◌,
}
use meta_bisdn_linux.Fpga.Bus.{
  Trace, write, prer_lo_addr, prer_hi_addr, control_addr, prer_lo_default, prer_hi_default,
  control_enable, max_channel,
}
use meta_bisdn_linux.Fpga.Setup.{init_channels, fpga_init_smbus}

-- The value that a register holds by the last write to it.
abbrev pub last_written : ℕ → Trace → Option ℕ
last_written a [] = none
last_written a (write a' v ∷ t) = if a == a' then some v else last_written a t
last_written a (_ ∷ t) = last_written a t

-- A channel that is enabled at the default clock.
pub record IsConfigured (c : ℕ) (t : Trace) : Type 0 where
  pub low : last_written (prer_lo_addr c) t ≡ some prer_lo_default
  pub high : last_written (prer_hi_addr c) t ≡ some prer_hi_default
  pub control : last_written (control_addr c) t ≡ some control_enable

abbrev one_round : ℕ → Trace → Trace
one_round c t =
    write (control_addr c) control_enable
    ∷ write (prer_hi_addr c) prer_hi_default
    ∷ write (prer_lo_addr c) prer_lo_default
    ∷ t

own_round : (c : ℕ) (t : Trace) → IsConfigured c (one_round c t)
own_round c t = ground arith

other_round : (c d : ℕ) (t : Trace) → c ≢ d → IsConfigured c t → IsConfigured c (one_round d t)
other_round c d t ne h = ground arith

init_channels-keeps :
    (n d c : ℕ) (t : Trace) → c < d → IsConfigured c t → IsConfigured c (init_channels n d t).1
unfolding init_channels
init_channels-keeps zero d c t lt h = h
init_channels-keeps (suc n) d c t lt h =
    init_channels-keeps n (d + 1) c (one_round d t) (omega arith)
      (other_round c d t (omega arith) h)

eq_or_lt : (d c : ℕ) → d ≤ c → (d ≡ c) ⊎ (d < c)
eq_or_lt d c h = ground arith

init_channels-configures :
    (n d c : ℕ) (t : Trace) → d ≤ c → c < d + n → IsConfigured c (init_channels n d t).1
unfolding init_channels
init_channels-configures zero d c t le lt = absurd (omega arith)
init_channels-configures (suc n) d c t le lt = elim (eq_or_lt d c le) [
  | inl e ↦ init_channels-keeps n (d + 1) c (one_round d t) (omega arith) (rw (← e) (own_round d t))
  | inr more ↦ init_channels-configures n (d + 1) c (one_round d t) (omega arith) (omega arith)
]

-- Whatever was written before, after fpga_init_smbus every channel below 34 stands enabled, with
-- the default prescaler.
pub init_configures_all :
    (c : ℕ) (t : Trace) → c < max_channel → IsConfigured c (fpga_init_smbus t).1
unfolding fpga_init_smbus
init_configures_all c t h = init_channels-configures max_channel 0 c t (omega arith) (omega arith)
