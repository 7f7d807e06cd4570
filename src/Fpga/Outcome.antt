-- ===== src/Fpga/Outcome.antt =====
-- Postconditions of a stretch of the driver: no access outside an array, and `Q` of the value and
-- the trace where it falls through. A jump to `device_busy` or `no_ack_response` ends it with `P`
-- of the trace.
use meta_bisdn_linux.Base.{ℕ, Bool-cases, inl, inr}
use meta_bisdn_linux.Fpga.Bus.{Board, Trace, cmd_stat_addr}
use meta_bisdn_linux.Fpga.Transfer.{
  Result, ok, device_busy, no_ack_response, fault, Action, and_then, await_ack, await_idle,
}
use meta_bisdn_linux.Fpga.Poll.{fpga_smbus_check_tip, fpga_smbus_check_ack, fpga_smbus_check_busy}
use meta_bisdn_linux.Fpga.Keeps.{Quiet, Keeps-check_tip, Keeps-check_ack, Keeps-check_busy}

abbrev pub Outcome :
    {A : Type 0} → (Trace → Type 0) → (A → Trace → Type 0) → Result A → Trace → Type 0
Outcome P Q (ok a) t = Q a t
Outcome P Q (device_busy k) t = P t
Outcome P Q (no_ack_response k) t = P t
Outcome P Q fault t = ⊥

-- A nominal form, from which the parts can be read off.
pub record Meets {A : Type 0} (P : Trace → Type 0) (Q : A → Trace → Type 0) (o : Result A × Trace)
    : Type 0 where
  pub outcome : Outcome P Q o.0 o.1

Outcome-bind :
    {A B : Type 0} {P : Trace → Type 0} {Q : A → Trace → Type 0} {R : B → Trace → Type 0}
    (f : A → Action B) (r : Result A) (t : Trace)
    → Outcome P Q r t
    → ((a : A) (t' : Trace) → Q a t' → Meets P R (f a t'))
    → Meets P R (and_then r t f)
Outcome-bind f (ok a) t h k = k a t h
Outcome-bind f (device_busy j) t h k = record { outcome = h }
Outcome-bind f (no_ack_response j) t h k = record { outcome = h }
Outcome-bind f fault t h k = absurd h

pub bind :
    {A B : Type 0} {P : Trace → Type 0} {Q : A → Trace → Type 0} {R : B → Trace → Type 0}
    {o : Result A × Trace} (f : A → Action B)
    → Meets P Q o
    → ((a : A) (t' : Trace) → Q a t' → Meets P R (f a t'))
    → Meets P R (and_then o.0 o.1 f)
bind {Q} {o} f h k = Outcome-bind {Q = Q} f o.0 o.1 h.outcome k

-- A weaker conclusion.
pub Meets-map :
    {A : Type 0} {P : Trace → Type 0} {Q R : A → Trace → Type 0} {o : Result A × Trace}
    → ((a : A) (t : Trace) → Q a t → R a t)
    → Meets P Q o
    → Meets P R o
Meets-map {A} {P} {Q} {R} {o} f h = record { outcome = go o.0 o.1 h.outcome }
  where
    go : (r : Result A) (t : Trace) → Outcome P Q r t → Outcome P R r t
    go (ok a) t h = f a t h
    go (device_busy k) t h = h
    go (no_ack_response k) t h = h
    go fault t h = h

module _ (b : Board) (c : ℕ) (P Q : Trace → Type 0) (weaken : (t : Trace) → Q t → P t)
    (q : Quiet b (cmd_stat_addr c) Q) where
  pub Meets-await_ack :
      (step stat : ℕ) (t : Trace) → Q t → Meets P (λ _ u. Q u) (await_ack b c step stat t)
  unfolding await_ack
  Meets-await_ack step stat t h =
      let tip = fpga_smbus_check_tip b (cmd_stat_addr c) stat t in
      let h₁ = (Keeps-check_tip q stat).at t h in
      let ack = fpga_smbus_check_ack b (cmd_stat_addr c) tip.0.1 tip.1 in
      let h₂ = (Keeps-check_ack q tip.0.1).at tip.1 h₁ in
      elim (Bool-cases tip.0.0) [
        | inl busy ↦ rw busy (record { outcome = weaken tip.1 h₁ })
        | inr done ↦ rw done (elim (Bool-cases ack.0.0) [
          | inl nack ↦ rw nack (record { outcome = weaken ack.1 h₂ })
          | inr acked ↦ rw acked (record { outcome = h₂ })
        ])
      ]

  pub Meets-await_idle :
      (step stat : ℕ) (t : Trace) → Q t → Meets P (λ _ u. Q u) (await_idle b c step stat t)
  unfolding await_idle
  Meets-await_idle step stat t h =
      let poll = fpga_smbus_check_busy b (cmd_stat_addr c) stat t in
      let h₁ = (Keeps-check_busy q stat).at t h in
      elim (Bool-cases poll.0.0) [
        | inl busy ↦ rw busy (record { outcome = weaken poll.1 h₁ })
        | inr idle ↦ rw idle (record { outcome = h₁ })
      ]
