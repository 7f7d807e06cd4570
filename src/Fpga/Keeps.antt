-- ===== src/Fpga/Keeps.antt =====
-- Predicates on the trace that a stretch of the driver keeps, and the rules that derive them.
use meta_bisdn_linux.Base.{ℕ, zero, suc, Bool, true, false, if◌then◌else◌, arith}
use meta_bisdn_linux.Fpga.Bus.{Board, Trace, Io, fpga_sleep, mmio_read}
use meta_bisdn_linux.Fpga.Poll.{
  check_busy_loop, check_tip_loop, check_ack_loop, fpga_smbus_check_busy, fpga_smbus_check_tip,
  fpga_smbus_check_ack,
}
use meta_bisdn_linux.Fpga.Transfer.{
  Result, ok, device_busy, no_ack_response, fault, Action, pure, jump, lift, and_then, ◌>>=◌,
}

pub record Keeps {X : Type 0} (P : Trace → Type 0) (m : Trace → X × Trace) : Type 0 where
  pub at : (t : Trace) → P t → P (m t).1

module _ {P : Trace → Type 0} where
  pub Keeps-lift : {A : Type 0} {m : Io A} → Keeps P m → Keeps P (lift m)
  Keeps-lift k = record { at = k.at }

  pub Keeps-pure : {A : Type 0} (a : A) → Keeps P (pure a)
  Keeps-pure a = record { at = λ t h. h }

  pub Keeps-jump : {A : Type 0} (r : Result A) → Keeps P (jump r)
  Keeps-jump r = record { at = λ t h. h }

  and_then-keeps :
      {A B : Type 0} {f : A → Action B} (r : Result A) (t : Trace)
      → ((a : A) → Keeps P (f a))
      → P t
      → P (and_then r t f).1
  and_then-keeps (ok a) t k h = (k a).at t h
  and_then-keeps (device_busy j) t k h = h
  and_then-keeps (no_ack_response j) t k h = h
  and_then-keeps fault t k h = h

  pub Keeps-bind :
      {A B : Type 0} {m : Action A} {f : A → Action B}
      → Keeps P m
      → ((a : A) → Keeps P (f a))
      → Keeps P (m >>= f)
  Keeps-bind {m} k l = record { at = λ t h. and_then-keeps (m t).0 (m t).1 l (k.at t h) }

  pub Keeps-if :
      {X : Type 0} {m n : Trace → X × Trace} (test : Bool)
      → Keeps P m
      → Keeps P n
      → Keeps P (if test then m else n)
  Keeps-if true k l = k
  Keeps-if false k l = l

-- What sleeping and reading the status register at `a` keep.
pub record Quiet (b : Board) (a : ℕ) (P : Trace → Type 0) : Type 0 where
  pub sleeps : (x : ℕ) → Keeps P (fpga_sleep x)
  pub polls : Keeps P (mmio_read b a)

module _ {P : Trace → Type 0} {b : Board} {a : ℕ} (q : Quiet b a P) where
  poll-keeps : (x : ℕ) (t : Trace) → P t → P (mmio_read b a (fpga_sleep x t).1).1
  poll-keeps x t h = q.polls.at (fpga_sleep x t).1 ((q.sleeps x).at t h)

  busy_loop-keeps : (n stat : ℕ) (t : Trace) → P t → P (check_busy_loop b n a stat t).1
  unfolding check_busy_loop
  busy_loop-keeps zero stat t h = h
  busy_loop-keeps (suc n) stat t h =
      let (stat', t') = mmio_read b a (fpga_sleep b.delay_busy t).1 in
      let h' = poll-keeps b.delay_busy t h in ground (arith, h', busy_loop-keeps n stat' t' h')

  tip_loop-keeps : (n stat : ℕ) (t : Trace) → P t → P (check_tip_loop b n a stat t).1
  unfolding check_tip_loop
  tip_loop-keeps zero stat t h = h
  tip_loop-keeps (suc n) stat t h =
      let (stat', t') = mmio_read b a (fpga_sleep b.delay_tip t).1 in
      let h' = poll-keeps b.delay_tip t h in ground (arith, h', tip_loop-keeps n stat' t' h')

  ack_loop-keeps : (n stat : ℕ) (t : Trace) → P t → P (check_ack_loop b n a stat t).1
  unfolding check_ack_loop
  ack_loop-keeps zero stat t h = ground arith
  ack_loop-keeps (suc n) stat t h =
      let (stat', t') = mmio_read b a (fpga_sleep b.delay_ack t).1 in
      let h' = poll-keeps b.delay_ack t h in ground (arith, h', ack_loop-keeps n stat' t' h')

  pub Keeps-check_busy : (stat : ℕ) → Keeps P (fpga_smbus_check_busy b a stat)
  unfolding fpga_smbus_check_busy
  Keeps-check_busy stat = record { at = busy_loop-keeps b.max_retry_time stat }

  pub Keeps-check_tip : (stat : ℕ) → Keeps P (fpga_smbus_check_tip b a stat)
  unfolding fpga_smbus_check_tip
  Keeps-check_tip stat = record { at = tip_loop-keeps b.max_retry_time stat }

  pub Keeps-check_ack : (stat : ℕ) → Keeps P (fpga_smbus_check_ack b a stat)
  unfolding fpga_smbus_check_ack
  Keeps-check_ack stat = record { at = ack_loop-keeps b.max_retry_time stat }

pub ruleset keeps_rules = (Keeps-lift, Keeps-pure, Keeps-jump, Keeps-bind, Keeps-if)
