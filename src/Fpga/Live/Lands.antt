-- ===== src/Fpga/Live/Lands.antt =====
-- Stretches of the driver that do not jump to `device_busy` or `no_ack_response`.
use meta_bisdn_linux.Base.{
  ℕ, zero, suc, ◌≡◌, refl, ◌⊎◌, inl, inr, Bool, true, false, List, [], ◌∷◌, eq→==, if◌then◌else◌,
}
use meta_bisdn_linux.Fpga.Bus.{
  Board, Trace, write, Io, mmio_write, cmd_stat_addr, command_stop, command_ack_stop_read,
}
use meta_bisdn_linux.Fpga.Poll.{fpga_smbus_check_tip}
use meta_bisdn_linux.Fpga.Transfer.{
  Result, ok, device_busy, no_ack_response, fault, Action, pure, jump, lift, and_then, ◌>>=◌, ◌>>◌,
  await_ack, send, await_idle,
}
use meta_bisdn_linux.Fpga.Read.{read_bytes, read_last, read_transfer}
use meta_bisdn_linux.Fpga.Write.{write_bytes, write_transfer}
use meta_bisdn_linux.Fpga.Live.{IsEnded, Settles}
use meta_bisdn_linux.Fpga.Live.Polls.{check_tip_lem, check_ack_lem, check_busy_lem}

abbrev pub NoJump : {A : Type 0} → Result A → Type 0
NoJump (ok a) = Unit {0}
NoJump (device_busy k) = ⊥
NoJump (no_ack_response k) = ⊥
NoJump fault = Unit {0}

-- A nominal form, for a stretch of code at each trace.
pub record Lands {A : Type 0} (m : Action A) : Type 0 where
  pub at : (t : Trace) → NoJump (m t).0

and_then-NoJump :
    {A B : Type 0} (f : A → Action B) (r : Result A) (t : Trace)
    → NoJump r
    → ((a : A) → Lands (f a))
    → NoJump (and_then r t f).0
and_then-NoJump f (ok a) t h k = (k a).at t
and_then-NoJump f (device_busy j) t h k = h
and_then-NoJump f (no_ack_response j) t h k = h
and_then-NoJump f fault t h k = h

Lands-bind :
    {A B : Type 0} {m : Action A} {f : A → Action B}
    → Lands m
    → ((a : A) → Lands (f a))
    → Lands (m >>= f)
Lands-bind {m} {f} k l = record { at = λ t. and_then-NoJump f (m t).0 (m t).1 (k.at t) l }

Lands-pure : {A : Type 0} (a : A) → Lands (pure a)
Lands-pure a = record { at = λ t. tt }

Lands-lift : {A : Type 0} (m : Io A) → Lands (lift m)
Lands-lift m = record { at = λ t. tt }

Lands-fault : {A : Type 0} → Lands (jump {A = A} fault)
Lands-fault = record { at = λ t. tt }

Lands-if :
    {A : Type 0} {m n : Action A} (test : Bool) → Lands m → Lands n → Lands (if test then m else n)
Lands-if true k l = k
Lands-if false k l = l

ruleset lands_rules = (Lands-bind, Lands-pure, Lands-lift, Lands-fault, Lands-if)

module _ {b : Board} {c d : ℕ} (s : Settles b c d) where
  Lands-await_ack : (step stat : ℕ) → Lands (await_ack b c step stat)
  unfolding await_ack
  Lands-await_ack step stat = record {
    at = λ t.
        let tip = fpga_smbus_check_tip b (cmd_stat_addr c) stat t in
        let (done, fresh) = check_tip_lem b c d s stat t in
        rw (done, check_ack_lem b c d s tip.0.1 tip.1 fresh) tt;
  }

  Lands-send : (v command step stat : ℕ) → Lands (send b c v command step stat)
  unfolding send
  Lands-send v command step stat = search (lands_rules, Lands-await_ack) depth 12

  -- The command before it is one that ends the transfer.
  await_idle-NoJump :
      (step stat : ℕ) (t : Trace) → IsEnded c t → NoJump (await_idle b c step stat t).0
  unfolding await_idle
  await_idle-NoJump step stat t ended = rw (check_busy_lem b c d s stat t ended) tt

  -- A command that ends the transfer, the wait for the bus, and what follows.
  Lands-end :
      {B : Type 0} (cmd step stat : ℕ) (f : ℕ → Action B)
      → (cmd ≡ command_stop) ⊎ (cmd ≡ command_ack_stop_read)
      → ((a : ℕ) → Lands (f a))
      → Lands (lift (mmio_write (cmd_stat_addr c) cmd) >> (await_idle b c step stat >>= f))
  Lands-end cmd step stat f ends k = record {
    at = λ t.
        let t₁ : Trace = write (cmd_stat_addr c) cmd ∷ t in
        let o = await_idle b c step stat t₁ in
        let ended : IsEnded c t₁ = rw (eq→== (cmd_stat_addr c) (cmd_stat_addr c) refl) ends in
        and_then-NoJump f o.0 o.1 (await_idle-NoJump step stat t₁ ended) k;
  }

  Lands-read_bytes : (n : ℕ) (buff : List ℕ) (stat : ℕ) → Lands (read_bytes b c n buff stat)
  unfolding read_bytes
  Lands-read_bytes zero buff stat = search lands_rules
  Lands-read_bytes (suc zero) buff stat = search lands_rules
  Lands-read_bytes (suc (suc n)) buff stat =
      search (lands_rules, Lands-await_ack, Lands-read_bytes (suc n)) depth 12

  Lands-read_last : (got : ℕ × List ℕ) → Lands (read_last b c got)
  unfolding read_last
  Lands-read_last got = search lands_rules depth 12

  pub Lands-read_transfer : (size addr offset n : ℕ) → Lands (read_transfer b c size addr offset n)
  unfolding read_transfer
  Lands-read_transfer size addr offset n =
      let ends = λ (cmd : ℕ). (cmd ≡ command_stop) ⊎ (cmd ≡ command_ack_stop_read) in
      let last : ends command_ack_stop_read = inr refl in
      search (lands_rules, Lands-send, Lands-read_bytes, Lands-end, Lands-read_last, last) depth 16

  Lands-write_bytes : (buff : List ℕ) (stat : ℕ) → Lands (write_bytes b c buff stat)
  unfolding write_bytes
  Lands-write_bytes [] stat = search lands_rules
  Lands-write_bytes (v ∷ buff) stat =
      search (lands_rules, Lands-send, Lands-write_bytes buff) depth 12

  pub Lands-write_transfer :
      (addr offset n : ℕ) (src : List ℕ) → Lands (write_transfer b c addr offset n src)
  unfolding write_transfer
  Lands-write_transfer addr offset n src =
      let ends = λ (cmd : ℕ). (cmd ≡ command_stop) ⊎ (cmd ≡ command_ack_stop_read) in
      let last : ends command_stop = inl refl in
      search (lands_rules, Lands-send, Lands-write_bytes, Lands-end, last) depth 16
