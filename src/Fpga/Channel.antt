-- ===== src/Fpga/Channel.antt =====
-- What every access to a channel's own registers keeps, the transfers on that channel keep.
use meta_bisdn_linux.Base.{
  ℕ, zero, suc, true, ◌≡◌, refl, List, [], ◌∷◌, Option, some, none, arith, Bool-cases, inl, inr,
}
use meta_bisdn_linux.Fpga.Bus.{
  Board, Trace, up, fpga_sleep, mmio_read, mmio_write, in_window, txr_addr, cmd_stat_addr,
  control_addr, prer_lo_addr, prer_hi_addr, control_disable, control_enable, prer_lo_default,
  prer_hi_default, command_stop,
}
use meta_bisdn_linux.Fpga.Transfer.{
  Result, ok, device_busy, no_ack_response, fault, await_ack, send, await_idle, reset_bus, stop_bus,
  leave,
}
use meta_bisdn_linux.Fpga.Read.{read_bytes, read_last, read_transfer}
use meta_bisdn_linux.Fpga.Write.{write_bytes, write_transfer}
use meta_bisdn_linux.Fpga.Keeps.{
  Keeps, keeps_rules, Quiet, Keeps-check_busy, Keeps-check_tip, Keeps-check_ack,
}

pub record Accesses (b : Board) (c : ℕ) (P : Trace → Type 0) : Type 0 where
  pub sleeps : (x : ℕ) → Keeps P (fpga_sleep x)
  pub reads : (a : ℕ) → in_window c a ≡ true → Keeps P (mmio_read b a)
  pub writes : (a v : ℕ) → in_window c a ≡ true → Keeps P (mmio_write a v)

-- How a call of fpga_smbus_read or fpga_smbus_write has left: with the semaphore given back last,
-- or in the midst of things.
abbrev pub Left : {A : Type 0} → (Trace → Type 0) → ℕ → Option A × Trace → Type 0
Left P c (none, t) = P t
Left P c (some _, t) = (t' : Trace) × (t ≡ up c ∷ t') × P t'

module _ {b : Board} {c : ℕ} {P : Trace → Type 0} (k : Accesses b c P) where
  quiet : Quiet b (cmd_stat_addr c) P
  quiet = record { sleeps = k.sleeps; polls = k.reads (cmd_stat_addr c) (ground arith) }

  Keeps-txr : (v : ℕ) → Keeps P (mmio_write (txr_addr c) v)
  Keeps-txr v = k.writes (txr_addr c) v (ground arith)

  Keeps-cmd : (v : ℕ) → Keeps P (mmio_write (cmd_stat_addr c) v)
  Keeps-cmd v = k.writes (cmd_stat_addr c) v (ground arith)

  Keeps-await_ack : (step stat : ℕ) → Keeps P (await_ack b c step stat)
  unfolding await_ack
  Keeps-await_ack step stat =
      search (keeps_rules, Keeps-check_tip quiet, Keeps-check_ack quiet) depth 12

  Keeps-send : (v command step stat : ℕ) → Keeps P (send b c v command step stat)
  unfolding send
  Keeps-send v command step stat =
      search (keeps_rules, Keeps-txr, Keeps-cmd, Keeps-await_ack) depth 12

  Keeps-await_idle : (step stat : ℕ) → Keeps P (await_idle b c step stat)
  unfolding await_idle
  Keeps-await_idle step stat = search (keeps_rules, Keeps-check_busy quiet) depth 12

  Keeps-read_txr : Keeps P (mmio_read b (txr_addr c))
  Keeps-read_txr = k.reads (txr_addr c) (ground arith)

  Keeps-read_bytes : (n : ℕ) (buff : List ℕ) (stat : ℕ) → Keeps P (read_bytes b c n buff stat)
  unfolding read_bytes
  Keeps-read_bytes zero buff stat = search keeps_rules
  Keeps-read_bytes (suc zero) buff stat = search keeps_rules
  Keeps-read_bytes (suc (suc n)) buff stat =
      search (keeps_rules, Keeps-cmd, Keeps-await_ack, Keeps-read_txr, Keeps-read_bytes (suc n))
        depth 12

  Keeps-read_last : (got : ℕ × List ℕ) → Keeps P (read_last b c got)
  unfolding read_last
  Keeps-read_last got = search (keeps_rules, Keeps-read_txr) depth 12

  -- All that fpga_smbus_read does between `down_interruptible` and its labels.
  pub Keeps-read_transfer :
      (size addr offset n : ℕ) → Keeps P (read_transfer b c size addr offset n)
  unfolding read_transfer
  Keeps-read_transfer size addr offset n =
      search
        (keeps_rules, Keeps-send, Keeps-cmd, Keeps-read_bytes, Keeps-await_idle, Keeps-read_last)
        depth 16

  Keeps-write_bytes : (buff : List ℕ) (stat : ℕ) → Keeps P (write_bytes b c buff stat)
  unfolding write_bytes
  Keeps-write_bytes [] stat = search keeps_rules
  Keeps-write_bytes (v ∷ buff) stat =
      search (keeps_rules, Keeps-send, Keeps-write_bytes buff) depth 12

  -- All that fpga_smbus_write does between `down_interruptible` and its labels.
  pub Keeps-write_transfer :
      (addr offset n : ℕ) (src : List ℕ) → Keeps P (write_transfer b c addr offset n src)
  unfolding write_transfer
  Keeps-write_transfer addr offset n src =
      search (keeps_rules, Keeps-send, Keeps-cmd, Keeps-write_bytes, Keeps-await_idle) depth 16

  Keeps-reset_bus : (stat : ℕ) → Keeps P (reset_bus b c stat)
  unfolding reset_bus
  Keeps-reset_bus stat = record {
    at = λ t h.
        let h₁ = (k.writes (control_addr c) control_disable (ground arith)).at t h in
        let h₂ = (k.writes (prer_lo_addr c) prer_lo_default (ground arith)).at _ h₁ in
        let h₃ = (k.writes (prer_hi_addr c) prer_hi_default (ground arith)).at _ h₂ in
        let h₄ = (k.writes (control_addr c) control_enable (ground arith)).at _ h₃ in
        let h₅ = (k.sleeps 500).at _ h₄ in
        (Keeps-check_busy quiet stat).at _ ((Keeps-cmd command_stop).at _ h₅);
  }

  Keeps-stop_bus : (stat : ℕ) → Keeps P (stop_bus b c stat)
  unfolding stop_bus
  Keeps-stop_bus stat = record {
    at = λ t h. (Keeps-check_busy quiet stat).at _ ((Keeps-cmd command_stop).at t h);
  }

  -- Every way out after the semaphore was taken gives it back, as the last thing.
  pub leave-Left :
      {A : Type 0} (unchanged : A) (r : Result A) (t : Trace)
      → P t
      → Left P c (leave b c unchanged (r, t))
  unfolding leave
  leave-Left unchanged (ok x) t h = (t, refl, h)
  leave-Left unchanged (device_busy j) t h = (_, refl, (Keeps-reset_bus 0).at t h)
  leave-Left unchanged (no_ack_response j) t h = elim (Bool-cases (stop_bus b c 0 t).0) [
    | inl busy ↦ rw busy (_, refl, (Keeps-reset_bus 0).at _ ((Keeps-stop_bus 0).at t h))
    | inr idle ↦ rw idle (_, refl, (Keeps-stop_bus 0).at t h)
  ]
  leave-Left unchanged fault t h = h
