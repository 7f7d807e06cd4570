-- ===== src/Fpga/Sent.antt =====
-- The shared parts of the transfers, and their labels, issue what the transcripts say.
use meta_bisdn_linux.Base.{
  ℕ, ◌≡◌, refl, List, ◌∷◌, ◌++◌, append-nil, append_assoc, Bool-cases, inl, inr, ◌⊎◌, Option, some,
  ℤ, pos,
}
use meta_bisdn_linux.Fpga.Bus.{Board, Trace, cmd_stat_addr, up}
use meta_bisdn_linux.Fpga.Poll.{fpga_smbus_check_busy}
use meta_bisdn_linux.Fpga.Transfer.{
  Result, ok, device_busy, no_ack_response, fault, send, reset_bus, stop_bus, leave, ebusy,
  etimedout,
}
use meta_bisdn_linux.Fpga.Keeps.{Keeps-check_busy}
use meta_bisdn_linux.Fpga.Outcome.{Outcome, Meets, Meets-await_ack}
use meta_bisdn_linux.Fpga.Protocol.{
  Command, commands, sent, Issued, quiet-Issued, reset_transcript, stop_transcript,
}

-- Some commands were issued after those of `base`.
abbrev pub Began : ℕ → List Command → Trace → Type 0
Began c base t = (cs : List Command) × (commands c t ≡ base ++ cs)

module _ (b : Board) (c : ℕ) (base : List Command) where
  pub Meets-send :
      (x : List Command) (v cmd step stat : ℕ) (t : Trace)
      → Issued c (base ++ x) t
      → Meets
          (Began c base)
          (λ _ u. Issued c (base ++ (x ++ sent c v cmd)) u)
          (send b c v cmd step stat t)
  unfolding send
  Meets-send x v cmd step stat t h =
      Meets-await_ack b c (Began c base) (Issued c issued) (λ u e. (x ++ sent c v cmd, e))
        (quiet-Issued b c issued) step stat _ (simp (h, append_assoc))
    where
      issued : List Command
      issued = base ++ (x ++ sent c v cmd)

  Issued-check_busy :
      (cs : List Command) (stat : ℕ) (t : Trace)
      → Issued c cs t
      → Issued c cs (fpga_smbus_check_busy b (cmd_stat_addr c) stat t).1
  Issued-check_busy cs stat t h = (Keeps-check_busy (quiet-Issued b c cs) stat).at t h

  Issued-reset_bus :
      (x : List Command) (t : Trace)
      → Issued c (base ++ x) t
      → Issued c (base ++ (x ++ reset_transcript c)) (reset_bus b c 0 t).1
  unfolding reset_bus
  Issued-reset_bus x t h = Issued-check_busy _ 0 _ (simp (h, append_assoc, append-nil))

  Issued-stop_bus :
      (x : List Command) (t : Trace)
      → Issued c (base ++ x) t
      → Issued c (base ++ (x ++ stop_transcript c)) (stop_bus b c 0 t).1
  unfolding stop_bus
  Issued-stop_bus x t h = Issued-check_busy _ 0 _ (simp (h, append_assoc))

-- How a transfer on channel `c` that was let in returns: `done` of what it stored and the commands
-- it issued, or an error with a STOP as the last command, after a reset of the controller if the
-- device stayed busy.
abbrev pub Returned :
    {A : Type 0} → ℕ → List Command → A → (A → Trace → Type 0) → Option (ℤ × A) × Trace → Type 0
Returned {A} c base unchanged done r =
    ((x : A) × (r.0 ≡ some (pos 0, x)) × done x r.1)
    ⊎ ((r.0 ≡ some (etimedout, unchanged))
        × ((cs : List Command) × (commands c r.1 ≡ base ++ (cs ++ stop_transcript c))))
    ⊎ ((r.0 ≡ some (ebusy, unchanged))
        × ((cs : List Command) × (commands c r.1 ≡ base ++ (cs ++ reset_transcript c))))

module _ {A : Type 0} (b : Board) (c : ℕ) (base : List Command) (unchanged : A)
    (Q done : A → Trace → Type 0) (finish : (x : A) (t : Trace) → Q x t → done x (up c ∷ t)) where
  pub leave-Returned :
      (r : Result A) (t : Trace)
      → Outcome (Began c base) Q r t
      → Returned c base unchanged done (leave b c unchanged (r, t))
  unfolding leave
  leave-Returned (ok x) t h = inl (x, refl, finish x t h)
  leave-Returned (device_busy k) t h =
      inr (inr (refl, (h.0, rw append-nil (Issued-reset_bus b c base h.0 t h.1))))
  leave-Returned (no_ack_response k) t h = elim (Bool-cases (stop_bus b c 0 t).0) [
    | inl busy ↦ rw busy (
        inr (
          inr (
            refl,
            (
              h.0 ++ stop_transcript c,
              rw append-nil (
                  Issued-reset_bus b c base (h.0 ++ stop_transcript c) _
                    (Issued-stop_bus b c base h.0 t h.1)),
            ),
          )))
    | inr idle ↦
        rw idle (inr (inl (refl, (h.0, rw append-nil (Issued-stop_bus b c base h.0 t h.1)))))
  ]
  leave-Returned fault t h = absurd h
