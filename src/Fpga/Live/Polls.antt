-- ===== src/Fpga/Live/Polls.antt =====
-- The polling loops on a device that settles.
use meta_bisdn_linux.Base.{
  ℕ, zero, suc, ◌+◌, ◌≤◌, ◌<◌, ◌≡◌, refl, inl, inr, false, ◌==◌, eq→==, arith, bit_and, Bool-cases,
  ltb, ◌∷◌,
}
use meta_bisdn_linux.Fpga.Bus.{
  Board, Trace, read, cmd_stat_addr, tip_bit, ack_bit, busy_bit, fpga_sleep,
}
use meta_bisdn_linux.Fpga.Poll.{
  check_tip_loop, check_ack_loop, check_busy_loop, fpga_smbus_check_tip, fpga_smbus_check_ack,
  fpga_smbus_check_busy,
}
use meta_bisdn_linux.Fpga.Live.{polls_since, IsEnded, Settles}

-- The status handed back is clear if the device had the time for it.
abbrev pub IsFresh : ℕ → ℕ → ℕ → ℕ → Trace → Type 0
IsFresh mask c d stat t = d < polls_since c t → bit_and stat mask ≡ 0

not_yet : (x d p : ℕ) → (x == 0) ≡ false → (d ≤ p → x ≡ 0) → p < d
not_yet x d p set clear = elim (Bool-cases (ltb p d)) [
  | inl early ↦ ground (arith, early)
  | inr late ↦ let zero_x : x ≡ 0 = clear (ground (arith, late)) in ground (arith, set, zero_x)
]

module _ (b : Board) (c d : ℕ) (s : Settles b c d) where
  polled :
      (v : ℕ) (t : Trace) → polls_since c (read (cmd_stat_addr c) v ∷ t) ≡ suc (polls_since c t)
  polled v t = rw (eq→== (cmd_stat_addr c) (cmd_stat_addr c) refl) refl

  -- One more poll, where the last was too early.
  enough_left :
      (n v mask : ℕ) (t : Trace)
      → (bit_and v mask == 0) ≡ false
      → (d ≤ polls_since c t → bit_and v mask ≡ 0)
      → d < suc n + polls_since c t
      → (0 < n) × (d < n + polls_since c (read (cmd_stat_addr c) v ∷ t))
  enough_left n v mask t set clear enough =
      let early = not_yet (bit_and v mask) d (polls_since c t) set clear in
      (omega arith, omega (arith, polled v t))

  tip_loop_lem :
      (n stat : ℕ) (t : Trace)
      → 0 < n
      → d < n + polls_since c t
      → let o = check_tip_loop b n (cmd_stat_addr c) stat t in
        (o.0.0 ≡ false) × IsFresh ack_bit c d o.0.1 o.1
  unfolding check_tip_loop
  tip_loop_lem zero stat t some_round enough = absurd (omega arith)
  tip_loop_lem (suc n) stat t some_round enough =
      let t₁ = (fpga_sleep b.delay_tip t).1 in
      let v = b.register t₁ (cmd_stat_addr c) in
      elim (Bool-cases (bit_and v tip_bit == 0)) [
        | inl clear ↦
            rw (clear, check_tip_loop) (refl, λ late. s.acked t₁ (omega (arith, polled v t₁)))
        | inr set ↦
            let (left, enough') = enough_left n v tip_bit t₁ set (s.done t₁) enough in
            rw (set, check_tip_loop) (tip_loop_lem n v _ left enough')
      ]

  busy_loop_lem :
      (n stat : ℕ) (t : Trace)
      → IsEnded c t
      → 0 < n
      → d < n + polls_since c t
      → (check_busy_loop b n (cmd_stat_addr c) stat t).0.0 ≡ false
  unfolding check_busy_loop
  busy_loop_lem zero stat t ended some_round enough = absurd (omega arith)
  busy_loop_lem (suc n) stat t ended some_round enough =
      let t₁ = (fpga_sleep b.delay_busy t).1 in
      let v = b.register t₁ (cmd_stat_addr c) in
      elim (Bool-cases (bit_and v busy_bit == 0)) [
        | inl clear ↦ rw (clear, check_busy_loop) refl
        | inr set ↦
            let (left, enough') =
              enough_left n v busy_bit t₁ set (λ late. s.idle t₁ late ended) enough in
            rw (set, check_busy_loop) (busy_loop_lem n v _ ended left enough')
      ]

  ack_loop_lem :
      (n stat : ℕ) (t : Trace)
      → IsFresh ack_bit c d stat t
      → d < n + polls_since c t
      → (check_ack_loop b n (cmd_stat_addr c) stat t).0.0 ≡ false
  unfolding check_ack_loop
  ack_loop_lem zero stat t fresh enough = rw (fresh (omega arith), check_ack_loop) refl
  ack_loop_lem (suc n) stat t fresh enough = elim (Bool-cases (bit_and stat ack_bit == 0)) [
    | inl clear ↦ rw (clear, check_ack_loop) refl
    | inr set ↦
        let t₁ = (fpga_sleep b.delay_ack t).1 in
        let v = b.register t₁ (cmd_stat_addr c) in
        rw (set, check_ack_loop)
          (ack_loop_lem n v _ (λ late. s.acked t₁ (omega (arith, polled v t₁)))
            (omega (arith, polled v t₁)))
  ]

  pub check_tip_lem :
      (stat : ℕ) (t : Trace)
      → let o = fpga_smbus_check_tip b (cmd_stat_addr c) stat t in
        (o.0.0 ≡ false) × IsFresh ack_bit c d o.0.1 o.1
  unfolding fpga_smbus_check_tip
  check_tip_lem stat t =
      let p = s.patient in tip_loop_lem b.max_retry_time stat t (omega arith) (omega arith)

  pub check_ack_lem :
      (stat : ℕ) (t : Trace)
      → IsFresh ack_bit c d stat t
      → (fpga_smbus_check_ack b (cmd_stat_addr c) stat t).0.0 ≡ false
  unfolding fpga_smbus_check_ack
  check_ack_lem stat t fresh =
      let p = s.patient in ack_loop_lem b.max_retry_time stat t fresh (omega arith)

  pub check_busy_lem :
      (stat : ℕ) (t : Trace)
      → IsEnded c t
      → (fpga_smbus_check_busy b (cmd_stat_addr c) stat t).0.0 ≡ false
  unfolding fpga_smbus_check_busy
  check_busy_lem stat t ended =
      let p = s.patient in busy_loop_lem b.max_retry_time stat t ended (omega arith) (omega arith)
