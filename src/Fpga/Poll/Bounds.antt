-- ===== src/Fpga/Poll/Bounds.antt =====
-- How long the polling loops run, and what they have seen when they return.
use meta_bisdn_linux.Base.{
  ℕ, zero, suc, ◌+◌, ◌*◌, ◌≤◌, ◌≡◌, ◌≢◌, refl, sym, ap, ◌∙◌, Bool, true, false, ◌∷◌, ◌⊎◌, inl, inr,
  arith, ◌==◌, bit_and, length, Bool-cases,
}
use meta_bisdn_linux.Fpga.Bus.{
  Board, Trace, read, fpga_sleep, mmio_read, tip_bit, busy_bit, ack_bit,
}
use meta_bisdn_linux.Fpga.Poll.{
  check_tip_loop, check_busy_loop, check_ack_loop, fpga_smbus_check_tip, fpga_smbus_check_busy,
  fpga_smbus_check_ack,
}

-- The status last read from `a`, if that was the last access.
abbrev LastRead : ℕ → ℕ → Trace → Type 0
LastRead a v t = (before : Trace) × (t ≡ read a v ∷ before)

-- A poll that took `n` rounds at most, each a sleep and a read: it succeeded, the bit clear in the
-- status that it read last; or it failed after all rounds, the bit set in the status that it read
-- last, if there was a round.
abbrev pub Polled : ℕ → ℕ → ℕ → Trace → (Bool × ℕ) × Trace → Type 0
Polled mask a n t ((failed, stat), u) =
    ((failed ≡ false) × (bit_and stat mask ≡ 0) × LastRead a stat u × (length u ≤ length t + 2 * n))
    ⊎ ((failed ≡ true)
        × (length u ≡ length t + 2 * n)
        × ((n ≡ 0) ⊎ ((bit_and stat mask ≢ 0) × LastRead a stat u)))

-- A round that found the bit set, and those that follow.
Polled-suc :
    (mask a n v : ℕ) (t t' : Trace) (r : (Bool × ℕ) × Trace)
    → length t' ≡ length t + 2
    → bit_and v mask ≢ 0
    → LastRead a v t'
    → (n ≡ 0 → (r.0.1 ≡ v) × (r.1 ≡ t'))
    → Polled mask a n t' r
    → Polled mask a (suc n) t r
Polled-suc mask a n v t t' r e set last none_left (inl (ok, clear, last', few)) =
    inl (ok, clear, last', omega arith)
Polled-suc mask a n v t t' r e set last none_left (inr (failed, all, inr still)) =
    inr (failed, omega arith, inr still)
Polled-suc mask a n v t t' r e set (before, latest) none_left (inr (failed, all, inl z)) =
    let (same, here) = none_left z in
    inr (
      failed,
      omega arith,
      inr (rw same set, (before, here ∙ latest ∙ ap (λ x. read a x ∷ before) (sym same))),
    )

tip_loop-zero :
    (b : Board) (a n stat : ℕ) (t : Trace)
    → n ≡ 0
    → ((check_tip_loop b n a stat t).0.1 ≡ stat) × ((check_tip_loop b n a stat t).1 ≡ t)
unfolding check_tip_loop
tip_loop-zero b a zero stat t z = (refl, refl)
tip_loop-zero b a (suc n) stat t z = absurd (omega arith)

busy_loop-zero :
    (b : Board) (a n stat : ℕ) (t : Trace)
    → n ≡ 0
    → ((check_busy_loop b n a stat t).0.1 ≡ stat) × ((check_busy_loop b n a stat t).1 ≡ t)
unfolding check_busy_loop
busy_loop-zero b a zero stat t z = (refl, refl)
busy_loop-zero b a (suc n) stat t z = absurd (omega arith)

tip_loop-Polled :
    (b : Board) (a n stat : ℕ) (t : Trace) → Polled tip_bit a n t (check_tip_loop b n a stat t)
unfolding check_tip_loop
tip_loop-Polled b a zero stat t = inr (refl, omega arith, inl refl)
tip_loop-Polled b a (suc n) stat t =
    let t₁ = (fpga_sleep b.delay_tip t).1 in
    let v = b.register t₁ a in
    elim (Bool-cases (bit_and v tip_bit == 0)) [
      | inl clear ↦ rw (clear, check_tip_loop) (inl (refl, ground arith, (t₁, refl), omega arith))
      | inr set ↦
          rw (set, check_tip_loop)
            (Polled-suc tip_bit a n v t (mmio_read b a t₁).1 _ (omega arith) (ground arith)
              (t₁, refl) (tip_loop-zero b a n v _) (tip_loop-Polled b a n v _))
    ]

busy_loop-Polled :
    (b : Board) (a n stat : ℕ) (t : Trace) → Polled busy_bit a n t (check_busy_loop b n a stat t)
unfolding check_busy_loop
busy_loop-Polled b a zero stat t = inr (refl, omega arith, inl refl)
busy_loop-Polled b a (suc n) stat t =
    let t₁ = (fpga_sleep b.delay_busy t).1 in
    let v = b.register t₁ a in
    elim (Bool-cases (bit_and v busy_bit == 0)) [
      | inl clear ↦ rw (clear, check_busy_loop) (inl (refl, ground arith, (t₁, refl), omega arith))
      | inr set ↦
          rw (set, check_busy_loop)
            (Polled-suc busy_bit a n v t (mmio_read b a t₁).1 _ (omega arith) (ground arith)
              (t₁, refl) (busy_loop-zero b a n v _) (busy_loop-Polled b a n v _))
    ]

-- fpga_smbus_check_tip and fpga_smbus_check_busy end after `max_retry_time` rounds at most. They
-- report success, the bit clear in the status that they read last and hand back; or they fail after
-- polling in every round, the bit set in that status if there was a round.
check_tip_busy_bounds :
    (b : Board) (a stat : ℕ) (t : Trace)
    → Polled tip_bit a b.max_retry_time t (fpga_smbus_check_tip b a stat t)
      × Polled busy_bit a b.max_retry_time t (fpga_smbus_check_busy b a stat t)
unfolding fpga_smbus_check_tip fpga_smbus_check_busy
check_tip_busy_bounds b a stat t =
    (tip_loop-Polled b a b.max_retry_time stat t, busy_loop-Polled b a b.max_retry_time stat t)

-- A poll that goes by the status `stat` handed in before it reads any.
abbrev pub AckPolled : ℕ → ℕ → Trace → (Bool × ℕ) × Trace → Type 0
AckPolled n stat t ((failed, stat'), u) =
    ((failed ≡ false)
      × (bit_and stat' ack_bit ≡ 0)
      × (length u ≤ length t + 2 * n)
      × (bit_and stat ack_bit ≡ 0 → u ≡ t))
    ⊎ ((failed ≡ true) × (bit_and stat' ack_bit ≢ 0) × (length u ≡ length t + 2 * n))

AckPolled-suc :
    (n stat stat' : ℕ) (t t' : Trace) (r : (Bool × ℕ) × Trace)
    → bit_and stat ack_bit ≢ 0
    → length t' ≡ length t + 2
    → AckPolled n stat' t' r
    → AckPolled (suc n) stat t r
AckPolled-suc n stat stat' t t' r set e (inl (ok, clear, few, _)) =
    inl (ok, clear, omega arith, λ z. absurd (set z))
AckPolled-suc n stat stat' t t' r set e (inr (failed, still, all)) =
    inr (failed, still, omega arith)

ack_loop-AckPolled :
    (b : Board) (a n stat : ℕ) (t : Trace) → AckPolled n stat t (check_ack_loop b n a stat t)
unfolding check_ack_loop
ack_loop-AckPolled b a zero stat t = elim (Bool-cases (bit_and stat ack_bit == 0)) [
  | inl clear ↦ rw (clear, check_ack_loop) (inl (refl, ground arith, omega arith, λ _. refl))
  | inr set ↦ rw (set, check_ack_loop) (inr (refl, ground arith, omega arith))
]
ack_loop-AckPolled b a (suc n) stat t = elim (Bool-cases (bit_and stat ack_bit == 0)) [
  | inl clear ↦ rw (clear, check_ack_loop) (inl (refl, ground arith, omega arith, λ _. refl))
  | inr set ↦
      rw (set, check_ack_loop)
        (AckPolled-suc n stat _ t _ _ (ground arith) (omega arith)
          (ack_loop-AckPolled b a n (b.register (fpga_sleep b.delay_ack t).1 a) _))
]

-- fpga_smbus_check_ack ends after `max_retry_time` rounds at most. It succeeds exactly if the ACK
-- bit is clear in the status that it hands back, without touching the device if that is so of the
-- status handed in; and it fails after all rounds, the last status with the bit still set.
check_ack_bounds :
    (b : Board) (a stat : ℕ) (t : Trace)
    → AckPolled b.max_retry_time stat t (fpga_smbus_check_ack b a stat t)
unfolding fpga_smbus_check_ack
check_ack_bounds b a stat t = ack_loop-AckPolled b a b.max_retry_time stat t

-- The three polls end after `max_retry_time` rounds at most. Those for TIP and BUSY either report
-- success, the bit clear in the status that they read last and hand back, or fail after polling in
-- every round, the bit set in that status if there was a round. The poll for ACK goes by the status
-- handed in before it reads any: it succeeds exactly if the ACK bit is clear in the status that it
-- hands back, without touching the device if that is so of the status handed in, and fails after
-- all rounds with the bit still set.
pub polls_end :
    (b : Board) (a stat : ℕ) (t : Trace)
    → Polled tip_bit a b.max_retry_time t (fpga_smbus_check_tip b a stat t)
      × Polled busy_bit a b.max_retry_time t (fpga_smbus_check_busy b a stat t)
      × AckPolled b.max_retry_time stat t (fpga_smbus_check_ack b a stat t)
polls_end b a stat t =
    let (tip, busy) = check_tip_busy_bounds b a stat t in (tip, busy, check_ack_bounds b a stat t)
