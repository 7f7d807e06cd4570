-- ===== src/Sfp/Retry.antt =====
-- The retry loops of sff_8436_eeprom_read and sff_8436_eeprom_write end, on a clock that goes on.
use meta_bisdn_linux.Base.{
  ℕ, zero, suc, ◌+◌, ◌%◌, ◌^◌, ◌≤◌, ◌<◌, ◌≡◌, refl, sym, ap, ◌∙◌, true, false, true≢false,
  Bool-cases, inl, inr, ◌⊎◌, arith, leb, Option, some, List, [], ◌∷◌, ℤ, eq_ℤ, eq_of_eq_ℤ, take,
  gt→leb,
}
use meta_bisdn_linux.Sfp.Bus.{Mode, Event, Trace, Wire, word, time_before, enxio, etimedout}
use meta_bisdn_linux.Sfp.Attempt.{Got, ssize, read_got, read_attempt, write_status, write_attempt}
use meta_bisdn_linux.Sfp.Eeprom.{
  carried, write_count, fuel, read_loop, write_loop, sff_8436_eeprom_read, sff_8436_eeprom_write,
  now,
}

-- The clock never goes back, a sleep of a millisecond takes a tick at least, no single event takes
-- 2 ^ 32 ticks, and neither does the timeout.
pub record Clock (w : Wire) : Type 0 where
  pub grows : (e : Event) (t : Trace) → w.ticks t ≤ w.ticks (e ∷ t)
  pub sleeps : (t : Trace) → w.ticks t < w.ticks (Event.msleep 1 ∷ t)
  pub prompt : (e : Event) (t : Trace) → w.ticks (e ∷ t) ≤ w.ticks t + 2 ^ 32
  pub short : w.write_timeout < 2 ^ 32

-- `time_before` sees through the wrap of `jiffies`.
not_before : (a b : ℕ) → b ≤ a → a < b + 2 ^ 63 → time_before (a % word) (b % word) ≡ false
not_before a b le lt = gt→leb _ _ (omega arith)

before→early :
    (a start limit : ℕ)
    → time_before (a % word) ((start % word + limit) % word) ≡ true
    → a ≤ start + limit + 2 ^ 35
    → a < start + limit
before→early a start limit before soon = elim (Bool-cases (leb (start + limit) a)) [
  | inl late ↦
      let same : (start % word + limit) % word ≡ (start + limit) % word = omega arith in
      let not_yet = not_before a (start + limit) (ground arith) (omega arith) in
      absurd (true≢false (sym before ∙ (ap (λ x. time_before (a % word) x) same ∙ not_yet)))
  | inr early ↦ ground arith
]

-- A trace within a retry loop that began at `start` and has `n` rounds left.
abbrev InTime : Wire → ℕ → ℕ → Trace → Type 0
InTime w start n t =
    (1 ≤ n)
    × (start + w.write_timeout + 2 ≤ n + w.ticks t)
    × (w.ticks t ≤ start + w.write_timeout + 2 ^ 35)

-- What a read of `n` bytes at `offset` may come to: the bytes of the last transfer, the error of a
-- missing module, or the timeout.
abbrev pub ReadDone : Mode → ℕ → ℕ → Option Got × Trace → Type 0
ReadDone mode offset n (r, u) =
    ((bytes : List ℕ) × (before : Trace) × (r ≡ some (ssize n, bytes))
      × (u ≡ Event.read mode offset n (ssize n) bytes ∷ before))
    ⊎ (((bytes : List ℕ) × (before : Trace) × (r ≡ some (enxio, []))
          × (u ≡ Event.read mode offset n enxio bytes ∷ before))
        ⊎ (r ≡ some (etimedout, [])))

-- What a write may come to: the last transfer took all its bytes, or the timeout.
abbrev pub WriteDone : Mode → ℕ → List ℕ → ℕ → Option ℤ × Trace → Type 0
WriteDone mode offset bytes n (r, u) =
    ((before : Trace) × (r ≡ some (ssize n))
      × (u ≡ Event.write mode offset bytes (ssize n) ∷ before))
    ⊎ (r ≡ some etimedout)

module _ (w : Wire) (clock : Clock w) (mode : Mode) where
  -- A round that is before the timeout leaves time and rounds for the next one.
  next-InTime :
      (start n : ℕ) (t : Trace) (e : Event)
      → InTime w start (suc n) t
      → time_before (now w t) ((start % word + w.write_timeout) % word) ≡ true
      → InTime w start n (Event.msleep 1 ∷ e ∷ Event.jiffies (now w t) ∷ t)
  next-InTime start n t e (some_left, enough, soon) before =
      let t₁ : Trace = Event.jiffies (now w t) ∷ t in
      let t₂ : Trace = e ∷ t₁ in
      let h₁ = clock.grows (Event.jiffies (now w t)) t in
      let h₂ = clock.grows e t₁ in
      let h₃ = clock.sleeps t₂ in
      let k₁ = clock.prompt (Event.jiffies (now w t)) t in
      let k₂ = clock.prompt e t₁ in
      let k₃ = clock.prompt (Event.msleep 1) t₂ in
      let early = before→early (w.ticks t) start w.write_timeout before soon in
      (omega arith, omega arith, omega arith)

  read_loop-ReadDone :
      (start n offset count : ℕ) (t : Trace)
      → InTime w start n t
      → ReadDone mode offset count
          (read_loop w mode n offset count ((start % word + w.write_timeout) % word) t)
  unfolding read_loop read_attempt
  read_loop-ReadDone start zero offset count t (some_left, _, _) = absurd (omega arith)
  read_loop-ReadDone start (suc n) offset count t inside =
      let got = read_got w mode offset count (Event.jiffies (now w t) ∷ t) in
      elim (Bool-cases (eq_ℤ got.0 (ssize count))) [
        | inl full ↦
            rw (full, read_loop)
              (inl (
                got.1,
                _,
                refl,
                ap (λ s. Event.read mode offset count s got.1 ∷ Event.jiffies (now w t) ∷ t)
                    (eq_of_eq_ℤ got.0 (ssize count) full),
              ))
        | inr other ↦
            rw (other, read_loop)
              (elim (Bool-cases (eq_ℤ got.0 enxio)) [
                | inl missing ↦ rw missing (
                    inr (
                      inl (
                        got.1,
                        _,
                        refl,
                        ap (λ s. Event.read mode offset count s got.1 ∷ Event.jiffies (now w t) ∷ t)
                            (eq_of_eq_ℤ got.0 enxio missing),
                      )))
                | inr retry ↦
                    rw retry
                      (elim (Bool-cases
                        (time_before (now w t) ((start % word + w.write_timeout) % word))) [
                          | inl early ↦ rw early (
                              read_loop-ReadDone start n offset count _
                                (next-InTime start n t _ inside early))
                          | inr late ↦ rw late (inr (inr refl))
                        ])
              ])
      ]

  write_loop-WriteDone :
      (start n offset : ℕ) (bytes : List ℕ) (count : ℕ) (t : Trace)
      → InTime w start n t
      → WriteDone mode offset bytes count
          (write_loop w mode n offset bytes count ((start % word + w.write_timeout) % word) t)
  unfolding write_loop write_attempt
  write_loop-WriteDone start zero offset bytes count t (some_left, _, _) = absurd (omega arith)
  write_loop-WriteDone start (suc n) offset bytes count t inside =
      let status = write_status w mode offset bytes count (Event.jiffies (now w t) ∷ t) in
      elim (Bool-cases (eq_ℤ status (ssize count))) [
        | inl full ↦
            rw (full, write_loop)
              (inl (
                _,
                refl,
                ap (λ s. Event.write mode offset bytes s ∷ Event.jiffies (now w t) ∷ t)
                    (eq_of_eq_ℤ status (ssize count) full),
              ))
        | inr other ↦
            rw (other, write_loop)
              (elim (Bool-cases (time_before (now w t) ((start % word + w.write_timeout) % word))) [
                | inl early ↦ rw early (
                    write_loop-WriteDone start n offset bytes count _
                      (next-InTime start n t _ inside early))
                | inr late ↦ rw late (inr refl)
              ])
      ]

  begin-InTime : (t : Trace) → InTime w (w.ticks t) (fuel w) (Event.jiffies (now w t) ∷ t)
  begin-InTime t =
      let h = clock.grows (Event.jiffies (now w t)) t in
      let k = clock.prompt (Event.jiffies (now w t)) t in (omega arith, omega arith, omega arith)

  -- On a clock that goes on, sff_8436_eeprom_read ends within its fuel, whatever the bus answers:
  -- with the bytes of its last transfer, which carried as many as the transport can; with -ENXIO,
  -- as its last transfer did; or with -ETIMEDOUT.
  pub eeprom_read_ends :
      (offset count : ℕ) (t : Trace)
      → ReadDone mode offset (carried mode count) (sff_8436_eeprom_read w mode offset count t)
  unfolding sff_8436_eeprom_read
  eeprom_read_ends offset count t =
      read_loop-ReadDone (w.ticks t) (fuel w) offset (carried mode count) _ (begin-InTime t)

  -- On a clock that goes on, sff_8436_eeprom_write ends within its fuel, whatever the bus answers:
  -- with the number of bytes that its last transfer took, or with -ETIMEDOUT.
  pub eeprom_write_ends :
      (write_max : ℕ) (buf : List ℕ) (offset count : ℕ) (t : Trace)
      → let n = carried mode (write_count write_max offset count) in
        WriteDone mode offset
          (take n buf)
          n
          (sff_8436_eeprom_write w mode write_max buf offset count t)
  unfolding sff_8436_eeprom_write
  eeprom_write_ends write_max buf offset count t =
      let n = carried mode (write_count write_max offset count) in
      write_loop-WriteDone (w.ticks t) (fuel w) offset (take n buf) n _ (begin-InTime t)

  -- On a clock that goes on, sff_8436_eeprom_read and sff_8436_eeprom_write end within their fuel,
  -- whatever the bus answers. The read returns the bytes of its last transfer, which carried as
  -- many as the transport can, -ENXIO as its last transfer did, or -ETIMEDOUT; the write returns
  -- the number of bytes that its last transfer took, or -ETIMEDOUT.
  pub eeprom_transfers_end :
      (write_max : ℕ) (buf : List ℕ) (offset count : ℕ) (t : Trace)
      → let n = carried mode (write_count write_max offset count) in
        ReadDone mode offset (carried mode count) (sff_8436_eeprom_read w mode offset count t)
        × WriteDone mode offset
            (take n buf)
            n
            (sff_8436_eeprom_write w mode write_max buf offset count t)
  eeprom_transfers_end write_max buf offset count t =
      (eeprom_read_ends offset count t, eeprom_write_ends write_max buf offset count t)
