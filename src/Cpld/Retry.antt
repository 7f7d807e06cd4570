-- ===== src/Cpld/Retry.antt =====
-- cpld_read_internal, cpld_write_internal and the attribute `access`.
use meta_bisdn_linux.Base.{
  ℕ, zero, suc, ◌≤◌, ◌<◌, ◌≡◌, refl, inl, inr, ◌⊎◌, arith, Option, none, some, ◌∷◌, ℤ, pos, true,
  false, Bool-cases, is_neg, ltb, ◌||◌, lt→ltb, ge→ltb, if◌then◌else◌,
}
use meta_bisdn_linux.Cpld.Bus.{
  I2cClient, Event, read_byte_data, write_byte_data, msleep, mutex_lock, mutex_unlock, Trace, Smbus,
  smbus_read, smbus_write, einval,
}

abbrev pub i2c_rw_retry_count : ℕ
i2c_rw_retry_count = 10

abbrev pub i2c_rw_retry_interval : ℕ
i2c_rw_retry_interval = 60

module _ (bus : Smbus) (client : I2cClient) where
  -- `while (retry)`, with the status of the round before.
  unfoldable pub read_retry : ℕ → ℤ → ℕ → Trace → ℤ × Trace
  read_retry zero status reg t = (status, t)
  read_retry (suc retry) status reg t =
      let (status', t') = smbus_read bus client reg t in
      elim (is_neg status') [
        | true ↦ read_retry retry status' reg (msleep i2c_rw_retry_interval ∷ t')
        | false ↦ (status', t')
      ]

  unfoldable pub cpld_read_internal : ℕ → Trace → ℤ × Trace
  unfolding read_retry
  cpld_read_internal = read_retry i2c_rw_retry_count (pos 0)

  unfoldable pub write_retry : ℕ → ℤ → ℕ → ℕ → Trace → ℤ × Trace
  write_retry zero status reg value t = (status, t)
  write_retry (suc retry) status reg value t =
      let (status', t') = smbus_write bus client reg value t in
      elim (is_neg status') [
        | true ↦ write_retry retry status' reg value (msleep i2c_rw_retry_interval ∷ t')
        | false ↦ (status', t')
      ]

  unfoldable pub cpld_write_internal : ℕ → ℕ → Trace → ℤ × Trace
  unfolding write_retry
  cpld_write_internal = write_retry i2c_rw_retry_count (pos 0)

  -- The address and the value are what sscanf found in the text, and `none` if it did not find
  -- both.
  unfoldable pub access : Option (ℕ × ℕ) → ℕ → Trace → ℤ × Trace
  unfolding cpld_write_internal
  access none count t = (einval, t)
  access (some (addr, val)) count t = elim (ltb 0xFF addr || ltb 0xFF val) [
    | true ↦ (einval, t)
    | false ↦
        let (status, t') = cpld_write_internal addr val (mutex_lock ∷ t) in
        elim (is_neg status) [
          | true ↦ (status, mutex_unlock ∷ t')
          | false ↦ (pos count, mutex_unlock ∷ t')
        ]
  ]

  -- The store function of the attributes of a whole register.
  abbrev pub set_byte : Option (ℕ × ℕ) → ℕ → Trace → ℤ × Trace
  set_byte = access

-- What a transfer and its repetitions leave: `failures` times a negative status and a sleep.
pub data Failures (transfer : ℤ → Event) : ℕ → Trace → Trace → Type 0 where
  none_failed : (t : Trace) → Failures transfer 0 t t
  failed :
      (n : ℕ) (status : ℤ) (t u : Trace)
      → is_neg status ≡ true
      → Failures transfer n (msleep i2c_rw_retry_interval ∷ transfer status ∷ t) u
      → Failures transfer (suc n) t u

-- A transfer tried `tries` times at most: it failed fewer times and then succeeded, or it failed
-- every time.
abbrev pub Tried : (ℤ → Event) → ℕ → Trace → ℤ × Trace → Type 0
Tried transfer tries t (status, u) =
    ((n : ℕ) × (before : Trace) × (n < tries)
      × Failures transfer n t before
      × (is_neg status ≡ false)
      × (u ≡ transfer status ∷ before))
    ⊎ ((is_neg status ≡ true) × Failures transfer tries t u)

-- One more failure before all that was tried.
Tried-failed :
    (transfer : ℤ → Event) (tries : ℕ) (status : ℤ) (t : Trace) (r : ℤ × Trace)
    → is_neg status ≡ true
    → Tried transfer tries (msleep i2c_rw_retry_interval ∷ transfer status ∷ t) r
    → Tried transfer (suc tries) t r
Tried-failed transfer tries s t r bad (inl (n, before, few, failures, e, e')) =
    inl (suc n, before, omega arith, failed n s t before bad failures, e, e')
Tried-failed transfer tries s t (status, u) bad (inr (negative, failures)) =
    inr (negative, failed tries s t u bad failures)

module _ (bus : Smbus) (client : I2cClient) where
  read_retry-Tried :
      (retry : ℕ) (status : ℤ) (reg : ℕ) (t : Trace)
      → ((0 < retry) ⊎ (is_neg status ≡ true))
      → Tried (read_byte_data client reg) retry t (read_retry bus client retry status reg t)
  unfolding read_retry
  read_retry-Tried zero status reg t (inl h) = absurd (omega arith)
  read_retry-Tried zero status reg t (inr negative) = inr (negative, none_failed t)
  read_retry-Tried (suc retry) status reg t h =
      let status' = bus.read_status t client reg in
      elim (Bool-cases (is_neg status')) [
        | inl bad ↦
            rw (bad, read_retry)
              (Tried-failed (read_byte_data client reg) retry status' t _ bad
                (read_retry-Tried retry status' reg _ (inr bad)))
        | inr good ↦ rw (good, read_retry) (inl (0, t, omega arith, none_failed t, good, refl))
      ]

  write_retry-Tried :
      (retry : ℕ) (status : ℤ) (reg value : ℕ) (t : Trace)
      → ((0 < retry) ⊎ (is_neg status ≡ true))
      → Tried
          (write_byte_data client reg value)
          retry
          t
          (write_retry bus client retry status reg value t)
  unfolding write_retry
  write_retry-Tried zero status reg value t (inl h) = absurd (omega arith)
  write_retry-Tried zero status reg value t (inr negative) = inr (negative, none_failed t)
  write_retry-Tried (suc retry) status reg value t h =
      let status' = bus.write_status t client reg value in
      elim (Bool-cases (is_neg status')) [
        | inl bad ↦
            rw (bad, write_retry)
              (Tried-failed (write_byte_data client reg value) retry status' t _ bad
                (write_retry-Tried retry status' reg value _ (inr bad)))
        | inr good ↦ rw (good, write_retry) (inl (0, t, omega arith, none_failed t, good, refl))
      ]

  -- cpld_read_internal and cpld_write_internal repeat their transfer after each failure, with a
  -- sleep of 60 ms in between, and 10 times at most: they return the status of the first transfer
  -- that succeeds, or a negative status after 10 failures.
  pub internal_retries :
      (reg value : ℕ) (t : Trace)
      → Tried (read_byte_data client reg) 10 t (cpld_read_internal bus client reg t)
        × Tried (write_byte_data client reg value) 10 t (cpld_write_internal bus client reg value t)
  unfolding cpld_read_internal cpld_write_internal
  internal_retries reg value t = (
    read_retry-Tried 10 (pos 0) reg t (inl (omega arith)),
    write_retry-Tried 10 (pos 0) reg value t (inl (omega arith)),
  )

  access_refuses :
      (addr val count : ℕ) (t : Trace)
      → (255 < addr) ⊎ (255 < val)
      → access bus client (some (addr, val)) count t ≡ (einval, t)
  unfolding access
  access_refuses addr val count t (inl h) = rw (lt→ltb 0xFF addr h, access) refl
  access_refuses addr val count t (inr h) = elim (Bool-cases (ltb 0xFF addr)) [
    | inl wide ↦ rw (wide, access) refl
    | inr narrow ↦ rw (narrow, lt→ltb 0xFF val h, access) refl
  ]

  access_writes :
      (addr val count : ℕ) (t : Trace)
      → addr ≤ 255
      → val ≤ 255
      → let r = cpld_write_internal bus client addr val (mutex_lock ∷ t) in
        access bus client (some (addr, val)) count t
        ≡ ((if is_neg r.0 then r.0 else pos count), mutex_unlock ∷ r.1)
  unfolding access
  access_writes addr val count t h h' =
      let r = cpld_write_internal bus client addr val (mutex_lock ∷ t) in
      rw (ge→ltb 0xFF addr h, ge→ltb 0xFF val h', access)
        (elim (Bool-cases (is_neg r.0)) [
          | inl bad ↦ rw (bad, access) refl
          | inr good ↦ rw (good, access) refl
        ])

  -- The attribute `access` refuses a text without two numbers, and numbers above 0xFF, with -EINVAL
  -- and touches nothing. Otherwise it writes the register under the mutex, trying up to 10 times,
  -- and returns the length of the text, or the last error, after giving the mutex back.
  access_correct :
      (addr val count : ℕ) (t : Trace)
      → (access bus client none count t ≡ (einval, t))
        × ((255 < addr) ⊎ (255 < val) → access bus client (some (addr, val)) count t ≡ (einval, t))
        × (addr ≤ 255
            → val ≤ 255
            → (r : ℤ × Trace) × Tried (write_byte_data client addr val) 10 (mutex_lock ∷ t) r
              × (access bus client (some (addr, val)) count t
                  ≡ ((if is_neg r.0 then r.0 else pos count), mutex_unlock ∷ r.1)))
  unfolding access
  access_correct addr val count t = (
    refl,
    access_refuses addr val count t,
    λ h h'. (
      cpld_write_internal bus client addr val (mutex_lock ∷ t),
      (internal_retries addr val (mutex_lock ∷ t)).1,
      access_writes addr val count t h h',
    ),
  )
