-- ===== src/Sfp/Eeprom.antt =====
-- sff_8436_eeprom_read and sff_8436_eeprom_write.
use meta_bisdn_linux.Base.{
  ℕ, zero, suc, ◌+◌, ◌-◌, ◌*◌, ◌/◌, ◌%◌, true, false, none, some, List, [], ◌∷◌, ℤ, ltb, ◌==◌,
  if◌then◌else◌, take, eq_ℤ,
}
use meta_bisdn_linux.Sfp.Bus.{
  Mode, plain_i2c, i2c_block_data, word_data, byte_data, Event, Trace, Wire, Action, word,
  time_before, enxio, etimedout,
}
use meta_bisdn_linux.Sfp.Attempt.{Got, ssize, read_attempt, write_attempt}

abbrev pub sff_8436_page_size : ℕ
sff_8436_page_size = 128

-- I2C_SMBUS_BLOCK_MAX of the kernel
abbrev pub block_max : ℕ
block_max = 32

-- The first switch of both functions: `count` as far as the transport carries it.
unfoldable pub carried : Mode → ℕ → ℕ
carried i2c_block_data count = if ltb block_max count then block_max else count
carried word_data count = if count == 1 then 1 else 2
carried byte_data count = 1
carried plain_i2c count = count

-- `jiffies` as it is read.
abbrev pub now : Wire → Trace → ℕ
now w t = w.ticks t % word

-- `roundup(offset + 1, SFF_8436_PAGE_SIZE)`
abbrev pub next_page_start : ℕ → ℕ
next_page_start offset =
    (offset + 1 + (sff_8436_page_size - 1)) / sff_8436_page_size * sff_8436_page_size

-- `count` cut to `write_max`, then to the page.
unfoldable pub write_count : ℕ → ℕ → ℕ → ℕ
write_count write_max offset count =
    let most = if ltb write_max count then write_max else count in
    if ltb (next_page_start offset) (offset + most) then next_page_start offset - offset else most

-- One round for each jiffy until the timeout, one that sees it, one more.
abbrev pub fuel : Wire → ℕ
fuel w = w.write_timeout + 2

module _ (w : Wire) (mode : Mode) where
  unfoldable pub read_loop : ℕ → ℕ → ℕ → ℕ → Action Got
  read_loop zero offset count timeout t = (none, t)
  read_loop (suc fuel) offset count timeout t =
      let read_time = now w t in
      let (got, t₁) = read_attempt w mode offset count (Event.jiffies read_time ∷ t) in
      let t₂ : Trace = Event.msleep 1 ∷ t₁ in
      elim (eq_ℤ got.0 (ssize count)) [
        | true ↦ (some (ssize count, got.1), t₁)
        | false ↦ elim (eq_ℤ got.0 enxio) [
          | true ↦ (some (enxio, []), t₁)
          | false ↦ elim (time_before read_time timeout) [
            | true ↦ read_loop fuel offset count timeout t₂
            | false ↦ (some (etimedout, []), t₂)
          ]
        ]
      ]

  unfoldable pub write_loop : ℕ → ℕ → List ℕ → ℕ → ℕ → Action ℤ
  write_loop zero offset bytes count timeout t = (none, t)
  write_loop (suc fuel) offset bytes count timeout t =
      let write_time = now w t in
      let (status, t₁) = write_attempt w mode offset bytes count (Event.jiffies write_time ∷ t) in
      let t₂ : Trace = Event.msleep 1 ∷ t₁ in
      elim (eq_ℤ status (ssize count)) [
        | true ↦ (some (ssize count), t₁)
        | false ↦ elim (time_before write_time timeout) [
          | true ↦ write_loop fuel offset bytes count timeout t₂
          | false ↦ (some etimedout, t₂)
        ]
      ]

  unfoldable pub sff_8436_eeprom_read : ℕ → ℕ → Action Got
  unfolding read_loop carried
  sff_8436_eeprom_read offset count t =
      let start = now w t in
      read_loop (fuel w) offset (carried mode count) ((start + w.write_timeout) % word)
        (Event.jiffies start ∷ t)

  -- `buf` holds at least the bytes that are written.
  unfoldable pub sff_8436_eeprom_write : ℕ → List ℕ → ℕ → ℕ → Action ℤ
  unfolding write_loop carried write_count
  sff_8436_eeprom_write write_max buf offset count t =
      let start = now w t in
      let n = carried mode (write_count write_max offset count) in
      write_loop (fuel w) offset (take n buf) n ((start + w.write_timeout) % word)
        (Event.jiffies start ∷ t)
