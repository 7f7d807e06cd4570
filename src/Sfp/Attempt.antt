-- ===== src/Sfp/Attempt.antt =====
-- One transfer to or from the EEPROM, by each kind of transport: the bodies of the retry loops in
-- sff_8436_eeprom_read and sff_8436_eeprom_write.
use meta_bisdn_linux.Base.{
  ℕ, ◌+◌, ◌-◌, ◌*◌, ◌/◌, ◌%◌, ◌^◌, List, [], ◌∷◌, ℤ, pos, negsuc, ◌==◌, if◌then◌else◌, get_or, eq_ℤ,
  ltb,
}
use meta_bisdn_linux.Sfp.Bus.{
  Mode, plain_i2c, i2c_block_data, word_data, byte_data, Event, Trace, Wire,
}

-- The status, and the bytes stored in `buf`.
abbrev pub Got : Type 0
Got = ℤ × List ℕ

-- A `size_t` in an `ssize_t`, or one below 2 ^ 31 or above 2 ^ 64 - 2 ^ 31 in an `int`.
unfoldable pub ssize : ℕ → ℤ
ssize n = if ltb n (2 ^ 63) then pos n else negsuc (2 ^ 64 - 1 - n)

-- `if (status >= 0) { buf[0] = status & 0xff; if (count == 2) buf[1] = status >> 8; status = count;
-- }`
abbrev pub word_got : ℕ → ℤ → Got
word_got count (pos s) = (pos count, s % 256 ∷ (if count == 2 then s / 256 % 256 ∷ [] else []))
word_got count (negsuc k) = (negsuc k, [])

-- `if (status >= 0) { buf[0] = status; status = count; }`
abbrev pub byte_got : ℕ → ℤ → Got
byte_got count (pos s) = (pos count, s % 256 ∷ [])
byte_got count (negsuc k) = (negsuc k, [])

-- `if (status == 2) status = count;`
abbrev pub transfer_got : ℕ → Got → Got
transfer_got count (status, bytes) = (if eq_ℤ status (pos 2) then ssize count else status, bytes)

module _ (w : Wire) (mode : Mode) where
  -- An offset is passed in a `u8`, the length of a message in a `u16`.
  unfoldable pub read_got : ℕ → ℕ → Trace → Got
  read_got offset count t =
      let reg = offset % 256 in
      elim mode [
        | i2c_block_data ↦ w.read_i2c_block_data t reg count
        | word_data ↦ word_got count (w.read_word_data t reg)
        | byte_data ↦ byte_got count (w.read_byte_data t reg)
        | plain_i2c ↦ transfer_got count (w.transfer_read t reg (count % 2 ^ 16))
      ]

  unfoldable pub read_attempt : ℕ → ℕ → Trace → Got × Trace
  unfolding read_got
  read_attempt offset count t =
      let (status, bytes) = read_got offset count t in
      ((status, bytes), Event.read mode offset count status bytes ∷ t)

  -- The status that counts as success becomes `count`.
  unfoldable pub write_status : ℕ → List ℕ → ℕ → Trace → ℤ
  write_status offset bytes count t =
      let reg = offset % 256 in
      let done = λ (ok : ℕ) (status : ℤ). if eq_ℤ status (pos ok) then ssize count else status in
      elim mode [
        | i2c_block_data ↦ done 0 (w.write_i2c_block_data t reg bytes)
        | word_data ↦ done 0 (
            if count == 2
            then w.write_word_data t reg (get_or bytes 0 0 + get_or bytes 1 0 * 256)
            else w.write_byte_data t reg (get_or bytes 0 0))
        | byte_data ↦ done 0 (w.write_byte_data t reg (get_or bytes 0 0))
        | plain_i2c ↦ done 1 (w.transfer_write t reg bytes)
      ]

  unfoldable pub write_attempt : ℕ → List ℕ → ℕ → Trace → ℤ × Trace
  unfolding write_status
  write_attempt offset bytes count t =
      let status = write_status offset bytes count t in
      (status, Event.write mode offset bytes status ∷ t)
