-- ===== src/Sfp/Paged/Transport.antt =====
-- What sff_8436_eeprom_read and sff_8436_eeprom_write do on a bus that serves an EEPROM, by each
-- kind of transport.
use meta_bisdn_linux.Base.{
  ℕ, zero, suc, ◌+◌, ◌*◌, ◌/◌, ◌%◌, ◌^◌, ◌≤◌, ◌<◌, ◌≡◌, refl, ap, subst, ◌∙◌, arith, Option, [],
  ◌∷◌, ℤ, pos, eq_ℤ_refl,
}
use meta_bisdn_linux.Sfp.Bus.{
  Mode, plain_i2c, i2c_block_data, word_data, byte_data, Event, Trace, Wire, Action, and_then,
}
use meta_bisdn_linux.Sfp.Attempt.{
  Got, ssize, word_got, byte_got, read_got, read_attempt, write_status, write_attempt,
}
use meta_bisdn_linux.Sfp.Eeprom.{
  carried, write_count, read_loop, write_loop, sff_8436_eeprom_read, sff_8436_eeprom_write, now,
}
use meta_bisdn_linux.Sfp.Client.{DriverType, PortData, sff_8436_page_select_reg}
use meta_bisdn_linux.Sfp.Bounds.{carried-bounds}
use meta_bisdn_linux.Sfp.Paged.{page, client_byte, client_bytes, client_byte-bound, Serves, Returns}

-- The next action runs on what this one returned.
pub then_Returns :
    {A B : Type 0} {a : A} {pg : ℕ} {b : B} {pg' : ℕ} {o : Option A × Trace} (f : A → Action B)
    → Returns a pg o
    → ((t : Trace) → page t ≡ pg → Returns b pg' (f a t))
    → Returns b pg' (and_then o.0 o.1 f)
then_Returns {b} {pg'} {o} f r k = rw r.value (k o.1 r.selected)

pub ssize-pos : (n : ℕ) → n < 2 ^ 63 → ssize n ≡ pos n
unfolding ssize
ssize-pos n h = ground arith

-- A port, with the transport that was chosen for its adapter.
abbrev pub port_of : DriverType → Mode → ℕ → PortData
port_of kind mode write_max = record { driver_type = kind; use_smbus = mode; write_max = write_max }

-- A count that the transport carries.
abbrev pub Fits : Mode → ℕ → Type 0
Fits plain_i2c n = 0 < n
Fits i2c_block_data n = (0 < n) × (n ≤ 32)
Fits word_data n = (0 < n) × (n ≤ 2)
Fits byte_data n = (0 < n) × (n ≤ 1)

carried-Fits : (mode : Mode) (n : ℕ) → 0 < n → Fits mode (carried mode n)
unfolding carried
carried-Fits plain_i2c n h = h
carried-Fits i2c_block_data n h = (ground arith, ground arith)
carried-Fits word_data n h = (ground arith, ground arith)
carried-Fits byte_data n h = (omega arith, omega arith)

pub carried-one : (mode : Mode) → carried mode 1 ≡ 1
carried-one mode = let (low, high) = carried-bounds mode 1 (omega arith) in omega arith

byte_got_lem : (b : ℕ) → b < 256 → byte_got 1 (pos b) ≡ (pos 1, b ∷ [])
byte_got_lem b h = let e : b % 256 ≡ b = omega arith in ap (λ (x : ℕ). (pos 1, x ∷ [])) e

word_got-one : (b high : ℕ) → b < 256 → word_got 1 (pos (b + 256 * high)) ≡ (pos 1, b ∷ [])
word_got-one b high h =
    let e : (b + 256 * high) % 256 ≡ b = omega arith in ap (λ (x : ℕ). (pos 1, x ∷ [])) e

word_got-two :
    (b high c : ℕ)
    → b < 256
    → high < 256
    → high ≡ c
    → word_got 2 (pos (b + 256 * high)) ≡ (pos 2, b ∷ c ∷ [])
word_got-two b high c h h' same =
    let e : (b + 256 * high) % 256 ≡ b = omega arith in
    let e' : (b + 256 * high) / 256 % 256 ≡ c = omega arith in
    ap (λ (x : ℕ). (pos 2, x ∷ (b + 256 * high) / 256 % 256 ∷ [])) e
    ∙ ap (λ (x : ℕ). (pos 2, b ∷ x ∷ [])) e'

module _ (w : Wire) (image : ℕ → ℕ) where
  read_got_lem :
      (mode : Mode)
      → Serves mode w image
      → (reg count : ℕ) (t : Trace) → Fits mode count
      → reg + count ≤ 256
      → read_got w mode reg count t ≡ (pos count, client_bytes image (page t) reg count)
  unfolding read_got
  read_got_lem plain_i2c serves reg count t some_count fits =
      let same_reg : reg % 256 ≡ reg = omega arith in
      let same_count : count % 2 ^ 16 ≡ count = omega arith in
      rw
        (
          same_reg,
          same_count,
          serves.reads t reg count fits,
          ssize-pos count (omega arith),
          read_got,
        )
        refl
  read_got_lem i2c_block_data serves reg count t (some_count, small) fits =
      let same_reg : reg % 256 ≡ reg = omega arith in
      rw (same_reg, serves.reads t reg count small fits, read_got) refl
  read_got_lem word_data serves reg zero t (some_count, small) fits = absurd (omega arith)
  read_got_lem word_data serves reg (suc zero) t (some_count, small) fits =
      let same_reg : reg % 256 ≡ reg = omega arith in
      let (high, e, h, next) = serves.reads t reg (omega arith) in
      rw (same_reg, e, read_got)
        (word_got-one (client_byte image (page t) reg) high
          (client_byte-bound image (page t) reg serves.bytes))
  read_got_lem word_data serves reg (suc (suc zero)) t (some_count, small) fits =
      let same_reg : reg % 256 ≡ reg = omega arith in
      let (high, e, h, next) = serves.reads t reg (omega arith) in
      rw (same_reg, e, read_got)
        (word_got-two (client_byte image (page t) reg) high (client_byte image (page t) (suc reg))
          (client_byte-bound image (page t) reg serves.bytes) h (next (omega arith)))
  read_got_lem word_data serves reg (suc (suc (suc n))) t (some_count, small) fits =
      absurd (omega arith)
  read_got_lem byte_data serves reg zero t (some_count, small) fits = absurd (omega arith)
  read_got_lem byte_data serves reg (suc zero) t (some_count, small) fits =
      let same_reg : reg % 256 ≡ reg = omega arith in
      rw (same_reg, serves.reads t reg (omega arith), read_got)
        (byte_got_lem (client_byte image (page t) reg)
          (client_byte-bound image (page t) reg serves.bytes))
  read_got_lem byte_data serves reg (suc (suc n)) t (some_count, small) fits = absurd (omega arith)

  write_status_lem :
      (mode : Mode)
      → Serves mode w image
      → (reg v : ℕ) (t : Trace) → write_status w mode reg (v ∷ []) 1 t ≡ pos 1
  unfolding write_status ssize
  write_status_lem plain_i2c serves reg v t = rw (serves.writes t (reg % 256) v) refl
  write_status_lem i2c_block_data serves reg v t = rw (serves.writes t (reg % 256) v) refl
  write_status_lem word_data serves reg v t = rw (serves.writes t (reg % 256) v) refl
  write_status_lem byte_data serves reg v t = rw (serves.writes t (reg % 256) v) refl

  module _ (mode : Mode) (serves : Serves mode w image) where
    read_attempt_lem :
        (reg count : ℕ) (t : Trace)
        → Fits mode count
        → reg + count ≤ 256
        → let bytes = client_bytes image (page t) reg count in
          read_attempt w mode reg count t
          ≡ ((pos count, bytes), Event.read mode reg count (pos count) bytes ∷ t)
    unfolding read_attempt
    read_attempt_lem reg count t carries fits =
        ap (λ (got : Got). (got, Event.read mode reg count got.0 got.1 ∷ t))
          (read_got_lem mode serves reg count t carries fits)

    write_attempt_lem :
        (reg v : ℕ) (t : Trace)
        → write_attempt w mode reg (v ∷ []) 1 t ≡ (pos 1, Event.write mode reg (v ∷ []) (pos 1) ∷ t)
    unfolding write_attempt
    write_attempt_lem reg v t =
        ap (λ (status : ℤ). (status, Event.write mode reg (v ∷ []) status ∷ t))
          (write_status_lem mode serves reg v t)

    read_loop-Returns :
        (n reg count timeout : ℕ) (t : Trace)
        → Fits mode count
        → reg + count ≤ 256
        → Returns
            (pos count, client_bytes image (page t) reg count)
            (page t)
            (read_loop w mode (suc n) reg count timeout t)
    unfolding read_loop
    read_loop-Returns n reg count timeout t carries fits =
        let attempt = read_attempt_lem reg count (Event.jiffies (now w t) ∷ t) carries fits in
        rw (attempt, ssize-pos count (omega arith), eq_ℤ_refl (pos count), read_loop)
          (rw (attempt, ssize-pos count (omega arith)) (record { value = refl; selected = refl }))

    write_loop-Returns :
        (n pg timeout : ℕ) (t : Trace)
        → Returns
            (pos 1)
            pg
            (write_loop w mode (suc n) sff_8436_page_select_reg (pg ∷ []) 1 timeout t)
    unfolding write_loop
    write_loop-Returns n pg timeout t =
        let attempt = write_attempt_lem sff_8436_page_select_reg pg (Event.jiffies (now w t) ∷ t) in
        rw (attempt, ssize-pos 1 (omega arith), write_loop)
          (rw (attempt, ssize-pos 1 (omega arith)) (record { value = refl; selected = refl }))

    pub eeprom_read-Returns :
        (reg count : ℕ) (t : Trace)
        → 0 < count
        → reg + count ≤ 256
        → let n = carried mode count in
          Returns
            (pos n, client_bytes image (page t) reg n)
            (page t)
            (sff_8436_eeprom_read w mode reg count t)
    unfolding sff_8436_eeprom_read
    eeprom_read-Returns reg count t some_count fits =
        let (low, high) = carried-bounds mode count some_count in
        let some_fuel : w.write_timeout + 2 ≡ suc (w.write_timeout + 1) = omega arith in
        rw some_fuel (
          read_loop-Returns (w.write_timeout + 1) reg (carried mode count) _
            (Event.jiffies (now w t) ∷ t) (carried-Fits mode count some_count) (omega arith))

    -- A read of one byte, of the register that tells whether there are pages.
    pub read_one-Returns :
        (reg : ℕ) (t : Trace)
        → reg < 256
        → Returns
            (pos 1, client_byte image (page t) reg ∷ [])
            (page t)
            (sff_8436_eeprom_read w mode reg 1 t)
    read_one-Returns reg t in_client =
        subst
          (λ n.
            Returns (pos n, client_bytes image (page t) reg n) (page t)
              (sff_8436_eeprom_read w mode reg 1 t))
          (carried-one mode) (eeprom_read-Returns reg 1 t (omega arith) (omega arith))

    pub select-Returns :
        (write_max pg : ℕ) (t : Trace)
        → 0 < write_max
        → Returns
            (pos 1)
            pg
            (sff_8436_eeprom_write w mode write_max (pg ∷ []) sff_8436_page_select_reg 1 t)
    unfolding sff_8436_eeprom_write write_count
    select-Returns write_max pg t some_max =
        let some_fuel : w.write_timeout + 2 ≡ suc (w.write_timeout + 1) = omega arith in
        let whole : write_count write_max sff_8436_page_select_reg 1 ≡ 1 = ground arith in
        rw (whole, carried-one mode, some_fuel)
          (write_loop-Returns (w.write_timeout + 1) pg _ (Event.jiffies (now w t) ∷ t))
