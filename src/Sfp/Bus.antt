-- ===== src/Sfp/Bus.antt =====
-- What the EEPROM code of the SFP driver does to the world: I2C transfers, the clock, sleeps and
-- the mutex of the port. What the bus and the clock answer is decided by a `Wire`, from all that
-- happened before.
use meta_bisdn_linux.Base.{
  ℕ, ◌+◌, ◌-◌, ◌%◌, ◌^◌, Bool, Option, none, some, List, ◌∷◌, ℤ, negsuc, leb,
}

-- `use_smbus`: 0, or the SMBus transfer that is used instead of plain I2C messages.
pub data Mode : Type 0 where
  plain_i2c i2c_block_data word_data byte_data : Mode

pub data Event : Type 0 where
  -- offset, count; the status and the bytes that came
  read : Mode → ℕ → ℕ → ℤ → List ℕ → Event
  -- offset, the bytes; the status
  write : Mode → ℕ → List ℕ → ℤ → Event
  jiffies : ℕ → Event
  msleep : ℕ → Event
  mutex_lock mutex_unlock : Event

-- The latest event stands first.
abbrev pub Trace : Type 0
Trace = List Event

pub record Wire : Type 0 where
  -- i2c_transfer of an address message and a read message of `count` bytes
  pub transfer_read : Trace → ℕ → ℕ → ℤ × List ℕ
  pub read_i2c_block_data : Trace → ℕ → ℕ → ℤ × List ℕ
  pub read_word_data : Trace → ℕ → ℤ
  pub read_byte_data : Trace → ℕ → ℤ
  -- i2c_transfer of one message, an address and bytes
  pub transfer_write : Trace → ℕ → List ℕ → ℤ
  pub write_i2c_block_data : Trace → ℕ → List ℕ → ℤ
  pub write_word_data : Trace → ℕ → ℕ → ℤ
  pub write_byte_data : Trace → ℕ → ℕ → ℤ
  -- the time in jiffies since the start, before it wraps
  pub ticks : Trace → ℕ
  -- msecs_to_jiffies(write_timeout)
  pub write_timeout : ℕ

-- `none`: the fuel of a loop ran out, or the caller's buffer was left.
abbrev pub Action : Type 0 → Type 0
Action A = Trace → Option A × Trace

abbrev pub pure : {A : Type 0} → A → Action A
pure a t = (some a, t)

abbrev pub and_then : {A B : Type 0} → Option A → Trace → (A → Action B) → Option B × Trace
and_then none t f = (none, t)
and_then (some a) t f = f a t

infixl 5 ◌>>=◌ ◌>>◌
abbrev pub ◌>>=◌ : {A B : Type 0} → Action A → (A → Action B) → Action B
◌>>=◌ m f t = let (r, t') = m t in and_then r t' f

abbrev pub ◌>>◌ : {A B : Type 0} → Action A → Action B → Action B
m >> k = m >>= λ _. k

abbrev pub log : Event → Action (Unit {0})
log e t = (some tt, e ∷ t)

-- `jiffies` is an `unsigned long`.
abbrev pub word : ℕ
word = 2 ^ 64

-- `time_before(a, b)`, which is `(long)(a - b) < 0`
abbrev pub time_before : ℕ → ℕ → Bool
time_before a b = leb (2 ^ 63) ((a + word - b) % word)

abbrev pub enxio : ℤ
enxio = negsuc 5

abbrev pub einval : ℤ
einval = negsuc 21

abbrev pub etimedout : ℤ
etimedout = negsuc 109
