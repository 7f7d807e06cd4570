-- ===== src/Sfp/Paged.antt =====
-- An EEPROM with pages as the SFP driver sees it: a flat image behind a client of 256 bytes, whose
-- upper half shows the page that the page register selects.
pub mod Transport
pub mod Client
pub mod Chunks
pub mod Port
use meta_bisdn_linux.Base.{
  ℕ, zero, suc, ◌+◌, ◌*◌, ◌≤◌, ◌<◌, ◌≡◌, refl, sym, ap, ◌∙◌, ◌⊎◌, true, inl, inr, arith, ltb, ◌==◌,
  if◌then◌else◌, Option, some, List, [], ◌∷◌, ◌++◌, ℤ, pos, Bool-cases, get_or,
}
use meta_bisdn_linux.Sfp.Bus.{
  Mode, plain_i2c, i2c_block_data, word_data, byte_data, Event, read, write, Trace, Wire,
}
use meta_bisdn_linux.Sfp.Client.{sff_8436_page_select_reg}

-- The page that is selected after a trace.
abbrev pub page : Trace → ℕ
page [] = 0
page (write mode reg [] status ∷ t) = page t
page (write mode reg (v ∷ vs) status ∷ t) = if reg == sff_8436_page_select_reg then v else page t
page (_ ∷ t) = page t

-- `n` bytes of the image from `off` on.
abbrev pub image_bytes : (ℕ → ℕ) → ℕ → ℕ → List ℕ
image_bytes image off zero = []
image_bytes image off (suc n) = image off ∷ image_bytes image (suc off) n

-- A byte of the client, with a page selected.
abbrev pub client_byte : (ℕ → ℕ) → ℕ → ℕ → ℕ
client_byte image pg reg = if ltb reg 128 then image reg else image (pg * 128 + reg)

-- `n` bytes of the client from `reg` on.
abbrev pub client_bytes : (ℕ → ℕ) → ℕ → ℕ → ℕ → List ℕ
client_bytes image pg reg zero = []
client_bytes image pg reg (suc n) = client_byte image pg reg ∷ client_bytes image pg (suc reg) n

-- A read by a kind of transport delivers the client's bytes. A word has the second byte in its
-- upper half, any byte behind the last.
abbrev pub Reads : Mode → Wire → (ℕ → ℕ) → Type 0
Reads plain_i2c w image =
    (t : Trace) (reg count : ℕ)
    → reg + count ≤ 256
    → w.transfer_read t reg count ≡ (pos 2, client_bytes image (page t) reg count)
Reads i2c_block_data w image =
    (t : Trace) (reg count : ℕ)
    → count ≤ 32
    → reg + count ≤ 256
    → w.read_i2c_block_data t reg count ≡ (pos count, client_bytes image (page t) reg count)
Reads word_data w image =
    (t : Trace) (reg : ℕ)
    → reg < 256
    → (high : ℕ) × (w.read_word_data t reg ≡ pos (client_byte image (page t) reg + 256 * high))
      × (high < 256)
      × (reg < 255 → high ≡ client_byte image (page t) (suc reg))
Reads byte_data w image =
    (t : Trace) (reg : ℕ)
    → reg < 256
    → w.read_byte_data t reg ≡ pos (client_byte image (page t) reg)

-- A write of one byte by a kind of transport succeeds.
abbrev pub Writes : Mode → Wire → Type 0
Writes plain_i2c w = (t : Trace) (reg v : ℕ) → w.transfer_write t reg (v ∷ []) ≡ pos 1
Writes i2c_block_data w = (t : Trace) (reg v : ℕ) → w.write_i2c_block_data t reg (v ∷ []) ≡ pos 0
Writes word_data w = (t : Trace) (reg v : ℕ) → w.write_byte_data t reg v ≡ pos 0
Writes byte_data w = (t : Trace) (reg v : ℕ) → w.write_byte_data t reg v ≡ pos 0

-- A bus on which the transfers of a kind of transport succeed, and reads deliver the client's
-- bytes.
pub record Serves (mode : Mode) (w : Wire) (image : ℕ → ℕ) : Type 0 where
  pub bytes : (a : ℕ) → image a < 256
  pub reads : Reads mode w image
  pub writes : Writes mode w

-- An action returned `a`, and has left page `pg` selected.
pub record Returns {A : Type 0} (a : A) (pg : ℕ) (o : Option A × Trace) : Type 0 where
  pub value : o.0 ≡ some a
  pub selected : page o.1 ≡ pg

-- Within one half of the client, and page 0 if that is the lower one, the bytes are the image's.
pub client_bytes-image :
    (image : ℕ → ℕ) (pg reg off n : ℕ)
    → off ≡ pg * 128 + reg
    → ((pg ≡ 0) ⊎ (128 ≤ reg))
    → client_bytes image pg reg n ≡ image_bytes image off n
client_bytes-image image pg reg off zero e half = refl
client_bytes-image image pg reg off (suc n) e half =
    let rest = client_bytes-image image pg (suc reg) (suc off) n (omega arith) (ground arith) in
    let image_off : (if ltb reg 128 then image reg else image (pg * 128 + reg)) ≡ image off =
      elim (Bool-cases (ltb reg 128)) [
        | inl low ↦ rw low (ap image (low_reg half low))
        | inr high ↦ rw high (ap image (sym e))
      ] in
    ap (λ x. x ∷ client_bytes image pg (suc reg) n) image_off ∙ ap (λ l. image off ∷ l) rest
  where
    low_reg : ((pg ≡ 0) ⊎ (128 ≤ reg)) → ltb reg 128 ≡ true → reg ≡ off
    low_reg (inl z) low = omega arith
    low_reg (inr h) low = absurd (ground arith)

pub image_bytes-add :
    (image : ℕ → ℕ) (off m n : ℕ)
    → image_bytes image off (m + n) ≡ image_bytes image off m ++ image_bytes image (off + m) n
image_bytes-add image off zero n =
    let e : 0 + n ≡ n = omega arith in
    let e' : off ≡ off + 0 = omega arith in
    ap (λ x. image_bytes image off x) e ∙ ap (λ x. image_bytes image x n) e'
image_bytes-add image off (suc m) n =
    let e : suc m + n ≡ suc (m + n) = omega arith in
    let e' : suc off + m ≡ off + suc m = omega arith in
    ap (λ x. image_bytes image off x) e
    ∙ ap (λ l. image off ∷ l) (image_bytes-add image (suc off) m n)
    ∙ ap (λ x. image_bytes image off (suc m) ++ image_bytes image x n) e'

pub client_bytes-add :
    (image : ℕ → ℕ) (pg reg m n : ℕ)
    → client_bytes image pg reg (m + n)
      ≡ client_bytes image pg reg m ++ client_bytes image pg (reg + m) n
client_bytes-add image pg reg zero n =
    let e : 0 + n ≡ n = omega arith in
    let e' : reg ≡ reg + 0 = omega arith in
    ap (λ x. client_bytes image pg reg x) e ∙ ap (λ x. client_bytes image pg x n) e'
client_bytes-add image pg reg (suc m) n =
    let e : suc m + n ≡ suc (m + n) = omega arith in
    let e' : suc reg + m ≡ reg + suc m = omega arith in
    ap (λ x. client_bytes image pg reg x) e
    ∙ ap (λ l. client_byte image pg reg ∷ l) (client_bytes-add image pg (suc reg) m n)
    ∙ ap (λ x. client_bytes image pg reg (suc m) ++ client_bytes image pg x n) e'

pub client_byte-bound :
    (image : ℕ → ℕ) (pg reg : ℕ) → ((a : ℕ) → image a < 256) → client_byte image pg reg < 256
client_byte-bound image pg reg h = elim (Bool-cases (ltb reg 128)) [
  | inl low ↦ rw low (h reg)
  | inr high ↦ rw high (h (pg * 128 + reg))
]
