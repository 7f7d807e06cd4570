-- ===== src/Sfp/Port.antt =====
-- sff_8436_page_legal and sfp_port_read_write.
use meta_bisdn_linux.Base.{
  ℕ, zero, suc, ◌+◌, ◌-◌, ◌*◌, ◌/◌, ◌%◌, ◌^◌, Bool, true, false, Option, none, some, List, [], ◌++◌,
  bit_and, ℤ, pos, negsuc, ltb, leb, ◌==◌, if◌then◌else◌, get_or, eq_ℤ,
}
use meta_bisdn_linux.Sfp.Bus.{Event, Wire, Action, pure, log, ◌>>=◌, ◌>>◌, einval, word}
use meta_bisdn_linux.Sfp.Attempt.{Got, ssize}
use meta_bisdn_linux.Sfp.Eeprom.{sff_8436_page_size, sff_8436_eeprom_read}
use meta_bisdn_linux.Sfp.Client.{
  DriverType, sfp_msa, sfp_ddm, qsfp, xfp, PortData, Opcode, advance, total,
  sff_8436_eeprom_update_client,
}

-- The EEPROM of a kind of module: its sizes with and without pages, and how a register tells
-- whether it has them.
pub record Layout : Type 0 where
  pub unpaged_size : ℕ
  pub size : ℕ
  pub pageable_reg : ℕ
  pub pageable : ℕ → Bool

-- SFF_8472_EEPROM_UNPAGED_SIZE and its neighbours.
abbrev pub sff_8472 : Layout
sff_8472 = record {
  unpaged_size = 512;
  size = 768;
  pageable_reg = 0x40;
  pageable = λ v. if bit_and v 16 == 0 then false else true;
}

-- SFF_8436_EEPROM_UNPAGED_SIZE and its neighbours.
abbrev pub sff_8436 : Layout
sff_8436 = record {
  unpaged_size = 256;
  size = 640;
  pageable_reg = 0x02;
  pageable = λ v. bit_and v 4 == 0;
}

abbrev pub layout_of : DriverType → Option Layout
layout_of sfp_msa = some sff_8472
layout_of sfp_ddm = none
layout_of qsfp = some sff_8436
layout_of xfp = some sff_8436

-- `limit - off` in a `size_t`, and `len` cut to it.
abbrev pub trim : ℕ → ℕ → ℕ → ℕ
trim limit off len =
    let maxlen = (limit + word - off) % word in if ltb maxlen len then maxlen else len

-- What the register `regval` leaves of `len`, or the error of reading it.
abbrev pub legal_len : Layout → ℕ → ℕ → ℤ → ℕ → ℤ
legal_len l off len (negsuc k) regval = negsuc k
legal_len l off len (pos _) regval =
    pos (trim (if l.pageable regval then l.size else l.unpaged_size) off len)

-- The arithmetic of one round of the loop: where the chunk begins and how long it is.
abbrev pub chunk_span : ℕ → ℕ → ℕ → ℕ × ℕ
chunk_span off chunk pending_len =
    let chunk_start_offset = chunk * sff_8436_page_size in
    if ltb chunk_start_offset off
    then (
      off,
      (if ltb ((off + pending_len) % word) (chunk_start_offset + sff_8436_page_size)
          then pending_len
          else (chunk + 1) * sff_8436_page_size - off),
    )
    else (
      chunk_start_offset,
      (if ltb sff_8436_page_size pending_len then sff_8436_page_size else pending_len),
    )

-- An `ssize_t` put into the `size_t` `len`.
abbrev pub to_size : ℤ → ℕ
to_size (pos n) = n
to_size (negsuc k) = word - suc k

-- How often `chunk` passes `chunk <= (off + len - 1) >> 7` from `off >> 7` on.
abbrev pub rounds : ℕ → ℕ → ℕ
rounds off len = ((off + len + word - 1) % word) / 2 ^ 7 + 1 - off / 2 ^ 7

module _ (w : Wire) (p : PortData) where
  -- The branches of sff_8436_page_legal, one for each layout; `off` is not negative there.
  unfoldable pub legal_in : Layout → ℕ → ℕ → Action ℤ
  unfolding sff_8436_eeprom_read
  legal_in l off len = elim (leb ((off + len) % word) l.unpaged_size) [
    | true ↦ pure (pos len)
    | false ↦ elim (leb l.size off) [
      | true ↦ pure einval
      | false ↦ do
        (status, bytes) ← sff_8436_eeprom_read w p.use_smbus l.pageable_reg 1
        pure (legal_len l off len status (get_or bytes 0 0))
    ]
  ]

  unfoldable pub sff_8436_page_legal : ℤ → ℕ → Action ℤ
  unfolding legal_in
  sff_8436_page_legal (negsuc k) len = pure einval
  sff_8436_page_legal (pos off) len = elim (layout_of p.driver_type) [
    | none ↦ pure einval
    | some l ↦ legal_in l off len
  ]

  -- The loop over the chunks: the rounds left, and what the variables hold.
  unfoldable pub chunk_loop : ℕ → Opcode → ℕ → ℕ → ℕ → ℕ → List ℕ → Action Got
  unfolding sff_8436_eeprom_update_client
  chunk_loop zero op off chunk pending_len retval got = pure (total retval, got)
  chunk_loop (suc n) op off chunk pending_len retval got =
      let (chunk_offset, chunk_len) = chunk_span off chunk pending_len in
      do
        (status, bytes) ← sff_8436_eeprom_update_client w p op chunk_offset chunk_len
        elim (eq_ℤ status (ssize chunk_len)) [
          | true ↦
              chunk_loop n (advance chunk_len op) off (chunk + 1)
                ((pending_len + word - chunk_len) % word) (retval + chunk_len) (got ++ bytes)
          | false ↦ pure (status, got ++ bytes)
        ]

  -- `len` is a `size_t`, so `len < 0` never holds, and what sff_8436_page_legal returns is a length
  -- whatever its sign.
  unfoldable pub sfp_port_read_write : Opcode → ℕ → ℕ → Action Got
  unfolding sff_8436_page_legal chunk_loop
  sfp_port_read_write op off len = if len == 0 then pure (pos 0, []) else (do
    log Event.mutex_lock
    legal ← sff_8436_page_legal (pos off) len
    let n = to_size legal
    out ← chunk_loop (rounds off n) op off (off / 2 ^ 7) n 0 []
    log Event.mutex_unlock
    pure out)
