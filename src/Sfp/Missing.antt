-- ===== src/Sfp/Missing.antt =====
-- An access to a port whose module does not answer.
use meta_bisdn_linux.Base.{
  ℕ, suc, ◌+◌, ◌-◌, ◌/◌, ◌%◌, ◌^◌, ◌≤◌, ◌<◌, ◌≡◌, refl, ap, ◌∙◌, arith, [], ◌∷◌, pos, gt→leb, ne→==,
}
use meta_bisdn_linux.Sfp.Bus.{
  Mode, plain_i2c, i2c_block_data, word_data, byte_data, Event, Trace, Wire, word, enxio,
}
use meta_bisdn_linux.Sfp.Attempt.{Got, ssize, read_got, read_attempt}
use meta_bisdn_linux.Sfp.Eeprom.{read_loop, sff_8436_eeprom_read, now}
use meta_bisdn_linux.Sfp.Client.{Opcode, qsfp}
use meta_bisdn_linux.Sfp.Port.{
  sff_8436, legal_in, rounds, chunk_loop, sff_8436_page_legal, sfp_port_read_write,
}
use meta_bisdn_linux.Sfp.Paged.{page, Returns}
use meta_bisdn_linux.Sfp.Paged.Transport.{then_Returns, ssize-pos, port_of, carried-one}

-- Every read by a kind of transport fails with -ENXIO.
abbrev pub NoAnswer : Mode → Wire → Type 0
NoAnswer plain_i2c w = (t : Trace) (reg count : ℕ) → w.transfer_read t reg count ≡ (enxio, [])
NoAnswer i2c_block_data w =
    (t : Trace) (reg count : ℕ) → w.read_i2c_block_data t reg count ≡ (enxio, [])
NoAnswer word_data w = (t : Trace) (reg : ℕ) → w.read_word_data t reg ≡ enxio
NoAnswer byte_data w = (t : Trace) (reg : ℕ) → w.read_byte_data t reg ≡ enxio

missing_got :
    (mode : Mode) (w : Wire)
    → NoAnswer mode w
    → (reg count : ℕ) (t : Trace) → read_got w mode reg count t ≡ (enxio, [])
unfolding read_got
missing_got plain_i2c w missing reg count t =
    rw (missing t (reg % 256) (count % 2 ^ 16), read_got) refl
missing_got i2c_block_data w missing reg count t = rw (missing t (reg % 256) count, read_got) refl
missing_got word_data w missing reg count t = rw (missing t (reg % 256), read_got) refl
missing_got byte_data w missing reg count t = rw (missing t (reg % 256), read_got) refl

module _ (mode : Mode) (w : Wire) (missing : NoAnswer mode w) where
  missing_attempt :
      (reg count : ℕ) (t : Trace)
      → read_attempt w mode reg count t ≡ ((enxio, []), Event.read mode reg count enxio [] ∷ t)
  unfolding read_attempt
  missing_attempt reg count t =
      ap (λ (got : Got). (got, Event.read mode reg count got.0 got.1 ∷ t))
        (missing_got mode w missing reg count t)

  missing_loop :
      (n reg timeout : ℕ) (t : Trace)
      → Returns (enxio, []) (page t) (read_loop w mode (suc n) reg 1 timeout t)
  unfolding read_loop
  missing_loop n reg timeout t =
      let attempt = missing_attempt reg 1 (Event.jiffies (now w t) ∷ t) in
      rw (attempt, ssize-pos 1 (omega arith), read_loop)
        (rw attempt (rw attempt (record { value = refl; selected = refl })))

  missing_read :
      (reg : ℕ) (t : Trace) → Returns (enxio, []) (page t) (sff_8436_eeprom_read w mode reg 1 t)
  unfolding sff_8436_eeprom_read
  missing_read reg t =
      let some_fuel : w.write_timeout + 2 ≡ suc (w.write_timeout + 1) = omega arith in
      rw (carried-one mode, some_fuel)
        (missing_loop (w.write_timeout + 1) reg _ (Event.jiffies (now w t) ∷ t))

  missing_legal_in :
      (off len write_max : ℕ) (t : Trace)
      → off < 640
      → 256 < off + len
      → len < 2 ^ 63
      → Returns enxio (page t) (legal_in w (port_of qsfp mode write_max) sff_8436 off len t)
  unfolding legal_in
  missing_legal_in off len write_max t inside past small =
      rw (gt→leb ((off + len) % word) 256 (omega arith), gt→leb 640 off inside, legal_in)
        (then_Returns _ (missing_read 2 t) (λ u e. record { value = refl; selected = e }))

  missing_legal :
      (off len write_max : ℕ) (t : Trace)
      → off < 640
      → 256 < off + len
      → len < 2 ^ 63
      → Returns enxio (page t) (sff_8436_page_legal w (port_of qsfp mode write_max) (pos off) len t)
  unfolding sff_8436_page_legal
  missing_legal = missing_legal_in

  no_chunk :
      (n : ℕ) (op : Opcode) (off chunk pending write_max : ℕ) (t : Trace)
      → n ≡ 0
      → Returns
          (pos 0, [])
          (page t)
          (chunk_loop w (port_of qsfp mode write_max) n op off chunk pending 0 [] t)
  unfolding chunk_loop ssize
  no_chunk n op off chunk pending write_max t z =
      rw (z, chunk_loop) (record { value = refl; selected = refl })

-- When every read by the transport of a QSFP port, whichever of the four that is, fails with
-- -ENXIO, an access that begins in the first 7 bytes of a page above the first, before byte 640,
-- and that does not end within the first 256 bytes, returns 0, as at the end of a file, and not an
-- error: the -ENXIO of sff_8436_page_legal is taken for a length, and the loop over the chunks ends
-- at once.
pub missing_module_reads_as_end :
    (mode : Mode) (w : Wire) (op : Opcode) (write_max off len : ℕ) (t : Trace)
    → NoAnswer mode w
    → 128 ≤ off
    → off < 640
    → off % 128 < 7
    → 256 < off + len
    → 0 < len
    → len < 2 ^ 63
    → Returns
        (pos 0, [])
        (page t)
        (sfp_port_read_write w (port_of qsfp mode write_max) op off len t)
unfolding sfp_port_read_write
missing_module_reads_as_end mode w op write_max off len t missing low inside begin past some_len
      small =
    let no_rounds : rounds off (word - 6) ≡ 0 = omega arith in
    rw (ne→== len 0 (omega arith), sfp_port_read_write)
      (then_Returns _ (missing_legal mode w missing off len write_max _ inside past small) (λ u e.
        then_Returns _
          (no_chunk mode w missing (rounds off (word - 6)) op off (off / 2 ^ 7) (word - 6) write_max
            u no_rounds)
          (λ v e'. record { value = refl; selected = e' ∙ e })))
