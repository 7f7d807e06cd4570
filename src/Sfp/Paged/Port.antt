-- ===== src/Sfp/Paged/Port.antt =====
-- sfp_port_read_write delivers what it is asked for from an EEPROM with pages.
use meta_bisdn_linux.Base.{
  ℕ, ◌+◌, ◌-◌, ◌/◌, ◌%◌, ◌^◌, ◌≤◌, ◌<◌, min, ◌≡◌, refl, ap, ◌∙◌, inl, inr, arith, leb,
  if◌then◌else◌, none, some, [], pos, Bool-cases, lt→ltb, gt→leb, ge→ltb, ne→==,
}
use meta_bisdn_linux.Sfp.Bus.{Mode, Trace, Wire, word}
use meta_bisdn_linux.Sfp.Client.{DriverType, sfp_msa, sfp_ddm, qsfp, xfp, read_op}
use meta_bisdn_linux.Sfp.Port.{
  Layout, sff_8472, sff_8436, layout_of, trim, legal_in, rounds, sff_8436_page_legal,
  sfp_port_read_write,
}
use meta_bisdn_linux.Sfp.Paged.{page, image_bytes, Serves, Returns}
use meta_bisdn_linux.Sfp.Paged.Transport.{then_Returns, read_one-Returns, port_of}
use meta_bisdn_linux.Sfp.Paged.Chunks.{Pending, chunk_loop-Returns}

-- Where the EEPROM with this image ends.
abbrev pub end_of : Layout → (ℕ → ℕ) → ℕ
end_of l image = if l.pageable (image l.pageable_reg) then l.size else l.unpaged_size

abbrev pub eeprom_end : DriverType → (ℕ → ℕ) → ℕ
eeprom_end kind image = elim (layout_of kind) [ none ↦ 0 | some l ↦ end_of l image ]

abbrev pub eeprom_size : DriverType → ℕ
eeprom_size kind = elim (layout_of kind) [ none ↦ 0 | some l ↦ l.size ]

-- What holds of both layouts.
record Sound (l : Layout) : Type 0 where
  grows : l.unpaged_size ≤ l.size
  size_le : l.size ≤ 768
  reg_low : l.pageable_reg < 128

sff_8472-Sound : Sound sff_8472
sff_8472-Sound = record { grows = omega arith; size_le = omega arith; reg_low = omega arith }

sff_8436-Sound : Sound sff_8436
sff_8436-Sound = record { grows = omega arith; size_le = omega arith; reg_low = omega arith }

end_of-bounds :
    (l : Layout) (image : ℕ → ℕ)
    → Sound l
    → (l.unpaged_size ≤ end_of l image) × (end_of l image ≤ l.size)
end_of-bounds l image sound = elim (Bool-cases (l.pageable (image l.pageable_reg))) [
  | inl paged ↦ let h = sound.grows in rw paged (h, omega arith)
  | inr flat ↦ let h = sound.grows in rw flat (omega arith, h)
]

trim_lem :
    (limit off len : ℕ) → off < limit → limit ≤ 768 → trim limit off len ≡ min len (limit - off)
trim_lem limit off len inside small =
    let maxlen : (limit + word - off) % word ≡ limit - off = omega arith in rw maxlen (ground arith)

trim_past : (limit off len : ℕ) → limit < off → off < 768 → len < 2 ^ 63 → trim limit off len ≡ len
trim_past limit off len past inside small =
    rw (ge→ltb ((limit + word - off) % word) len (omega arith)) refl

module _ (mode : Mode) (w : Wire) (image : ℕ → ℕ) (serves : Serves mode w image) (kind : DriverType)
    (write_max : ℕ) where
  legal_in-Returns :
      (l : Layout) (off len : ℕ) (t : Trace)
      → Sound l
      → off < end_of l image
      → len < 2 ^ 63
      → page t ≡ 0
      → Returns
          (pos (min len (end_of l image - off)))
          0
          (legal_in w (port_of kind mode write_max) l off len t)
  unfolding legal_in
  legal_in-Returns l off len t sound inside small start =
      let (low, high) = end_of-bounds l image sound in
      let size_le = sound.size_le in
      let reg_low = sound.reg_low in
      elim (Bool-cases (leb ((off + len) % word) l.unpaged_size)) [
        | inl fits ↦
            let within : off + len ≤ l.unpaged_size = ground arith in
            rw (fits, legal_in)
              (record { value = ap (λ (n : ℕ). some (pos n)) (omega arith); selected = start })
        | inr exceeds ↦
            rw (exceeds, gt→leb l.size off (omega arith), legal_in)
              (then_Returns _ (read_one-Returns w image mode serves l.pageable_reg t (omega arith))
                (λ u e. record {
                  value = rw (lt→ltb l.pageable_reg 128 reg_low) (
                      ap (λ (n : ℕ). some (pos n))
                        (trim_lem (end_of l image) off len inside (omega arith)));
                  selected = e ∙ start;
                }))
      ]

  legal_in-past :
      (l : Layout) (off len : ℕ) (t : Trace)
      → Sound l
      → end_of l image < off
      → off < l.size
      → len < 2 ^ 63
      → page t ≡ 0
      → Returns (pos len) 0 (legal_in w (port_of kind mode write_max) l off len t)
  unfolding legal_in
  legal_in-past l off len t sound past inside small start =
      let (low, high) = end_of-bounds l image sound in
      let size_le = sound.size_le in
      let reg_low = sound.reg_low in
      rw
        (
          gt→leb ((off + len) % word) l.unpaged_size (omega arith),
          gt→leb l.size off inside,
          legal_in,
        )
        (then_Returns _ (read_one-Returns w image mode serves l.pageable_reg t (omega arith))
          (λ u e. record {
            value = rw (lt→ltb l.pageable_reg 128 reg_low) (
                ap (λ (n : ℕ). some (pos n))
                  (trim_past (end_of l image) off len past (omega arith) small));
            selected = e ∙ start;
          }))

eeprom_end-bound : (kind : DriverType) (image : ℕ → ℕ) → eeprom_end kind image ≤ 768
eeprom_end-bound sfp_msa image =
    let h = (end_of-bounds sff_8472 image sff_8472-Sound).1 in omega arith
eeprom_end-bound sfp_ddm image = omega arith
eeprom_end-bound qsfp image = let h = (end_of-bounds sff_8436 image sff_8436-Sound).1 in omega arith
eeprom_end-bound xfp image = let h = (end_of-bounds sff_8436 image sff_8436-Sound).1 in omega arith

pub page_legal-Returns :
    (mode : Mode) (w : Wire) (image : ℕ → ℕ)
    → Serves mode w image
    → (kind : DriverType) (write_max off len : ℕ) (t : Trace) → 0 < write_max
    → off < eeprom_end kind image
    → len < 2 ^ 63
    → page t ≡ 0
    → Returns
        (pos (min len (eeprom_end kind image - off)))
        0
        (sff_8436_page_legal w (port_of kind mode write_max) (pos off) len t)
unfolding sff_8436_page_legal
page_legal-Returns mode w image serves sfp_msa write_max off len t some_max inside small start =
    legal_in-Returns mode w image serves sfp_msa write_max sff_8472 off len t sff_8472-Sound inside
      small start
page_legal-Returns mode w image serves sfp_ddm write_max off len t some_max inside small start =
    absurd (omega arith)
page_legal-Returns mode w image serves qsfp write_max off len t some_max inside small start =
    legal_in-Returns mode w image serves qsfp write_max sff_8436 off len t sff_8436-Sound inside
      small start
page_legal-Returns mode w image serves xfp write_max off len t some_max inside small start =
    legal_in-Returns mode w image serves xfp write_max sff_8436 off len t sff_8436-Sound inside
      small start

-- On a bus that serves, by the transport of a QSFP port, whichever of the four that is, an EEPROM
-- with pages on one client, page 0 selected: a read into a buffer that has room for what is asked
-- for, which begins before the end of the EEPROM, as its own register tells that end, returns the
-- number of bytes up to that end, or `len` if that is less; the bytes are the image's from `off`
-- on, whatever pages and chunks they span; and page 0 is selected again.
pub port_read_delivers :
    (mode : Mode) (w : Wire) (image : ℕ → ℕ)
    → Serves mode w image
    → (write_max room off len : ℕ) (t : Trace) → 0 < write_max
    → len ≤ room
    → off < eeprom_end qsfp image
    → 0 < len
    → len < 2 ^ 63
    → page t ≡ 0
    → let n = min len (eeprom_end qsfp image - off) in
      Returns
        (pos n, image_bytes image off n)
        0
        (sfp_port_read_write w (port_of qsfp mode write_max) (read_op room) off len t)
unfolding sfp_port_read_write
port_read_delivers mode w image serves write_max room off len t some_max enough inside some_len
      small start =
    let n = min len (eeprom_end qsfp image - off) in
    let end_bound = eeprom_end-bound qsfp image in
    let left : Pending off (off / 2 ^ 7) off n (rounds off n) =
      inr (omega arith, inl (refl, refl), omega arith) in
    rw (ne→== len 0 (omega arith), sfp_port_read_write)
      (then_Returns _
        (page_legal-Returns mode w image serves qsfp write_max off len _ some_max inside small
          start)
        (λ u e.
          then_Returns _
            (chunk_loop-Returns mode w image serves qsfp write_max some_max (rounds off n) room off
              (off / 2 ^ 7) off n 0 [] u left (omega arith) (omega arith) (omega arith) e)
            (λ v e'. record {
              value = ap (λ (m : ℕ). some (pos m, image_bytes image off n)) (omega arith);
              selected = e';
            })))

-- On a bus that serves, by the transport of the port, whichever of the four that is, an EEPROM on
-- one client, page 0 selected: an access of less than 2 ^ 63 bytes to the other side of the end of
-- an EEPROM that has no pages, where one with pages would go on, is called legal in its full length.
pub past_end_not_trimmed :
    (mode : Mode) (w : Wire) (image : ℕ → ℕ)
    → Serves mode w image
    → (kind : DriverType) (write_max off len : ℕ) (t : Trace) → eeprom_end kind image < off
    → off < eeprom_size kind
    → len < 2 ^ 63
    → page t ≡ 0
    → Returns (pos len) 0 (sff_8436_page_legal w (port_of kind mode write_max) (pos off) len t)
unfolding sff_8436_page_legal
past_end_not_trimmed mode w image serves sfp_msa write_max off len t past inside small start =
    legal_in-past mode w image serves sfp_msa write_max sff_8472 off len t sff_8472-Sound past
      inside small start
past_end_not_trimmed mode w image serves sfp_ddm write_max off len t past inside small start =
    absurd (omega arith)
past_end_not_trimmed mode w image serves qsfp write_max off len t past inside small start =
    legal_in-past mode w image serves qsfp write_max sff_8436 off len t sff_8436-Sound past inside
      small start
past_end_not_trimmed mode w image serves xfp write_max off len t past inside small start =
    legal_in-past mode w image serves xfp write_max sff_8436 off len t sff_8436-Sound past inside
      small start
