-- ===== src/Sfp/Bounds.antt =====
-- Bounds on what the EEPROM code passes on: offsets within the client's 256 bytes, and writes that
-- stay on a page.
use meta_bisdn_linux.Base.{
  ℕ, ◌+◌, ◌-◌, ◌*◌, ◌/◌, ◌≤◌, ◌<◌, ◌≡◌, Bool-cases, inl, inr, arith, ltb, if◌then◌else◌,
}
use meta_bisdn_linux.Sfp.Bus.{Mode, plain_i2c, i2c_block_data, word_data, byte_data}
use meta_bisdn_linux.Sfp.Eeprom.{carried, write_count, next_page_start}
use meta_bisdn_linux.Sfp.Client.{sff_8436_translate_offset}

-- The page and the offset that sff_8436_translate_offset computes for an offset below 32896, where
-- the page fits in a `uint8_t`, lead back to the offset in the EEPROM, the offset on the client
-- lies within the client's 256 bytes, and it lies in the upper half, which the page register
-- switches, unless the lower half holds the byte itself.
pub translate_offset_inverts :
    (offset : ℕ)
    → offset < 32896
    → let (page, phys) = sff_8436_translate_offset offset in
      (offset ≡ page * 128 + phys) × (phys < 256) × (128 ≤ offset → 128 ≤ phys)
unfolding sff_8436_translate_offset
translate_offset_inverts offset small = elim (Bool-cases (ltb offset 128)) [
  | inl low ↦ rw low (omega arith, ground arith, λ h. absurd (ground arith))
  | inr high ↦
      let h : 128 ≤ offset = ground arith in rw high (omega arith, omega arith, λ _. omega arith)
]

-- What is left of `most` bytes at the end of the page.
cut_to_page :
    (offset most : ℕ)
    → 0 < most
    → let n =
        if ltb (next_page_start offset) (offset + most)
        then next_page_start offset - offset
        else most in
      (0 < n) × (n ≤ most) × ((offset + n - 1) / 128 ≡ offset / 128)
cut_to_page offset most h = elim (Bool-cases (ltb (next_page_start offset) (offset + most))) [
  | inl crosses ↦
      let c : next_page_start offset < offset + most = ground arith in
      rw crosses (omega arith, omega arith, omega arith)
  | inr stays ↦
      let c : offset + most ≤ next_page_start offset = ground arith in
      rw stays (h, omega arith, omega arith)
]

write_count-bounds :
    (write_max offset count : ℕ)
    → 0 < write_max
    → 0 < count
    → let n = write_count write_max offset count in
      (0 < n) × (n ≤ count) × (n ≤ write_max) × ((offset + n - 1) / 128 ≡ offset / 128)
unfolding write_count
write_count-bounds write_max offset count some_max some_count =
    elim (Bool-cases (ltb write_max count)) [
      | inl more ↦
          let c : write_max < count = ground arith in
          let (low, high, page) = cut_to_page offset write_max some_max in
          rw more (low, omega arith, high, page)
      | inr fits ↦
          let c : count ≤ write_max = ground arith in
          let (low, high, page) = cut_to_page offset count some_count in
          rw fits (low, high, omega arith, page)
    ]

pub carried-bounds : (mode : Mode) (n : ℕ) → 0 < n → (0 < carried mode n) × (carried mode n ≤ n)
unfolding carried
carried-bounds plain_i2c n h = (h, omega arith)
carried-bounds i2c_block_data n h = (ground arith, ground arith)
carried-bounds word_data n h = (ground arith, ground arith)
carried-bounds byte_data n h = (omega arith, h)

-- With a positive `write_max`, what sff_8436_eeprom_write puts into one transfer, cut to
-- `write_max`, to the page and to what the transport carries, is at least one byte, no more than
-- was asked for and no more than `write_max`, and its last byte lies on the page of its first.
pub write_stays_on_page :
    (mode : Mode) (write_max offset count : ℕ)
    → 0 < write_max
    → 0 < count
    → let n = carried mode (write_count write_max offset count) in
      (0 < n) × (n ≤ count) × (n ≤ write_max) × ((offset + n - 1) / 128 ≡ offset / 128)
write_stays_on_page mode write_max offset count some_max some_count =
    let (low, high, cut, page) = write_count-bounds write_max offset count some_max some_count in
    let (low', high') = carried-bounds mode (write_count write_max offset count) low in
    (low', omega arith, omega arith, omega arith)
