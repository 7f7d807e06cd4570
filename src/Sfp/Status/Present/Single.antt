-- ===== src/Sfp/Status/Present/Single.antt =====
-- What sfp_is_port_present returns, from what the read of the register of the port returned.
use meta_bisdn_linux.Base.{
  ℕ, zero, suc, max, ◌+◌, ◌-◌, ◌*◌, ◌/◌, ◌%◌, ◌^◌, ◌≤◌, ◌<◌, ◌≡◌, refl, ap, ◌∙◌, arith, some, ℤ,
  pos, negsuc, bit, bit_and, bit_or, bit-bit_or, bit-above, bit-byte_at, bit-le, bit_and-two_pow,
  two_pow-positive, masked_zero, eq→==, ◌==◌, if◌then◌else◌, ℤ-cases, inl, inr,
}
use meta_bisdn_linux.Sfp.Status.{
  take_lock, give_lock, CpldAccess, Port, shl64, err_ptr, data_ptr, err_or_data,
}
use meta_bisdn_linux.Sfp.Status.Present.{present_place, present_at, sfp_is_port_present}

pub shl64_byte : (v k : ℕ) → v < 256 → k < 4 → shl64 v (k * 8) ≡ v * 2 ^ (8 * k)
shl64_byte v zero b h = omega arith
shl64_byte v (suc zero) b h = omega arith
shl64_byte v (suc (suc zero)) b h = omega arith
shl64_byte v (suc (suc (suc zero))) b h = omega arith
shl64_byte v (suc (suc (suc (suc k)))) b h = absurd (omega arith)

pub or_bit :
    (w v k q j b : ℕ)
    → v < 256
    → k < 4
    → j < 8
    → bit w (8 * q + j) ≡ b
    → bit (bit_or w (shl64 v (k * 8))) (8 * q + j) ≡ max b (if k == q then bit v j else 0)
or_bit w v k q j b small h h' e =
    ap (λ x. bit (bit_or w x) (8 * q + j)) (shl64_byte v k small h)
    ∙ bit-bit_or w (v * 2 ^ (8 * k)) (8 * q + j)
    ∙ ap (λ x. max x (bit (v * 2 ^ (8 * k)) (8 * q + j))) e
    ∙ ap (max b) (bit-byte_at v k q j small h')

pub present_place_lem :
    (port : ℕ)
    → port < 32
    → present_place port ≡ some (0x62 + 2 * (port / 16), 0x60 + port % 16 / 8, port / 8)
present_place_lem port h = ground arith

-- The word that sfp_update_present_by_port makes of a byte, under the bit of the port.
port_word :
    (v port : ℕ)
    → port < 32
    → v < 256
    → (bit_and (bit_or 0 (shl64 v (port / 8 * 8))) (2 ^ port) == 0) ≡ (bit v (port % 8) == 0)
port_word v port h b =
    let q = port / 8 in
    let j = port % 8 in
    let w = bit_or 0 (shl64 v (q * 8)) in
    let split : port ≡ 8 * q + j = omega arith in
    let own : bit w port ≡ bit v j =
      ap (bit w) split
      ∙ or_bit 0 v q q j 0 b (omega arith) (omega arith)
          (bit-above 0 0 (8 * q + j) (omega arith) (omega arith))
      ∙ rw (eq→== q q refl) (omega arith) in
    ap (λ x. x == 0) (bit_and-two_pow w port ∙ ap (λ x. x * 2 ^ port) own)
    ∙ masked_zero (bit v j) (2 ^ port) (bit-le v j) (two_pow-positive port)

one_minus : (b : ℕ) → b ≤ 1 → (if b == 0 then pos 1 else pos 0) ≡ pos (1 - b)
one_minus zero h = refl
one_minus (suc zero) h = refl
one_minus (suc (suc b)) h = absurd (omega arith)

module _ {S : Type 0} (cpld : CpldAccess S) where
  -- The rest of sfp_is_port_present, after the read.
  abbrev finish : ℕ → ℤ × Port S → ℤ × Port S
  finish port (status, p) = elim (err_or_data status) [
    | err_ptr e ↦ (e, give_lock p)
    | data_ptr ↦ ((if bit_and p.present (2 ^ port) == 0 then pos 1 else pos 0), give_lock p)
  ]

  placed :
      (port : ℕ) (p : Port S)
      → port < 32
      → sfp_is_port_present cpld port p
        ≡ finish port (
            present_at cpld
              (some (0x62 + 2 * (port / 16), 0x60 + port % 16 / 8, port / 8))
              (record (take_lock p) { present = 0 }))
  unfolding sfp_is_port_present
  placed port p h =
      ap (λ o. finish port (present_at cpld o (record (take_lock p) { present = 0 })))
        (present_place_lem port h)

  pub is_port_present-read :
      (port v : ℕ) (p : Port S)
      → port < 32
      → v < 256
      → (cpld.read (0x62 + 2 * (port / 16)) (0x60 + port % 16 / 8) p.world).0 ≡ pos v
      → (sfp_is_port_present cpld port p).0 ≡ pos (1 - bit v (port % 8))
  unfolding present_at
  is_port_present-read port v p h b e =
      ap (λ (r : ℤ × Port S). r.0) (placed port p h)
      ∙ rw (e, present_at)
          (rw (port_word v port h b) (one_minus (bit v (port % 8)) (bit-le v (port % 8))))

  pub is_port_present-failed :
      (port k : ℕ) (p : Port S)
      → port < 32
      → (cpld.read (0x62 + 2 * (port / 16)) (0x60 + port % 16 / 8) p.world).0 ≡ negsuc k
      → (sfp_is_port_present cpld port p).0 ≡ negsuc k
  unfolding present_at
  is_port_present-failed port k p h e =
      ap (λ (r : ℤ × Port S). r.0) (placed port p h) ∙ rw (e, present_at) refl

  -- The world and the data of the port after it, whatever was read.
  pub is_port_present-after :
      (port : ℕ) (p : Port S)
      → port < 32
      → let q = (sfp_is_port_present cpld port p).1 in
        let s = (cpld.read (0x62 + 2 * (port / 16)) (0x60 + port % 16 / 8) p.world).1 in
        (q.world ≡ s) × (q.valid ≡ p.valid)
  unfolding present_at
  is_port_present-after port p h =
      let e = placed port p h in
      let s = cpld.read (0x62 + 2 * (port / 16)) (0x60 + port % 16 / 8) p.world in
      elim (ℤ-cases s.0) [
        | inl (k, read) ↦ (
          ap (λ (r : ℤ × Port S). r.1.world) e ∙ rw (read, present_at) refl,
          ap (λ (r : ℤ × Port S). r.1.valid) e ∙ rw (read, present_at) refl,
        )
        | inr (n, read) ↦ (
          ap (λ (r : ℤ × Port S). r.1.world) e ∙ rw (read, present_at) refl,
          ap (λ (r : ℤ × Port S). r.1.valid) e ∙ rw (read, present_at) refl,
        )
      ]
