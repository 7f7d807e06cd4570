-- ===== src/Sfp/Paged/Client.antt =====
-- What the EEPROM operations deliver from an EEPROM with pages, one client at a time.
use meta_bisdn_linux.Base.{
  ℕ, zero, suc, ◌+◌, ◌-◌, ◌%◌, ◌^◌, ◌≤◌, ◌<◌, ◌≡◌, refl, sym, ap, subst, ◌∙◌, ◌⊎◌, inl, inr, arith,
  ltb, ◌==◌, some, List, [], ◌++◌, ℤ, pos, Bool-cases, eq→==, ge→ltb, append-nil, append_assoc,
}
use meta_bisdn_linux.Sfp.Bus.{Mode, Trace, Wire, word}
use meta_bisdn_linux.Sfp.Eeprom.{carried, sff_8436_eeprom_read}
use meta_bisdn_linux.Sfp.Client.{
  DriverType, PortData, read_op, transfer, update_loop, select_page, update_on_page, total,
  sff_8436_eeprom_update_client, sff_8436_translate_offset,
}
use meta_bisdn_linux.Sfp.Bounds.{translate_offset_inverts, carried-bounds}
use meta_bisdn_linux.Sfp.Paged.{
  page, image_bytes, client_bytes, client_bytes-image, client_bytes-add, Serves, Returns,
}
use meta_bisdn_linux.Sfp.Paged.Transport.{
  then_Returns, ssize-pos, port_of, eeprom_read-Returns, select-Returns,
}

pub total-pos : (n : ℕ) → n < 2 ^ 63 → total n ≡ pos n
total-pos n h = let e : n % word ≡ n = omega arith in rw e (ssize-pos n h)

positive : (n : ℕ) → 0 < n → (m : ℕ) × (n ≡ suc m)
positive zero h = absurd (omega arith)
positive (suc m) h = (m, refl)

-- What two transfers deliver together.
delivered :
    (image : ℕ → ℕ) (pg reg retval count m : ℕ) (got : List ℕ)
    → suc m ≤ count
    → ◌≡◌ {A = ℤ × List ℕ}
        (
          pos (retval + suc m + (count - suc m)),
          (got ++ client_bytes image pg reg (suc m))
              ++ client_bytes image pg (reg + suc m) (count - suc m),
        )
        (pos (retval + count), got ++ client_bytes image pg reg count)
delivered image pg reg retval count m got fits =
    let sum : retval + suc m + (count - suc m) ≡ retval + count = omega arith in
    let whole : suc m + (count - suc m) ≡ count = omega arith in
    let first = client_bytes image pg reg (suc m) in
    let rest = client_bytes image pg (reg + suc m) (count - suc m) in
    let bytes =
      append_assoc got first rest
      ∙ ap (λ l. got ++ l) (sym (client_bytes-add image pg reg (suc m) (count - suc m)))
      ∙ ap (λ n. got ++ client_bytes image pg reg n) whole in
    ap (λ (n : ℕ). (pos n, (got ++ first) ++ rest)) sum
    ∙ ap (λ (l : List ℕ). (pos (retval + count), l)) bytes

module _ (mode : Mode) (w : Wire) (image : ℕ → ℕ) (serves : Serves mode w image) (kind : DriverType)
    (write_max : ℕ) where
  abbrev port : PortData
  port = port_of kind mode write_max

  nothing_left :
      (pg reg count retval : ℕ) (got : List ℕ)
      → count ≡ 0
      → retval + count < 2 ^ 63
      → ◌≡◌ {A = ℤ × List ℕ}
          (total retval, got)
          (pos (retval + count), got ++ client_bytes image pg reg count)
  nothing_left pg reg count retval got z small =
      let e : retval ≡ retval + count = omega arith in
      ap (λ (r : ℤ). (r, got)) (total-pos retval (omega arith) ∙ ap pos e)
      ∙ ap (λ (l : List ℕ). (pos (retval + count), l))
          (sym (append-nil got) ∙ ap (λ n. got ++ client_bytes image pg reg n) (sym z))

  -- A transfer inside the buffer, as many bytes as the transport carries.
  transfer-Returns :
      (room reg count pg : ℕ) (t : Trace)
      → 0 < count
      → count ≤ room
      → reg + count ≤ 256
      → page t ≡ pg
      → let n = carried mode count in
        Returns (pos n, client_bytes image pg reg n) pg (transfer w port (read_op room) reg count t)
  unfolding transfer
  transfer-Returns room reg count pg t some_count inside fits h =
      let (low, high) = carried-bounds mode count some_count in
      let n = carried mode count in
      rw (ge→ltb room (carried mode count) (omega arith), transfer)
        (subst
          (λ x.
            Returns (pos n, client_bytes image x reg n) x (sff_8436_eeprom_read w mode reg count t))
          h (eeprom_read-Returns w image mode serves reg count t some_count fits))

  update_loop-Returns :
      (n room reg count retval : ℕ) (got : List ℕ) (pg : ℕ) (t : Trace)
      → count ≤ n
      → count ≤ room
      → reg + count ≤ 256
      → retval + count < 2 ^ 63
      → page t ≡ pg
      → Returns
          (pos (retval + count), got ++ client_bytes image pg reg count)
          pg
          (update_loop w port n (read_op room) reg count retval got t)
  unfolding update_loop
  update_loop-Returns zero room reg count retval got pg t enough inside fits small h =
      let z : count ≡ 0 = omega arith in
      rw (eq→== count 0 z, update_loop)
        (record {
          value = ap (λ r. some r) (nothing_left pg reg count retval got z small);
          selected = h;
        })
  update_loop-Returns (suc n) room reg count retval got pg t enough inside fits small h =
      elim (Bool-cases (count == 0)) [
        | inl none_left ↦
            let z : count ≡ 0 = ground arith in
            rw (none_left, update_loop)
              (record {
                value = ap (λ r. some r) (nothing_left pg reg count retval got z small);
                selected = h;
              })
        | inr more ↦
            let some_count : 0 < count = ground arith in
            let (low, high) = carried-bounds mode count some_count in
            let (m, e) = positive (carried mode count) low in
            let first =
              subst
                (λ x.
                  Returns (pos x, client_bytes image pg reg x) pg
                    (transfer w port (read_op room) reg count t))
                e (transfer-Returns room reg count pg t some_count inside fits h) in
            rw (more, update_loop)
              (then_Returns _ first (λ u h'.
                subst
                  (λ r. Returns r pg (
                    update_loop w port n (read_op (room - suc m)) (reg + suc m) (count - suc m)
                      (retval + suc m) (got ++ client_bytes image pg reg (suc m)) u))
                  (delivered image pg reg retval count m got (omega arith))
                  (update_loop-Returns n (room - suc m) (reg + suc m) (count - suc m)
                    (retval + suc m) (got ++ client_bytes image pg reg (suc m)) pg u (omega arith)
                    (omega arith) (omega arith) (omega arith) h')))
      ]

  update_whole-Returns :
      (room reg count pg : ℕ) (t : Trace)
      → count ≤ room
      → reg + count ≤ 256
      → page t ≡ pg
      → Returns
          (pos count, client_bytes image pg reg count)
          pg
          (update_loop w port count (read_op room) reg count 0 [] t)
  update_whole-Returns room reg count pg t inside fits h =
      let e : 0 + count ≡ count = omega arith in
      subst
        (λ n.
          Returns (pos n, client_bytes image pg reg count) pg
            (update_loop w port count (read_op room) reg count 0 [] t))
        e
        (update_loop-Returns count room reg count 0 [] pg t (omega arith) inside fits (omega arith)
          h)

  select_page-Returns :
      (pg : ℕ) (t : Trace) → 0 < write_max → Returns (pos 1) pg (select_page w port pg t)
  unfolding select_page
  select_page-Returns pg t some_max =
      then_Returns _ (select-Returns w image mode serves write_max pg t some_max)
        (λ u e. record { value = refl; selected = e })

  update_on_page-Returns :
      (n room pg phys : ℕ) (t : Trace)
      → 0 < write_max
      → suc n ≤ room
      → phys < 256
      → phys + suc n ≤ 256
      → page t ≡ 0
      → Returns
          (pos (suc n), client_bytes image pg phys (suc n))
          0
          (update_on_page w port (read_op room) pg phys (suc n) t)
  unfolding update_on_page
  update_on_page-Returns n room pg phys t some_max inside in_client fits start =
      elim (Bool-cases (pg == 0)) [
        | inl first ↦
            let z : pg ≡ 0 = ground arith in
            rw (first, update_on_page)
              (subst
                (λ x.
                  Returns (pos (suc n), client_bytes image x phys (suc n)) 0
                    (update_loop w port (suc n) (read_op room) phys (suc n) 0 [] t))
                (sym z) (update_whole-Returns room phys (suc n) 0 t inside fits start))
        | inr other ↦
            rw (other, update_on_page)
              (then_Returns _ (select_page-Returns pg t some_max) (λ t₁ e₁.
                then_Returns _ (update_whole-Returns room phys (suc n) pg t₁ inside fits e₁)
                  (λ t₂ e₂.
                    then_Returns _ (select_page-Returns 0 t₂ some_max)
                      (λ t₃ e₃. record { value = refl; selected = e₃ }))))
      ]

  lower_or_upper :
      (off : ℕ) → let (pg, phys) = sff_8436_translate_offset off in (pg ≡ 0) ⊎ (128 ≤ phys)
  unfolding sff_8436_translate_offset
  lower_or_upper off = elim (Bool-cases (ltb off 128)) [
    | inl low ↦ rw low (inl refl)
    | inr high ↦ rw high (inr (omega arith))
  ]

  -- A read of at least one byte that stays within a half of the client delivers the image's bytes,
  -- and leaves page 0 selected.
  pub update_client-Returns :
      (n room off : ℕ) (t : Trace)
      → 0 < write_max
      → suc n ≤ room
      → off < 768
      → off % 128 + suc n ≤ 128
      → page t ≡ 0
      → Returns
          (pos (suc n), image_bytes image off (suc n))
          0
          (sff_8436_eeprom_update_client w port (read_op room) off (suc n) t)
  unfolding sff_8436_eeprom_update_client
  update_client-Returns n room off t some_max inside in_range fits start =
      let (pg, phys) = sff_8436_translate_offset off in
      let (inverts, in_client, half) = translate_offset_inverts off (omega arith) in
      let read =
        update_on_page-Returns n room pg phys t some_max inside in_client (omega arith) start in
      rw (sym (client_bytes-image image pg phys off (suc n) inverts (lower_or_upper off))) read
