-- ===== src/Cpld/Presence/Text.antt =====
-- The text that array_stringify makes, and what show_presnet_all prints of registers that keep
-- their values.
use meta_bisdn_linux.Base.{
  ℕ, suc, ◌+◌, ◌-◌, ◌*◌, ◌%◌, ◌≤◌, ◌<◌, ◌≡◌, refl, sym, ap, subst, ◌∙◌, arith, List, [], ◌∷◌, ◌++◌,
  length, length-append, append_assoc, append-nil, take, take_all, low_byte, ℤ, pos,
}
use meta_bisdn_linux.Cpld.Bus.{I2cClient, read_byte_data, mutex_lock, mutex_unlock, Trace, Smbus}
use meta_bisdn_linux.Cpld.Bits.{CpldSensor}
use meta_bisdn_linux.Cpld.Ports.{csp7551}
use meta_bisdn_linux.Cpld.Memory.{contents, HoldsRegisters, cpld_read_internal-holds}
use meta_bisdn_linux.Cpld.Presence.{
  Hex, joined, without_last, array_stringify, read_present, show_presnet_all,
}

-- "%x" gives one or two digits for a byte.
abbrev pub ShortHex : Hex → Type 0
ShortHex hex = (v : ℕ) → length (hex v) ≤ 2

-- The texts of the elements with a blank between two of them.
abbrev pub spaced : Hex → List ℕ → List ℕ
spaced hex [] = []
spaced hex (v ∷ []) = hex v
spaced hex (v ∷ w ∷ input) = hex v ++ b' ' ∷ spaced hex (w ∷ input)

without_last-append :
    (xs : List ℕ) (y : ℕ) (ys : List ℕ) → without_last (xs ++ y ∷ ys) ≡ xs ++ without_last (y ∷ ys)
without_last-append [] y ys = refl
without_last-append (x ∷ []) y ys = refl
without_last-append (x ∷ x' ∷ xs) y ys = ap (λ l. x ∷ l) (without_last-append (x' ∷ xs) y ys)

without_last-cons :
    (x : ℕ) (ys : List ℕ) → 0 < length ys → without_last (x ∷ ys) ≡ x ∷ without_last ys
without_last-cons x [] h = absurd (omega arith)
without_last-cons x (y ∷ ys) h = refl

module _ (hex : Hex) (short : ShortHex hex) where
  joined_step : (v : ℕ) (input : List ℕ) → joined hex (v ∷ input) ≡ hex v ++ b' ' ∷ joined hex input
  joined_step v input =
      let fits : length (hex v ++ b' ' ∷ []) ≤ 47 =
        omega (arith, length-append (hex v) (b' ' ∷ []), short v) in
      ap (λ l. l ++ joined hex input) (take_all 47 (hex v ++ b' ' ∷ []) fits)
      ∙ append_assoc (hex v) (b' ' ∷ []) (joined hex input)

  joined_positive : (v : ℕ) (input : List ℕ) → 0 < length (joined hex (v ∷ input))
  joined_positive v input =
      subst (λ (l : List ℕ). 0 < length l) (sym (joined_step v input))
        (omega (arith, length-append (hex v) (b' ' ∷ joined hex input)))

  without_last-joined : (input : List ℕ) → without_last (joined hex input) ≡ spaced hex input
  without_last-joined [] = refl
  without_last-joined (v ∷ []) =
      ap without_last (joined_step v []) ∙ without_last-append (hex v) b' ' [] ∙ append-nil (hex v)
  without_last-joined (v ∷ w ∷ input) =
      let rest = joined hex (w ∷ input) in
      ap without_last (joined_step v (w ∷ input))
      ∙ without_last-append (hex v) b' ' rest
      ∙ ap (λ l. hex v ++ l)
          (without_last-cons b' ' rest (joined_positive w input)
            ∙ ap (λ l. b' ' ∷ l) (without_last-joined (w ∷ input)))

  length-spaced : (input : List ℕ) → length (spaced hex input) ≤ 3 * length input - 1
  length-spaced [] = omega arith
  length-spaced (v ∷ []) = omega (arith, short v)
  length-spaced (v ∷ w ∷ input) = omega (
    arith,
    length-append (hex v) (b' ' ∷ spaced hex (w ∷ input)),
    short v,
    length-spaced (w ∷ input),
  )

  -- For at most 15 elements nothing is cut off.
  pub array_stringify_text :
      (input : List ℕ)
      → length input ≤ 15
      → let text = spaced hex input ++ b'\n' ∷ [] in array_stringify hex input ≡ (length text, text)
  unfolding array_stringify
  array_stringify_text input h =
      let text = spaced hex input ++ b'\n' ∷ [] in
      let fits : length text ≤ 47 =
        omega (arith, length-append (spaced hex input) (b'\n' ∷ []), length-spaced input) in
      ap (λ (l : List ℕ). (length (l ++ b'\n' ∷ []), take 47 (l ++ b'\n' ∷ [])))
        (without_last-joined input)
      ∙ ap (λ (l : List ℕ). (length text, l)) (take_all 47 text fits)

module _ (bus : Smbus) (initial : ℕ → ℕ → ℕ) (holds : HoldsRegisters bus initial)
    (client : I2cClient) where
  read_step :
      (n reg : ℕ) (t : Trace)
      → let v = contents initial t client.addr reg in
        let (values, t') =
          read_present bus client n ((reg + 1) % 256) (read_byte_data client reg (pos v) ∷ t) in
        read_present bus client (suc n) reg t ≡ (v % 256 ∷ values, t')
  unfolding read_present
  read_step n reg t =
      let v = contents initial t client.addr reg in
      let next : ℤ × Trace → List ℕ × Trace = λ r. (
        low_byte r.0 ∷ (read_present bus client n ((reg + 1) % 256) r.1).0,
        (read_present bus client n ((reg + 1) % 256) r.1).1,
      ) in
      ap next (cpld_read_internal-holds bus initial holds client reg t)

  read_two :
      (reg : ℕ) (t : Trace)
      → reg < 255
      → let v₀ = contents initial t client.addr reg in
        let v₁ = contents initial t client.addr (reg + 1) in
        read_present bus client 2 reg t ≡ (
          v₀ % 256 ∷ v₁ % 256 ∷ [],
          read_byte_data client (reg + 1) (pos v₁) ∷ read_byte_data client reg (pos v₀) ∷ t,
        )
  unfolding read_present
  read_two reg t h =
      let v₀ = contents initial t client.addr reg in
      let t₁ = read_byte_data client reg (pos v₀) ∷ t in
      let grow : List ℕ × Trace → List ℕ × Trace = λ r. (v₀ % 256 ∷ r.0, r.1) in
      let wrapped : (reg + 1) % 256 ≡ reg + 1 = omega arith in
      read_step 1 reg t
      ∙ ap grow (ap (λ r. read_present bus client 1 r t₁) wrapped ∙ read_step 0 (reg + 1) t₁)

  -- What it prints for CSP7551, and what it leaves: two reads under the mutex.
  pub show_presnet_all-holds :
      (hex : Hex) (sensor : CpldSensor) (t : Trace)
      → ShortHex hex
      → sensor.reg < 255
      → let v₀ = contents initial t client.addr sensor.reg in
        let v₁ = contents initial t client.addr (sensor.reg + 1) in
        let text = hex (v₀ % 256) ++ b' ' ∷ hex (v₁ % 256) ++ b'\n' ∷ [] in
        show_presnet_all bus client hex csp7551 sensor t ≡ (
          (length text, text),
          mutex_unlock
              ∷ read_byte_data client (sensor.reg + 1) (pos v₁)
              ∷ read_byte_data client sensor.reg (pos v₀)
              ∷ mutex_lock
              ∷ t,
        )
  unfolding show_presnet_all read_present
  show_presnet_all-holds hex sensor t short h =
      let r = sensor.reg in
      let v₀ = contents initial t client.addr r in
      let v₁ = contents initial t client.addr (r + 1) in
      let u : Trace =
        mutex_unlock
        ∷ read_byte_data client (r + 1) (pos v₁)
        ∷ read_byte_data client r (pos v₀)
        ∷ mutex_lock
        ∷ t in
      let finish : List ℕ × Trace → (ℕ × List ℕ) × Trace =
        λ x. (array_stringify hex x.0, mutex_unlock ∷ x.1) in
      ap finish (read_two r (mutex_lock ∷ t) h)
      ∙ ap (λ (x : ℕ × List ℕ). (x, u))
          (array_stringify_text hex short (v₀ % 256 ∷ v₁ % 256 ∷ []) (omega arith))
