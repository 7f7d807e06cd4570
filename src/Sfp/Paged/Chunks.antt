-- ===== src/Sfp/Paged/Chunks.antt =====
-- The loop over the chunks delivers its whole range from an EEPROM with pages.
use meta_bisdn_linux.Base.{
  ℕ, zero, suc, ◌+◌, ◌-◌, ◌*◌, ◌/◌, ◌%◌, ◌^◌, ◌≤◌, ◌<◌, min, ◌≡◌, sym, ap, subst, ◌∙◌, ◌⊎◌, inl,
  inr, arith, ltb, some, List, ◌++◌, ℤ, pos, Bool-cases, eq_ℤ_refl, append-nil, append_assoc,
}
use meta_bisdn_linux.Sfp.Bus.{Mode, Trace, Wire, word}
use meta_bisdn_linux.Sfp.Client.{DriverType, read_op, sff_8436_eeprom_update_client}
use meta_bisdn_linux.Sfp.Port.{chunk_span, chunk_loop}
use meta_bisdn_linux.Sfp.Paged.{page, image_bytes, image_bytes-add, Serves, Returns}
use meta_bisdn_linux.Sfp.Paged.Transport.{then_Returns, ssize-pos, port_of}
use meta_bisdn_linux.Sfp.Paged.Client.{total-pos, update_client-Returns}

-- The loop has come to `x`: there it began, or there the chunk begins.
abbrev At : ℕ → ℕ → ℕ → Type 0
At off chunk x = ((off ≡ x) × (chunk ≡ x / 128)) ⊎ ((off ≤ x) × (x ≡ chunk * 128))

-- `pending` bytes are left from `x` on, and `n` rounds: as many as they have chunks.
abbrev pub Pending : ℕ → ℕ → ℕ → ℕ → ℕ → Type 0
Pending off chunk x pending n =
    ((pending ≡ 0) × (n ≡ 0))
    ⊎ ((0 < pending) × At off chunk x × (n + chunk ≡ (x + pending - 1) / 128 + 1))

pair : {a a' b b' : ℕ} → a ≡ a' → b ≡ b' → ◌≡◌ {A = ℕ × ℕ} (a, b) (a', b')
pair {a} {a'} {b} {b'} e e' = ap (λ (x : ℕ). (x, b)) e ∙ ap (λ (y : ℕ). (a', y)) e'

-- A round takes what is left of its chunk, or of the whole range.
chunk_span_lem :
    (off chunk x pending : ℕ)
    → At off chunk x
    → x + pending ≤ 768
    → chunk_span off chunk pending ≡ (x, min pending ((chunk + 1) * 128 - x))
chunk_span_lem off chunk x pending at fits = elim (Bool-cases (ltb (chunk * 128) off)) [
  | inl within ↦ elim (Bool-cases (ltb ((off + pending) % word) (chunk * 128 + 128))) [
    | inl ends ↦ rw (within, ends) (pair (ground arith) (ground arith))
    | inr goes_on ↦ rw (within, goes_on) (pair (ground arith) (ground arith))
  ]
  | inr from ↦ elim (Bool-cases (ltb 128 pending)) [
    | inl more ↦ rw (from, more) (pair (ground arith) (ground arith))
    | inr last ↦ rw (from, last) (pair (ground arith) (ground arith))
  ]
]

At-chunk : (off chunk x : ℕ) → At off chunk x → x / 128 ≡ chunk
At-chunk off chunk x (inl (_, e)) = sym e
At-chunk off chunk x (inr (_, e)) = omega arith

At-start : (off chunk x : ℕ) → At off chunk x → off ≤ x
At-start off chunk x (inl (e, _)) = omega arith
At-start off chunk x (inr (h, _)) = h

-- What a round leaves to the next ones.
next-Pending :
    (off chunk x pending n : ℕ)
    → 0 < pending
    → At off chunk x
    → suc n + chunk ≡ (x + pending - 1) / 128 + 1
    → let len = min pending ((chunk + 1) * 128 - x) in
      Pending off (chunk + 1) (x + len) (pending - len) n
next-Pending off chunk x pending n some_left at n_rounds =
    let here = At-chunk off chunk x at in
    let after = At-start off chunk x at in
    elim (Bool-cases (ltb ((chunk + 1) * 128 - x) pending)) [
      | inl more ↦
          let h : (chunk + 1) * 128 - x < pending = ground arith in
          inr (omega arith, inr (omega arith, omega arith), omega arith)
      | inr last ↦
          let h : pending ≤ (chunk + 1) * 128 - x = ground arith in inl (omega arith, omega arith)
    ]

-- What two stretches of the range deliver together.
delivered :
    (image : ℕ → ℕ) (x len pending retval : ℕ) (got : List ℕ)
    → len ≤ pending
    → ◌≡◌ {A = ℤ × List ℕ}
        (
          pos (retval + len + (pending - len)),
          (got ++ image_bytes image x len) ++ image_bytes image (x + len) (pending - len),
        )
        (pos (retval + pending), got ++ image_bytes image x pending)
delivered image x len pending retval got fits =
    let total : retval + len + (pending - len) ≡ retval + pending = omega arith in
    let whole : len + (pending - len) ≡ pending = omega arith in
    let bytes =
      append_assoc got (image_bytes image x len) (image_bytes image (x + len) (pending - len))
      ∙ ap (λ l. got ++ l) (sym (image_bytes-add image x len (pending - len)))
      ∙ ap (λ n. got ++ image_bytes image x n) whole in
    ap
      (λ (n : ℕ).
        (pos n, (got ++ image_bytes image x len) ++ image_bytes image (x + len) (pending - len)))
      total
    ∙ ap (λ (l : List ℕ). (pos (retval + pending), l)) bytes

module _ (mode : Mode) (w : Wire) (image : ℕ → ℕ) (serves : Serves mode w image) (kind : DriverType)
    (write_max : ℕ) (some_max : 0 < write_max) where
  -- One round's read.
  round-Returns :
      (len room x : ℕ) (t : Trace)
      → 0 < len
      → len ≤ room
      → x + len ≤ 768
      → x % 128 + len ≤ 128
      → page t ≡ 0
      → Returns
          (pos len, image_bytes image x len)
          0
          (sff_8436_eeprom_update_client w (port_of kind mode write_max) (read_op room) x len t)
  round-Returns zero room x t some_len inside in_range fits start = absurd (omega arith)
  round-Returns (suc n) room x t some_len inside in_range fits start =
      update_client-Returns mode w image serves kind write_max n room x t some_max inside
        (omega arith) fits start

  pub chunk_loop-Returns :
      (n room off chunk x pending retval : ℕ) (got : List ℕ) (t : Trace)
      → Pending off chunk x pending n
      → pending ≤ room
      → retval + pending < 2 ^ 63
      → x + pending ≤ 768
      → page t ≡ 0
      → Returns
          (pos (retval + pending), got ++ image_bytes image x pending)
          0
          (chunk_loop w
            (port_of kind mode write_max)
            n
            (read_op room)
            off
            chunk
            pending
            retval
            got
            t)
  unfolding chunk_loop
  chunk_loop-Returns zero room off chunk x pending retval got t (inl (none_left, z)) inside small
        fits start =
      record {
        value =
            ap (λ (r : ℤ × List ℕ). some r)
              (ap (λ (r : ℤ). (r, got)) (total-pos retval (omega arith))
                ∙ ap (λ (n : ℕ). (pos n, got)) (omega arith)
                ∙ ap (λ (l : List ℕ). (pos (retval + pending), l))
                    (sym (append-nil got)
                      ∙ ap (λ n. got ++ image_bytes image x n) (sym none_left)));
        selected = start;
      }
  chunk_loop-Returns zero room off chunk x pending retval got t (inr (some_left, at, n_rounds))
        inside small fits start =
      let here = At-chunk off chunk x at in absurd (omega arith)
  chunk_loop-Returns (suc n) room off chunk x pending retval got t (inl (none_left, z)) inside small
        fits start =
      absurd (omega arith)
  chunk_loop-Returns (suc n) room off chunk x pending retval got t (inr (some_left, at, n_rounds))
        inside small fits start =
      let here = At-chunk off chunk x at in
      let len = min pending ((chunk + 1) * 128 - x) in
      let left : (pending + word - len) % word ≡ pending - len = omega arith in
      let span = chunk_span_lem off chunk x pending at fits in
      rw (span, chunk_loop)
        (then_Returns _
          (round-Returns len room x t (omega arith) (omega arith) (omega arith) (omega arith) start)
          (λ u e.
            rw (ssize-pos len (omega arith), eq_ℤ_refl (pos len))
              (rw (span, left)
                (subst
                  (λ r. Returns r 0 (
                    chunk_loop w (port_of kind mode write_max) n (read_op (room - len)) off
                      (chunk + 1) (pending - len) (retval + len) (got ++ image_bytes image x len)
                      u))
                  (delivered image x len pending retval got (omega arith))
                  (chunk_loop-Returns n (room - len) off (chunk + 1) (x + len) (pending - len)
                    (retval + len) (got ++ image_bytes image x len) u
                    (next-Pending off chunk x pending n some_left at n_rounds) (omega arith)
                    (omega arith) (omega arith) e)))))
