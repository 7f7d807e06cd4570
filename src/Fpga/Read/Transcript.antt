-- ===== src/Fpga/Read/Transcript.antt =====
-- What a read that was let in returns, and what it says on the bus.
use meta_bisdn_linux.Base.{
  ℕ, zero, suc, ◌+◌, ◌%◌, ◌≤◌, ◌≡◌, refl, sym, ◌∙◌, ap, List, [], ◌∷◌, ◌++◌, map, append-nil,
  append_assoc, map-append, length, length-append, take_all, min, arith, lt→ltb, le→leb, eq→==,
}
use meta_bisdn_linux.Fpga.Bus.{
  Board, Trace, txr_addr, cmd_stat_addr, command_read, command_ack_stop_read, command_start_write,
  command_enable_write, max_buff_size, write, read,
}
use meta_bisdn_linux.Fpga.Transfer.{await_idle, ◌>>=◌}
use meta_bisdn_linux.Fpga.Read.{
  address_read, address_write, read_transfer, read_bytes, read_last, copy_out,
}
use meta_bisdn_linux.Fpga.Outcome.{Meets, bind, Meets-map, Meets-await_idle, Meets-await_ack}
use meta_bisdn_linux.Fpga.Protocol.{Command, sent, put, got, received, Issued, quiet-Issued}
use meta_bisdn_linux.Fpga.Sent.{Began, Meets-send}

-- A byte as it is stored in `unsigned char`.
abbrev pub byte : ℕ → ℕ
byte v = v % 256

-- The rounds of the loop that receives all bytes but the last.
abbrev acknowledged : ℕ → List ℕ → List Command
acknowledged c [] = []
acknowledged c (x ∷ xs) = put (cmd_stat_addr c) command_read ∷ got x ∷ acknowledged c xs

pub map-length : (xs : List ℕ) → length (map byte xs) ≡ length xs
map-length [] = refl
map-length (x ∷ xs) = ap suc (map-length xs)

received-nil :
    (c : ℕ) (raw : List ℕ)
    → length raw ≡ 0
    → acknowledged c raw ++ put (cmd_stat_addr c) command_ack_stop_read ∷ [] ≡ received c raw
received-nil c [] h = refl
received-nil c (x ∷ raw) h = absurd (omega arith)

received-last :
    (c : ℕ) (raw : List ℕ) (v : ℕ)
    → acknowledged c raw ++ put (cmd_stat_addr c) command_ack_stop_read ∷ got v ∷ []
      ≡ received c (raw ++ v ∷ [])
received-last c [] v = refl
received-last c (x ∷ []) v = refl
received-last c (x ∷ y ∷ raw) v =
    ap (λ l. put (cmd_stat_addr c) command_read ∷ got x ∷ l) (received-last c (y ∷ raw) v)

module _ (b : Board) (c : ℕ) (base : List Command) where
  -- After the loop: `raw` was received and stored, and one byte is left if any was asked for.
  abbrev Looped : ℕ → List ℕ → List Command → ℕ × List ℕ → Trace → Type 0
  Looped n buff x r t =
      (raw : List ℕ) × (r.0 ≡ min n 1)
      × (length raw + r.0 ≡ n)
      × (r.1 ≡ buff ++ map byte raw)
      × Issued c (base ++ (x ++ acknowledged c raw)) t

  Looped-suc :
      (n : ℕ) (buff : List ℕ) (x : List Command) (v : ℕ) (r : ℕ × List ℕ) (t : Trace)
      → Looped
          (suc n)
          (buff ++ (byte v ∷ []))
          (x ++ put (cmd_stat_addr c) command_read ∷ got v ∷ [])
          r
          t
      → Looped (suc (suc n)) buff x r t
  Looped-suc n buff x v r t (raw, left, count, stored, said) = (
    v ∷ raw,
    omega arith,
    omega arith,
    stored ∙ append_assoc buff (byte v ∷ []) (map byte raw),
    simp (said, append_assoc),
  )

  read_bytes-Looped :
      (n : ℕ) (buff : List ℕ) (stat : ℕ) (x : List Command) (t : Trace)
      → length buff + n ≤ max_buff_size
      → Issued c (base ++ x) t
      → Meets (Began c base) (Looped n buff x) (read_bytes b c n buff stat t)
  unfolding read_bytes
  read_bytes-Looped zero buff stat x t room h = record {
    outcome = ([], omega arith, refl, sym (append-nil buff), rw append-nil h);
  }
  read_bytes-Looped (suc zero) buff stat x t room h = record {
    outcome = ([], omega arith, refl, sym (append-nil buff), rw append-nil h);
  }
  read_bytes-Looped (suc (suc n)) buff stat x t room h =
      let t₁ : Trace = write (cmd_stat_addr c) command_read ∷ t in
      bind _
        (Meets-await_ack b c (Began c base) (Issued c asked)
          (λ v e. (x ++ put (cmd_stat_addr c) command_read ∷ [], e)) (quiet-Issued b c asked) 11
          stat t₁ (simp (h, append_assoc)))
        λ stat₁ t₂ e.
          let v = b.register t₂ (txr_addr c) in
          let t₃ : Trace = read (txr_addr c) v ∷ t₂ in
          let x' = x ++ put (cmd_stat_addr c) command_read ∷ got v ∷ [] in
          let buff' = buff ++ (byte v ∷ []) in
          rw (lt→ltb (length buff) max_buff_size (omega arith)) (
            Meets-map (Looped-suc n buff x v) (
              read_bytes-Looped (suc n) buff' stat₁ x' t₃
                (omega (arith, length-append buff (byte v ∷ [])))
                (rw (eq→== (txr_addr c) (txr_addr c) refl) (simp (e, append_assoc)))))
    where
      asked : List Command
      asked = base ++ (x ++ put (cmd_stat_addr c) command_read ∷ [])

  -- The bytes asked for stand in the buffer, and the bus carried `received`.
  abbrev pub Filled : ℕ → List Command → List ℕ → Trace → Type 0
  Filled n x buff t =
      (raw : List ℕ) × (length raw ≡ n)
      × (buff ≡ map byte raw)
      × Issued c (base ++ (x ++ received c raw)) t

  finish-Filled :
      (size n k : ℕ) (buff raw : List ℕ) (x : List Command) (t : Trace)
      → n ≤ max_buff_size
      → n ≤ size
      → k ≡ min n 1
      → length raw + k ≡ n
      → buff ≡ map byte raw
      → Issued c
          (base ++ (x ++ (acknowledged c raw ++ put (cmd_stat_addr c) command_ack_stop_read ∷ [])))
          t
      → Meets (Began c base) (Filled n x) ((read_last b c (k, buff) >>= copy_out size n) t)
  unfolding read_last
  finish-Filled size n zero buff raw x t fits room min_n count stored h =
      rw (le→leb n max_buff_size fits, le→leb n size room)
        (record {
          outcome = (
            raw,
            omega arith,
            take_all n buff (omega (arith, ap length stored, map-length raw)) ∙ stored,
            h ∙ ap (λ l. base ++ (x ++ l)) (received-nil c raw (omega arith)),
          );
        })
  finish-Filled size n (suc zero) buff raw x t fits room min_n count stored h =
      let v = b.register t (txr_addr c) in
      let l : length buff ≡ length raw = ap length stored ∙ map-length raw in
      rw (lt→ltb (length buff) max_buff_size (omega arith)) (
        rw (le→leb n max_buff_size fits, le→leb n size room)
          (record {
            outcome = (
              raw ++ v ∷ [],
              omega (arith, length-append raw (v ∷ [])),
              take_all n (buff ++ byte v ∷ []) (omega (arith, length-append buff (byte v ∷ [])))
                  ∙ simp (stored, map-append),
              rw (eq→== (txr_addr c) (txr_addr c) refl)
                  (rw h (simp append_assoc (ap (λ l. base ++ (x ++ l)) (received-last c raw v)))),
            );
          }))
  finish-Filled size n (suc (suc k)) buff raw x t fits room min_n count stored h =
      absurd (omega arith)

  abbrev pub addressed : ℕ → ℕ → List Command
  addressed addr offset =
      []
      ++ sent c (address_write addr) command_start_write
      ++ sent c offset command_enable_write
      ++ sent c (address_read addr) command_start_write

  pub read_transfer-Filled :
      (size addr offset n : ℕ) (t : Trace)
      → n ≤ max_buff_size
      → n ≤ size
      → Issued c base t
      → Meets
          (Began c base)
          (Filled n (addressed addr offset))
          (read_transfer b c size addr offset n t)
  unfolding read_transfer
  read_transfer-Filled size addr offset n t fits room h =
      bind _
        (Meets-send b c base [] (address_write addr) command_start_write 3 0 t (rw append-nil h))
        λ s₁ t₁ h₁.
          bind _ (Meets-send b c base _ offset command_enable_write 6 s₁ t₁ h₁) λ s₂ t₂ h₂.
            bind _ (Meets-send b c base _ (address_read addr) command_start_write 9 s₂ t₂ h₂)
              λ s₃ t₃ h₃.
                bind _ (read_bytes-Looped n [] s₃ (addressed addr offset) t₃ (omega arith) h₃)
                  λ got₄ t₄ l. bind _ (idle s₃ t₄ l.0 l.4) λ s₅ t₅ h₅.
                    finish-Filled size n got₄.0 got₄.1 l.0 (addressed addr offset) t₅ fits room l.1
                      l.2 l.3 h₅
    where
      ended : List ℕ → List Command
      ended raw =
          base
          ++ (addressed addr offset
              ++ (acknowledged c raw ++ put (cmd_stat_addr c) command_ack_stop_read ∷ []))

      idle :
          (s : ℕ) (t : Trace) (raw : List ℕ)
          → Issued c (base ++ (addressed addr offset ++ acknowledged c raw)) t
          → Meets
              (Began c base)
              (λ _ u. Issued c (ended raw) u)
              (await_idle b c 13 s (write (cmd_stat_addr c) command_ack_stop_read ∷ t))
      idle s t raw h =
          Meets-await_idle b c (Began c base) (Issued c (ended raw)) (λ v e. (_, e))
            (quiet-Issued b c (ended raw)) 13 s _ (simp (h, append_assoc))
