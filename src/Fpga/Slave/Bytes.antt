-- ===== src/Fpga/Slave/Bytes.antt =====
-- What a write and a read do to the slave that they address.
use meta_bisdn_linux.Base.{
  ℕ, zero, suc, ◌+◌, ◌*◌, ◌%◌, ◌≤◌, ◌<◌, ◌≡◌, refl, ap, subst, ◌∙◌, List, [], ◌∷◌, ◌++◌, map,
  length, ◌==◌, eq→==, ne→==, arith, true,
}
use meta_bisdn_linux.Fpga.Bus.{
  txr_addr, cmd_stat_addr, command_start_write, command_enable_write, command_read,
  command_ack_stop_read,
}
use meta_bisdn_linux.Fpga.Read.{address_write, address_read}
use meta_bisdn_linux.Fpga.Read.Transcript.{byte}
use meta_bisdn_linux.Fpga.Protocol.{
  put, got, sent, received, written, read_transcript, write_transcript, stat-ne-txr,
}
use meta_bisdn_linux.Fpga.Slave.{
  Phase, other, pointing, writing, reading, give_byte, Slave, execute, serve_one, serve, next,
  store_at,
}
use meta_bisdn_linux.Fpga.Slave.Told.{Told, Told-rest, serve-append}

-- The memory after bytes were written from `p` on, and the bytes read from there.
abbrev pub store : ℕ → List ℕ → (ℕ → ℕ) → ℕ → ℕ
store p [] m = m
store p (v ∷ vs) m = store (next p) vs (store_at p v m)

abbrev pub fetch : ℕ → ℕ → (ℕ → ℕ) → List ℕ
fetch p zero m = []
fetch p (suc n) m = byte (m p) ∷ fetch (next p) n m

module _ (c addr : ℕ) where
  own_txr : (txr_addr c == txr_addr c) ≡ true
  own_txr = eq→== (txr_addr c) (txr_addr c) refl

  own_stat : (cmd_stat_addr c == cmd_stat_addr c) ≡ true
  own_stat = eq→== (cmd_stat_addr c) (cmd_stat_addr c) refl

  serve-command :
      (cmd : ℕ) (s : Slave) → serve_one c addr (put (cmd_stat_addr c) cmd) s ≡ execute addr cmd s
  serve-command cmd s = rw (stat-ne-txr c, own_stat) refl

  serve-sent :
      (v cmd : ℕ) (s : Slave)
      → serve c addr s (sent c v cmd) ≡ execute addr cmd (record s { txr = v })
  serve-sent v cmd s = rw (own_txr, stat-ne-txr c, own_stat) refl

  serve-pointed :
      (offset : ℕ) (s : Slave)
      → serve c addr
          (serve c addr s (sent c (address_write addr) command_start_write))
          (sent c offset command_enable_write)
        ≡ record s { txr = offset; phase = writing; pointer = offset % 256 }
  serve-pointed offset s =
      rw (own_txr, stat-ne-txr c, own_stat, eq→== (addr * 2) (addr * 2) refl) refl

  serve-reading :
      (s : Slave)
      → serve c addr s (sent c (address_read addr) command_start_write)
        ≡ record s { txr = addr * 2 + 1; phase = reading }
  serve-reading s =
      rw
        (
          own_txr,
          stat-ne-txr c,
          own_stat,
          ne→== (addr * 2 + 1) (addr * 2) (omega arith),
          eq→== (addr * 2 + 1) (addr * 2 + 1) refl,
        )
        refl

  serve-written :
      (vs : List ℕ) (s : Slave)
      → s.phase ≡ writing
      → (serve c addr s (written c vs)).memory ≡ store s.pointer vs s.memory
  serve-written [] s h = rw (stat-ne-txr c, own_stat) refl
  serve-written (v ∷ vs) s h =
      let s₁ = execute addr command_enable_write (record s { txr = v }) in
      let step : s₁
          ≡ record s { txr = v; pointer = next s.pointer; memory = store_at s.pointer v s.memory } =
        rw h refl in
      ap (λ u. u.memory) (serve-append c addr s (sent c v command_enable_write) (written c vs))
      ∙ ap (λ u. (serve c addr u (written c vs)).memory)
          (serve-sent v command_enable_write s ∙ step)
      ∙ serve-written vs
          (record s { txr = v; pointer = next s.pointer; memory = store_at s.pointer v s.memory }) h

  -- A write of `vs` at `offset`.
  pub serve-write :
      (offset : ℕ) (vs : List ℕ) (s : Slave)
      → (serve c addr s (write_transcript c addr offset vs)).memory
        ≡ store (offset % 256) vs s.memory
  serve-write offset vs s =
      let start = sent c (address_write addr) command_start_write in
      let point = sent c offset command_enable_write in
      ap (λ u. u.memory)
        (serve-append c addr s start (point ++ written c vs)
          ∙ serve-append c addr (serve c addr s start) point (written c vs)
          ∙ ap (λ u. serve c addr u (written c vs)) (serve-pointed offset s))
      ∙ serve-written vs (record s { txr = offset; phase = writing; pointer = offset % 256 }) refl

  Told-received :
      (raw : List ℕ) (s : Slave)
      → s.phase ≡ reading
      → Told c addr s (received c raw)
      → map byte raw ≡ fetch s.pointer (length raw) s.memory
  Told-received [] s h told = refl
  Told-received (x ∷ []) s h told =
      let told' =
        subst (λ u. Told c addr u (got x ∷ [])) (serve-command command_ack_stop_read s) told in
      ap (λ v. v ∷ []) (told'.0 ∙ rw h refl)
  Told-received (x ∷ y ∷ raw) s h told =
      let s₁ : Slave = record s { pointer = next s.pointer; out = s.memory s.pointer } in
      let step : execute addr command_read s ≡ s₁ = rw h refl in
      let told' =
        subst (λ u. Told c addr u (got x ∷ received c (y ∷ raw)))
          (serve-command command_read s ∙ step) told in
      ap (λ v. v ∷ map byte (y ∷ raw)) told'.0
      ∙ ap (λ l. byte (s.memory s.pointer) ∷ l) (Told-received (y ∷ raw) s₁ h told'.1)

  -- A read at `offset`.
  pub Told-read :
      (offset : ℕ) (raw : List ℕ) (s : Slave)
      → Told c addr s (read_transcript c addr offset raw)
      → map byte raw ≡ fetch (offset % 256) (length raw) s.memory
  Told-read offset raw s told =
      let start = sent c (address_write addr) command_start_write in
      let point = sent c offset command_enable_write in
      let turn = sent c (address_read addr) command_start_write in
      let s₁ : Slave = record s { txr = offset; phase = writing; pointer = offset % 256 } in
      let s₂ : Slave = record s { txr = addr * 2 + 1; phase = reading; pointer = offset % 256 } in
      let told₁ = Told-rest c addr s start (point ++ (turn ++ received c raw)) told in
      let told₂ = Told-rest c addr (serve c addr s start) point (turn ++ received c raw) told₁ in
      let told₃ =
        Told-rest c addr s₁ turn (received c raw)
          (subst (λ u. Told c addr u (turn ++ received c raw)) (serve-pointed offset s) told₂) in
      Told-received raw s₂ refl
        (subst (λ u. Told c addr u (received c raw)) (serve-reading s₁) told₃)

  give-memory : (ph : Phase) (after : Phase) (s : Slave) → (give_byte ph after s).memory ≡ s.memory
  give-memory other after s = refl
  give-memory pointing after s = refl
  give-memory writing after s = refl
  give-memory reading after s = refl

  serve-received : (raw : List ℕ) (s : Slave) → (serve c addr s (received c raw)).memory ≡ s.memory
  serve-received [] s =
      ap (λ (u : Slave). u.memory) (serve-command command_ack_stop_read s)
      ∙ give-memory s.phase other s
  serve-received (x ∷ []) s =
      ap (λ (u : Slave). u.memory) (serve-command command_ack_stop_read s)
      ∙ give-memory s.phase other s
  serve-received (x ∷ y ∷ raw) s =
      ap (λ (u : Slave). (serve c addr u (received c (y ∷ raw))).memory)
        (serve-command command_read s)
      ∙ serve-received (y ∷ raw) (execute addr command_read s)
      ∙ give-memory s.phase reading s

  -- A read changes no byte.
  pub serve-read :
      (offset : ℕ) (raw : List ℕ) (s : Slave)
      → (serve c addr s (read_transcript c addr offset raw)).memory ≡ s.memory
  serve-read offset raw s =
      let start = sent c (address_write addr) command_start_write in
      let point = sent c offset command_enable_write in
      let turn = sent c (address_read addr) command_start_write in
      let s₁ : Slave = record s { txr = offset; phase = writing; pointer = offset % 256 } in
      let s₂ : Slave = record s { txr = addr * 2 + 1; phase = reading; pointer = offset % 256 } in
      ap (λ u. u.memory)
        (serve-append c addr s start (point ++ (turn ++ received c raw))
          ∙ serve-append c addr (serve c addr s start) point (turn ++ received c raw)
          ∙ ap (λ u. serve c addr u (turn ++ received c raw)) (serve-pointed offset s)
          ∙ serve-append c addr s₁ turn (received c raw)
          ∙ ap (λ u. serve c addr u (received c raw)) (serve-reading s₁))
      ∙ serve-received raw s₂

store-before :
    (p q : ℕ) (vs : List ℕ) (m : ℕ → ℕ) → p < q → q + length vs ≤ 256 → store q vs m p ≡ m p
store-before p q [] m h fits = refl
store-before p q (v ∷ []) m h fits = rw (ne→== p q (omega arith)) refl
store-before p q (v ∷ w ∷ vs) m h fits =
    let e : next q ≡ q + 1 = omega arith in
    ap (λ r. store r (w ∷ vs) (store_at q v m) p) e
    ∙ store-before p (q + 1) (w ∷ vs) (store_at q v m) (omega arith) (omega arith)
    ∙ rw (ne→== p q (omega arith)) refl

-- What was written is read back.
pub fetch-store :
    (p : ℕ) (vs : List ℕ) (m : ℕ → ℕ)
    → p + length vs ≤ 256
    → fetch p (length vs) (store p vs m) ≡ map byte vs
fetch-store p [] m fits = refl
fetch-store p (v ∷ []) m fits = rw (eq→== p p refl) (ap (λ x. x ∷ []) (omega arith))
fetch-store p (v ∷ w ∷ vs) m fits =
    let m₁ = store_at p v m in
    let e : next p ≡ p + 1 = omega arith in
    let first : store (next p) (w ∷ vs) m₁ p ≡ byte v =
      ap (λ r. store r (w ∷ vs) m₁ p) e
      ∙ store-before p (p + 1) (w ∷ vs) m₁ (omega arith) (omega arith)
      ∙ rw (eq→== p p refl) refl in
    let rest : fetch (next p) (length (w ∷ vs)) (store (next p) (w ∷ vs) m₁) ≡ map byte (w ∷ vs) =
      ap (λ r. fetch r (length (w ∷ vs)) (store r (w ∷ vs) m₁)) e
      ∙ fetch-store (p + 1) (w ∷ vs) m₁ (omega arith) in
    ap (λ x. byte x ∷ fetch (next p) (length (w ∷ vs)) (store (next p) (w ∷ vs) m₁)) first
    ∙ ap (λ x. x ∷ fetch (next p) (length (w ∷ vs)) (store (next p) (w ∷ vs) m₁))
        (let e' : v % 256 % 256 ≡ v % 256 = omega arith in e')
    ∙ ap (λ l. byte v ∷ l) rest
