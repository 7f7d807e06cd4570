-- ===== src/Sfp/Keeps.antt =====
-- What transfers, sleeps and looks at the clock keep, the EEPROM operations keep, whether they come
-- to their end or not.
use meta_bisdn_linux.Base.{
  ℕ, zero, suc, ◌+◌, ◌-◌, ◌%◌, inl, inr, ◌==◌, List, [], ◌∷◌, ◌++◌, ℤ, pos, negsuc, Bool, true,
  false, Bool-cases, Option-cases, is_neg, eq_ℤ, leb, take,
}
use meta_bisdn_linux.Sfp.Bus.{
  Mode, Event, Trace, Wire, Action, pure, ◌>>=◌, log, word, time_before, enxio,
}
use meta_bisdn_linux.Sfp.Attempt.{ssize, read_got, read_attempt, write_status, write_attempt}
use meta_bisdn_linux.Sfp.Eeprom.{
  carried, write_count, fuel, read_loop, write_loop, sff_8436_eeprom_read, sff_8436_eeprom_write,
  now,
}
use meta_bisdn_linux.Sfp.Client.{
  PortData, Opcode, read_op, write_op, advance, overrun, transfer, update_loop, select_page,
  update_on_page, sff_8436_eeprom_update_client, sff_8436_page_select_reg,
}
use meta_bisdn_linux.Sfp.Port.{
  Layout, layout_of, legal_in, sff_8436_page_legal, chunk_span, chunk_loop,
}

pub record Quiet (P : Trace → Type 0) : Type 0 where
  pub reads :
      (mode : Mode) (reg count : ℕ) (status : ℤ) (bytes : List ℕ) (t : Trace)
      → P t
      → P (Event.read mode reg count status bytes ∷ t)
  pub writes :
      (mode : Mode) (reg : ℕ) (bytes : List ℕ) (status : ℤ) (t : Trace)
      → P t
      → P (Event.write mode reg bytes status ∷ t)
  pub looks : (n : ℕ) (t : Trace) → P t → P (Event.jiffies n ∷ t)
  pub sleeps : (n : ℕ) (t : Trace) → P t → P (Event.msleep n ∷ t)

-- The action keeps `P`.
pub record Keeps {A : Type 0} (P : Trace → Type 0) (m : Action A) : Type 0 where
  pub at : (t : Trace) → P t → P (m t).1

Keeps-pure : {A : Type 0} {P : Trace → Type 0} (a : A) → Keeps P (pure a)
Keeps-pure a = record { at = λ t h. h }

Keeps-overrun : {A : Type 0} {P : Trace → Type 0} → Keeps P (overrun {A = A})
Keeps-overrun = record { at = λ t h. h }

Keeps-bind :
    {A B : Type 0} {P : Trace → Type 0} {m : Action A} {f : A → Action B}
    → Keeps P m
    → ((a : A) → Keeps P (f a))
    → Keeps P (m >>= f)
Keeps-bind {P} {m} {f} first next = record {
  at = λ t h. elim (Option-cases (m t).0) [
    | inl e ↦ rw e (first.at t h)
    | inr (a, e) ↦ rw e ((next a).at (m t).1 (first.at t h))
  ];
}

Keeps-if :
    {A : Type 0} {P : Trace → Type 0} (b : Bool) {on_true on_false : Action A}
    → Keeps P on_true
    → Keeps P on_false
    → Keeps P (elim b as (λ _. Action A) [ true ↦ on_true | false ↦ on_false ])
Keeps-if true keeps keeps' = keeps
Keeps-if false keeps keeps' = keeps'

-- The three ways to go on after a transfer.
Keeps-moved :
    {A : Type 0} {P : Trace → Type 0} (status : ℤ) {failed : ℕ → Action A} {nothing : Action A}
    {something : ℕ → Action A}
    → ((k : ℕ) → Keeps P (failed k))
    → Keeps P nothing
    → ((m : ℕ) → Keeps P (something m))
    → Keeps P (elim status as (λ _. Action A) [
      | negsuc k ↦ failed k
      | pos n ↦ elim n as (λ _. Action A) [ zero ↦ nothing | suc m ↦ something m ]
    ])
Keeps-moved (negsuc k) keeps keeps' keeps'' = keeps k
Keeps-moved (pos zero) keeps keeps' keeps'' = keeps'
Keeps-moved (pos (suc m)) keeps keeps' keeps'' = keeps'' m

module _ {P : Trace → Type 0} (q : Quiet P) (w : Wire) where
  pub read_loop-keeps :
      (mode : Mode) (n reg count timeout : ℕ) (t : Trace)
      → P t
      → P (read_loop w mode n reg count timeout t).1
  unfolding read_loop read_attempt
  read_loop-keeps mode zero reg count timeout t h = h
  read_loop-keeps mode (suc n) reg count timeout t h =
      let t₁ : Trace = Event.jiffies (now w t) ∷ t in
      let got = read_got w mode reg count t₁ in
      let h₁ = q.reads mode reg count got.0 got.1 t₁ (q.looks (now w t) t h) in
      elim (Bool-cases (eq_ℤ got.0 (ssize count))) [
        | inl full ↦ rw (full, read_loop) h₁
        | inr other ↦ elim (Bool-cases (eq_ℤ got.0 enxio)) [
          | inl missing ↦ rw (other, missing, read_loop) h₁
          | inr again ↦ elim (Bool-cases (time_before (now w t) timeout)) [
            | inl early ↦
                rw (other, again, early, read_loop)
                  (read_loop-keeps mode n reg count timeout _ (q.sleeps 1 _ h₁))
            | inr late ↦ rw (other, again, late, read_loop) (q.sleeps 1 _ h₁)
          ]
        ]
      ]

  pub write_loop-keeps :
      (mode : Mode) (n reg : ℕ) (bytes : List ℕ) (count timeout : ℕ) (t : Trace)
      → P t
      → P (write_loop w mode n reg bytes count timeout t).1
  unfolding write_loop write_attempt
  write_loop-keeps mode zero reg bytes count timeout t h = h
  write_loop-keeps mode (suc n) reg bytes count timeout t h =
      let t₁ : Trace = Event.jiffies (now w t) ∷ t in
      let status = write_status w mode reg bytes count t₁ in
      let h₁ = q.writes mode reg bytes status t₁ (q.looks (now w t) t h) in
      elim (Bool-cases (eq_ℤ status (ssize count))) [
        | inl full ↦ rw (full, write_loop) h₁
        | inr other ↦ elim (Bool-cases (time_before (now w t) timeout)) [
          | inl early ↦
              rw (other, early, write_loop)
                (write_loop-keeps mode n reg bytes count timeout _ (q.sleeps 1 _ h₁))
          | inr late ↦ rw (other, late, write_loop) (q.sleeps 1 _ h₁)
        ]
      ]

  Keeps-read : (mode : Mode) (reg count : ℕ) → Keeps P (sff_8436_eeprom_read w mode reg count)
  unfolding sff_8436_eeprom_read
  Keeps-read mode reg count = record {
    at = λ t h. read_loop-keeps mode (fuel w) reg (carried mode count) _ _ (q.looks (now w t) t h);
  }

  Keeps-write :
      (mode : Mode) (write_max : ℕ) (buf : List ℕ) (reg count : ℕ)
      → Keeps P (sff_8436_eeprom_write w mode write_max buf reg count)
  unfolding sff_8436_eeprom_write
  Keeps-write mode write_max buf reg count = record {
    at = λ t h.
        let n = carried mode (write_count write_max reg count) in
        write_loop-keeps mode (fuel w) reg (take n buf) n _ _ (q.looks (now w t) t h);
  }

  Keeps-sleep : Keeps P (log (Event.msleep 1))
  Keeps-sleep = record { at = λ t h. q.sleeps 1 t h }

  module _ (p : PortData) where
    Keeps-transfer : (op : Opcode) (reg count : ℕ) → Keeps P (transfer w p op reg count)
    unfolding transfer
    Keeps-transfer (read_op room) reg count =
        Keeps-if _ Keeps-overrun (Keeps-read p.use_smbus reg count)
    Keeps-transfer (write_op buf) reg count =
        Keeps-if _ Keeps-overrun
          (Keeps-bind (Keeps-write p.use_smbus p.write_max buf reg count) (λ status. Keeps-pure _))

    Keeps-update_loop :
        (n : ℕ) (op : Opcode) (reg count retval : ℕ) (got : List ℕ)
        → Keeps P (update_loop w p n op reg count retval got)
    unfolding update_loop
    Keeps-update_loop zero op reg count retval got = elim (Bool-cases (count == 0)) [
      | inl done ↦ rw (done, update_loop) (Keeps-pure _)
      | inr more ↦ rw (more, update_loop) (record { at = λ t h. h })
    ]
    Keeps-update_loop (suc n) op reg count retval got = elim (Bool-cases (count == 0)) [
      | inl done ↦ rw (done, update_loop) (Keeps-pure _)
      | inr more ↦
          rw (more, update_loop)
            (Keeps-bind (Keeps-transfer op reg count) (λ a.
              Keeps-moved a.0 (λ k. Keeps-pure _) (Keeps-pure _)
                (λ m. Keeps-update_loop n _ _ _ _ _)))
    ]

    Keeps-select_page : (page : ℕ) → Keeps P (select_page w p page)
    unfolding select_page
    Keeps-select_page page =
        Keeps-bind (Keeps-write p.use_smbus p.write_max (page ∷ []) sff_8436_page_select_reg 1)
          (λ ret.
            Keeps-if (is_neg ret) (Keeps-pure ret) (Keeps-bind Keeps-sleep (λ _. Keeps-pure ret)))

    Keeps-update_on_page :
        (op : Opcode) (page phys count : ℕ) → Keeps P (update_on_page w p op page phys count)
    unfolding update_on_page
    Keeps-update_on_page op page phys count = elim (Bool-cases (page == 0)) [
      | inl first ↦ rw (first, update_on_page) (Keeps-update_loop count op phys count 0 [])
      | inr other ↦
          rw (other, update_on_page)
            (Keeps-bind (Keeps-select_page page) (λ ret.
              Keeps-if (is_neg ret) (Keeps-pure (ret, [])) (
                Keeps-bind (Keeps-update_loop count op phys count 0 []) (λ moved.
                  Keeps-bind (Keeps-select_page 0) (λ back.
                    Keeps-if (is_neg back) (Keeps-pure (back, moved.1)) (Keeps-pure moved))))))
    ]

    Keeps-legal_in : (l : Layout) (off len : ℕ) → Keeps P (legal_in w p l off len)
    unfolding legal_in
    Keeps-legal_in l off len = Keeps-if (leb ((off + len) % word) l.unpaged_size) (Keeps-pure _) (
        Keeps-if (leb l.size off) (Keeps-pure _)
          (Keeps-bind (Keeps-read p.use_smbus l.pageable_reg 1) (λ _. Keeps-pure _)))

    pub Keeps-page_legal : (off : ℤ) (len : ℕ) → Keeps P (sff_8436_page_legal w p off len)
    unfolding sff_8436_page_legal
    Keeps-page_legal (negsuc k) len = Keeps-pure _
    Keeps-page_legal (pos off) len = elim (Option-cases (layout_of p.driver_type)) [
      | inl without ↦ rw (without, sff_8436_page_legal) (Keeps-pure _)
      | inr (l, with_layout) ↦ rw (with_layout, sff_8436_page_legal) (Keeps-legal_in l off len)
    ]

    pub Keeps-chunk_loop :
        (n : ℕ) (op : Opcode) (off chunk pending retval : ℕ) (got : List ℕ)
        → Keeps P (chunk_loop w p n op off chunk pending retval got)
    unfolding chunk_loop sff_8436_eeprom_update_client
    Keeps-chunk_loop zero op off chunk pending retval got = Keeps-pure _
    Keeps-chunk_loop (suc n) op off chunk pending retval got =
        let (chunk_offset, chunk_len) = chunk_span off chunk pending in
        Keeps-bind (Keeps-update_on_page op _ _ chunk_len) (λ a.
          Keeps-if (eq_ℤ a.0 (ssize chunk_len))
            (Keeps-chunk_loop n (advance chunk_len op) off (chunk + 1)
              ((pending + word - chunk_len) % word) (retval + chunk_len) (got ++ a.1))
            (Keeps-pure (a.0, got ++ a.1)))
