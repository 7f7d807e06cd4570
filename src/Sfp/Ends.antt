-- ===== src/Sfp/Ends.antt =====
-- The EEPROM operations end, on a clock that goes on and whatever the bus answers, and keep what
-- transfers, sleeps and looks at the clock keep, inside a buffer with room for what is asked for.
use meta_bisdn_linux.Base.{
  ℕ, zero, suc, ◌+◌, ◌-◌, ◌*◌, ◌<◌, ltb, length, length-drop, ge→ltb, eq→==, ◌≤◌, ◌%◌, ◌≡◌, refl,
  inl, inr, arith, ◌==◌, some, List, [], ◌∷◌, ◌++◌, ℤ, pos, negsuc, Bool, true, false, Bool-cases,
  Option-cases, is_neg, eq_ℤ, leb, take,
}
use meta_bisdn_linux.Sfp.Bus.{Mode, Event, Trace, Wire, Action, pure, ◌>>=◌, log, word}
use meta_bisdn_linux.Sfp.Attempt.{ssize}
use meta_bisdn_linux.Sfp.Eeprom.{
  carried, write_count, fuel, sff_8436_eeprom_read, sff_8436_eeprom_write, now,
}
use meta_bisdn_linux.Sfp.Retry.{Clock, eeprom_read_ends, eeprom_write_ends}
use meta_bisdn_linux.Sfp.Client.{
  PortData, Opcode, read_op, write_op, advance, transfer, update_loop, select_page, update_on_page,
  sff_8436_eeprom_update_client, sff_8436_page_select_reg,
}
use meta_bisdn_linux.Sfp.Bounds.{carried-bounds, write_stays_on_page}
use meta_bisdn_linux.Sfp.Keeps.{Quiet, read_loop-keeps, write_loop-keeps}
use meta_bisdn_linux.Sfp.Port.{
  Layout, layout_of, legal_in, sff_8436_page_legal, chunk_span, chunk_loop,
}

-- The bytes of the caller's buffer that are left.
abbrev pub space : Opcode → ℕ
space (read_op room) = room
space (write_op buf) = length buf

space-advance : (n : ℕ) (op : Opcode) → space (advance n op) ≡ space op - n
space-advance n (read_op room) = refl
space-advance n (write_op buf) = length-drop n buf

-- A chunk is no longer than what is left of the range.
pub chunk_span-le :
    (off chunk pending : ℕ) → off + pending < word → (chunk_span off chunk pending).1 ≤ pending
chunk_span-le off chunk pending h = elim (Bool-cases (ltb (chunk * 128) off)) [
  | inl within ↦ elim (Bool-cases (ltb ((off + pending) % word) (chunk * 128 + 128))) [
    | inl ends ↦ rw (within, ends) (omega arith)
    | inr goes_on ↦ rw (within, goes_on) (ground arith)
  ]
  | inr from ↦ elim (Bool-cases (ltb 128 pending)) [
    | inl more ↦ rw (from, more) (ground arith)
    | inr last ↦ rw (from, last) (omega arith)
  ]
]

-- The action returns a value and keeps `P`.
pub record Ends {A : Type 0} (P : Trace → Type 0) (m : Action A) : Type 0 where
  pub at : (t : Trace) → P t → (a : A) × ((m t).0 ≡ some a) × P (m t).1

pub Ends-pure : {A : Type 0} {P : Trace → Type 0} (a : A) → Ends P (pure a)
Ends-pure a = record { at = λ t h. (a, refl, h) }

pub Ends-bind :
    {A B : Type 0} {P : Trace → Type 0} {m : Action A} {f : A → Action B}
    → Ends P m
    → ((a : A) → Ends P (f a))
    → Ends P (m >>= f)
Ends-bind {P} {m} {f} first next = record {
  at = λ t h. let (a, e, h') = first.at t h in rw e ((next a).at (m t).1 h');
}

Ends-if :
    {A : Type 0} {P : Trace → Type 0} (b : Bool) {on_true on_false : Action A}
    → Ends P on_true
    → Ends P on_false
    → Ends P (elim b as (λ _. Action A) [ true ↦ on_true | false ↦ on_false ])
Ends-if true ends ends' = ends
Ends-if false ends ends' = ends'

-- The three ways to go on after a transfer.
Ends-moved :
    {A : Type 0} {P : Trace → Type 0} (status : ℤ) {failed : ℕ → Action A} {nothing : Action A}
    {something : ℕ → Action A}
    → ((k : ℕ) → Ends P (failed k))
    → Ends P nothing
    → ((m : ℕ) → Ends P (something m))
    → Ends P (elim status as (λ _. Action A) [
      | negsuc k ↦ failed k
      | pos n ↦ elim n as (λ _. Action A) [ zero ↦ nothing | suc m ↦ something m ]
    ])
Ends-moved (negsuc k) ends ends' ends'' = ends k
Ends-moved (pos zero) ends ends' ends'' = ends'
Ends-moved (pos (suc m)) ends ends' ends'' = ends'' m

module _ {P : Trace → Type 0} (q : Quiet P) (w : Wire) where
  module _ (clock : Clock w) where
    Ends-read : (mode : Mode) (reg count : ℕ) → Ends P (sff_8436_eeprom_read w mode reg count)
    unfolding sff_8436_eeprom_read
    Ends-read mode reg count = record {
      at = λ t h.
          let kept =
            read_loop-keeps q w mode (fuel w) reg (carried mode count) _ _
              (q.looks (now w t) t h) in
          elim (eeprom_read_ends w clock mode reg count t) [
            | inl (bytes, _, e, _) ↦ (_, e, kept)
            | inr (inl (_, _, e, _)) ↦ (_, e, kept)
            | inr (inr e) ↦ (_, e, kept)
          ];
    }

    Ends-write :
        (mode : Mode) (write_max : ℕ) (buf : List ℕ) (reg count : ℕ)
        → Ends P (sff_8436_eeprom_write w mode write_max buf reg count)
    unfolding sff_8436_eeprom_write
    Ends-write mode write_max buf reg count = record {
      at = λ t h.
          let n = carried mode (write_count write_max reg count) in
          let kept =
            write_loop-keeps q w mode (fuel w) reg (take n buf) n _ _ (q.looks (now w t) t h) in
          elim (eeprom_write_ends w clock mode write_max buf reg count t) [
            | inl (_, e, _) ↦ (_, e, kept)
            | inr e ↦ (_, e, kept)
          ];
    }

    Ends-sleep : Ends P (log (Event.msleep 1))
    Ends-sleep = record { at = λ t h. (tt, refl, q.sleeps 1 t h) }

    module _ (p : PortData) (some_max : 0 < p.write_max) where
      Ends-transfer :
          (op : Opcode) (reg count : ℕ)
          → 0 < count
          → count ≤ space op
          → Ends P (transfer w p op reg count)
      unfolding transfer
      Ends-transfer (read_op room) reg count some_count inside =
          let (low, high) = carried-bounds p.use_smbus count some_count in
          rw (ge→ltb room (carried p.use_smbus count) (omega arith), transfer)
            (Ends-read p.use_smbus reg count)
      Ends-transfer (write_op buf) reg count some_count inside =
          let n = carried p.use_smbus (write_count p.write_max reg count) in
          let (low, high, max, page) =
            write_stays_on_page p.use_smbus p.write_max reg count some_max some_count in
          rw (ge→ltb (length buf) n (omega arith), transfer)
            (Ends-bind (Ends-write p.use_smbus p.write_max buf reg count) (λ status. Ends-pure _))

      Ends-update_loop :
          (n : ℕ) (op : Opcode) (reg count retval : ℕ) (got : List ℕ)
          → count ≤ n
          → count ≤ space op
          → Ends P (update_loop w p n op reg count retval got)
      unfolding update_loop
      Ends-update_loop zero op reg count retval got enough inside =
          let z : count ≡ 0 = omega arith in rw (eq→== count 0 z, update_loop) (Ends-pure _)
      Ends-update_loop (suc n) op reg count retval got enough inside =
          elim (Bool-cases (count == 0)) [
            | inl done ↦ rw (done, update_loop) (Ends-pure _)
            | inr more ↦
                rw (more, update_loop)
                  (Ends-bind (Ends-transfer op reg count (ground arith) inside) (λ a.
                    Ends-moved a.0 (λ k. Ends-pure _) (Ends-pure _)
                      (λ m.
                        Ends-update_loop n (advance (suc m) op) _ _ _ _ (omega arith)
                          (omega (arith, space-advance (suc m) op)))))
          ]

      Ends-select_page : (page : ℕ) → Ends P (select_page w p page)
      unfolding select_page
      Ends-select_page page =
          Ends-bind (Ends-write p.use_smbus p.write_max (page ∷ []) sff_8436_page_select_reg 1)
            (λ ret.
              Ends-if (is_neg ret) (Ends-pure ret) (Ends-bind Ends-sleep (λ _. Ends-pure ret)))

      Ends-update_on_page :
          (op : Opcode) (page phys count : ℕ)
          → count ≤ space op
          → Ends P (update_on_page w p op page phys count)
      unfolding update_on_page
      Ends-update_on_page op page phys count inside = elim (Bool-cases (page == 0)) [
        | inl first ↦
            rw (first, update_on_page)
              (Ends-update_loop count op phys count 0 [] (omega arith) inside)
        | inr other ↦
            rw (other, update_on_page)
              (Ends-bind (Ends-select_page page) (λ ret.
                Ends-if (is_neg ret) (Ends-pure (ret, [])) (
                  Ends-bind (Ends-update_loop count op phys count 0 [] (omega arith) inside)
                    (λ moved. Ends-bind (Ends-select_page 0) (λ back.
                      Ends-if (is_neg back) (Ends-pure (back, moved.1)) (Ends-pure moved))))))
      ]

      Ends-update_client :
          (op : Opcode) (off count : ℕ)
          → count ≤ space op
          → Ends P (sff_8436_eeprom_update_client w p op off count)
      unfolding sff_8436_eeprom_update_client
      Ends-update_client op off count inside = Ends-update_on_page op _ _ count inside

      Ends-legal_in : (l : Layout) (off len : ℕ) → Ends P (legal_in w p l off len)
      unfolding legal_in
      Ends-legal_in l off len = elim (Bool-cases (leb ((off + len) % word) l.unpaged_size)) [
        | inl fits ↦ rw (fits, legal_in) (Ends-pure _)
        | inr exceeds ↦ elim (Bool-cases (leb l.size off)) [
          | inl outside ↦ rw (exceeds, outside, legal_in) (Ends-pure _)
          | inr inside ↦
              rw (exceeds, inside, legal_in)
                (Ends-bind (Ends-read p.use_smbus l.pageable_reg 1) (λ _. Ends-pure _))
        ]
      ]

      pub Ends-page_legal : (off : ℤ) (len : ℕ) → Ends P (sff_8436_page_legal w p off len)
      unfolding sff_8436_page_legal
      Ends-page_legal (negsuc k) len = Ends-pure _
      Ends-page_legal (pos off) len = elim (Option-cases (layout_of p.driver_type)) [
        | inl without ↦ rw (without, sff_8436_page_legal) (Ends-pure _)
        | inr (l, with_layout) ↦ rw (with_layout, sff_8436_page_legal) (Ends-legal_in l off len)
      ]

      pub Ends-chunk_loop :
          (n : ℕ) (op : Opcode) (off chunk pending retval : ℕ) (got : List ℕ)
          → off + pending < word
          → pending ≤ space op
          → Ends P (chunk_loop w p n op off chunk pending retval got)
      unfolding chunk_loop
      Ends-chunk_loop zero op off chunk pending retval got no_wrap inside = Ends-pure _
      Ends-chunk_loop (suc n) op off chunk pending retval got no_wrap inside =
          let (chunk_offset, chunk_len) = chunk_span off chunk pending in
          let cut : chunk_len ≤ pending = chunk_span-le off chunk pending no_wrap in
          Ends-bind (Ends-update_client op chunk_offset chunk_len (omega arith)) (λ a.
            Ends-if (eq_ℤ a.0 (ssize chunk_len))
              (Ends-chunk_loop n (advance chunk_len op) off (chunk + 1)
                ((pending + word - chunk_len) % word) (retval + chunk_len) (got ++ a.1)
                (omega arith) (omega (arith, space-advance chunk_len op)))
              (Ends-pure (a.0, got ++ a.1)))
