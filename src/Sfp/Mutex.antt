-- ===== src/Sfp/Mutex.antt =====
-- The mutex of a port: every transfer of an access to the EEPROM happens under it, and the access
-- gives it back.
use meta_bisdn_linux.Base.{
  ℕ, zero, suc, ◌+◌, ◌-◌, ◌/◌, ◌%◌, ◌^◌, ◌<◌, ◌≤◌, ◌≡◌, refl, ap, ◌∙◌, arith, inl, inr, ◌==◌,
  Option, none, some, [], ◌∷◌, ℤ, pos, negsuc, Bool-cases, Option-cases, leb, length, if◌then◌else◌,
  get_or,
}
use meta_bisdn_linux.Sfp.Bus.{
  Event, read, write, jiffies, msleep, mutex_lock, mutex_unlock, Trace, Wire, word,
}
use meta_bisdn_linux.Sfp.Attempt.{Got}
use meta_bisdn_linux.Sfp.Eeprom.{sff_8436_eeprom_read}
use meta_bisdn_linux.Sfp.Retry.{Clock}
use meta_bisdn_linux.Sfp.Client.{PortData, Opcode}
use meta_bisdn_linux.Sfp.Port.{
  Layout, layout_of, trim, legal_len, legal_in, sff_8436_page_legal, chunk_loop,
  sfp_port_read_write, to_size, rounds,
}
use meta_bisdn_linux.Sfp.Keeps.{Quiet, Keeps-page_legal, Keeps-chunk_loop}
use meta_bisdn_linux.Sfp.Ends.{space, Ends-chunk_loop}

pub data Mutex : Type 0 where
  unlocked locked broken : Mutex

abbrev under : Mutex → Mutex
under locked = locked
under _ = broken

-- mutex_lock and mutex_unlock.
abbrev pub lock : Mutex → Mutex
lock unlocked = locked
lock _ = broken

abbrev pub unlock : Mutex → Mutex
unlock locked = unlocked
unlock _ = broken

-- What an event makes of the mutex: `broken` once the bus is used without it, it is taken twice, or
-- it is given back twice.
abbrev pub after : Event → Mutex → Mutex
after (read mode reg count status bytes) m = under m
after (write mode reg bytes status) m = under m
after (jiffies n) m = m
after (msleep n) m = m
after mutex_lock m = lock m
after mutex_unlock m = unlock m

-- The mutex after a trace.
abbrev pub mutex : Trace → Mutex
mutex [] = unlocked
mutex (e ∷ t) = after e (mutex t)

-- What the latest `n` events of a trace make of the mutex.
abbrev pub replay : Mutex → ℕ → Trace → Mutex
replay m zero t = m
replay m (suc n) [] = m
replay m (suc n) (e ∷ t) = after e (replay m n t)

-- The mutex after the events that a trace has more than an older one.
abbrev pub mutex_since : Mutex → Trace → Trace → Mutex
mutex_since m before t = replay m (length t - length before) t

mutex_since-here : (m : Mutex) (t : Trace) → mutex_since m t t ≡ m
mutex_since-here m t = let e : length t - length t ≡ 0 = omega arith in ap (λ n. replay m n t) e

mutex_since-next :
    (m : Mutex) (before t : Trace) (e : Event)
    → length before ≤ length t
    → mutex_since m before (e ∷ t) ≡ after e (mutex_since m before t)
mutex_since-next m before t e h =
    let one : suc (length t) - length before ≡ suc (length t - length before) = omega arith in
    ap (λ n. replay m n (e ∷ t)) one

-- The mutex is held, if it was `m` when the trace was `before`.
HeldSince : Mutex → Trace → Trace → Type 0
HeldSince m before t = (length before ≤ length t) × (mutex_since m before t ≡ locked)

HeldSince-next :
    (m : Mutex) (before t : Trace) (e : Event)
    → after e locked ≡ locked
    → HeldSince m before t
    → HeldSince m before (e ∷ t)
unfolding HeldSince
HeldSince-next m before t e quiet (longer, held) =
    (omega arith, mutex_since-next m before t e longer ∙ ap (after e) held ∙ quiet)

Quiet-HeldSince : (m : Mutex) (before : Trace) → Quiet (HeldSince m before)
Quiet-HeldSince m before = record {
  reads = λ mode reg count status bytes t h.
      HeldSince-next m before t (read mode reg count status bytes) refl h;
  writes =
      λ mode reg bytes status t h. HeldSince-next m before t (write mode reg bytes status) refl h;
  looks = λ n t h. HeldSince-next m before t (jiffies n) refl h;
  sleeps = λ n t h. HeldSince-next m before t (msleep n) refl h;
}

-- An access that returns leaves the mutex, if that was unlocked, as it was, and used the bus only
-- while it held it; whatever the bus and the clock answer.
pub port_read_write-Unlocks :
    (w : Wire) (p : PortData) (op : Opcode) (off len : ℕ) (t : Trace) (m : Mutex) (out : Got)
    → m ≡ unlocked
    → let o = sfp_port_read_write w p op off len t in
      o.0 ≡ some out → mutex_since m t o.1 ≡ unlocked
unfolding sfp_port_read_write HeldSince
port_read_write-Unlocks w p op off len t m out free = elim (Bool-cases (len == 0)) [
  | inl nothing ↦ rw (nothing, sfp_port_read_write) (λ e. mutex_since-here m t ∙ free)
  | inr something ↦
      let t₁ : Trace = mutex_lock ∷ t in
      let taken : HeldSince m t t₁ = (
        omega arith,
        mutex_since-next m t t mutex_lock (omega arith) ∙ ap lock (mutex_since-here m t ∙ free),
      ) in
      let quiet = Quiet-HeldSince m t in
      let legal = sff_8436_page_legal w p (pos off) len t₁ in
      let h = (Keeps-page_legal quiet w p (pos off) len).at t₁ taken in
      rw (something, sfp_port_read_write)
        (elim (Option-cases legal.0) [
          | inl stuck ↦ rw stuck (λ e. absurd (none_is_not_some e))
          | inr (n, e) ↦
              let size = to_size n in
              let loop = chunk_loop w p (rounds off size) op off (off / 2 ^ 7) size 0 [] legal.1 in
              let h' =
                (Keeps-chunk_loop quiet w p (rounds off size) op off (off / 2 ^ 7) size 0 []).at
                  legal.1 h in
              rw e (elim (Option-cases loop.0) [
                | inl stuck ↦ rw stuck (λ e'. absurd (none_is_not_some e'))
                | inr (got, e') ↦
                    rw e' (λ _. mutex_since-next m t loop.1 mutex_unlock h'.0 ∙ ap unlock h'.1)
              ])
        ])
]
  where
    none_is_not_some : {A : Type 0} {a : A} → ◌≡◌ {A = Option A} none (some a) → ⊥
    none_is_not_some e = cc

Locked : Trace → Type 0
Locked t = mutex t ≡ locked

Quiet-Locked : Quiet Locked
unfolding Locked
Quiet-Locked = record {
  reads = λ mode reg count status bytes t h. ap under h;
  writes = λ mode reg bytes status t h. ap under h;
  looks = λ n t h. h;
  sleeps = λ n t h. h;
}

legal_len-le :
    (l : Layout) (off len : ℕ) (status : ℤ) (regval n : ℕ)
    → legal_len l off len status regval ≡ pos n
    → n ≤ len
legal_len-le l off len (negsuc k) regval n e = absurd (negsuc_is_not_pos e)
  where
    negsuc_is_not_pos : negsuc k ≡ pos n → ⊥
    negsuc_is_not_pos e' = cc
legal_len-le l off len (pos s) regval n e =
    let limit = if l.pageable regval then l.size else l.unpaged_size in
    let same : trim limit off len ≡ n = cc in let cut = trim-le limit off len in omega arith
  where
    trim-le : (limit off len : ℕ) → trim limit off len ≤ len
    trim-le limit off len = ground arith

-- A length that sff_8436_page_legal finds is no more than it was asked for.
page_legal-le :
    (w : Wire) (p : PortData) (off len : ℕ) (t : Trace) (n : ℕ)
    → (sff_8436_page_legal w p (pos off) len t).0 ≡ some (pos n)
    → n ≤ len
unfolding sff_8436_page_legal legal_in
page_legal-le w p off len t n = elim (Option-cases (layout_of p.driver_type)) [
  | inl without ↦ rw (without, sff_8436_page_legal) (λ e. absurd (error_is_not_pos e))
  | inr (l, with_layout) ↦
      rw (with_layout, sff_8436_page_legal)
        (elim (Bool-cases (leb ((off + len) % word) l.unpaged_size)) [
          | inl fits ↦ rw (fits, legal_in) (λ e. let same : len ≡ n = cc in omega arith)
          | inr exceeds ↦ elim (Bool-cases (leb l.size off)) [
            | inl outside ↦ rw (exceeds, outside, legal_in) (λ e. absurd (error_is_not_pos e))
            | inr inside ↦
                let r = sff_8436_eeprom_read w p.use_smbus l.pageable_reg 1 t in
                rw (exceeds, inside, legal_in)
                  (elim (Option-cases r.0) [
                    | inl stuck ↦ rw stuck (λ e. absurd (none_is_not_pos e))
                    | inr (got, e') ↦ rw e' (λ e.
                        let same : legal_len l off len got.0 (get_or got.1 0 0) ≡ pos n = cc in
                        legal_len-le l off len got.0 (get_or got.1 0 0) n same)
                  ])
          ]
        ])
]
  where
    error_is_not_pos : {k m : ℕ} → ◌≡◌ {A = Option ℤ} (some (negsuc k)) (some (pos m)) → ⊥
    error_is_not_pos e = cc

    none_is_not_pos : {m : ℕ} → ◌≡◌ {A = Option ℤ} none (some (pos m)) → ⊥
    none_is_not_pos e = cc

-- On a clock that goes on, an access through a buffer with room for what is asked for, on a port
-- with a `write_max` above 0, for which sff_8436_page_legal finds a length and not an error: then
-- sfp_port_read_write returns, without leaving the buffer, whatever the bus answers. Called while
-- the mutex of the port is unlocked, it has used the bus only while it held the mutex, and the
-- mutex is unlocked again.
pub port_read_write_returns :
    (w : Wire) (p : PortData) (op : Opcode) (off len n : ℕ) (t : Trace)
    → Clock w
    → 0 < p.write_max
    → len ≤ space op
    → off + len < word
    → (sff_8436_page_legal w p (pos off) len (mutex_lock ∷ t)).0 ≡ some (pos n)
    → mutex t ≡ unlocked
    → let o = sfp_port_read_write w p op off len t in
      (r : Got) × (o.0 ≡ some r) × (mutex o.1 ≡ unlocked)
unfolding sfp_port_read_write Locked
port_read_write_returns w p op off len n t clock some_max enough no_wrap legal free =
    elim (Bool-cases (len == 0)) [
      | inl nothing ↦ rw (nothing, sfp_port_read_write) ((pos 0, []), refl, free)
      | inr something ↦
          let t₁ : Trace = mutex_lock ∷ t in
          let taken : Locked t₁ = ap lock free in
          let cut = page_legal-le w p off len t₁ n legal in
          let h = (Keeps-page_legal Quiet-Locked w p (pos off) len).at t₁ taken in
          let loop =
            Ends-chunk_loop Quiet-Locked w clock p some_max (rounds off n) op off (off / 2 ^ 7) n 0
              [] (omega arith) (omega arith) in
          let u = (sff_8436_page_legal w p (pos off) len t₁).1 in
          let (r, e', h') = loop.at u h in
          rw (something, sfp_port_read_write) (rw legal (rw e' (r, refl, ap unlock h')))
    ]
