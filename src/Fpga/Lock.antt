-- ===== src/Fpga/Lock.antt =====
-- Who may touch a channel: the discipline that the semaphores of fpga_driver.c stand for, read off
-- a trace, and that every transfer keeps it.
use meta_bisdn_linux.Base.{
  ℕ, true, false, ◌≡◌, refl, Option, none, some, List, [], ◌∷◌, arith, ◌==◌, if◌then◌else◌, is_zero,
  ℤ, ◌≢◌, eq→==, Bool-cases, inl, inr, ltb, leb, ◌||◌,
}
use meta_bisdn_linux.Fpga.Bus.{Board, Trace, write, read, sleep, down, up, in_window, max_channel}
use meta_bisdn_linux.Fpga.Keeps.{Keeps}
use meta_bisdn_linux.Fpga.Channel.{
  Accesses, Left, leave-Left, Keeps-read_transfer, Keeps-write_transfer,
}
use meta_bisdn_linux.Fpga.Read.{fpga_smbus_read}
use meta_bisdn_linux.Fpga.Write.{fpga_smbus_write}
use meta_bisdn_linux.Fpga.Transfer.{Action, with_channel}

pub data Lock : Type 0 where
  free broken : Lock
  held : ℕ → Lock

abbrev touch : ℕ → Lock → Lock
touch a free = broken
touch a broken = broken
touch a (held c) = if in_window c a then held c else broken

abbrev take_lock : ℕ → Lock → Lock
take_lock c free = held c
take_lock c _ = broken

abbrev give_lock : ℕ → Lock → Lock
give_lock c (held c') = if c == c' then free else broken
give_lock c _ = broken

-- The state of the locks after a trace: `broken` once a register was touched without the semaphore
-- of its channel, or a semaphore was taken twice or given back by another.
abbrev pub lock : Trace → Lock
lock [] = free
lock (write a v ∷ t) = touch a (lock t)
lock (read a v ∷ t) = touch a (lock t)
lock (sleep lo hi ∷ t) = lock t
lock (down c rc ∷ t) = if is_zero rc then take_lock c (lock t) else lock t
lock (up c ∷ t) = give_lock c (lock t)

abbrev pub Holds : ℕ → Trace → Type 0
Holds c t = lock t ≡ held c

module _ (b : Board) (c : ℕ) where
  accesses-Holds : Accesses b c (Holds c)
  accesses-Holds = record {
    sleeps = λ x. record { at = λ t h. h };
    reads = λ a w. record { at = λ t h. ground arith };
    writes = λ a v w. record { at = λ t h. ground arith };
  }

-- The semaphore is free, or the call has broken off in undefined behaviour while it held it.
abbrev pub Released : {A : Type 0} → ℕ → Option A × Trace → Type 0
Released c (some _, t) = lock t ≡ free
Released c (none, t) = lock t ≡ held c

Left-Released : {A : Type 0} (c : ℕ) (r : Option A × Trace) → Left (Holds c) c r → Released c r
Left-Released c (none, t) h = h
Left-Released c (some x, t) h = let (t', e, held_c) = h in rw (e, held_c, eq→== c c refl)

not_past :
    (addr c : ℕ)
    → c ≢ max_channel
    → (ltb 0x7F addr || ltb max_channel c) ≡ false
    → leb max_channel c ≡ false
not_past addr c h e = ground arith

taken : (c : ℕ) (rc : ℤ) (t : Trace) → is_zero rc ≡ true → lock t ≡ free → Holds c (down c rc ∷ t)
taken c rc t z h = rw (z, h)

with_channel-Released :
    {A : Type 0} (b : Board) (c addr : ℕ) (unchanged : A) (body : Action A) (t : Trace)
    → Keeps (Holds c) body
    → c ≢ max_channel
    → lock t ≡ free
    → Released c (with_channel b c addr unchanged body t)
unfolding with_channel
with_channel-Released b c addr unchanged body t keeps ne h =
    elim (Bool-cases (ltb 0x7F addr || ltb max_channel c)) [
      | inl bad ↦ rw bad h
      | inr good ↦
          rw (good, not_past addr c ne good)
            (elim (Bool-cases (is_zero (b.interrupted t c))) [
              | inl zero_rc ↦ rw zero_rc (
                  let t₁ : Trace = down c (b.interrupted t c) ∷ t in
                  let (r, t₂) = body t₁ in
                  Left-Released c _ (
                    leave-Left (accesses-Holds b c) unchanged r t₂
                      (keeps.at t₁ (taken c _ t zero_rc h))))
              | inr failed ↦ rw (failed, failed) h
            ])
    ]

read_lock_discipline :
    (b : Board) (size c addr offset n : ℕ) (t : Trace)
    → c ≢ max_channel
    → lock t ≡ free
    → Released c (fpga_smbus_read b size c addr offset n t)
unfolding fpga_smbus_read
read_lock_discipline b size c addr offset n t =
    with_channel-Released b c addr [] _ t
      (Keeps-read_transfer (accesses-Holds b c) size addr offset n)

write_lock_discipline :
    (b : Board) (c addr offset n : ℕ) (src : List ℕ) (t : Trace)
    → c ≢ max_channel
    → lock t ≡ free
    → Released c (fpga_smbus_write b c addr offset n src t)
unfolding fpga_smbus_write
write_lock_discipline b c addr offset n src t =
    with_channel-Released b c addr tt _ t
      (Keeps-write_transfer (accesses-Holds b c) addr offset n src)

-- Whatever the board answers, a read and a write on a channel other than `max_channel`, begun while
-- no semaphore is held, touch only registers of their channel and only under the channel's
-- semaphore, and have given the semaphore back if they return (the `none` of a call that touches
-- memory outside an array apart).
pub transfers_lock_discipline :
    (b : Board) (size c addr offset n : ℕ) (src : List ℕ) (t : Trace)
    → c ≢ max_channel
    → lock t ≡ free
    → Released c (fpga_smbus_read b size c addr offset n t)
      × Released c (fpga_smbus_write b c addr offset n src t)
transfers_lock_discipline b size c addr offset n src t other unheld = (
  read_lock_discipline b size c addr offset n t other unheld,
  write_lock_discipline b c addr offset n src t other unheld,
)
