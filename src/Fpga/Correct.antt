-- ===== src/Fpga/Correct.antt =====
-- The calls of fpga_driver.c that transfer bytes, from the check of their arguments to their
-- return.
use meta_bisdn_linux.Base.{
  ℕ, ◌≤◌, ◌<◌, ◌≡◌, true, List, [], ◌∷◌, ◌++◌, map, append-nil, append_assoc, length, take, arith,
  is_zero, none, gt→leb, ge→ltb,
}
use meta_bisdn_linux.Fpga.Bus.{Board, Trace, max_channel, max_buff_size, down, up}
use meta_bisdn_linux.Fpga.Transfer.{Action, with_channel, leave}
use meta_bisdn_linux.Fpga.Read.{fpga_smbus_read, read_transfer}
use meta_bisdn_linux.Fpga.Read.Transcript.{byte, Filled, addressed, read_transfer-Filled}
use meta_bisdn_linux.Fpga.Write.{fpga_smbus_write, write_transfer}
use meta_bisdn_linux.Fpga.Write.Transcript.{write_transfer-Meets}
use meta_bisdn_linux.Fpga.Protocol.{Command, commands, Issued, read_transcript, write_transcript}
use meta_bisdn_linux.Fpga.Sent.{Returned, leave-Returned}

-- What is asked of the arguments and of `down_interruptible` for a transfer to start.
pub record LetIn (b : Board) (c addr : ℕ) (t : Trace) : Type 0 where
  pub channel_in : c < max_channel
  pub addr_in : addr ≤ 0x7F
  pub obtained : is_zero (b.interrupted t c) ≡ true

pub with_channel-let_in :
    {A : Type 0} (b : Board) (c addr : ℕ) (unchanged : A) (body : Action A) (t : Trace)
    → LetIn b c addr t
    → with_channel b c addr unchanged body t
      ≡ leave b c unchanged (body (down c (b.interrupted t c) ∷ t))
unfolding with_channel
with_channel-let_in b c addr unchanged body t l = rw (
  ge→ltb 0x7F addr l.addr_in,
  ge→ltb max_channel c (omega arith),
  gt→leb max_channel c l.channel_in,
  l.obtained,
)

-- `data` holds `n` bytes, those that the device handed over after the read's commands.
abbrev pub Delivered : ℕ → List Command → ℕ → ℕ → ℕ → List ℕ → Trace → Type 0
Delivered c base addr offset n bytes t =
    (raw : List ℕ) × (length raw ≡ n)
    × (bytes ≡ map byte raw)
    × (commands c t ≡ base ++ read_transcript c addr offset raw)

Filled-Delivered :
    (b : Board) (c : ℕ) (base : List Command) (addr offset n : ℕ) (bytes : List ℕ) (t : Trace)
    → Filled b c base n (addressed b c base addr offset) bytes t
    → Delivered c base addr offset n bytes (up c ∷ t)
Filled-Delivered b c base addr offset n bytes t (raw, count, stored, said) =
    (raw, count, stored, rw (append-nil, said) (simp append_assoc))

-- A read of at most 128 bytes into an array that holds them, on a channel below 34, to a 7-bit
-- address, and with the semaphore obtained, never touches memory outside its arrays. It returns 0
-- with exactly as many bytes as asked for, which are those that came over the bus after exactly the
-- commands of the SMBus read; or -ETIMEDOUT, the last command a STOP; or -EBUSY, the last commands
-- those that set the controller up anew with a STOP.
pub read_correct :
    (b : Board) (size c addr offset n : ℕ) (t : Trace)
    → LetIn b c addr t
    → n ≤ max_buff_size
    → n ≤ size
    → Returned c
        (commands c t)
        []
        (Delivered c (commands c t) addr offset n)
        (fpga_smbus_read b size c addr offset n t)
unfolding fpga_smbus_read
read_correct b size c addr offset n t l fits room =
    let t₁ : Trace = down c (b.interrupted t c) ∷ t in
    let base = commands c t in
    rw (with_channel-let_in b c addr [] (read_transfer b c size addr offset n) t l) (
      leave-Returned b c base [] (Filled b c base n (addressed b c base addr offset))
        (Delivered c base addr offset n) (Filled-Delivered b c base addr offset n) _ _
        (read_transfer-Filled b c base size addr offset n t₁ fits room (rw append-nil)).outcome)

-- `bytes` went over the bus as the SMBus write of them.
abbrev pub Written : ℕ → List Command → ℕ → ℕ → List ℕ → Unit {0} → Trace → Type 0
Written c base addr offset bytes _ t = commands c t ≡ base ++ write_transcript c addr offset bytes

-- A write of at most 128 bytes from an array that holds them, on a channel below 34, to a 7-bit
-- address, and with the semaphore obtained, never touches memory outside its arrays. It returns 0
-- after exactly the commands of the SMBus write of the array's first bytes; or -ETIMEDOUT, the last
-- command a STOP; or -EBUSY, the last commands those that set the controller up anew with a STOP.
pub write_correct :
    (b : Board) (c addr offset n : ℕ) (src : List ℕ) (t : Trace)
    → LetIn b c addr t
    → n ≤ max_buff_size
    → n ≤ length src
    → Returned c
        (commands c t)
        tt
        (Written c (commands c t) addr offset (take n src))
        (fpga_smbus_write b c addr offset n src t)
unfolding fpga_smbus_write
write_correct b c addr offset n src t l fits room =
    let t₁ : Trace = down c (b.interrupted t c) ∷ t in
    let base = commands c t in
    rw (with_channel-let_in b c addr tt (write_transfer b c addr offset n src) t l) (
      leave-Returned b c base tt
        (λ _ u. Issued c (base ++ write_transcript c addr offset (take n src)) u)
        (Written c base addr offset (take n src)) (λ _ u h. rw append-nil h) _ _
        (write_transfer-Meets b c base addr offset n src t₁ fits room (rw append-nil)).outcome)

-- A write of more than 128 bytes that is let in copies past the end of `buff`, whatever the device
-- does.
pub write_overflows :
    (b : Board) (c addr offset n : ℕ) (src : List ℕ) (t : Trace)
    → LetIn b c addr t
    → max_buff_size < n
    → (fpga_smbus_write b c addr offset n src t).0 ≡ none
unfolding fpga_smbus_write write_transfer leave
write_overflows b c addr offset n src t l past =
    rw (with_channel-let_in b c addr tt (write_transfer b c addr offset n src) t l)
      (rw (gt→leb n max_buff_size past))
