-- ===== src/Fpga/Live/Succeeds.antt =====
-- Transfers with a device that settles come to their end.
use meta_bisdn_linux.Base.{
  ℕ, ◌≤◌, ◌≡◌, refl, ap, ◌∙◌, inl, inr, List, [], ◌∷◌, Option, some, none, ℤ, pos, take, length,
}
use meta_bisdn_linux.Fpga.Bus.{Board, Trace, down, max_buff_size}
use meta_bisdn_linux.Fpga.Transfer.{Result, ok, device_busy, no_ack_response, fault, leave}
use meta_bisdn_linux.Fpga.Read.{fpga_smbus_read, read_transfer}
use meta_bisdn_linux.Fpga.Write.{fpga_smbus_write, write_transfer}
use meta_bisdn_linux.Fpga.Protocol.{Command, commands}
use meta_bisdn_linux.Fpga.Sent.{Returned}
use meta_bisdn_linux.Fpga.Correct.{
  LetIn, Delivered, Written, with_channel-let_in, read_correct, write_correct,
}
use meta_bisdn_linux.Fpga.Live.{Settles}
use meta_bisdn_linux.Fpga.Live.Lands.{NoJump, Lands-read_transfer, Lands-write_transfer}

-- It returned 0, with what it stored, and so that `done` holds.
abbrev pub Succeeded : {A : Type 0} → (A → Trace → Type 0) → Option (ℤ × A) × Trace → Type 0
Succeeded {A} done r = (x : A) × (r.0 ≡ some (pos 0, x)) × done x r.1

abbrev error_of : {A : Type 0} → Option (ℤ × A) → ℤ
error_of (some (status, x)) = status
error_of none = pos 0

module _ {A : Type 0} (b : Board) (c : ℕ) (unchanged : A) where
  leave-zero :
      (r : Result A) (t : Trace) → NoJump r → error_of (leave b c unchanged (r, t)).0 ≡ pos 0
  unfolding leave
  leave-zero (ok x) t h = refl
  leave-zero (device_busy k) t h = absurd h
  leave-zero (no_ack_response k) t h = absurd h
  leave-zero fault t h = refl

  succeeds :
      (base : List Command) (done : A → Trace → Type 0) (o : Option (ℤ × A) × Trace)
      → error_of o.0 ≡ pos 0
      → Returned c base unchanged done o
      → Succeeded done o
  succeeds base done o z (inl good) = good
  succeeds base done o z (inr (inl (e, h))) = absurd (cc (e, z))
  succeeds base done o z (inr (inr (e, h))) = absurd (cc (e, z))

module _ (b : Board) (c d addr offset n : ℕ) (t : Trace) (s : Settles b c d)
    (l : LetIn b c addr t) where
  read_status : (size : ℕ) → error_of (fpga_smbus_read b size c addr offset n t).0 ≡ pos 0
  unfolding fpga_smbus_read
  read_status size =
      let t₁ : Trace = down c (b.interrupted t c) ∷ t in
      let o = read_transfer b c size addr offset n t₁ in
      ap (λ r. error_of r.0)
        (with_channel-let_in b c addr [] (read_transfer b c size addr offset n) t l)
      ∙ leave-zero b c [] o.0 o.1 ((Lands-read_transfer s size addr offset n).at t₁)

  write_status : (src : List ℕ) → error_of (fpga_smbus_write b c addr offset n src t).0 ≡ pos 0
  unfolding fpga_smbus_write
  write_status src =
      let t₁ : Trace = down c (b.interrupted t c) ∷ t in
      let o = write_transfer b c addr offset n src t₁ in
      ap (λ r. error_of r.0)
        (with_channel-let_in b c addr tt (write_transfer b c addr offset n src) t l)
      ∙ leave-zero b c tt o.0 o.1 ((Lands-write_transfer s addr offset n src).at t₁)

  -- If after each command the device is done within fewer polls than the driver makes, acknowledges
  -- all it is sent, and is idle after the command that ends a transfer, then a read and a write of
  -- at most 128 bytes that are let in return 0: the read with the bytes that came over the bus
  -- after exactly its commands, the write after exactly its commands.
  pub transfers_succeed :
      (size : ℕ) (src : List ℕ)
      → n ≤ max_buff_size
      → n ≤ size
      → n ≤ length src
      → Succeeded
          (Delivered c (commands c t) addr offset n)
          (fpga_smbus_read b size c addr offset n t)
        × Succeeded
            (Written c (commands c t) addr offset (take n src))
            (fpga_smbus_write b c addr offset n src t)
  transfers_succeed size src fits room some_src = (
    succeeds b c [] (commands c t) (Delivered c (commands c t) addr offset n)
        (fpga_smbus_read b size c addr offset n t) (read_status size)
        (read_correct b size c addr offset n t l fits room),
    succeeds b c tt (commands c t) (Written c (commands c t) addr offset (take n src))
        (fpga_smbus_write b c addr offset n src t) (write_status src)
        (write_correct b c addr offset n src t l fits some_src),
  )
