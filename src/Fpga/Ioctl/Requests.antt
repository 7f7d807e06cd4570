-- ===== src/Fpga/Ioctl/Requests.antt =====
-- What fpga_ioctl does for a user, and to the kernel.
use meta_bisdn_linux.Base.{
  ℕ, ◌+◌, ◌≤◌, ◌≡◌, refl, true, false, Option, none, some, List, [], ◌++◌, drop, length, ge→ltb, ap,
  take, ◌∙◌, Bool-cases, ◌⊎◌, inl, inr, ℤ, pos,
}
use meta_bisdn_linux.Fpga.Bus.{Board, Trace, max_buff_size}
use meta_bisdn_linux.Fpga.Transfer.{ebusy, etimedout}
use meta_bisdn_linux.Fpga.Read.{fpga_smbus_read}
use meta_bisdn_linux.Fpga.Write.{fpga_smbus_write}
use meta_bisdn_linux.Fpga.Read.Transcript.{map-length}
use meta_bisdn_linux.Fpga.Ioctl.{
  FpgaAccess, User, fpga_read_cmd, fpga_write_cmd, fpga_ioctl, max_eeprom_size, Reply, answer_read,
  answer_write, efault,
}
use meta_bisdn_linux.Fpga.Protocol.{Command, commands, stop_transcript, reset_transcript}
use meta_bisdn_linux.Fpga.Sent.{Returned}
use meta_bisdn_linux.Fpga.Correct.{LetIn, Delivered, Written, read_correct}

-- A request that is copied in and passes the check of its range.
pub record Passed (u : User) (acc : FpgaAccess) : Type 0 where
  pub allowed : u.access_ok ≡ true
  pub given : u.copied ≡ some acc
  pub in_range : acc.len + acc.offset ≤ max_eeprom_size

-- The answer to a read: the request with the bytes from the bus in the front of its buffer, an
-- error, or -EFAULT where they cannot be handed over.
abbrev pub Answered : User → FpgaAccess → ℕ → List Command → Reply → Type 0
Answered u acc c base r =
    ((bytes : List ℕ) × Delivered c base acc.addr acc.offset acc.len bytes r.1
      × (((u.writable ≡ true)
            × (r.0 ≡ some (pos 0, some (record acc { buff = bytes ++ drop acc.len acc.buff }))))
          ⊎ ((u.writable ≡ false) × (r.0 ≡ some (efault, none)))))
    ⊎ (r.0 ≡ some (etimedout, none))
    ⊎ (r.0 ≡ some (ebusy, none))

ioctl_of-Passed :
    (b : Board) (u : User) (acc : FpgaAccess) (t : Trace)
    → Passed u acc
    → (fpga_ioctl b u fpga_read_cmd t
        ≡ answer_read u acc
            (fpga_smbus_read b max_buff_size acc.channel acc.addr acc.offset acc.len t))
      × (fpga_ioctl b u fpga_write_cmd t
          ≡ answer_write (fpga_smbus_write b acc.channel acc.addr acc.offset acc.len acc.buff t))
unfolding fpga_ioctl
ioctl_of-Passed b u acc t p =
    let range = ge→ltb max_eeprom_size (acc.len + acc.offset) p.in_range in
    (rw (p.allowed, p.given) (rw range), rw (p.allowed, p.given) (rw range))

answered :
    (u : User) (acc : FpgaAccess) (c : ℕ) (base : List Command) (o : Option (ℤ × List ℕ))
    (t : Trace)
    → Returned c base [] (Delivered c base acc.addr acc.offset acc.len) (o, t)
    → Answered u acc c base (answer_read u acc (o, t))
answered u acc c base o t (inl (bytes, e, d)) =
    let full : length bytes ≡ acc.len = ap length d.2 ∙ map-length d.0 ∙ d.1 in
    rw (e, answer_read)
      (elim (Bool-cases u.writable) [
        | inl w ↦ rw w (inl (bytes, d, inl (refl, rw full)))
        | inr w ↦ rw w (inl (bytes, d, inr (refl, refl)))
      ])
answered u acc c base o t (inr (inl (e, s))) = rw (e, answer_read) (inr (inl refl))
answered u acc c base o t (inr (inr (e, s))) = rw (e, answer_read) (inr (inr refl))

-- The answer to a write of at most 128 bytes: 0 after exactly the commands of the SMBus write; or
-- an error, the last commands a STOP or a reset of the controller.
abbrev pub Sent : FpgaAccess → ℕ → List Command → Reply → Type 0
Sent acc c base r =
    ((r.0 ≡ some (pos 0, none)) × Written c base acc.addr acc.offset (take acc.len acc.buff) tt r.1)
    ⊎ ((r.0 ≡ some (etimedout, none))
        × ((cs : List Command) × (commands c r.1 ≡ base ++ (cs ++ stop_transcript c))))
    ⊎ ((r.0 ≡ some (ebusy, none))
        × ((cs : List Command) × (commands c r.1 ≡ base ++ (cs ++ reset_transcript c))))

-- A read request of at most 128 bytes that passes the checks of fpga_ioctl, for a channel below 34
-- and a 7-bit address, and with the semaphore obtained, is answered with the bytes that came over
-- the bus, in front of what the buffer held behind them, unless the transfer or the copy to the
-- user fails; the kernel's memory is never overrun.
pub ioctl_read_correct :
    (b : Board) (u : User) (acc : FpgaAccess) (t : Trace)
    → Passed u acc
    → LetIn b acc.channel acc.addr t
    → acc.len ≤ max_buff_size
    → Answered u acc acc.channel (commands acc.channel t) (fpga_ioctl b u fpga_read_cmd t)
ioctl_read_correct b u acc t p l fits = rw ((ioctl_of-Passed b u acc t p).0) (
    let (o, t') = fpga_smbus_read b max_buff_size acc.channel acc.addr acc.offset acc.len t in
    answered u acc acc.channel (commands acc.channel t) o t'
      (read_correct b max_buff_size acc.channel acc.addr acc.offset acc.len t l fits fits))
