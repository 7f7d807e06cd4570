-- ===== src/Fpga/Tests.antt =====
-- Concrete runs of fpga_driver.c on boards that answer at once or never, and the theorems at them.
use meta_bisdn_linux.Base.{
  ℕ, ◌+◌, ◌*◌, ◌≡◌, ◌≤◌, refl, true, Option, none, some, List, [], ◌∷◌, ℤ, pos, negsuc, arith, inl,
  inr, take, replicate, ap, ◌-◌, ◌≤◌, ◌==◌, if◌then◌else◌,
}
use meta_bisdn_linux.Fpga.Bus.{Board, txr_addr, tip_bit, busy_bit, ack_bit}
use meta_bisdn_linux.Fpga.Transfer.{ebusy, etimedout, leave, send, await_ack, await_idle, stop_bus}
use meta_bisdn_linux.Fpga.Poll.{fpga_smbus_check_tip, fpga_smbus_check_busy, fpga_smbus_check_ack}
use meta_bisdn_linux.Fpga.Poll.Bounds.{Polled, AckPolled, polls_end}
use meta_bisdn_linux.Fpga.Read.{fpga_smbus_read}
use meta_bisdn_linux.Fpga.Write.{fpga_smbus_write}
use meta_bisdn_linux.Fpga.Lock.{Released, transfers_lock_discipline}
use meta_bisdn_linux.Fpga.Sent.{Returned}
use meta_bisdn_linux.Fpga.Correct.{
  LetIn, Delivered, Written, read_correct, write_correct, write_overflows,
}
use meta_bisdn_linux.Fpga.Adapter.{
  smbus_block_data, smbus_read, smbus_write, transfer_length, fpga_smbus_access, adapter_name,
  Parser,
}
use meta_bisdn_linux.Fpga.Adapter.Routes.{ReadsDigits, adapter_transfers_correct}
use meta_bisdn_linux.Fpga.Ioctl.{FpgaAccess, User, fpga_read_cmd, fpga_ioctl}
use meta_bisdn_linux.Fpga.Ioctl.Requests.{Passed, Answered, Sent, ioctl_read_correct}
use meta_bisdn_linux.Fpga.Setup.{fpga_init_smbus}
use meta_bisdn_linux.Fpga.Setup.Configured.{IsConfigured, init_configures_all}

-- A device that is never busy, acknowledges everything, and hands over bytes of 0x1a5.
abbrev prompt : Board
prompt = record {
  register = λ t a. if a == txr_addr 3 then 0x1a5 else 0;
  interrupted = λ t c. pos 0;
  max_retry_time = 20;
  delay_ack = 50;
  delay_tip = 26;
  delay_busy = 10;
}

-- One whose transfers are forever in progress, and one that never acknowledges.
abbrev stuck : Board
stuck = record prompt { register = λ t a. tip_bit; max_retry_time = 2 }

abbrev mute : Board
mute = record prompt { register = λ t a. ack_bit; max_retry_time = 2 }

-- What a read of `n` bytes and a write of one byte return, with all that they call open.
read_outcome : Board → ℕ → Option (ℤ × List ℕ)
unfolding fpga_smbus_read leave send await_ack await_idle stop_bus fpga_smbus_check_tip
    fpga_smbus_check_ack fpga_smbus_check_busy
read_outcome b n = (fpga_smbus_read b 255 3 0x50 0 n []).0

write_outcome : Board → Option (ℤ × Unit {0})
unfolding fpga_smbus_write leave send await_ack await_idle stop_bus fpga_smbus_check_tip
    fpga_smbus_check_ack fpga_smbus_check_busy
write_outcome b = (fpga_smbus_write b 3 0x50 0 1 (7 ∷ []) []).0

-- The read of 129 bytes goes past the end of `buff`.
outcomes :
    (read_outcome prompt 2 ≡ some (pos 0, 0xa5 ∷ 0xa5 ∷ []))
    × (read_outcome prompt 129 ≡ none)
    × (read_outcome stuck 2 ≡ some (ebusy, []))
    × (write_outcome mute ≡ some (etimedout, tt))
    × (write_outcome prompt ≡ some (pos 0, tt))
unfolding read_outcome write_outcome
outcomes = (refl, refl, refl, refl, refl)

abbrev let_in : LetIn prompt 3 0x50 []
let_in = record { channel_in = omega arith; addr_in = omega arith; obtained = refl }

transfers_lock_discipline_example :
    Released 3 (fpga_smbus_read stuck 34 3 0x50 0 1 [])
    × Released 3 (fpga_smbus_write stuck 3 0x50 0 1 (7 ∷ []) [])
transfers_lock_discipline_example =
    transfers_lock_discipline stuck 34 3 0x50 0 1 (7 ∷ []) [] (omega arith) refl

polls_end_example :
    Polled tip_bit 0x0470 2 [] (fpga_smbus_check_tip stuck 0x0470 0x80 [])
    × Polled busy_bit 0x0470 2 [] (fpga_smbus_check_busy stuck 0x0470 0x80 [])
    × AckPolled 2 0x80 [] (fpga_smbus_check_ack stuck 0x0470 0x80 [])
polls_end_example = polls_end stuck 0x0470 0x80 []

read_correct_example :
    Returned 3 [] [] (Delivered 3 [] 0x50 0 2) (fpga_smbus_read prompt 34 3 0x50 0 2 [])
read_correct_example = read_correct prompt 34 3 0x50 0 2 [] let_in (omega arith) (omega arith)

write_correct_example :
    Returned 3 [] tt
      (Written 3 [] 0x50 0 (7 ∷ 8 ∷ []))
      (fpga_smbus_write prompt 3 0x50 0 2 (7 ∷ 8 ∷ 9 ∷ []) [])
write_correct_example =
    write_correct prompt 3 0x50 0 2 (7 ∷ 8 ∷ 9 ∷ []) [] let_in (omega arith) (omega arith)

write_overflows_example : (fpga_smbus_write prompt 3 0x50 0 129 (7 ∷ []) []).0 ≡ none
write_overflows_example = write_overflows prompt 3 0x50 0 129 (7 ∷ []) [] let_in (omega arith)

-- Two decimal digits; anything else is refused with -EINVAL.
two_digits : Parser
two_digits (x ∷ y ∷ []) = inr ((x - b'0') * 10 + (y - b'0'))
two_digits _ = inl (negsuc 21)

two_digits-ReadsDigits : ReadsDigits two_digits
unfolding two_digits
two_digits-ReadsDigits n h = ap inr (omega arith)

abbrev block : List ℕ
block = replicate 34 7

adapter_transfers_correct_example :
    Returned 3 [] [] (Delivered 3 [] 0x50 0 32) (
      fpga_smbus_access prompt two_digits true
        (adapter_name 3)
        0x50
        smbus_read
        0
        smbus_block_data
        block
        [])
    × Returned 3 [] []
        (λ _ u. Written 3 [] 0x50 0 (take 32 block) tt u)
        (fpga_smbus_access prompt two_digits true
          (adapter_name 3)
          0x50
          smbus_write
          0
          smbus_block_data
          block
          [])
unfolding transfer_length
adapter_transfers_correct_example =
    adapter_transfers_correct prompt two_digits two_digits-ReadsDigits 3 0x50 0 smbus_block_data
      block [] let_in refl

abbrev request : ℕ → FpgaAccess
request n = record { addr = 0x50; offset = 0; len = n; channel = 3; buff = replicate 128 7 }

abbrev user : ℕ → User
user n = record { access_ok = true; copied = some (request n); writable = true }

abbrev passed : (n : ℕ) → n ≤ 256 → Passed (user n) (request n)
passed n h = record { allowed = refl; given = refl; in_range = omega arith }

ioctl_read_correct_example :
    Answered (user 4) (request 4) 3 [] (fpga_ioctl prompt (user 4) fpga_read_cmd [])
ioctl_read_correct_example =
    ioctl_read_correct prompt (user 4) (request 4) [] (passed 4 (omega arith)) let_in (omega arith)

init_configures_all_example : IsConfigured 33 (fpga_init_smbus []).1
init_configures_all_example = init_configures_all 33 [] (omega arith)
