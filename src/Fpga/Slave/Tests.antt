-- ===== src/Fpga/Slave/Tests.antt =====
-- A board with a memory on channel 3 that needs two polls for each command.
use meta_bisdn_linux.Base.{
  ℕ, ◌-◌, ◌+◌, ◌*◌, ap, inl, inr, negsuc, replicate, ◌≤◌, ◌≡◌, refl, List, [], ◌∷◌, Option, some, ℤ,
  pos, arith, ltb, ge→ltb, ◌==◌, if◌then◌else◌, bit_and,
}
use meta_bisdn_linux.Fpga.Bus.{Board, Trace, txr_addr}
use meta_bisdn_linux.Fpga.Protocol.{commands}
use meta_bisdn_linux.Fpga.Transfer.{leave, send, await_ack, await_idle}
use meta_bisdn_linux.Fpga.Poll.{fpga_smbus_check_tip, fpga_smbus_check_busy, fpga_smbus_check_ack}
use meta_bisdn_linux.Fpga.Read.{fpga_smbus_read}
use meta_bisdn_linux.Fpga.Write.{fpga_smbus_write}
use meta_bisdn_linux.Fpga.Correct.{Delivered, Written}
use meta_bisdn_linux.Fpga.Live.{Settles, polls_since}
use meta_bisdn_linux.Fpga.Live.Succeeds.{Succeeded, transfers_succeed}
use meta_bisdn_linux.Fpga.Adapter.{smbus_word_data, smbus_byte_data, transfer_length, Parser}
use meta_bisdn_linux.Fpga.Adapter.Routes.{ReadsDigits}
use meta_bisdn_linux.Fpga.Slave.ByAdapter.{load, save, session, session_refines_memory}
use meta_bisdn_linux.Fpga.Slave.{Slave, other, serve}
use meta_bisdn_linux.Fpga.Slave.ReadBack.{HasSlave, write_reads_back}

abbrev blank : Slave
blank = record { txr = 0; phase = other; pointer = 0; out = 0; memory = λ i. 0 }

abbrev status : ℕ → ℕ
status polls = if ltb polls 2 then 0xc2 else 0

abbrev eeprom : Board
eeprom = record {
  register = λ t a.
      if a == txr_addr 3 then (serve 3 0x50 blank (commands 3 t)).out else status (polls_since 3 t);
  interrupted = λ t c. pos 0;
  max_retry_time = 20;
  delay_ack = 50;
  delay_tip = 26;
  delay_busy = 10;
}

late : (polls mask : ℕ) → 2 ≤ polls → bit_and 0 mask ≡ 0 → bit_and (status polls) mask ≡ 0
late polls mask h e = rw (ge→ltb polls 2 h) e

eeprom-Settles : Settles eeprom 3 2
eeprom-Settles = record {
  patient = omega arith;
  done = λ t h. late (polls_since 3 t) 0x2 h refl;
  acked = λ t h. late (polls_since 3 t) 0x80 h refl;
  idle = λ t h e. late (polls_since 3 t) 0x40 h refl;
}

eeprom-HasSlave : HasSlave eeprom 3 0x50 2 blank
eeprom-HasSlave = record {
  channel_in = omega arith;
  addr_in = omega arith;
  obtained = λ t. refl;
  settles = eeprom-Settles;
  serves = λ t. refl;
}

transfers_succeed_example :
    Succeeded (Delivered 3 [] 0x50 9 2) (fpga_smbus_read eeprom 34 3 0x50 9 2 [])
    × Succeeded
        (Written 3 [] 0x50 9 (7 ∷ 8 ∷ []))
        (fpga_smbus_write eeprom 3 0x50 9 2 (7 ∷ 8 ∷ []) [])
transfers_succeed_example =
    transfers_succeed eeprom 3 2 0x50 9 2 [] eeprom-Settles
      (record { channel_in = omega arith; addr_in = omega arith; obtained = refl }) 34 (7 ∷ 8 ∷ [])
      (omega arith) (omega arith) (omega arith)

abbrev written_trace : Trace
written_trace = (fpga_smbus_write eeprom 3 0x50 9 2 (7 ∷ 264 ∷ []) []).1

write_reads_back_example :
    ((fpga_smbus_write eeprom 3 0x50 9 2 (7 ∷ 264 ∷ []) []).0 ≡ some (pos 0, tt))
    × ((fpga_smbus_read eeprom 34 3 0x50 9 2 written_trace).0 ≡ some (pos 0, 7 ∷ 8 ∷ []))
write_reads_back_example =
    write_reads_back eeprom 3 0x50 2 blank eeprom-HasSlave 9 2 34 (7 ∷ 264 ∷ []) [] tt (omega arith)
      (omega arith) (omega arith) (omega arith)

-- The same by running the code.
run_back : Option (ℤ × List ℕ)
unfolding fpga_smbus_read fpga_smbus_write leave send await_ack await_idle fpga_smbus_check_tip
    fpga_smbus_check_ack fpga_smbus_check_busy
run_back = (fpga_smbus_read eeprom 34 3 0x50 9 2 written_trace).0

run_back_lem : run_back ≡ some (pos 0, 7 ∷ 8 ∷ [])
unfolding run_back
run_back_lem = refl

abbrev kstrtou8 : Parser
kstrtou8 (x ∷ y ∷ []) = inr ((x - b'0') * 10 + (y - b'0'))
kstrtou8 _ = inl (negsuc 21)

kstrtou8-ReadsDigits : ReadsDigits kstrtou8
kstrtou8-ReadsDigits n h = ap inr (omega arith)

abbrev union : List ℕ
union = 7 ∷ 264 ∷ replicate 32 1

session_refines_memory_example :
    session eeprom kstrtou8 3 0x50
      (save 9 smbus_word_data union ∷ load 9 smbus_word_data ∷ load 10 smbus_byte_data ∷ [])
      []
    ≡ some (pos 0, []) ∷ some (pos 0, 7 ∷ 8 ∷ []) ∷ some (pos 0, 8 ∷ []) ∷ []
unfolding transfer_length
session_refines_memory_example =
    session_refines_memory eeprom kstrtou8 3 0x50 kstrtou8-ReadsDigits 2 blank eeprom-HasSlave
      (save 9 smbus_word_data union ∷ load 9 smbus_word_data ∷ load 10 smbus_byte_data ∷ []) [] tt
      (refl, (tt, (tt, tt)))
