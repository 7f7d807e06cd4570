-- ===== src/Fpga/Protocol.antt =====
-- The commands that a transfer issues on its channel, with sleeps, semaphores and status polls left
-- out, and the transcripts of an SMBus read and write that they have to make up.
use meta_bisdn_linux.Base.{
  ℕ, ◌≡◌, false, List, [], ◌∷◌, ◌++◌, append-nil, ◌==◌, if◌then◌else◌, arith, ne→==,
}
use meta_bisdn_linux.Fpga.Bus.{
  Board, Trace, Access, write, read, txr_addr, cmd_stat_addr, control_addr, prer_lo_addr,
  prer_hi_addr, prer_lo_default, prer_hi_default, control_disable, control_enable,
  command_start_write, command_enable_write, command_read, command_ack_stop_read, command_stop,
}
use meta_bisdn_linux.Fpga.Keeps.{Quiet}
use meta_bisdn_linux.Fpga.Read.{address_write, address_read}

-- A value stored in a register, or a value taken from TXR.
pub data Command : Type 0 where
  put : ℕ → ℕ → Command  -- address, value
  got : ℕ → Command

abbrev pub command : ℕ → Access → List Command
command c (write a v) = put a v ∷ []
command c (read a v) = if a == txr_addr c then got v ∷ [] else []
command c _ = []

-- In the order of time.
abbrev pub commands : ℕ → Trace → List Command
commands c [] = []
commands c (a ∷ t) = commands c t ++ command c a

-- One byte sent, by value and command.
abbrev pub sent : ℕ → ℕ → ℕ → List Command
sent c v cmd = put (txr_addr c) v ∷ put (cmd_stat_addr c) cmd ∷ []

-- The bytes of a read: each but the last is asked for with an ACK, and before the last one comes
-- the command that ends the transfer, which is issued also where no byte is asked for.
abbrev pub received : ℕ → List ℕ → List Command
received c [] = put (cmd_stat_addr c) command_ack_stop_read ∷ []
received c (x ∷ []) = put (cmd_stat_addr c) command_ack_stop_read ∷ got x ∷ []
received c (x ∷ y ∷ xs) = put (cmd_stat_addr c) command_read ∷ got x ∷ received c (y ∷ xs)

abbrev pub written : ℕ → List ℕ → List Command
written c [] = put (cmd_stat_addr c) command_stop ∷ []
written c (v ∷ vs) = sent c v command_enable_write ++ written c vs

-- Slave address with the write bit, slave memory address, slave address with the read bit, data.
abbrev pub read_transcript : ℕ → ℕ → ℕ → List ℕ → List Command
read_transcript c addr offset xs =
    sent c (address_write addr) command_start_write
    ++ (sent c offset command_enable_write
        ++ (sent c (address_read addr) command_start_write ++ received c xs))

-- Slave address with the write bit, slave memory address, data, STOP.
abbrev pub write_transcript : ℕ → ℕ → ℕ → List ℕ → List Command
write_transcript c addr offset vs =
    sent c (address_write addr) command_start_write
    ++ (sent c offset command_enable_write ++ written c vs)

-- The controller set up anew, and a STOP.
abbrev pub reset_transcript : ℕ → List Command
reset_transcript c =
    put (control_addr c) control_disable
    ∷ put (prer_lo_addr c) prer_lo_default
    ∷ put (prer_hi_addr c) prer_hi_default
    ∷ put (control_addr c) control_enable
    ∷ put (cmd_stat_addr c) command_stop
    ∷ []

abbrev pub stop_transcript : ℕ → List Command
stop_transcript c = put (cmd_stat_addr c) command_stop ∷ []

-- The commands so far are those of `cs`.
abbrev pub Issued : ℕ → List Command → Trace → Type 0
Issued c cs t = commands c t ≡ cs

pub stat-ne-txr : (c : ℕ) → (cmd_stat_addr c == txr_addr c) ≡ false
stat-ne-txr c = ne→== (cmd_stat_addr c) (txr_addr c) (omega arith)

-- Sleeps and status polls issue nothing.
pub quiet-Issued : (b : Board) (c : ℕ) (cs : List Command) → Quiet b (cmd_stat_addr c) (Issued c cs)
quiet-Issued b c cs = record {
  sleeps = λ x. record { at = λ t h. rw append-nil h };
  polls = record { at = λ t h. rw (stat-ne-txr c, append-nil) h };
}
