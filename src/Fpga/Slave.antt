-- ===== src/Fpga/Slave.antt =====
-- The other end of the bus: a memory of 256 bytes with a pointer that moves on, as the EEPROMs and
-- the CPLDs have it, moved by the commands that the controller of channel `c` is given.
pub mod Told
pub mod Bytes
pub mod ReadBack
pub mod ByAdapter
mod Tests
use meta_bisdn_linux.Base.{ℕ, zero, suc, ◌+◌, ◌*◌, ◌%◌, ◌≡◌, List, [], ◌∷◌, ◌==◌, if◌then◌else◌}
use meta_bisdn_linux.Fpga.Bus.{
  Board, Trace, write, read, sleep, down, up, txr_addr, cmd_stat_addr, command_start_write,
  command_enable_write, command_read, command_ack_stop_read, command_stop,
}
use meta_bisdn_linux.Fpga.Protocol.{Command, put, got, commands}

-- What the next byte is for; `other` if the slave was not addressed.
pub data Phase : Type 0 where
  other pointing writing reading : Phase

-- `txr`: the value that the controller sends next; `out`: the byte that it received last.
pub record Slave : Type 0 where
  pub txr : ℕ
  pub phase : Phase
  pub pointer : ℕ
  pub out : ℕ
  pub memory : ℕ → ℕ

abbrev pub store_at : ℕ → ℕ → (ℕ → ℕ) → ℕ → ℕ
store_at p v m i = if i == p then v % 256 else m i

abbrev pub next : ℕ → ℕ
next p = (p + 1) % 256

-- A byte sent without a START.
abbrev pub take_byte : Phase → Slave → Slave
take_byte pointing s = record s { phase = writing; pointer = s.txr % 256 }
take_byte writing s = record s {
  pointer = next s.pointer;
  memory = store_at s.pointer s.txr s.memory;
}
take_byte reading s = s
take_byte other s = s

-- A byte asked for; `after` is the phase that follows.
abbrev pub give_byte : Phase → Phase → Slave → Slave
give_byte reading after s = record s {
  phase = after;
  pointer = next s.pointer;
  out = s.memory s.pointer;
}
give_byte _ after s = s

-- The slave with address `addr`.
abbrev pub execute : ℕ → ℕ → Slave → Slave
execute addr cmd s =
    if cmd == command_start_write
    then record s {
      phase =
          if s.txr == addr * 2 then pointing else if s.txr == addr * 2 + 1 then reading else other;
    }
    else if cmd == command_enable_write
    then take_byte s.phase s
    else if cmd == command_read
    then give_byte s.phase reading s
    else if cmd == command_ack_stop_read
    then give_byte s.phase other s
    else if cmd == command_stop
    then record s { phase = other }
    else s

abbrev pub serve_one : ℕ → ℕ → Command → Slave → Slave
serve_one c addr (put a v) s =
    if a == txr_addr c
    then record s { txr = v }
    else if a == cmd_stat_addr c
    then execute addr v s
    else s
serve_one c addr (got v) s = s

abbrev pub serve : ℕ → ℕ → Slave → List Command → Slave
serve c addr s [] = s
serve c addr s (cmd ∷ cmds) = serve c addr (serve_one c addr cmd s) cmds

-- The controller of channel `c` hands over what the slave `addr` gave last.
abbrev pub Serves : Board → ℕ → ℕ → Slave → Type 0
Serves b c addr s =
    (t : Trace) → b.register t (txr_addr c) % 256 ≡ (serve c addr s (commands c t)).out % 256

-- The values read are those that the board gave.
abbrev pub IsHonest : Board → Trace → Type 0
IsHonest b [] = Unit {0}
IsHonest b (read a v ∷ t) = (v ≡ b.register t a) × IsHonest b t
IsHonest b (write a v ∷ t) = IsHonest b t
IsHonest b (sleep lo hi ∷ t) = IsHonest b t
IsHonest b (down k rc ∷ t) = IsHonest b t
IsHonest b (up k ∷ t) = IsHonest b t
