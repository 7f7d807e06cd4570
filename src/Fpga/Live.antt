-- ===== src/Fpga/Live.antt =====
-- Devices that are done with a command after some polls of the status, and the transfers that a
-- driver that waits longer than that completes.
pub mod Polls
pub mod Lands
pub mod Succeeds
use meta_bisdn_linux.Base.{
  ℕ, suc, ◌+◌, ◌≤◌, ◌<◌, ◌≡◌, ◌⊎◌, List, [], ◌∷◌, ◌==◌, if◌then◌else◌, bit_and,
}
use meta_bisdn_linux.Fpga.Bus.{
  Board, Trace, write, read, sleep, down, up, cmd_stat_addr, tip_bit, ack_bit, busy_bit,
  command_stop, command_ack_stop_read,
}

-- How often the status of channel `c` was read since its last command.
abbrev pub polls_since : ℕ → Trace → ℕ
polls_since c [] = 0
polls_since c (read a v ∷ t) =
    if a == cmd_stat_addr c then suc (polls_since c t) else polls_since c t
polls_since c (write a v ∷ t) = if a == cmd_stat_addr c then 0 else polls_since c t
polls_since c (sleep lo hi ∷ t) = polls_since c t
polls_since c (down k rc ∷ t) = polls_since c t
polls_since c (up k ∷ t) = polls_since c t

-- The last command of channel `c`, or 0.
abbrev pub last_command : ℕ → Trace → ℕ
last_command c [] = 0
last_command c (read a v ∷ t) = last_command c t
last_command c (write a v ∷ t) = if a == cmd_stat_addr c then v else last_command c t
last_command c (sleep lo hi ∷ t) = last_command c t
last_command c (down k rc ∷ t) = last_command c t
last_command c (up k ∷ t) = last_command c t

-- The last command was one that ends a transfer.
abbrev pub IsEnded : ℕ → Trace → Type 0
IsEnded c t = (last_command c t ≡ command_stop) ⊎ (last_command c t ≡ command_ack_stop_read)

-- After `d` polls the device has done the command and acknowledged it, and if it was the end of a
-- transfer the bus is idle; the driver polls more often than that.
pub record Settles (b : Board) (c d : ℕ) : Type 0 where
  pub patient : d < b.max_retry_time
  pub done :
      (t : Trace) → d ≤ polls_since c t → bit_and (b.register t (cmd_stat_addr c)) tip_bit ≡ 0
  pub acked :
      (t : Trace) → d ≤ polls_since c t → bit_and (b.register t (cmd_stat_addr c)) ack_bit ≡ 0
  pub idle :
      (t : Trace)
      → d ≤ polls_since c t
      → IsEnded c t
      → bit_and (b.register t (cmd_stat_addr c)) busy_bit ≡ 0
