-- ===== src/Fpga/Transfer.antt =====
-- What fpga_smbus_read and fpga_smbus_write share: jumps to their labels, a byte sent or awaited
-- with its checks, and the code behind the labels `device_busy` and `no_ack_response`.
use meta_bisdn_linux.Base.{
  ltb, leb, ◌||◌, is_zero, ℕ, Bool, Option, none, some, ◌∷◌, ℤ, pos, negsuc, if◌then◌else◌,
}
use meta_bisdn_linux.Fpga.Bus.{
  Board, Trace, up, down, max_channel, Io, mmio_write, fpga_sleep, prer_lo_addr, prer_hi_addr,
  control_addr, txr_addr, cmd_stat_addr, prer_lo_default, prer_hi_default, control_disable,
  control_enable, command_stop,
}
use meta_bisdn_linux.Fpga.Poll.{fpga_smbus_check_busy, fpga_smbus_check_tip, fpga_smbus_check_ack}

-- How a stretch of code ends: it falls through, it jumps to a label with `stop_step`, or it touches
-- memory outside an array, after which nothing more is said.
pub data Result (A : Type 0) : Type 0 where
  ok : A → Result A
  device_busy : ℕ → Result A
  no_ack_response : ℕ → Result A
  fault : Result A

abbrev pub Action : Type 0 → Type 0
Action A = Trace → Result A × Trace

abbrev pub pure : {A : Type 0} → A → Action A
pure a t = (ok a, t)

abbrev pub jump : {A : Type 0} → Result A → Action A
jump r t = (r, t)

abbrev pub lift : {A : Type 0} → Io A → Action A
lift m t = let (a, t') = m t in (ok a, t')

abbrev pub and_then : {A B : Type 0} → Result A → Trace → (A → Action B) → Result B × Trace
and_then (ok a) t f = f a t
and_then (device_busy k) t f = (device_busy k, t)
and_then (no_ack_response k) t f = (no_ack_response k, t)
and_then fault t f = (fault, t)

infixl 5 ◌>>=◌ ◌>>◌
abbrev pub ◌>>=◌ : {A B : Type 0} → Action A → (A → Action B) → Action B
◌>>=◌ m f t = let (r, t') = m t in and_then r t' f

abbrev pub ◌>>◌ : {A B : Type 0} → Action A → Action B → Action B
m >> k = m >>= λ _. k

-- Error numbers of the kernel's <errno.h>.
abbrev pub einval : ℤ
einval = negsuc 21

abbrev pub erestartsys : ℤ
erestartsys = negsuc 511

abbrev pub ebusy : ℤ
ebusy = negsuc 15

abbrev pub etimedout : ℤ
etimedout = negsuc 109

module _ (b : Board) (c : ℕ) where
  -- `if(fpga_smbus_check_tip(...)) goto device_busy;` and the same for the ACK bit.
  unfoldable pub await_ack : ℕ → ℕ → Action ℕ
  await_ack step stat = do
    (busy, stat₁) ← lift (fpga_smbus_check_tip b (cmd_stat_addr c) stat)
    if busy then jump (device_busy step) else pure tt
    (nack, stat₂) ← lift (fpga_smbus_check_ack b (cmd_stat_addr c) stat₁)
    if nack then jump (no_ack_response step) else pure tt
    pure stat₂

  -- TXR, then CR, then the checks.
  unfoldable pub send : ℕ → ℕ → ℕ → ℕ → Action ℕ
  send txr_data command step stat = do
    lift (mmio_write (txr_addr c) txr_data)
    lift (mmio_write (cmd_stat_addr c) command)
    await_ack step stat

  -- `if(fpga_smbus_check_busy(...)) goto device_busy;`
  unfoldable pub await_idle : ℕ → ℕ → Action ℕ
  await_idle step stat = do
    (busy, stat₁) ← lift (fpga_smbus_check_busy b (cmd_stat_addr c) stat)
    if busy then jump (device_busy step) else pure tt
    pure stat₁

  -- The label `device_busy`: the controller is set up anew, and a STOP is issued.
  unfoldable pub reset_bus : ℕ → Io (Unit {0})
  reset_bus stat t =
      let (_, t₁) = mmio_write (control_addr c) control_disable t in
      let (_, t₂) = mmio_write (prer_lo_addr c) prer_lo_default t₁ in
      let (_, t₃) = mmio_write (prer_hi_addr c) prer_hi_default t₂ in
      let (_, t₄) = mmio_write (control_addr c) control_enable t₃ in
      let (_, t₅) = fpga_sleep 500 t₄ in
      let (_, t₆) = mmio_write (cmd_stat_addr c) command_stop t₅ in
      let (_, t₇) = fpga_smbus_check_busy b (cmd_stat_addr c) stat t₆ in (tt, t₇)

  -- The label `no_ack_response`: a STOP, and on to `device_busy` if the bus stays busy.
  unfoldable pub stop_bus : ℕ → Io Bool
  stop_bus stat t =
      let (_, t₁) = mmio_write (cmd_stat_addr c) command_stop t in
      let (out, t₂) = fpga_smbus_check_busy b (cmd_stat_addr c) stat t₁ in (out.0, t₂)

  -- From the end of the transfer to the return: `none` if memory was corrupted before. `i2c_stat`
  -- is only printed from here on, so its old value is left out.
  unfoldable pub leave : {A : Type 0} → A → Result A × Trace → Option (ℤ × A) × Trace
  leave unchanged (ok x, t) = (some (pos 0, x), up c ∷ t)
  leave unchanged (device_busy k, t) =
      let (_, t₁) = reset_bus 0 t in (some (ebusy, unchanged), up c ∷ t₁)
  leave unchanged (no_ack_response k, t) =
      let (busy, t₁) = stop_bus 0 t in
      let (_, t₂) = reset_bus 0 t₁ in
      if busy
      then (some (ebusy, unchanged), up c ∷ t₂)
      else (some (etimedout, unchanged), up c ∷ t₁)
  leave unchanged (fault, t) = (none, t)

-- The frame that fpga_smbus_read and fpga_smbus_write have in common: the check of the arguments,
-- `down_interruptible`, the transfer, the labels. The result is the return value and what was
-- stored for the caller (`unchanged` on an error); it is `none` where memory outside an array is
-- touched. `sem` has `max_channel` elements, and the check lets `channel == max_channel` through.
unfoldable pub with_channel :
    {A : Type 0} → Board → ℕ → ℕ → A → Action A → Trace → Option (ℤ × A) × Trace
with_channel b channel addr unchanged transfer t =
    if ltb 0x7F addr || ltb max_channel channel
    then (some (einval, unchanged), t)
    else if leb max_channel channel
    then (none, t)
    else let rc = b.interrupted t channel in
      let t₁ : Trace = down channel rc ∷ t in
      if is_zero rc
      then leave b channel unchanged (transfer t₁)
      else (some (erestartsys, unchanged), t₁)
