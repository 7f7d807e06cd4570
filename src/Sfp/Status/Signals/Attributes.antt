-- ===== src/Sfp/Status/Signals/Attributes.antt =====
-- What the attributes of the lanes of a QSFP module show, and what setting one does.
use meta_bisdn_linux.Base.{
  ℕ, zero, suc, ◌+◌, ◌-◌, ◌*◌, ◌/◌, ◌%◌, ◌^◌, ◌≤◌, ◌<◌, ◌≡◌, refl, sym, ap, ◌∙◌, arith, [], ◌∷◌,
  set, get_or, ℤ, pos, Bool, true, false, not, is_zero, is_neg, bit, bit_and, bit-nibble,
  bit_and-two_pow, bit-le, two_pow-positive, masked_zero, with_bit, bit-with_bit, ◌==◌,
  if◌then◌else◌,
}
use meta_bisdn_linux.Sfp.Status.{CpldAccess, Port, data_ptr, printed, take_lock, give_lock}
use meta_bisdn_linux.Sfp.Status.Present.{sfp_is_port_present}
use meta_bisdn_linux.Sfp.Status.Signals.{
  EepromAccess, Signal, tx_fault, tx_disable, rx_los, lane, signal_regs, signal_value, truth,
  qsfp_update_tx_rx_status, qsfp_show_tx_rx_status, write_disable, qsfp_set_tx_disable,
  sff8436_rx_los_addr, sff8436_tx_fault_addr, sff8436_tx_disable_addr,
}
use meta_bisdn_linux.Sfp.Status.Present.Single.{is_port_present-read, is_port_present-after}
use meta_bisdn_linux.Sfp.Status.Signals.Lanes.{
  KeepsBytes, status_of, status_of-same, eeprom_write_lem, update_lem,
}

-- The register of the module that the attributes of a signal show.
abbrev pub register_shown : Signal → ℕ
register_shown tx_fault = sff8436_rx_los_addr
register_shown tx_disable = sff8436_tx_disable_addr
register_shown rx_los = sff8436_tx_fault_addr

pub truth_of : (b : ℕ) → b ≤ 1 → (if b == 0 then 0 else 1) ≡ b
truth_of zero h = refl
truth_of (suc zero) h = refl
truth_of (suc (suc b)) h = absurd (omega arith)

truth-bit : (x i : ℕ) → i < 4 → truth (bit_and (x % 16) (2 ^ i)) ≡ bit x i
truth-bit x i h =
    let b = bit (x % 16) i in
    ap truth (bit_and-two_pow (x % 16) i)
    ∙ ap (λ (z : Bool). if z then 0 else 1)
        (masked_zero b (2 ^ i) (bit-le (x % 16) i) (two_pow-positive i))
    ∙ truth_of b (bit-le (x % 16) i)
    ∙ bit-nibble x i h

lane_value :
    (s : Signal) (i : ℕ) (f : ℕ → ℕ)
    → i < 4
    → signal_value (lane s i) (status_of f signal_regs) ≡ bit (f (register_shown s)) i
unfolding signal_value
lane_value tx_fault i f h = truth-bit (f 3) i h
lane_value tx_disable i f h = truth-bit (f 86) i h
lane_value rx_los i f h = truth-bit (f 4) i h

-- A port that has a module in it, as its CPLD says, and whose status has to be read.
pub record Stale {S : Type 0} (cpld : CpldAccess S) (port : ℕ) (p : Port S) : Type 0 where
  pub register : ℕ
  pub is_byte : register < 256
  pub read : (cpld.read (0x62 + 2 * (port / 16)) (0x60 + port % 16 / 8) p.world).0 ≡ pos register
  pub present : bit register (port % 8) ≡ 0
  pub invalid : p.valid ≡ false

module _ {S : Type 0} (eeprom : EepromAccess S) (cpld : CpldAccess S) (byte : S → ℕ → ℕ)
    (keeps : KeepsBytes eeprom byte)
    (cpld_keeps : (addr reg : ℕ) (s : S) (a : ℕ) → byte (cpld.read addr reg s).1 a ≡ byte s a) where
  -- The port once its presence is known, and once its status is read.
  status_read :
      (port : ℕ) (p : Port S)
      → port < 32
      → Stale cpld port p
      → let r = sfp_is_port_present cpld port p in
        let u = qsfp_update_tx_rx_status eeprom r.1 in
        (r.0 ≡ pos 1)
        × (u.0 ≡ data_ptr)
        × (u.1.status ≡ status_of (byte p.world) signal_regs)
        × ((a : ℕ) → byte u.1.world a ≡ byte p.world a)
  status_read port p h stale =
      let r = sfp_is_port_present cpld port p in
      let (world, valid) = is_port_present-after cpld port p h in
      let same : (a : ℕ) → byte r.1.world a ≡ byte p.world a =
        λ a. ap (λ w. byte w a) world ∙ cpld_keeps _ _ p.world a in
      let (read, status, kept) = update_lem eeprom byte keeps r.1 (valid ∙ stale.invalid) in
      (
        is_port_present-read cpld port stale.register p h stale.is_byte stale.read
            ∙ ap (λ b. pos (1 - b)) stale.present,
        read,
        status ∙ status_of-same (byte r.1.world) (byte p.world) signal_regs same,
        λ a. kept a ∙ same a,
      )

  lane_shows_register :
      (s : Signal) (i port : ℕ) (p : Port S)
      → i < 4
      → port < 32
      → Stale cpld port p
      → (qsfp_show_tx_rx_status eeprom cpld (lane s i) port p).0
        ≡ printed (bit (byte p.world (register_shown s)) i ∷ [])
  unfolding qsfp_show_tx_rx_status
  lane_shows_register s i port p h h' stale =
      let (present, read, status, kept) = status_read port p h' stale in
      rw (present, qsfp_show_tx_rx_status)
        (rw (read, qsfp_show_tx_rx_status)
          (ap (λ xs. printed (signal_value (lane s i) xs ∷ [])) status
            ∙ ap (λ x. printed (x ∷ [])) (lane_value s i (byte p.world) h)))

  written_lem :
      (i j : ℕ) (number : ℤ) (count : ℕ) (f : ℕ → ℕ) (q : Port S)
      → i < 4
      → j < 4
      → q.status ≡ status_of f signal_regs
      → ((a : ℕ) → byte q.world a ≡ f a)
      → let asked : ℕ = if not (is_zero number) then 1 else 0 in
        let r = write_disable eeprom (lane tx_disable i) number count q in
        (r.0 ≡ pos count)
        × (bit (byte r.1.world 86) j ≡ (if i == j then asked else bit (f 86) j))
        × ((a : ℕ) → byte r.1.world a ≡ (if 86 == a then get_or r.1.status 1 0 else f a))
  unfolding write_disable
  written_lem i j number count f q h h' status same =
      let asked = not (is_zero number) in
      let x = get_or q.status 1 0 in
      let v = with_bit asked (2 ^ i) x in
      let finish : ℤ × S → ℤ × Port S = λ o.
        let q' : Port S = record (take_lock q) { status = set q.status 1 v; world = o.1 } in
        elim (is_neg o.0) [ true ↦ (o.0, give_lock q') | false ↦ (pos count, give_lock q') ] in
      let e = ap finish (eeprom_write_lem eeprom byte keeps 86 v q.world) in
      let W = (eeprom.write_byte_data 86 v q.world).1 in
      let changes = keeps.write_changes 86 v q.world in
      let held : x ≡ f 86 % 16 = ap (λ xs. get_or xs 1 0) status in
      let stored : get_or (set q.status 1 v) 1 0 ≡ v = ap (λ xs. get_or (set xs 1 v) 1 0) status in
      (
        ap (λ (r : ℤ × Port S). r.0) e,
        ap (λ (r : ℤ × Port S). bit (byte r.1.world 86) j) e
            ∙ ap (λ y. bit y j) (changes 86)
            ∙ bit-with_bit asked x i j (omega arith) (omega arith)
            ∙ ap (λ y. if i == j then (if asked then 1 else 0) else bit y j) held
            ∙ ap (λ y. if i == j then (if asked then 1 else 0) else y) (bit-nibble (f 86) j h'),
        λ a.
            ap (λ (r : ℤ × Port S). byte r.1.world a) e
            ∙ changes a
            ∙ ap (λ y. if 86 == a then y else byte q.world a) (sym stored)
            ∙ ap (λ y. if 86 == a then get_or (set q.status 1 v) 1 0 else y) (same a)
            ∙ ap (λ (r : ℤ × Port S). if 86 == a then get_or r.1.status 1 0 else f a) (sym e),
      )

  set_lane_writes_register :
      (i j port : ℕ) (number : ℤ) (count : ℕ) (p : Port S)
      → i < 4
      → j < 4
      → port < 32
      → Stale cpld port p
      → let asked : ℕ = if not (is_zero number) then 1 else 0 in
        let r = qsfp_set_tx_disable eeprom cpld (lane tx_disable i) port (pos 0, number) count p in
        (r.0 ≡ pos count)
        × (bit (byte r.1.world 86) j ≡ (if i == j then asked else bit (byte p.world 86) j))
        × ((a : ℕ) → byte r.1.world a ≡ (if 86 == a then get_or r.1.status 1 0 else byte p.world a))
  unfolding qsfp_set_tx_disable
  set_lane_writes_register i j port number count p h h' h'' stale =
      let (present, read, status, kept) = status_read port p h'' stale in
      rw (present, qsfp_set_tx_disable)
        (rw (read, qsfp_set_tx_disable)
          (written_lem i j number count (byte p.world) _ h h' status kept))

  -- For a port with a module whose registers keep their bytes, and whose status is not valid: the
  -- attributes of a lane show its bit of a register of the module, those of TX_DISABLE of its
  -- TX_DISABLE register, but those of TX_FAULT of its RX_LOS register, and those of RX_LOS of its
  -- TX_FAULT register. And qsfp_set_tx_disable with a number for a lane succeeds: the bit of the
  -- lane in the TX_DISABLE register is then 1 if the number is not 0, and 0 if it is; the bits of
  -- the other lanes are what they were, and so are all other registers, and the status agrees with
  -- the register.
  pub lane_attributes_correct :
      (s : Signal) (i j port : ℕ) (number : ℤ) (count : ℕ) (p : Port S)
      → i < 4
      → j < 4
      → port < 32
      → Stale cpld port p
      → let asked : ℕ = if not (is_zero number) then 1 else 0 in
        let r = qsfp_set_tx_disable eeprom cpld (lane tx_disable i) port (pos 0, number) count p in
        ((qsfp_show_tx_rx_status eeprom cpld (lane s i) port p).0
          ≡ printed (bit (byte p.world (register_shown s)) i ∷ []))
        × (r.0 ≡ pos count)
        × (bit (byte r.1.world 86) j ≡ (if i == j then asked else bit (byte p.world 86) j))
        × ((a : ℕ) → byte r.1.world a ≡ (if 86 == a then get_or r.1.status 1 0 else byte p.world a))
  lane_attributes_correct s i j port number count p h h' h'' stale =
      let (done, bits, others) = set_lane_writes_register i j port number count p h h' h'' stale in
      (lane_shows_register s i port p h h'' stale, done, bits, others)
