-- ===== src/Sfp/Status/Signals.antt =====
-- The signals of the lanes of a QSFP module: sfp_eeprom_read, sfp_eeprom_write,
-- qsfp_update_tx_rx_status, qsfp_show_tx_rx_status and qsfp_set_tx_disable.
pub mod Lanes
pub mod Attributes
use meta_bisdn_linux.Base.{
  ℕ, zero, suc, ◌+◌, ◌/◌, ◌%◌, ◌^◌, List, [], ◌∷◌, map, set, get_or, ℤ, pos, negsuc, Bool, true,
  false, not, ◌&&◌, is_zero, is_neg, bit_and, ◌==◌, if◌then◌else◌, low_byte, with_bit,
}
use meta_bisdn_linux.Sfp.Bus.{word, time_before, enxio}
use meta_bisdn_linux.Sfp.Status.{
  CpldAccess, Port, Updated, err_ptr, data_ptr, Shown, failed, printed, take_lock, give_lock,
}
use meta_bisdn_linux.Sfp.Status.Present.{sfp_is_port_present}

-- i2c_smbus_read_byte_data and i2c_smbus_write_byte_data of the client, the clock, msleep and HZ.
pub record EepromAccess (S : Type 0) : Type 0 where
  pub read_byte_data : ℕ → S → ℤ × S
  pub write_byte_data : ℕ → ℕ → S → ℤ × S
  pub jiffies : S → ℕ × S
  pub msleep : ℕ → S → S
  pub hz : ℕ

abbrev pub i2c_rw_retry_count : ℕ
i2c_rw_retry_count = 10

abbrev pub i2c_rw_retry_interval : ℕ
i2c_rw_retry_interval = 60

abbrev pub sff8436_rx_los_addr : ℕ
sff8436_rx_los_addr = 3

abbrev pub sff8436_tx_fault_addr : ℕ
sff8436_tx_fault_addr = 4

abbrev pub sff8436_tx_disable_addr : ℕ
sff8436_tx_disable_addr = 86

-- `reg` of qsfp_update_tx_rx_status
abbrev pub signal_regs : List ℕ
signal_regs = sff8436_tx_fault_addr ∷ sff8436_tx_disable_addr ∷ sff8436_rx_los_addr ∷ []

-- The index of an attribute: TX_FAULT, TX_DISABLE or RX_LOS, or such an index of one lane, counted
-- from 0.
pub data Signal : Type 0 where
  tx_fault tx_disable rx_los : Signal

pub data SignalAttr : Type 0 where
  whole : Signal → SignalAttr
  lane : Signal → ℕ → SignalAttr

-- `!!x`
abbrev pub truth : ℕ → ℕ
truth x = if x == 0 then 0 else 1

-- The `switch` of qsfp_show_tx_rx_status.
unfoldable pub signal_value : SignalAttr → List ℕ → ℕ
signal_value (whole tx_fault) status = truth (bit_and (get_or status 2 0) 0xF)
signal_value (lane tx_fault i) status = truth (bit_and (get_or status 2 0) (2 ^ i))
signal_value (whole tx_disable) status = bit_and (get_or status 1 0) 0xF
signal_value (lane tx_disable i) status = truth (bit_and (get_or status 1 0) (2 ^ i))
signal_value (whole rx_los) status = truth (bit_and (get_or status 0 0) 0xF)
signal_value (lane rx_los i) status = truth (bit_and (get_or status 0 0) (2 ^ i))

-- The bits of `status[1]` that qsfp_set_tx_disable changes.
abbrev pub disable_mask : SignalAttr → ℕ
disable_mask (whole s) = 0xF
disable_mask (lane s i) = 2 ^ i

module _ {S : Type 0} (eeprom : EepromAccess S) where
  -- `while (retry)` around a transfer, with the status of the round before.
  unfoldable pub retry_loop : (S → ℤ × S) → ℕ → ℤ → S → ℤ × S
  retry_loop transfer zero status s = (status, s)
  retry_loop transfer (suc retry) _ s =
      let (status, s') = transfer s in
      elim (is_neg status) [
        | true ↦ retry_loop transfer retry status (eeprom.msleep i2c_rw_retry_interval s')
        | false ↦ (status, s')
      ]

  -- The status and the byte in `*data`, which held `byte`.
  unfoldable pub sfp_eeprom_read : ℕ → ℕ → S → ℤ × ℕ × S
  unfolding retry_loop
  sfp_eeprom_read command byte s =
      let (status, s') = retry_loop (eeprom.read_byte_data command) i2c_rw_retry_count (pos 0) s in
      elim (is_neg status) [ true ↦ (status, byte, s') | false ↦ (pos 1, low_byte status, s') ]

  unfoldable pub sfp_eeprom_write : ℕ → ℕ → S → ℤ × S
  unfolding retry_loop
  sfp_eeprom_write command byte s =
      let (status, s') =
        retry_loop (eeprom.write_byte_data command byte) i2c_rw_retry_count (pos 0) s in
      elim (is_neg status) [ true ↦ (status, s') | false ↦ (pos 1, s') ]

  -- A loop over the registers, with the status of the round before and what is in `buf`: the bytes
  -- that came, each under 0xF, and 0 from the first failure on.
  unfoldable pub signals_loop : List ℕ → ℤ → ℕ → S → ℤ × List ℕ × S
  unfolding sfp_eeprom_read
  signals_loop [] status buf s = (status, [], s)
  signals_loop (reg ∷ regs) _ buf s =
      let (status, buf', s') = sfp_eeprom_read reg buf s in
      elim (is_neg status) [
        | true ↦ (status, 0 ∷ map (λ _. 0) regs, s')
        | false ↦
            let (status', bytes, s'') = signals_loop regs status buf' s' in
            (status', bit_and buf' 0xF ∷ bytes, s'')
      ]

  -- The two loops, the second 200 ms after the first, which only lets the module update its
  -- registers; and the status that they leave.
  unfoldable pub signals : S → ℤ × List ℕ × S
  unfolding signals_loop
  signals s =
      let (status, ignored, s₁) = signals_loop signal_regs (negsuc 0) 0 s in
      elim (is_neg status) [
        | true ↦ (status, 0 ∷ 0 ∷ 0 ∷ [], s₁)
        | false ↦ signals_loop signal_regs status 0 (eeprom.msleep 200 s₁)
      ]

  unfoldable pub qsfp_update_tx_rx_status : Port S → Updated × Port S
  unfolding signals
  qsfp_update_tx_rx_status p =
      let (now, s) = eeprom.jiffies p.world in
      elim (time_before now ((p.last_updated + eeprom.hz + eeprom.hz / 2) % word) && p.valid) [
        | true ↦ (data_ptr, record p { world = s })
        | false ↦
            let (status, bytes, s₁) = signals s in
            let q : Port S = record (take_lock p) { valid = false; status = bytes; world = s₁ } in
            elim (is_neg status) [
              | true ↦ (err_ptr status, give_lock q)
              | false ↦
                  let (later, s₂) = eeprom.jiffies s₁ in
                  (
                    data_ptr,
                    give_lock (record q { valid = true; last_updated = later; world = s₂ }),
                  )
            ]
      ]

  -- The last part of qsfp_set_tx_disable, with the status updated.
  unfoldable pub write_disable : SignalAttr → ℤ → ℕ → Port S → ℤ × Port S
  unfolding sfp_eeprom_write
  write_disable attr disable count p =
      let byte = with_bit (not (is_zero disable)) (disable_mask attr) (get_or p.status 1 0) in
      let (status, s) = sfp_eeprom_write sff8436_tx_disable_addr byte p.world in
      let q : Port S = record (take_lock p) { status = set p.status 1 byte; world = s } in
      elim (is_neg status) [ true ↦ (status, give_lock q) | false ↦ (pos count, give_lock q) ]

  module _ (cpld : CpldAccess S) where
    unfoldable pub qsfp_show_tx_rx_status : SignalAttr → ℕ → Port S → Shown × Port S
    unfolding sfp_is_port_present qsfp_update_tx_rx_status signal_value
    qsfp_show_tx_rx_status attr port p =
        let (present, p₁) = sfp_is_port_present cpld port p in
        elim present [
          | negsuc k ↦ (failed (negsuc k), p₁)
          | pos zero ↦ (failed enxio, p₁)
          | pos (suc n) ↦
              let (updated, p₂) = qsfp_update_tx_rx_status p₁ in
              elim updated [
                | err_ptr e ↦ (failed e, p₂)
                | data_ptr ↦ (printed (signal_value attr p₂.status ∷ []), p₂)
              ]
        ]

    -- `parsed`: the status of kstrtol and the number.
    unfoldable pub qsfp_set_tx_disable : SignalAttr → ℕ → ℤ × ℤ → ℕ → Port S → ℤ × Port S
    unfolding sfp_is_port_present qsfp_update_tx_rx_status write_disable
    qsfp_set_tx_disable attr port (error, disable) count p =
        let (present, p₁) = sfp_is_port_present cpld port p in
        elim present [
          | negsuc k ↦ (negsuc k, p₁)
          | pos zero ↦ (enxio, p₁)
          | pos (suc n) ↦ elim (is_zero error) [
            | false ↦ (error, p₁)
            | true ↦
                let (updated, p₂) = qsfp_update_tx_rx_status p₁ in
                elim updated [
                  | err_ptr e ↦ (e, p₂)
                  | data_ptr ↦ write_disable attr disable count p₂
                ]
          ]
        ]
