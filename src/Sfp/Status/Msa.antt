-- ===== src/Sfp/Status/Msa.antt =====
-- The signals of SFP ports, which the CPLDs keep: sfp_update_tx_rx_status, sfp_set_tx_disable and
-- sfp_show_tx_rx_status, which pass QSFP ports on to the functions of Sfp.Status.Signals. The
-- driver sets up QSFP ports only, so that its SFP branches are not reached.
use meta_bisdn_linux.Base.{
  ℕ, zero, suc, ◌+◌, ◌-◌, ◌*◌, ◌/◌, ◌%◌, ◌^◌, List, [], ◌∷◌, set, get_or, ℤ, pos, negsuc, Bool,
  true, false, not, ◌&&◌, is_zero, bit_and, bit_or, ltb, ◌==◌, if◌then◌else◌, low_byte, with_bit,
  map,
}
use meta_bisdn_linux.Sfp.Bus.{word, time_before}
use meta_bisdn_linux.Sfp.Client.{DriverType, sfp_msa, sfp_ddm, qsfp, xfp}
use meta_bisdn_linux.Sfp.Status.{
  CpldAccess, Port, Updated, err_ptr, data_ptr, Shown, failed, printed, shl64, cpld1, cpld2,
  i2c_addr, take_lock, give_lock, cpld_read, cpld_write,
}
use meta_bisdn_linux.Sfp.Status.Signals.{
  EepromAccess, Signal, tx_fault, tx_disable, rx_los, whole, qsfp_show_tx_rx_status,
  qsfp_set_tx_disable, truth,
}

-- The index of an attribute: TX_FAULT, TX_DISABLE or RX_LOS, or RX_LOS_ALL.
pub data MsaAttr : Type 0 where
  one : Signal → MsaAttr
  rx_los_all : MsaAttr

abbrev pub no_status : List ℕ
no_status = 0 ∷ 0 ∷ 0 ∷ 0 ∷ 0 ∷ 0 ∷ []

-- `index` of sfp_show_tx_rx_status
abbrev pub status_index : Signal → ℕ
status_index tx_fault = 0
status_index tx_disable = 1
status_index rx_los = 2

-- The address, the register and the mask of sfp_set_tx_disable. The register is a u8, and
-- `(port - 24) / 8` is -1 for port 16 and 0 from there on.
abbrev pub disable_place : ℕ → ℕ × ℕ × ℕ
disable_place port =
    if ltb port 16 then (i2c_addr cpld1, (0xFF + port / 8) % 256, 2 ^ (port % 8)) else (
      i2c_addr cpld2,
      (if port == 16 then 0xFE else (0xFF + (port - 24) / 8) % 256),
      2 ^ (port % 8),
    )

-- `|= BIT_INDEX(port)` or `&= ~BIT_INDEX(port)`, on a u64.
abbrev pub with_bit64 : Bool → ℕ → ℕ → ℕ
with_bit64 asked mask x = if asked then bit_or x mask else bit_and x (2 ^ 64 - 1 - mask)

-- In a port of this kind, `valid`, `last_updated` and `status` are those of `msa`, and `status` has
-- 6 words.
module _ {S : Type 0} (cpld : CpldAccess S) where
  -- The inner loop, `n` rounds from `j` on, with the status of the round before.
  unfoldable pub msa_row : ℕ → ℕ → ℕ → ℤ → Port S → ℤ × Port S
  msa_row zero i j status p = (status, p)
  msa_row (suc n) i j _ p =
      let (status, p') = cpld_read cpld (i2c_addr cpld1 + i * 2) (0xC + j) p in
      elim status [
        | negsuc k ↦ (negsuc k, p')
        | pos v ↦
            let x = bit_or (get_or p'.status (j / 3) 0) (shl64 v (i * 24 + j % 3 * 8)) in
            msa_row n i (j + 1) (pos v) (record p' { status = set p'.status (j / 3) x })
      ]

  -- The outer loop.
  unfoldable pub msa_rows : ℕ → ℕ → ℤ → Port S → ℤ × Port S
  unfolding msa_row
  msa_rows zero i status p = (status, p)
  msa_rows (suc n) i status p =
      let (status', p') = msa_row 9 i 0 status p in
      elim status' [ negsuc k ↦ (negsuc k, p') | pos v ↦ msa_rows n (i + 1) (pos v) p' ]

  module _ (eeprom : EepromAccess S) where
    unfoldable pub sfp_update_tx_rx_status : Port S → Updated × Port S
    unfolding msa_rows
    sfp_update_tx_rx_status p =
        let (now, s) = eeprom.jiffies p.world in
        elim (time_before now ((p.last_updated + eeprom.hz + eeprom.hz / 2) % word) && p.valid) [
          | true ↦ (data_ptr, record p { world = s })
          | false ↦
              let q : Port S = record (take_lock p) {
                valid = false;
                status = no_status;
                world = s;
              } in
              let (status, q') = msa_rows 2 0 (negsuc 0) q in
              elim status [
                | negsuc k ↦ (err_ptr (negsuc k), give_lock q')
                | pos v ↦
                    let (later, s') = eeprom.jiffies q'.world in
                    (
                      data_ptr,
                      give_lock (record q' { valid = true; last_updated = later; world = s' }),
                    )
              ]
        ]

    -- sfp_show_tx_rx_status for a port that is not a QSFP port.
    unfoldable pub msa_show : MsaAttr → ℕ → Port S → Shown × Port S
    unfolding sfp_update_tx_rx_status
    msa_show attr port p =
        let (updated, p') = sfp_update_tx_rx_status p in
        elim updated [
          | err_ptr e ↦ (failed e, p')
          | data_ptr ↦ elim attr [
            | one s ↦ (
              printed (truth (bit_and (get_or p'.status (status_index s) 0) (2 ^ port)) ∷ []),
              p',
            )
            | rx_los_all ↦ (
              printed (
                  map (λ i. get_or p'.status 2 0 / 2 ^ (i * 8) % 256) (0 ∷ 1 ∷ 2 ∷ 3 ∷ 4 ∷ 5 ∷ [])),
              p',
            )
          ]
        ]

    -- sfp_set_tx_disable for such a port; what the reading and the writing return is not looked at.
    unfoldable pub msa_set_tx_disable : ℕ → ℤ × ℤ → ℕ → Port S → ℤ × Port S
    msa_set_tx_disable port (error, disable) count p = elim (is_zero error) [
      | false ↦ (error, p)
      | true ↦
          let asked = not (is_zero disable) in
          let (addr, reg, mask) = disable_place port in
          let (status, p₁) = cpld_read cpld addr reg (take_lock p) in
          let p₂ : Port S = record p₁ {
            status = set p₁.status 1 (with_bit64 asked (2 ^ port) (get_or p₁.status 1 0));
          } in
          (
            pos count,
            give_lock (cpld_write cpld addr reg (with_bit asked mask (low_byte status)) p₂).1,
          )
    ]

    -- RX_LOS_ALL is no attribute of a QSFP port: the `switch` of qsfp_show_tx_rx_status leaves 0.
    unfoldable pub sfp_show_tx_rx_status : DriverType → MsaAttr → ℕ → Port S → Shown × Port S
    unfolding msa_show qsfp_show_tx_rx_status
    sfp_show_tx_rx_status qsfp (one s) port p = qsfp_show_tx_rx_status eeprom cpld (whole s) port p
    sfp_show_tx_rx_status qsfp rx_los_all port p =
        let (shown, p') = qsfp_show_tx_rx_status eeprom cpld (whole rx_los) port p in
        (elim shown [ failed e ↦ failed e | printed _ ↦ printed (0 ∷ []) ], p')
    sfp_show_tx_rx_status sfp_msa attr port p = msa_show attr port p
    sfp_show_tx_rx_status sfp_ddm attr port p = msa_show attr port p
    sfp_show_tx_rx_status xfp attr port p = msa_show attr port p

    unfoldable pub sfp_set_tx_disable : DriverType → ℕ → ℤ × ℤ → ℕ → Port S → ℤ × Port S
    unfolding msa_set_tx_disable qsfp_set_tx_disable
    sfp_set_tx_disable qsfp port parsed count p =
        qsfp_set_tx_disable eeprom cpld (whole tx_disable) port parsed count p
    sfp_set_tx_disable sfp_msa port parsed count p = msa_set_tx_disable port parsed count p
    sfp_set_tx_disable sfp_ddm port parsed count p = msa_set_tx_disable port parsed count p
    sfp_set_tx_disable xfp port parsed count p = msa_set_tx_disable port parsed count p
