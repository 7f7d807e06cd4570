-- ===== src/Sfp/Life/Settled.antt =====
-- sfp_device_probe leaves a port settled, whatever the kernel answers.
use meta_bisdn_linux.Base.{
  ℕ, zero, suc, ◌==◌, ◌≡◌, refl, sym, subst, ◌⊎◌, inl, inr, Bool, true, false, ◌&&◌, ◌||◌, Option,
  none, some, [], ◌∷◌, ℤ, pos, negsuc, is_neg, ltb, leb, arith, if◌then◌else◌, Bool-cases,
  true≢false,
}
use meta_bisdn_linux.Base.Uses.{free}
use meta_bisdn_linux.Sfp.Bus.{Mode, plain_i2c, i2c_block_data, word_data, byte_data}
use meta_bisdn_linux.Sfp.Client.{qsfp}
use meta_bisdn_linux.Sfp.Life.{
  i2c, read_i2c_block, read_word_data, read_byte_data, Client, Answers, Resource, port_data,
  writebuf, qsfp_data, qsfp_group, eeprom_file, acquired, released, set_clientdata, Log, Probed,
  choose_use_smbus, can_write, probed_write_max, probe_eeprom, probe_group, qsfp_probe,
  exit_kfree_buf, probe_port, probe_writebuf, probe_mode, probe_data, sfp_device_probe,
  csp7551_port1, csp7551_port32, sfp_eeprom_a0_i2c_addr,
}
use meta_bisdn_linux.Sfp.Life.Held.{
  use_of, uses, same_uses, held_by, read_func, Fits, Settled, IsStatus,
}

status_cases : (x : ℤ) → IsStatus x → (x ≡ pos 0) ⊎ ((k : ℕ) × (x ≡ negsuc k))
status_cases (pos zero) h = inl refl
status_cases (pos (suc n)) h = absurd (true≢false (sym h))
status_cases (negsuc k) h = inr (k, refl)

abbrev start : Bool → Log
start has_buf =
    if has_buf then acquired writebuf ∷ acquired port_data ∷ [] else acquired port_data ∷ []

abbrev prepared : Mode → ℕ → Bool → Probed
prepared mode most has_buf = record {
  data_of = record { driver_type = qsfp; use_smbus = mode; write_max = most };
  has_writebuf = has_buf;
}

write_max_one : (mode : Mode) → probed_write_max mode ≡ 1
write_max_one plain_i2c = refl
write_max_one i2c_block_data = refl
write_max_one word_data = refl
write_max_one byte_data = refl

-- The rest of the probe, after qsfp_probe.
abbrev close : Probed → ℤ × Log → ℤ × Option Probed × Log
close d (ret, log) = elim (is_neg ret) [
  | true ↦ (ret, none, exit_kfree_buf d.has_writebuf log)
  | false ↦ (ret, some d, log)
]

-- The logs of a probe, and of one that fails at each of its last steps.
abbrev ready : Bool → Log
ready b = set_clientdata ∷ start b

abbrev no_group : Bool → Log
no_group b = exit_kfree_buf b (released qsfp_data ∷ acquired qsfp_data ∷ ready b)

abbrev no_file : Bool → Log
no_file b =
    exit_kfree_buf b (
      released qsfp_data ∷ released qsfp_group ∷ acquired qsfp_group ∷ acquired qsfp_data ∷ ready b)

abbrev finished : Bool → Log
finished b = acquired eeprom_file ∷ acquired qsfp_group ∷ acquired qsfp_data ∷ ready b

failed_free :
    (log : Log) → uses (λ r. use_of r log) ≡ uses (λ r. free) → (r : Resource) → use_of r log ≡ free
failed_free log = same_uses (λ r. use_of r log) (λ r. free)

all_free :
    (b : Bool) (r : Resource)
    → (use_of r (exit_kfree_buf b (ready b)) ≡ free)
      × (use_of r (no_group b) ≡ free)
      × (use_of r (no_file b) ≡ free)
all_free true r = (
  failed_free (exit_kfree_buf true (ready true)) refl r,
  failed_free (no_group true) refl r,
  failed_free (no_file true) refl r,
)
all_free false r = (
  failed_free (exit_kfree_buf false (ready false)) refl r,
  failed_free (no_group false) refl r,
  failed_free (no_file false) refl r,
)

all_held : (b : Bool) (r : Resource) → use_of r (finished b) ≡ held_by b r
all_held true = same_uses (λ r. use_of r (finished true)) (held_by true) refl
all_held false = same_uses (λ r. use_of r (finished false)) (held_by false) refl

module _ (a : Answers) (group_status : IsStatus a.sysfs_create_group)
    (file_status : IsStatus a.sysfs_create_bin_file) (c : Client) where
  qsfp-Settled :
      (d : Probed)
      → Fits c d
      → Settled c (close d (qsfp_probe a (set_clientdata ∷ start d.has_writebuf)))
  unfolding qsfp_probe probe_group probe_eeprom
  qsfp-Settled d fits =
      let b = d.has_writebuf in
      elim (Bool-cases a.kzalloc_qsfp) [
        | inr bad ↦ rw (bad, qsfp_probe) (refl, λ r. (all_free b r).0)
        | inl got ↦
            rw (got, qsfp_probe)
              (elim (status_cases a.sysfs_create_group group_status) [
                | inr (k, e) ↦ rw (e, probe_group) (rw e (refl, λ r. (all_free b r).1))
                | inl e ↦
                    rw (e, probe_group)
                      (elim (status_cases a.sysfs_create_bin_file file_status) [
                        | inr (k, e') ↦ rw (e', probe_eeprom) (rw e' (refl, λ r. (all_free b r).2))
                        | inl e' ↦ rw (e', probe_eeprom) (refl, fits, all_held b)
                      ])
              ])
      ]

  abbrev IsPort : Type 0
  IsPort = (leb csp7551_port1 c.driver_data && leb c.driver_data csp7551_port32) ≡ true

  port-Settled :
      (d : Probed) → IsPort → Fits c d → Settled c (probe_port a c d (start d.has_writebuf))
  unfolding probe_port
  port-Settled d port fits =
      let log = set_clientdata ∷ start d.has_writebuf in
      subst (λ t. Settled c (close d (if t then qsfp_probe a log else (negsuc 0, log)))) (sym port)
        (qsfp-Settled d fits)

  writebuf-Settled :
      (mode : Mode)
      → IsPort
      → c.check_functionality (read_func mode) ≡ true
      → Settled c (probe_writebuf a c mode (acquired port_data ∷ []))
  unfolding probe_writebuf
  writebuf-Settled mode port can_read = elim (Bool-cases (can_write c.check_functionality mode)) [
    | inr bad ↦
        rw (bad, probe_writebuf)
          (port-Settled (prepared mode 0 false) port
            (record { is_qsfp = refl; reads = can_read; buffer = sym bad; one_byte = refl }))
    | inl good ↦
        rw (good, probe_writebuf)
          (elim (Bool-cases a.kmalloc_writebuf) [
            | inr none_left ↦
                rw (none_left, probe_writebuf)
                  (refl, failed_free (released port_data ∷ acquired port_data ∷ []) refl)
            | inl got ↦
                rw (got, probe_writebuf)
                  (port-Settled (prepared mode (probed_write_max mode) true) port (record {
                    is_qsfp = refl;
                    reads = can_read;
                    buffer = sym good;
                    one_byte = write_max_one mode;
                  }))
          ])
  ]

  -- With the mode chosen, the adapter can read in it.
  mode-Settled :
      IsPort
      → Settled c
          (probe_mode a c (choose_use_smbus c.check_functionality) (acquired port_data ∷ []))
  unfolding probe_mode choose_use_smbus
  mode-Settled port = elim (Bool-cases (c.check_functionality i2c)) [
    | inl good ↦ rw good (writebuf-Settled plain_i2c port good)
    | inr bad ↦ rw bad (elim (Bool-cases (c.check_functionality read_i2c_block)) [
      | inl good ↦ rw good (writebuf-Settled i2c_block_data port good)
      | inr bad ↦ rw bad (elim (Bool-cases (c.check_functionality read_word_data)) [
        | inl good ↦ rw good (writebuf-Settled word_data port good)
        | inr bad ↦ rw bad (elim (Bool-cases (c.check_functionality read_byte_data)) [
          | inl good ↦ rw good (writebuf-Settled byte_data port good)
          | inr bad ↦ rw bad (refl, failed_free (released port_data ∷ acquired port_data ∷ []) refl)
        ])
      ])
    ])
  ]

-- Where sysfs returns 0 or an error, so does sfp_device_probe. After an error nothing is held and
-- the client has no data. After 0 the port's data, its attributes and its EEPROM file are held,
-- the port is a QSFP port, its adapter can read in the mode that was chosen, and there is a buffer,
-- for writes of one byte, exactly if the adapter can write.
pub probe_settles :
    (a : Answers) (c : Client)
    → IsStatus a.sysfs_create_group
    → IsStatus a.sysfs_create_bin_file
    → Settled c (sfp_device_probe a c [])
unfolding sfp_device_probe probe_data
probe_settles a c group_status file_status = elim (Bool-cases (c.addr == sfp_eeprom_a0_i2c_addr)) [
  | inr other ↦ rw other (refl, λ r. refl)
  | inl here ↦
      rw here
        (elim (Bool-cases (ltb c.driver_data csp7551_port1 || ltb csp7551_port32 c.driver_data)) [
          | inl unknown ↦ rw unknown (refl, λ r. refl)
          | inr known ↦ rw known (elim (Bool-cases a.kzalloc_data) [
            | inr none_left ↦ rw (none_left, probe_data) (refl, λ r. refl)
            | inl got ↦
                rw (got, probe_data) (mode-Settled a group_status file_status c (ground arith))
          ])
        ])
]
