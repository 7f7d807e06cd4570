-- ===== src/Cpld/Tests.antt =====
-- The theorems on the CPLD driver at concrete lists and buses.
use meta_bisdn_linux.Base.{
  ℕ, ◌^◌, ◌%◌, bit, with_bit, low_byte, false, is_zero, ◌+◌, not, ◌<◌, ◌≡◌, refl, sym, ap, inl, inr,
  arith, some, [], ◌∷◌, ℤ, pos, negsuc, true, is_neg, if◌then◌else◌,
}
use meta_bisdn_linux.Cpld.Bus.{
  I2cClient, read_byte_data, write_byte_data, mutex_lock, mutex_unlock, Trace, Smbus, smbus_read,
  smbus_write, eperm, eio,
}
use meta_bisdn_linux.Cpld.Retry.{cpld_read_internal, cpld_write_internal, Tried, internal_retries}
use meta_bisdn_linux.Cpld.Ports.{sfp_num, csp7551, sfp_num, get_present_reg, found, port_bit}
use meta_bisdn_linux.Cpld.Attributes.{
  no_attributes, portly, module_present, module_reset, add_attributes,
}
use meta_bisdn_linux.Cpld.Attributes.Placed.{find, port_attributes_placed}
use meta_bisdn_linux.Cpld.Bits.{CpldSensor, show_bit, set_1bit, set_1bit_correct}
use meta_bisdn_linux.Cpld.Memory.{contents, HoldsRegisters, set_1bit-show_bit}
use meta_bisdn_linux.Cpld.Registry.{
  ClientList, accton_i2c_cpld_add_client, accton_i2c_cpld_remove_client, accton_i2c_cpld_read,
  accton_i2c_cpld_write,
}
use meta_bisdn_linux.Cpld.Registry.Routes.{
  Member, Reachable, start, added, registered_is_reached, removed_is_refused,
}

abbrev cpld1 : I2cClient
cpld1 = record { handle = 7; addr = 0x62 }

abbrev cpld2 : I2cClient
cpld2 = record { handle = 9; addr = 0x64 }

-- A bus that fails at first, and answers once something has happened.
abbrev warming_up : Smbus
warming_up = record {
  read_status = λ t client reg. elim t [ [] ↦ negsuc 5 | _ ∷ _ ↦ pos 3 ];
  write_status = λ t client reg v. elim t [ [] ↦ negsuc 5 | _ ∷ _ ↦ pos 0 ];
}

abbrev both : ClientList
both = accton_i2c_cpld_add_client true cpld2 (accton_i2c_cpld_add_client true cpld1 [])

both-Reachable : Reachable both
unfolding accton_i2c_cpld_add_client
both-Reachable = added true cpld2 _ (added true cpld1 [] start tt) ((λ e. absurd (omega arith)), tt)

first-Member : Member cpld1 both
unfolding accton_i2c_cpld_add_client
first-Member = inr (inl refl)

alone : (c : I2cClient) → Member c both → c.handle ≡ cpld1.handle → c ≡ cpld1
unfolding accton_i2c_cpld_add_client
alone c (inl e) h = let e' = ap (λ (x : I2cClient). x.handle) e in absurd (omega arith)
alone c (inr (inl e)) h = sym e
alone c (inr (inr m)) h = absurd m

internal_retries_example :
    Tried (read_byte_data cpld1 0x60) 10 [] (cpld_read_internal warming_up cpld1 0x60 [])
    × Tried (write_byte_data cpld1 0x60 5) 10 [] (cpld_write_internal warming_up cpld1 0x60 5 [])
internal_retries_example = internal_retries warming_up cpld1 0x60 5 []

registered_is_reached_example :
    let (status, u) = smbus_read warming_up cpld1 0x60 (mutex_lock ∷ []) in
    let (status', u') = smbus_write warming_up cpld1 0x60 5 (mutex_lock ∷ []) in
    (accton_i2c_cpld_read warming_up both 0x62 0x60 [] ≡ (status, mutex_unlock ∷ u))
    × (accton_i2c_cpld_write warming_up both 0x62 0x60 5 [] ≡ (status', mutex_unlock ∷ u'))
registered_is_reached_example =
    registered_is_reached warming_up cpld1 both 0x60 5 [] both-Reachable first-Member

removed_is_refused_example :
    let rest = accton_i2c_cpld_remove_client cpld1 both in
    let u : Trace = mutex_unlock ∷ mutex_lock ∷ [] in
    (accton_i2c_cpld_read warming_up rest 0x62 0x60 [] ≡ (eperm, u))
    × (accton_i2c_cpld_write warming_up rest 0x62 0x60 5 [] ≡ (eio, u))
removed_is_refused_example =
    removed_is_refused warming_up cpld1 both 0x60 5 [] both-Reachable alone first-Member

in_csp7551 : 19 < sfp_num csp7551
unfolding sfp_num
in_csp7551 = omega arith

port_attributes_placed_example :
    (addr : ℕ) × (reg : ℕ) × (get_present_reg csp7551 19 ≡ found addr reg 8)
    × (find
          (portly module_present 20)
          (add_attributes (λ k. true) addr csp7551 no_attributes).1.sensors
        ≡ some (record { reg = reg; mask = 2 ^ port_bit 19 % 256; invert = true }))
    × (find
          (portly module_reset 20)
          (add_attributes (λ k. true) addr csp7551 no_attributes).1.sensors
        ≡ some (record { reg = reg + 24; mask = 2 ^ port_bit 19 % 256; invert = true }))
port_attributes_placed_example =
    port_attributes_placed (λ k. true) (λ k. refl) 19 no_attributes in_csp7551

abbrev reset_bit : CpldSensor
reset_bit = record { reg = 0x40; mask = 8; invert = true }

set_1bit_correct_example :
    let is_reset =
      if reset_bit.invert then not (not (is_zero (pos 1))) else not (is_zero (pos 1)) in
    (is_zero (pos 0) ≡ false
      → set_1bit warming_up cpld1 reset_bit (pos 0, pos 1) 2 [] ≡ (pos 0, []))
    × (is_zero (pos 0) ≡ true
        → (r : ℤ × Trace) × (r' : ℤ × Trace) × Tried
            (read_byte_data cpld1 0x40)
            10
            (mutex_lock ∷ [])
            r
          × Tried (write_byte_data cpld1 0x40 (with_bit is_reset 8 (low_byte r.0))) 10 r.1 r'
          × (set_1bit warming_up cpld1 reset_bit (pos 0, pos 1) 2 []
              ≡ ((if is_neg r'.0 then r'.0 else pos 2), mutex_unlock ∷ r'.1)))
set_1bit_correct_example = set_1bit_correct warming_up cpld1 reset_bit (pos 0) (pos 1) 2 []

-- A bus without failures, on which every register begins with 0.
abbrev memory : Smbus
memory = record {
  read_status = λ t client reg. pos (contents (λ addr r. 0) t client.addr reg);
  write_status = λ t client reg v. pos 0;
}

memory-HoldsRegisters : HoldsRegisters memory (λ addr r. 0)
memory-HoldsRegisters = record { reads = λ t c reg. refl; writes = λ t c reg v. refl }

set_1bit-show_bit_example :
    let (status, u) = set_1bit memory cpld1 reset_bit (pos 0, pos 1) 2 [] in
    (status ≡ pos 2)
    × ((show_bit memory cpld1 reset_bit u).0 ≡ 1)
    × (bit (contents (λ addr r. 0) u 0x62 0x40) 3 ≡ 0)
set_1bit-show_bit_example =
    set_1bit-show_bit memory (λ addr r. 0) memory-HoldsRegisters cpld1 reset_bit 3 3 0x62 0x40
      (pos 1) 2 [] (omega arith) (omega arith) refl
