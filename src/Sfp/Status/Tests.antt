-- ===== src/Sfp/Status/Tests.antt =====
-- The theorems on the attributes of a port at concrete CPLDs and a concrete module.
use meta_bisdn_linux.Base.{
  ℕ, ◌<◌, ◌+◌, ◌/◌, ◌%◌, ltb, false, ◌≡◌, refl, inl, inr, arith, Option, some, true, List, [], ◌∷◌,
  pos, bit, get_or, ◌==◌, if◌then◌else◌,
}
use meta_bisdn_linux.Cpld.Bus.{I2cClient, Trace, Smbus}
use meta_bisdn_linux.Cpld.Registry.{ClientList, accton_i2c_cpld_add_client}
use meta_bisdn_linux.Cpld.Registry.Routes.{Member, Reachable, start, added}
use meta_bisdn_linux.Cpld.Memory.{contents, HoldsRegisters}
use meta_bisdn_linux.Sfp.Bus.{Event, Wire, plain_i2c, enxio}
use meta_bisdn_linux.Sfp.Attempt.{Got}
use meta_bisdn_linux.Sfp.Client.{PortData, qsfp}
use meta_bisdn_linux.Sfp.Status.{CpldAccess, Cpld, cpld1, cpld2, i2c_addr, Port, printed}
use meta_bisdn_linux.Sfp.Status.Present.{
  present_attr, present_all, show_present, sfp_bin_read, sfp_bin_write, enodev,
}
use meta_bisdn_linux.Sfp.Status.Present.Agree.{present_agrees}
use meta_bisdn_linux.Sfp.Status.Present.Drivers.{drivers_agree}
use meta_bisdn_linux.Cpld.Presence.{Hex, show_presnet_all}
use meta_bisdn_linux.Cpld.Presence.Text.{ShortHex}
use meta_bisdn_linux.Cpld.Bits.{CpldSensor}
use meta_bisdn_linux.Cpld.Ports.{csp7551}
use meta_bisdn_linux.Sfp.Status.Present.Access.{bin_access_needs_module}
use meta_bisdn_linux.Sfp.Status.Registers.{KeepsRegisters, cpld_driver, cpld_driver-KeepsRegisters}
use meta_bisdn_linux.Sfp.Status.Switches.{
  get_mode_reset, set_mode_reset, get_lp_mode_sel, set_lp_mode_sel,
}
use meta_bisdn_linux.Sfp.Status.Switches.RoundTrip.{number_of, switches_round_trip}
use meta_bisdn_linux.Sfp.Status.Signals.{
  EepromAccess, tx_fault, tx_disable, lane, qsfp_show_tx_rx_status, qsfp_set_tx_disable,
}
use meta_bisdn_linux.Sfp.Status.Signals.Lanes.{KeepsBytes}
use meta_bisdn_linux.Sfp.Status.Signals.Attributes.{Stale, lane_attributes_correct}
use meta_bisdn_linux.Sfp.Status.Invariant.{WellFormed}
use meta_bisdn_linux.Sfp.Status.Invariant.Reachable.{
  probed_port, probed, stepped, disable_set, Reachable-WellFormed,
}

-- CPLDs on a bus without failures: the registers at 0x60 begin with 0x81, the others with 0.
abbrev initial : ℕ → ℕ → ℕ
initial addr reg = if reg == 0x60 then 0x81 else 0

abbrev memory : Smbus
memory = record {
  read_status = λ t client reg. pos (contents initial t client.addr reg);
  write_status = λ t client reg v. pos 0;
}

memory-HoldsRegisters : HoldsRegisters memory initial
memory-HoldsRegisters = record { reads = λ t c reg. refl; writes = λ t c reg v. refl }

abbrev client : Cpld → I2cClient
client cpld1 = record { handle = 7; addr = 0x62 }
client cpld2 = record { handle = 9; addr = 0x64 }

abbrev both : ClientList
both =
    accton_i2c_cpld_add_client true (client cpld2)
      (accton_i2c_cpld_add_client true (client cpld1) [])

both-Reachable : Reachable both
unfolding accton_i2c_cpld_add_client
both-Reachable =
    added true (client cpld2) _ (added true (client cpld1) [] start tt)
      ((λ e. absurd (omega arith)), tt)

client-Member : (c : Cpld) → Member (client c) both
unfolding accton_i2c_cpld_add_client
client-Member cpld1 = inr (inl refl)
client-Member cpld2 = inl refl

client-addr : (c : Cpld) → (client c).addr ≡ i2c_addr c
client-addr cpld1 = refl
client-addr cpld2 = refl

driver_keeps : KeepsRegisters (cpld_driver memory both) (contents initial)
driver_keeps =
    cpld_driver-KeepsRegisters memory initial memory-HoldsRegisters client both both-Reachable
      client-Member client-addr

cpld_driver-KeepsRegisters_example : KeepsRegisters (cpld_driver memory both) (contents initial)
cpld_driver-KeepsRegisters_example =
    cpld_driver-KeepsRegisters memory initial memory-HoldsRegisters client both both-Reachable
      client-Member client-addr

abbrev port_on : Trace → Port Trace
port_on t = probed_port t

initial-byte : (addr reg : ℕ) → initial addr reg < 256
initial-byte addr reg = ground arith

present_agrees_example :
    ((show_present (cpld_driver memory both) present_attr 7 (port_on [])).0 ≡ printed (0 ∷ []))
    × (bytes : List ℕ) × ((show_present (cpld_driver memory both) present_all 7 (port_on [])).0
        ≡ printed bytes)
    × (bit (get_or bytes 0 0) 7 ≡ 0)
unfolding bit
present_agrees_example =
    present_agrees (cpld_driver memory both) (contents initial) driver_keeps 7 (port_on [])
      (omega arith) initial-byte

-- One or two digits of 16.
abbrev digit : ℕ → ℕ
digit n = if ltb n 10 then b'0' + n else 87 + n

abbrev two_digits : Hex
two_digits n = if ltb n 16 then digit n ∷ [] else digit (n / 16 % 16) ∷ digit (n % 16) ∷ []

two_digits-ShortHex : ShortHex two_digits
two_digits-ShortHex v = ground arith

abbrev all_ports : CpldSensor
all_ports = record { reg = 0x60; mask = 0xff; invert = false }

drivers_agree_example :
    ((show_presnet_all memory (client cpld1) two_digits csp7551 all_ports []).0
      ≡ (5, b'8' ∷ b'1' ∷ b' ' ∷ b'0' ∷ b'\n' ∷ []))
    × ((show_present (cpld_driver memory both) present_attr 7 (port_on [])).0 ≡ printed (0 ∷ []))
    × (bytes : List ℕ) × ((show_present (cpld_driver memory both) present_all 7 (port_on [])).0
        ≡ printed bytes)
    × (bit (get_or bytes 0 0) 7 ≡ 0)
unfolding bit
drivers_agree_example =
    drivers_agree memory initial memory-HoldsRegisters client both both-Reachable client-Member
      client-addr two_digits all_ports 7 (port_on []) two_digits-ShortHex refl (omega arith)
      initial-byte

switches_round_trip_example :
    let cpld = cpld_driver memory both in
    let p = port_on [] in
    ((p' : Port Trace) × (set_mode_reset cpld 20 (pos 0, pos 1) 2 p ≡ some (pos 2, p'))
      × (number_of (get_mode_reset cpld 20 p') ≡ some 1)
      × (number_of (get_lp_mode_sel cpld 20 p') ≡ number_of (get_lp_mode_sel cpld 20 p)))
    × ((p' : Port Trace) × (set_lp_mode_sel cpld 20 (pos 0, pos 1) 2 p ≡ some (pos 2, p'))
        × (number_of (get_lp_mode_sel cpld 20 p') ≡ some 1)
        × (number_of (get_mode_reset cpld 20 p') ≡ number_of (get_mode_reset cpld 20 p)))
switches_round_trip_example =
    switches_round_trip (cpld_driver memory both) (contents initial) driver_keeps 20 20 (pos 1) 2
      (port_on []) (omega arith) (omega arith)

-- A module with a register for each address, and CPLDs on which all bits are 0.
abbrev module_access : EepromAccess (ℕ → ℕ)
module_access = record {
  read_byte_data = λ r s. (pos (s r), s);
  write_byte_data = λ r v s. (pos 0, λ a. if r == a then v else s a);
  jiffies = λ s. (5, s);
  msleep = λ n s. s;
  hz = 250;
}

abbrev all_present : CpldAccess (ℕ → ℕ)
all_present = record { read = λ addr reg s. (pos 0, s); write = λ addr reg v s. (pos 0, s) }

module-KeepsBytes : KeepsBytes module_access (λ s. s)
module-KeepsBytes = record {
  reads = λ r s. refl;
  read_keeps = λ r s a. refl;
  writes = λ r v s. refl;
  write_changes = λ r v s a. refl;
  jiffies_keeps = λ s a. refl;
  msleep_keeps = λ n s a. refl;
}

-- A module whose TX_FAULT register alone has a bit, that of the third lane.
abbrev faulty : Port (ℕ → ℕ)
faulty = probed_port (λ r. if r == 4 then 4 else 0)

faulty-Stale : Stale all_present 3 faulty
unfolding bit
faulty-Stale = record {
  register = 0;
  is_byte = omega arith;
  read = refl;
  present = refl;
  invalid = refl;
}

lane_attributes_correct_example :
    let r =
      qsfp_set_tx_disable module_access all_present (lane tx_disable 2) 3 (pos 0, pos 1) 2 faulty in
    ((qsfp_show_tx_rx_status module_access all_present (lane tx_fault 2) 3 faulty).0
      ≡ printed (0 ∷ []))
    × (r.0 ≡ pos 2)
    × (bit (r.1.world 86) 2 ≡ 1)
    × ((a : ℕ) → r.1.world a ≡ (if 86 == a then get_or r.1.status 1 0 else faulty.world a))
unfolding bit
lane_attributes_correct_example =
    lane_attributes_correct module_access all_present (λ s. s) module-KeepsBytes
      (λ addr reg s a. refl) tx_fault 2 2 3 (pos 1) 2 faulty (omega arith) (omega arith)
      (omega arith) faulty-Stale

Reachable-WellFormed_example :
    WellFormed
      (qsfp_set_tx_disable module_access all_present
        (lane tx_disable 2)
        3
        (pos 0, pos 1)
        2
        faulty).1
Reachable-WellFormed_example = Reachable-WellFormed module_access all_present 3 _ (
    stepped faulty _ (probed faulty.world)
      (disable_set (lane tx_disable 2) (pos 0, pos 1) 2 faulty (omega arith)))

-- A wire on which nothing answers, and CPLDs on which no port has a module.
abbrev dead : Wire
dead = record {
  transfer_read = λ t reg count. (enxio, []);
  read_i2c_block_data = λ t reg count. (enxio, []);
  read_word_data = λ t reg. enxio;
  read_byte_data = λ t reg. enxio;
  transfer_write = λ t reg bytes. enxio;
  write_i2c_block_data = λ t reg bytes. enxio;
  write_word_data = λ t reg v. enxio;
  write_byte_data = λ t reg v. enxio;
  ticks = λ t. 0;
  write_timeout = 7;
}

abbrev none_present : CpldAccess (ℕ → ℕ)
none_present = record { read = λ addr reg s. (pos 255, s); write = λ addr reg v s. (pos 0, s) }

abbrev plain : PortData
plain = record { driver_type = qsfp; use_smbus = plain_i2c; write_max = 1 }

abbrev absent : Option Got × List Event
absent = (some (enodev, []), [])

abbrev result : Option Got × Port (ℕ → ℕ) × List Event → Option Got × List Event
result r = (r.0, r.2)

bin_access_needs_module_example :
    (result (sfp_bin_read none_present dead plain 3 4096 0 16 faulty []) ≡ absent)
    × (result (sfp_bin_write none_present dead plain 3 (7 ∷ []) 0 16 faulty []) ≡ absent)
unfolding bit
bin_access_needs_module_example =
    bin_access_needs_module none_present dead plain 3 4096 (7 ∷ []) 0 16 faulty [] (pos 255)
      (omega arith) (omega arith) refl
