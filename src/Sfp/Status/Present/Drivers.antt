-- ===== src/Sfp/Status/Present/Drivers.antt =====
-- What the driver of the CPLDs and the driver of the ports show of the same modules.
use meta_bisdn_linux.Base.{
  ℕ, zero, suc, ◌+◌, ◌-◌, ◌*◌, ◌/◌, ◌%◌, ◌<◌, ◌≡◌, refl, sym, ap, ◌∙◌, arith, List, [], ◌∷◌, ◌++◌,
  length, get_or, bit,
}
use meta_bisdn_linux.Cpld.Bus.{I2cClient, Trace, Smbus}
use meta_bisdn_linux.Cpld.Bits.{CpldSensor}
use meta_bisdn_linux.Cpld.Ports.{csp7551}
use meta_bisdn_linux.Cpld.Memory.{contents, HoldsRegisters}
use meta_bisdn_linux.Cpld.Presence.{Hex, show_presnet_all}
use meta_bisdn_linux.Cpld.Presence.Text.{ShortHex, show_presnet_all-holds}
use meta_bisdn_linux.Cpld.Registry.{ClientList}
use meta_bisdn_linux.Cpld.Registry.Routes.{Member, Reachable}
use meta_bisdn_linux.Sfp.Status.{Cpld, Port, i2c_addr, printed}
use meta_bisdn_linux.Sfp.Status.Registers.{
  cpld_of, cpld_of-addr, cpld_driver, cpld_driver-KeepsRegisters,
}
use meta_bisdn_linux.Sfp.Status.Present.{present_attr, present_all, show_present}
use meta_bisdn_linux.Sfp.Status.Present.Agree.{present_agrees}

-- One of two numbers: the register of a port among those of its CPLD.
of_two :
    (f : ℕ → ℕ) (k : ℕ) → k < 2 → get_or (f 0x60 % 256 ∷ f 0x61 % 256 ∷ []) k 0 ≡ f (0x60 + k) % 256
of_two f zero h = refl
of_two f (suc zero) h = refl
of_two f (suc (suc k)) h = absurd (omega arith)

module _ (bus : Smbus) (initial : ℕ → ℕ → ℕ) (holds : HoldsRegisters bus initial)
    (client : Cpld → I2cClient) (clients : ClientList) (reachable : Reachable clients)
    (registered : (c : Cpld) → Member (client c) clients)
    (addressed : (c : Cpld) → (client c).addr ≡ i2c_addr c) where
  shown_register :
      (port : ℕ) (t : Trace)
      → port < 32
      → ((addr reg : ℕ) → contents initial t addr reg < 256)
      → let a = (client (cpld_of port)).addr in
        get_or
          (contents initial t a 0x60 % 256 ∷ contents initial t a 0x61 % 256 ∷ [])
          (port % 16 / 8)
          0
        ≡ contents initial t (0x62 + 2 * (port / 16)) (0x60 + port % 16 / 8)
  shown_register port t h b =
      let a = (client (cpld_of port)).addr in
      let k = port % 16 / 8 in
      let small = b a (0x60 + k) in
      let byte : contents initial t a (0x60 + k) % 256 ≡ contents initial t a (0x60 + k) =
        omega arith in
      of_two (contents initial t a) k (omega arith)
      ∙ byte
      ∙ ap (λ x. contents initial t x (0x60 + k)) (addressed (cpld_of port) ∙ cpld_of-addr port h)

  -- On CPLDs of CSP7551 whose transfers succeed and whose registers keep bytes, both of them
  -- registered, and with texts of at most two digits for "%x": for each port below 32,
  -- show_presnet_all, for a sensor at register 0x60 of the port's CPLD, prints the registers 0x60
  -- and 0x61 as text, with a blank between them. show_present of the port prints 1 if the bit of
  -- the port in its one of the two is 0, and 0 if it is 1; and among the bytes that it prints for
  -- all ports, the bit of the port is the same.
  pub drivers_agree :
      (hex : Hex) (sensor : CpldSensor) (port : ℕ) (p : Port Trace)
      → ShortHex hex
      → sensor.reg ≡ 0x60
      → port < 32
      → ((addr reg : ℕ) → contents initial p.world addr reg < 256)
      → let byte : ℕ → ℕ = λ reg. contents initial p.world (client (cpld_of port)).addr reg % 256 in
        let text = hex (byte 0x60) ++ b' ' ∷ hex (byte 0x61) ++ b'\n' ∷ [] in
        let absent = bit (get_or (byte 0x60 ∷ byte 0x61 ∷ []) (port % 16 / 8) 0) (port % 8) in
        ((show_presnet_all bus (client (cpld_of port)) hex csp7551 sensor p.world).0
          ≡ (length text, text))
        × ((show_present (cpld_driver bus clients) present_attr port p).0
            ≡ printed ((1 - absent) ∷ []))
        × (bytes : List ℕ) × ((show_present (cpld_driver bus clients) present_all port p).0
            ≡ printed bytes)
        × (bit (get_or bytes (port / 8) 0) (port % 8) ≡ 1 - absent)
  drivers_agree hex sensor port p short e h b =
      let a = (client (cpld_of port)).addr in
      let keeps =
        cpld_driver-KeepsRegisters bus initial holds client clients reachable registered
          addressed in
      let (one, bytes, all, same) =
        present_agrees (cpld_driver bus clients) (contents initial) keeps port p h b in
      let absent = ap (λ x. bit x (port % 8)) (sym (shown_register port p.world h b)) in
      let text : ℕ → (ℕ × List ℕ) = λ r.
        (let l =
            hex (contents initial p.world a r % 256)
            ++ b' ' ∷ hex (contents initial p.world a (r + 1) % 256)
            ++ b'\n' ∷ [] in
          (length l, l)) in
      (
        (ap (λ (r : (ℕ × List ℕ) × Trace). r.0)
              (show_presnet_all-holds bus initial holds (client (cpld_of port)) hex sensor p.world
                short (omega arith))
            ∙ ap text e),
        one ∙ ap (λ x. printed ((1 - x) ∷ [])) absent,
        bytes,
        all,
        same ∙ ap (λ x. 1 - x) absent,
      )
