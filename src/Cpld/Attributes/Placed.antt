-- ===== src/Cpld/Attributes/Placed.antt =====
-- The attributes of a CPLD of CSP7551 and the registers of its ports.
use meta_bisdn_linux.Base.{
  ℕ, zero, suc, ◌+◌, ◌*◌, ◌/◌, ◌%◌, ◌^◌, ◌≤◌, ◌<◌, ◌≡◌, ◌≢◌, refl, sym, ap, ◌∙◌, inl, inr, ◌==◌,
  Bool, true, false, Option, none, some, List, [], ◌∷◌, pos, arith, ◌&&◌, if◌then◌else◌, Bool-cases,
  eq→==, ne→==,
}
use meta_bisdn_linux.Cpld.Bits.{CpldSensor}
use meta_bisdn_linux.Cpld.Ports.{
  csp7551, sfp_num, found, get_present_reg, port_bit, csp7551_present,
}
use meta_bisdn_linux.Cpld.Attributes.{
  BaseName, version, access, module_present_all, major_version, minor_version, module_present,
  module_reset, Name, common, portly, Attrs, Sensor, CpldData, port_number, cmn_list, add_sensor,
  add_attributes_cmn, port_sensor, add_ports, add_attributes_portly, add_attributes,
}

abbrev index : BaseName → ℕ
index version = 0
index access = 1
index module_present_all = 2
index major_version = 3
index minor_version = 4
index module_present = 5
index module_reset = 6

abbrev pub same_name : Name → Name → Bool
same_name (common b) (common b') = index b == index b'
same_name (portly b n) (portly b' n') = (index b == index b') && (n == n')
same_name _ _ = false

-- The bits that the latest sensor of a name shows.
abbrev pub find : Name → List Sensor → Option CpldSensor
find name [] = none
find name (s ∷ sensors) = if same_name name s.name then some s.bits else find name sensors

number_lt : (addr i k : ℕ) → i < k → (port_number addr i == port_number addr k) ≡ false
number_lt addr i k h = elim (Bool-cases (addr == 0x62)) [
  | inl first ↦ rw first (ne→== (i + 1) (k + 1) (omega arith))
  | inr second ↦ rw second (ne→== (i + 17) (k + 17) (omega arith))
]

number_of : (port : ℕ) → port < 32 → port_number (0x62 + 2 * (port / 16)) (port % 16) ≡ port + 1
number_of port few = elim (Bool-cases (0x62 + 2 * (port / 16) == 0x62)) [
  | inl first ↦ let e : 0x62 + 2 * (port / 16) ≡ 0x62 = ground arith in rw first (omega arith)
  | inr second ↦ let e : 0x62 + 2 * (port / 16) ≢ 0x62 = ground arith in rw second (omega arith)
]

module _ (memory : ℕ → Bool) (enough : (k : ℕ) → memory k ≡ true) where
  sensor_added :
      (s : Sensor) (d : CpldData)
      → ((add_sensor memory s d).0 ≡ true) × ((add_sensor memory s d).1.sensors ≡ s ∷ d.sensors)
  unfolding add_sensor
  sensor_added s d = rw (enough d.allocations) (rw (enough (d.allocations + 1)) (refl, refl))

  module _ (addr : ℕ) (a : Attrs) where
    ports_sensors :
        (n j : ℕ) (d : CpldData)
        → let d' = (add_sensor memory (port_sensor addr a j) d).1 in
          add_ports memory addr a (suc n) j d ≡ add_ports memory addr a n (j + 1) d'
    unfolding add_ports
    ports_sensors n j d = rw ((sensor_added (port_sensor addr a j) d).0) refl

    ports_status : (n j : ℕ) (d : CpldData) → (add_ports memory addr a n j d).0 ≡ pos 0
    unfolding add_ports
    ports_status zero j d = refl
    ports_status (suc n) j d =
        ap (λ o. o.0) (ports_sensors n j d)
        ∙ ports_status n (j + 1) (add_sensor memory (port_sensor addr a j) d).1

    ports_skip :
        (name : Name) (n j : ℕ) (d : CpldData)
        → ((i : ℕ) → j ≤ i → same_name name (portly a.base (port_number addr i)) ≡ false)
        → find name (add_ports memory addr a n j d).1.sensors ≡ find name d.sensors
    unfolding add_ports
    ports_skip name zero j d other = refl
    ports_skip name (suc n) j d other =
        let d' = (add_sensor memory (port_sensor addr a j) d).1 in
        ap (λ o. find name o.1.sensors) (ports_sensors n j d)
        ∙ ports_skip name n (j + 1) d' (λ i h. other i (omega arith))
        ∙ ap (find name) (sensor_added (port_sensor addr a j) d).1
        ∙ rw (other j (omega arith)) refl

    ports_hit :
        (i n j : ℕ) (d : CpldData)
        → j ≤ i
        → i < j + n
        → find (portly a.base (port_number addr i)) (add_ports memory addr a n j d).1.sensors
          ≡ some (port_sensor addr a i).bits
    unfolding add_ports
    ports_hit i zero j d low high = absurd (omega arith)
    ports_hit i (suc n) j d low high =
        let name = portly a.base (port_number addr i) in
        let d' = (add_sensor memory (port_sensor addr a j) d).1 in
        ap (λ o. find name o.1.sensors) (ports_sensors n j d) ∙ elim (Bool-cases (i == j)) [
          | inl here ↦
              let e : i ≡ j = ground arith in
              ports_skip name n (j + 1) d' (λ k h.
                rw (eq→== (index a.base) (index a.base) refl, number_lt addr i k (omega arith))
                  refl)
              ∙ ap (find name) (sensor_added (port_sensor addr a j) d).1
              ∙ rw e (
                  rw
                    (
                      eq→== (index a.base) (index a.base) refl,
                      eq→== (port_number addr j) (port_number addr j) refl,
                    )
                    refl)
          | inr later ↦ ports_hit i n (j + 1) d' (ground arith) (omega arith)
        ]

  both_lists :
      (addr num : ℕ) (a b : Attrs) (d : CpldData)
      → (add_attributes_portly memory addr num (a ∷ b ∷ []) d).1
        ≡ (add_ports memory addr b (num / 2) 0 (add_ports memory addr a (num / 2) 0 d).1).1
  unfolding add_attributes_portly
  both_lists addr num a b d =
      let d' = (add_ports memory addr a (num / 2) 0 d).1 in
      rw (ports_status addr a (num / 2) 0 d) (rw (ports_status addr b (num / 2) 0 d') refl)

  -- The attributes of a port of one of the CPLDs, by the port's place in it.
  port_attributes :
      (addr i : ℕ) (d : CpldData)
      → i < 16
      → let sensors = (add_attributes memory addr csp7551 d).1.sensors in
        (find (portly module_present (port_number addr i)) sensors
          ≡ some (record { reg = (0x60 + i / 8) % 256; mask = 2 ^ (i % 8) % 256; invert = true }))
        × (find (portly module_reset (port_number addr i)) sensors
            ≡ some (record { reg = (0x78 + i / 8) % 256; mask = 2 ^ (i % 8) % 256; invert = true }))
  unfolding add_attributes sfp_num
  port_attributes addr i d few =
      let present : Attrs = record { base = module_present; reg = 0x60; invert = true } in
      let reset : Attrs = record { base = module_reset; reg = 0x78; invert = true } in
      let d0 = (add_attributes_cmn memory (cmn_list csp7551) d).1 in
      let d1 = (add_ports memory addr present 16 0 d0).1 in
      let e = both_lists addr 32 present reset d0 in
      (
        ap (λ x. find (portly module_present (port_number addr i)) x.sensors) e
            ∙ ports_skip addr reset (portly module_present (port_number addr i)) 16 0 d1
                (λ k h. refl)
            ∙ ports_hit addr present i 16 0 d0 (omega arith) (omega arith),
        ap (λ x. find (portly module_reset (port_number addr i)) x.sensors) e
            ∙ ports_hit addr reset i 16 0 d1 (omega arith) (omega arith),
      )

  -- With memory for all that it allocates, add_attributes gives each port of CSP7551, on the CPLD
  -- that get_present_reg names for it, an attribute module_present with the number of the port that
  -- shows, inverted, the port's bit of the register that get_present_reg names, and an attribute
  -- module_reset that shows the same bit of the register 24 further.
  pub port_attributes_placed :
      (port : ℕ) (d : CpldData)
      → port < sfp_num csp7551
      → (addr : ℕ) × (reg : ℕ) × (get_present_reg csp7551 port ≡ found addr reg 8)
        × (find (portly module_present (port + 1)) (add_attributes memory addr csp7551 d).1.sensors
            ≡ some (record { reg = reg; mask = 2 ^ port_bit port % 256; invert = true }))
        × (find (portly module_reset (port + 1)) (add_attributes memory addr csp7551 d).1.sensors
            ≡ some (record { reg = reg + 24; mask = 2 ^ port_bit port % 256; invert = true }))
  unfolding sfp_num
  port_attributes_placed port d few =
      let addr = 0x62 + 2 * (port / 16) in
      let place = port_attributes addr (port % 16) d (omega arith) in
      let number : port_number addr (port % 16) ≡ port + 1 = number_of port few in
      let reg : (0x60 + port % 16 / 8) % 256 ≡ 0x60 + port % 16 / 8 = omega arith in
      let reg' : (0x78 + port % 16 / 8) % 256 ≡ 0x60 + port % 16 / 8 + 24 = omega arith in
      let bit : port % 16 % 8 ≡ port % 8 = omega arith in
      (
        addr,
        0x60 + port % 16 / 8,
        csp7551_present port few,
        ap (λ q. find (portly module_present q) (add_attributes memory addr csp7551 d).1.sensors)
              (sym number)
            ∙ place.0
            ∙ rw (reg, bit) refl,
        ap (λ q. find (portly module_reset q) (add_attributes memory addr csp7551 d).1.sensors)
              (sym number)
            ∙ place.1
            ∙ rw (reg', bit) refl,
      )
