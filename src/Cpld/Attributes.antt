-- ===== src/Cpld/Attributes.antt =====
-- add_attributes and what it calls: the attributes of a CPLD, and the registers that they show.
pub mod Placed
use meta_bisdn_linux.Base.{
  ℕ, zero, suc, ◌+◌, ◌-◌, ◌/◌, ◌%◌, ◌^◌, ◌==◌, Bool, true, false, Option, none, some, List, [], ◌∷◌,
  ℤ, pos, negsuc, is_zero, if◌then◌else◌,
}
use meta_bisdn_linux.Cpld.Bits.{CpldSensor}
use meta_bisdn_linux.Cpld.Ports.{Model, csp9550, csp7551, plain, sfp_num}

pub data BaseName : Type 0 where
  version access module_present_all major_version minor_version module_present module_reset :
      BaseName

-- A name as it stands, and one with `_%d` and a number.
pub data Name : Type 0 where
  common : BaseName → Name
  portly : BaseName → ℕ → Name

pub record Attrs : Type 0 where
  pub base : BaseName
  pub reg : ℕ
  pub invert : Bool

-- The register of an attribute in csp9550_common, csp7551_common or plain_common; those that are
-- not in the table are not in the model's list.
abbrev common_reg : Model → BaseName → ℕ
common_reg m version = 0x01
common_reg m access = 0x00
common_reg csp9550 module_present_all = 0x30
common_reg csp7551 module_present_all = 0x60
common_reg m major_version = 0x01
common_reg m minor_version = 0x02
common_reg _ _ = 0

abbrev common_attr : Model → BaseName → Attrs
common_attr m base = record { base = base; reg = common_reg m base; invert = false }

abbrev pub cmn_list : Model → List Attrs
cmn_list csp9550 =
    common_attr csp9550 version
    ∷ common_attr csp9550 access
    ∷ common_attr csp9550 module_present_all
    ∷ []
cmn_list csp7551 =
    common_attr csp7551 access
    ∷ common_attr csp7551 module_present_all
    ∷ common_attr csp7551 major_version
    ∷ common_attr csp7551 minor_version
    ∷ []
cmn_list plain = common_attr plain version ∷ []

-- csp9550_port and csp7551_port
abbrev port_attr : BaseName → ℕ → Attrs
port_attr base reg = record { base = base; reg = reg; invert = true }

abbrev csp9550_port : List Attrs
csp9550_port = port_attr module_present 0x70 ∷ port_attr module_reset 0x40 ∷ []

abbrev csp7551_port : List Attrs
csp7551_port = port_attr module_present 0x60 ∷ port_attr module_reset 0x78 ∷ []

-- `none` is NULL.
abbrev pub port_list : Model → Option (List Attrs)
port_list csp9550 = some csp9550_port
port_list csp7551 = some csp7551_port
port_list plain = none

pub record Sensor : Type 0 where
  pub name : Name
  pub bits : CpldSensor

-- The fields of `struct cpld_data` that add_attributes changes, and how many allocations there
-- were. `attrs` has NULL where nothing was written; `has_attrs`: the pointer itself is not NULL.
pub record CpldData : Type 0 where
  pub sensors : List Sensor
  pub num_attributes : ℕ
  pub attrs : ℕ → Option Name
  pub has_attrs : Bool
  pub allocations : ℕ

-- The data as kzalloc gives it.
abbrev pub no_attributes : CpldData
no_attributes = record {
  sensors = [];
  num_attributes = 0;
  attrs = λ i. none;
  has_attrs = false;
  allocations = 0;
}

abbrev pub enomem : ℤ
enomem = negsuc 11

-- The register and the mask of a port, both of 8 bits.
abbrev pub get_reg_bit : ℕ → ℕ → ℕ × ℕ
get_reg_bit reg_start port = ((reg_start + port / 8) % 256, 2 ^ (port % 8) % 256)

-- The number of the port's bit `j` in the name.
abbrev pub port_number : ℕ → ℕ → ℕ
port_number addr j = if addr == 0x62 then j + 1 else j + 17

abbrev pub port_sensor : ℕ → Attrs → ℕ → Sensor
port_sensor addr a j =
    let (reg, mask) = get_reg_bit a.reg j in
    record {
      name = portly a.base (port_number addr j);
      bits = record { reg = reg; mask = mask; invert = a.invert };
    }

-- Whether there is memory for the allocation.
module _ (memory : ℕ → Bool) where
  abbrev pub cpld_add_attribute : Name → CpldData → ℤ × CpldData
  cpld_add_attribute name data_ =
      let n = data_.num_attributes + 1 in
      let kept = record data_ { num_attributes = n; allocations = data_.allocations + 1 } in
      if memory data_.allocations
      then (
        pos 0,
        record kept {
          attrs = λ i. if i == n - 1 then some name else if i == n then none else data_.attrs i;
          has_attrs = true;
        },
      )
      else (enomem, kept)

  -- Whether it returns a sensor, not NULL.
  unfoldable pub add_sensor : Sensor → CpldData → Bool × CpldData
  add_sensor sensor data_ =
      let taken = record data_ { allocations = data_.allocations + 1 } in
      let (status, added) = cpld_add_attribute sensor.name taken in
      if memory data_.allocations
      then (if is_zero status
          then (true, record added { sensors = sensor ∷ added.sensors })
          else (false, added))
      else (false, taken)

  unfoldable pub add_attributes_cmn : List Attrs → CpldData → ℤ × CpldData
  unfolding add_sensor
  add_attributes_cmn [] data_ = (pos 0, data_)
  add_attributes_cmn (a ∷ cmn) data_ =
      let bits : CpldSensor = record { reg = a.reg; mask = 0xff; invert = a.invert } in
      let (added, data') = add_sensor (record { name = common a.base; bits = bits }) data_ in
      let rest = add_attributes_cmn cmn data' in if added then rest else (enomem, data')

  module _ (addr : ℕ) where
    -- The loop over the ports, `n` of them from `j` on.
    unfoldable pub add_ports : Attrs → ℕ → ℕ → CpldData → ℤ × CpldData
    unfolding add_sensor
    add_ports a zero j data_ = (pos 0, data_)
    add_ports a (suc n) j data_ =
        let (added, data') = add_sensor (port_sensor addr a j) data_ in
        let rest = add_ports a n (j + 1) data' in if added then rest else (enomem, data')

    unfoldable pub add_attributes_portly : ℕ → List Attrs → CpldData → ℤ × CpldData
    unfolding add_ports
    add_attributes_portly num [] data_ = (pos 0, data_)
    add_attributes_portly num (a ∷ pa) data_ =
        let (status, data') = add_ports a (num / 2) 0 data_ in
        let rest = add_attributes_portly num pa data' in
        if is_zero status then rest else (enomem, data')

    -- The results of both parts are not looked at.
    unfoldable pub add_attributes : Model → CpldData → ℤ × CpldData
    unfolding add_attributes_cmn add_attributes_portly sfp_num
    add_attributes model data_ =
        let (status, data') = add_attributes_cmn (cmn_list model) data_ in
        elim (port_list model) [
          | none ↦ (pos 0, data')
          | some pa ↦ (pos 0, (add_attributes_portly (sfp_num model) pa data').1)
        ]
