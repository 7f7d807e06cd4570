-- ===== src/Cpld/Life/Settled.antt =====
-- What accton_i2c_cpld_probe and accton_i2c_cpld_remove leave, whatever the kernel answers.
use meta_bisdn_linux.Base.{
  ◌==◌, ◌≡◌, ◌≢◌, refl, ◌⊎◌, inl, inr, Bool, true, false, List, [], ◌∷◌, ℤ, pos, is_zero,
  if◌then◌else◌, Bool-cases, arith,
}
use meta_bisdn_linux.Base.Uses.{Use, free, held, take, give}
use meta_bisdn_linux.Cpld.Bus.{I2cClient}
use meta_bisdn_linux.Cpld.Ports.{Model}
use meta_bisdn_linux.Cpld.Attributes.{CpldData, no_attributes, add_attributes}
use meta_bisdn_linux.Cpld.Registry.{ClientList, accton_i2c_cpld_add_client}
use meta_bisdn_linux.Cpld.Life.{
  Resource, group_attrs, attribute_group, hwmon_dev, Act, acquired, released, Held, Answers, act,
  kfree_attrs, probe_hwmon, probe_group, probe_attributes, accton_i2c_cpld_probe, enodev,
}

abbrev same : Resource → Resource → Bool
same group_attrs group_attrs = true
same attribute_group attribute_group = true
same hwmon_dev hwmon_dev = true
same _ _ = false

abbrev pub use_of : Resource → List Act → Use
use_of r [] = free
use_of r (acquired q ∷ log) = if same r q then take (use_of r log) else use_of r log
use_of r (released q ∷ log) = if same r q then give (use_of r log) else use_of r log

-- What a CPLD holds after a probe that succeeds.
abbrev pub held_by : Bool → Resource → Use
held_by has_attrs group_attrs = if has_attrs then held else free
held_by has_attrs r = held

-- A probe with the list `clients`: it fails and leaves nothing, or succeeds, having
-- counted an attribute.
abbrev pub Settled : Bool → I2cClient → ClientList → ℤ × CpldData × Held → Type 0
Settled node client clients (status, d, h) =
    ((is_zero status ≡ false) × (h.clients ≡ clients) × ((r : Resource) → use_of r h.log ≡ free))
    ⊎ ((status ≡ pos 0)
        × (h.clients ≡ accton_i2c_cpld_add_client node client clients)
        × (d.num_attributes ≢ 0)
        × ((r : Resource) → use_of r h.log ≡ held_by d.has_attrs r))

abbrev start : Bool → List Act
start has_attrs = if has_attrs then acquired group_attrs ∷ [] else []

after_start :
    (b : Bool) (clients : ClientList) (d : CpldData) (r : Resource)
    → d.has_attrs ≡ b
    → (use_of r (kfree_attrs d (record { log = start b; clients = clients })).log ≡ free)
      × (use_of r
            (kfree_attrs d (record {
              log = released attribute_group ∷ acquired attribute_group ∷ start b;
              clients = clients;
            })).log
          ≡ free)
      × (use_of r (acquired hwmon_dev ∷ acquired attribute_group ∷ start b) ≡ held_by b r)
after_start true clients d group_attrs e = rw e (refl, refl, refl)
after_start true clients d attribute_group e = rw e (refl, refl, refl)
after_start true clients d hwmon_dev e = rw e (refl, refl, refl)
after_start false clients d group_attrs e = rw e (refl, refl, refl)
after_start false clients d attribute_group e = rw e (refl, refl, refl)
after_start false clients d hwmon_dev e = rw e (refl, refl, refl)

kept : (d : CpldData) (h : Held) → (kfree_attrs d h).clients ≡ h.clients
kept d h = elim (Bool-cases d.has_attrs) [ inl e ↦ rw e refl | inr e ↦ rw e refl ]

module _ (a : Answers) (client : I2cClient) (clients : ClientList) where
  abbrev begun : Bool → Held
  begun b = record { log = start b; clients = clients }

  group-Settled :
      (d : CpldData)
      → d.num_attributes ≢ 0
      → let (status, h) = probe_group a client d (begun d.has_attrs) in
        Settled a.kzalloc_node client clients (status, d, h)
  unfolding probe_group probe_hwmon
  group-Settled d some_attribute =
      let uses = λ (r : Resource). after_start d.has_attrs clients d r refl in
      elim (Bool-cases (is_zero a.sysfs_create_group)) [
        | inr bad ↦ rw (bad, probe_group) (inl (bad, kept d (begun d.has_attrs), λ r. (uses r).0))
        | inl good ↦
            rw (good, probe_group)
              (elim (Bool-cases (is_zero a.hwmon_device_register)) [
                | inr bad ↦ rw (bad, probe_hwmon) (inl (bad, kept d _, λ r. (uses r).1))
                | inl good' ↦
                    rw (good', probe_hwmon) (inr (refl, refl, some_attribute, λ r. (uses r).2))
              ])
      ]

  -- The data that add_attributes fills in, and what follows it.
  finish : ℤ × CpldData → ℤ × CpldData × Held
  finish (status, d) =
      let h =
        if d.has_attrs
        then act (acquired group_attrs) (record { log = []; clients = clients })
        else record { log = []; clients = clients } in
      let (status', rest) = probe_group a client d h in
      if is_zero status
      then (if d.num_attributes == 0 then (enodev, d, kfree_attrs d h) else (status', d, rest))
      else (status, d, kfree_attrs d h)

  begun_lem :
      (b : Bool)
      → (if b
          then act (acquired group_attrs) (record { log = []; clients = clients })
          else record { log = []; clients = clients })
        ≡ begun b
  begun_lem true = refl
  begun_lem false = refl

  finish-Settled :
      (status : ℤ) (d : CpldData) → Settled a.kzalloc_node client clients (finish (status, d))
  unfolding finish
  finish-Settled status d = rw (begun_lem d.has_attrs) (elim (Bool-cases (is_zero status)) [
    | inr bad ↦
        rw bad
          (inl (bad, kept d (begun d.has_attrs), λ r. (after_start d.has_attrs clients d r refl).0))
    | inl good ↦ rw good (elim (Bool-cases (d.num_attributes == 0)) [
      | inl none_left ↦ rw none_left (
          inl (refl, kept d (begun d.has_attrs), λ r. (after_start d.has_attrs clients d r refl).0))
      | inr some_left ↦ rw some_left (group-Settled d (ground arith))
    ])
  ])

  -- Whatever the kernel answers, accton_i2c_cpld_probe either returns an error, holds nothing and
  -- leaves the list of clients alone; or it returns 0 with num_attributes, which is raised before
  -- an attribute is allocated, above 0, holds the group, the hwmon device and the array of
  -- attributes if there is one, and has added the client to the list if there was memory for the
  -- node.
  pub probe_registers :
      (model : Model)
      → Settled a.kzalloc_node client clients
          (accton_i2c_cpld_probe a client model (record { log = []; clients = clients }))
  unfolding accton_i2c_cpld_probe probe_attributes finish
  probe_registers model = elim (Bool-cases a.check_functionality) [
    | inr bad ↦ rw bad (inl (refl, refl, λ r. refl))
    | inl good ↦ rw good (elim (Bool-cases a.kzalloc_data) [
      | inr bad' ↦ rw bad' (inl (refl, refl, λ r. refl))
      | inl good' ↦ rw good' (
          let o = add_attributes a.memory client.addr model no_attributes in finish-Settled o.0 o.1)
    ])
  ]
