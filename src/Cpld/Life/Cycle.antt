-- ===== src/Cpld/Life/Cycle.antt =====
-- A CPLD between its probe and its removal, and after that.
use meta_bisdn_linux.Base.{
  ℕ, ◌≡◌, ◌≢◌, refl, sym, ap, subst, ◌∙◌, inl, inr, Bool, true, false, true≢false, [], ◌∷◌, ℤ, pos,
  is_zero, ne→==, eq→==,
}
use meta_bisdn_linux.Base.Uses.{free}
use meta_bisdn_linux.Cpld.Bus.{I2cClient, eperm, Smbus, Trace, smbus_read, mutex_lock, mutex_unlock}
use meta_bisdn_linux.Cpld.Ports.{Model}
use meta_bisdn_linux.Cpld.Attributes.{CpldData}
use meta_bisdn_linux.Cpld.Registry.{
  ClientList, accton_i2c_cpld_add_client, accton_i2c_cpld_remove_client, accton_i2c_cpld_read,
}
use meta_bisdn_linux.Cpld.Registry.Routes.{
  Fresh, Reachable, added, registered_is_reached, read_first-Fresh,
}
use meta_bisdn_linux.Cpld.Life.{
  Resource, group_attrs, attribute_group, hwmon_dev, released, Held, Answers, act, kfree_attrs,
  accton_i2c_cpld_probe, accton_i2c_cpld_remove,
}
use meta_bisdn_linux.Cpld.Life.Settled.{use_of, held_by, probe_registers}

-- No client of the list is the same structure.
abbrev pub Absent : ℕ → ClientList → Type 0
Absent handle [] = Unit {0}
Absent handle (c ∷ clients) = (c.handle ≢ handle) × Absent handle clients

remove-Absent :
    (client : I2cClient) (clients : ClientList)
    → Absent client.handle clients
    → accton_i2c_cpld_remove_client client clients ≡ clients
unfolding accton_i2c_cpld_remove_client
remove-Absent client [] h = refl
remove-Absent client (c ∷ clients) (other, h) =
    rw (ne→== c.handle client.handle other, accton_i2c_cpld_remove_client)
      (ap (λ l. c ∷ l) (remove-Absent client clients h))

remove-add :
    (node : Bool) (client : I2cClient) (clients : ClientList)
    → Absent client.handle clients
    → accton_i2c_cpld_remove_client client (accton_i2c_cpld_add_client node client clients)
      ≡ clients
unfolding accton_i2c_cpld_remove_client accton_i2c_cpld_add_client
remove-add true client clients h =
    rw (eq→== client.handle client.handle refl, accton_i2c_cpld_remove_client) refl
remove-add false client clients h = remove-Absent client clients h

freed :
    (d : CpldData) (h : Held) (b : Bool) (r : Resource)
    → d.has_attrs ≡ b
    → ((q : Resource) → use_of q h.log ≡ held_by b q)
    → use_of r (kfree_attrs d (act (released attribute_group) (act (released hwmon_dev) h))).log
      ≡ free
freed d h true group_attrs e held_all = rw e (rw (held_all group_attrs) refl)
freed d h true attribute_group e held_all = rw e (rw (held_all attribute_group) refl)
freed d h true hwmon_dev e held_all = rw e (rw (held_all hwmon_dev) refl)
freed d h false group_attrs e held_all = rw e (rw (held_all group_attrs) refl)
freed d h false attribute_group e held_all = rw e (rw (held_all attribute_group) refl)
freed d h false hwmon_dev e held_all = rw e (rw (held_all hwmon_dev) refl)

-- What accton_i2c_cpld_read with the client's address does: with a node in the list it is a
-- transfer with the client, without one it is refused.
abbrev pub Reached : Bool → Smbus → I2cClient → ℕ → Trace → ℤ × Trace → Type 0
Reached true bus client reg t o =
    let (status, u) = smbus_read bus client reg (mutex_lock ∷ t) in o ≡ (status, mutex_unlock ∷ u)
Reached false bus client reg t o = o ≡ (eperm, mutex_unlock ∷ mutex_lock ∷ t)

reached :
    (node : Bool) (bus : Smbus) (client : I2cClient) (clients : ClientList) (reg : ℕ) (t : Trace)
    → Reachable clients
    → Fresh client.addr clients
    → Reached node bus client reg t (
        accton_i2c_cpld_read bus (accton_i2c_cpld_add_client node client clients) client.addr reg t)
unfolding accton_i2c_cpld_read accton_i2c_cpld_add_client
reached true bus client clients reg t r fresh =
    (registered_is_reached bus client (client ∷ clients) reg 0 t (added true client clients r fresh)
      (inl refl)).0
reached false bus client clients reg t r fresh =
    ap (λ (x : ℤ × Trace). (x.0, mutex_unlock ∷ x.1))
      (read_first-Fresh bus client.addr reg clients (mutex_lock ∷ t) fresh)

module _ (a : Answers) (client : I2cClient) (clients : ClientList) (model : Model) where
  -- After a probe that returns 0, of a client whose address and structure no client of the list
  -- has, accton_i2c_cpld_read with its address makes one transfer with it if there was memory for
  -- the node of the list, and returns -EPERM without a transfer if there was none; and
  -- accton_i2c_cpld_remove gives back all that is held, once each, and leaves the list as it was
  -- before the probe.
  pub probe_then_remove :
      (bus : Smbus) (reg : ℕ) (t : Trace)
      → Reachable clients
      → Fresh client.addr clients
      → Absent client.handle clients
      → let (status, d, h) =
          accton_i2c_cpld_probe a client model (record { log = []; clients = clients }) in
        let (status', h') = accton_i2c_cpld_remove client d h in
        status ≡ pos 0
        → Reached a.kzalloc_node bus client reg t
            (accton_i2c_cpld_read bus h.clients client.addr reg t)
          × (h'.clients ≡ clients)
          × ((r : Resource) → use_of r h'.log ≡ free)
  unfolding accton_i2c_cpld_remove
  probe_then_remove bus reg t reachable fresh absent zero_status =
      let o = accton_i2c_cpld_probe a client model (record { log = []; clients = clients }) in
      elim (probe_registers a client clients model) [
        | inl (bad, same_list, all_free) ↦ absurd (true≢false (sym (ap is_zero zero_status) ∙ bad))
        | inr (zero', listed, some_attribute, holds) ↦ (
          subst
              (λ l.
                Reached a.kzalloc_node bus client reg t
                  (accton_i2c_cpld_read bus l client.addr reg t))
              (sym listed) (reached a.kzalloc_node bus client clients reg t reachable fresh),
          ap (accton_i2c_cpld_remove_client client) listed
              ∙ remove-add a.kzalloc_node client clients absent,
          λ r. freed o.1 o.2 o.1.has_attrs r refl holds,
        )
      ]
