-- ===== src/Cpld/Registry/Routes.antt =====
-- Which client accton_i2c_cpld_read and accton_i2c_cpld_write reach, in the lists that the driver
-- can come to.
use meta_bisdn_linux.Base.{
  ℕ, ◌≡◌, ◌≢◌, refl, sym, ap, subst, ◌∙◌, inl, inr, ◌⊎◌, arith, [], ◌∷◌, ℤ, Bool, true, false,
  Bool-cases, ◌==◌, eq→==, ne→==,
}
use meta_bisdn_linux.Cpld.Bus.{
  I2cClient, mutex_lock, mutex_unlock, Trace, Smbus, smbus_read, smbus_write, eperm, eio,
}
use meta_bisdn_linux.Cpld.Registry.{
  ClientList, accton_i2c_cpld_add_client, accton_i2c_cpld_remove_client, read_first, write_first,
  accton_i2c_cpld_read, accton_i2c_cpld_write,
}

-- No client in the list has the address `a`.
abbrev pub Fresh : ℕ → ClientList → Type 0
Fresh a [] = Unit {0}
Fresh a (c ∷ clients) = (c.addr ≢ a) × Fresh a clients

-- The addresses are distinct.
abbrev pub Distinct : ClientList → Type 0
Distinct [] = Unit {0}
Distinct (c ∷ clients) = Fresh c.addr clients × Distinct clients

abbrev pub Member : I2cClient → ClientList → Type 0
Member client [] = ⊥
Member client (c ∷ clients) = (c ≡ client) ⊎ Member client clients

-- What probing and removing devices can make of the list: the bus has no two devices of one
-- address, and an address is probed only while no device has it.
pub data Reachable : ClientList → Type 0 where
  start : Reachable []
  added :
      (allocated : Bool) (client : I2cClient) (clients : ClientList)
      → Reachable clients
      → Fresh client.addr clients
      → Reachable (accton_i2c_cpld_add_client allocated client clients)
  removed :
      (client : I2cClient) (clients : ClientList)
      → Reachable clients
      → Reachable (accton_i2c_cpld_remove_client client clients)

Fresh-remove :
    (a : ℕ) (client : I2cClient) (clients : ClientList)
    → Fresh a clients
    → Fresh a (accton_i2c_cpld_remove_client client clients)
unfolding accton_i2c_cpld_remove_client
Fresh-remove a client [] fresh = tt
Fresh-remove a client (c ∷ clients) (other, fresh) = elim (Bool-cases (c.handle == client.handle)) [
  | inl found ↦ rw (found, accton_i2c_cpld_remove_client) fresh
  | inr different ↦
      rw (different, accton_i2c_cpld_remove_client) (other, Fresh-remove a client clients fresh)
]

Distinct-remove :
    (client : I2cClient) (clients : ClientList)
    → Distinct clients
    → Distinct (accton_i2c_cpld_remove_client client clients)
unfolding accton_i2c_cpld_remove_client
Distinct-remove client [] distinct = tt
Distinct-remove client (c ∷ clients) (fresh, distinct) =
    elim (Bool-cases (c.handle == client.handle)) [
      | inl found ↦ rw (found, accton_i2c_cpld_remove_client) distinct
      | inr different ↦
          rw (different, accton_i2c_cpld_remove_client)
            (Fresh-remove c.addr client clients fresh, Distinct-remove client clients distinct)
    ]

pub Reachable-Distinct : (clients : ClientList) → Reachable clients → Distinct clients
unfolding accton_i2c_cpld_add_client
Reachable-Distinct _ start = tt
Reachable-Distinct _ (added true client clients r fresh) = (fresh, Reachable-Distinct clients r)
Reachable-Distinct _ (added false client clients r fresh) = Reachable-Distinct clients r
Reachable-Distinct _ (removed client clients r) =
    Distinct-remove client clients (Reachable-Distinct clients r)

Fresh-Member :
    (a : ℕ) (client : I2cClient) (clients : ClientList)
    → Fresh a clients
    → Member client clients
    → client.addr ≢ a
Fresh-Member a client [] fresh m h = absurd m
Fresh-Member a client (c ∷ clients) (other, fresh) (inl e) h =
    other (ap (λ (x : I2cClient). x.addr) e ∙ h)
Fresh-Member a client (c ∷ clients) (other, fresh) (inr m) h =
    Fresh-Member a client clients fresh m h

-- Once its node is deleted, no client of the list has its address.
Fresh-removed :
    (client : I2cClient) (clients : ClientList)
    → Distinct clients
    → ((c : I2cClient) → Member c clients → c.handle ≡ client.handle → c ≡ client)
    → Member client clients
    → Fresh client.addr (accton_i2c_cpld_remove_client client clients)
unfolding accton_i2c_cpld_remove_client
Fresh-removed client [] distinct alone m = absurd m
Fresh-removed client (c ∷ clients) (fresh, distinct) alone m =
    elim (Bool-cases (c.handle == client.handle)) [
      | inl found ↦
          let same = alone c (inl refl) (ground arith) in
          rw (found, accton_i2c_cpld_remove_client)
            (subst (λ (x : I2cClient). Fresh x.addr clients) same fresh)
      | inr different ↦
          rw (different, accton_i2c_cpld_remove_client)
            (elim m [
              | inl e ↦ absurd (handles_differ different (ap (λ (x : I2cClient). x.handle) e))
              | inr m' ↦ (
                (λ h. Fresh-Member c.addr client clients fresh m' (sym h)),
                Fresh-removed client clients distinct (λ x i. alone x (inr i)) m',
              )
            ])
    ]
  where
    handles_differ : (c.handle == client.handle) ≡ false → c.handle ≢ client.handle
    handles_differ h e = ground arith

module _ (bus : Smbus) where
  read_first_lem :
      (client : I2cClient) (clients : ClientList) (reg : ℕ) (t : Trace)
      → Distinct clients
      → Member client clients
      → read_first bus clients client.addr reg t ≡ smbus_read bus client reg t
  unfolding read_first
  read_first_lem client [] reg t distinct m = absurd m
  read_first_lem client (c ∷ clients) reg t (fresh, distinct) (inl e) =
      rw (eq→== c.addr client.addr (ap (λ (x : I2cClient). x.addr) e), read_first)
        (ap (λ x. smbus_read bus x reg t) e)
  read_first_lem client (c ∷ clients) reg t (fresh, distinct) (inr m) =
      let other = Fresh-Member c.addr client clients fresh m in
      rw (ne→== c.addr client.addr (λ e. other (sym e)), read_first)
        (read_first_lem client clients reg t distinct m)

  write_first_lem :
      (client : I2cClient) (clients : ClientList) (reg value : ℕ) (t : Trace)
      → Distinct clients
      → Member client clients
      → write_first bus clients client.addr reg value t ≡ smbus_write bus client reg value t
  unfolding write_first
  write_first_lem client [] reg value t distinct m = absurd m
  write_first_lem client (c ∷ clients) reg value t (fresh, distinct) (inl e) =
      rw (eq→== c.addr client.addr (ap (λ (x : I2cClient). x.addr) e), write_first)
        (ap (λ x. smbus_write bus x reg value t) e)
  write_first_lem client (c ∷ clients) reg value t (fresh, distinct) (inr m) =
      let other = Fresh-Member c.addr client clients fresh m in
      rw (ne→== c.addr client.addr (λ e. other (sym e)), write_first)
        (write_first_lem client clients reg value t distinct m)

  -- In every list that removing clients and adding clients of addresses that are not in the list at
  -- the time leads to, accton_i2c_cpld_read and accton_i2c_cpld_write with the address of a client
  -- of the list make one transfer, under the mutex, and with that client.
  pub registered_is_reached :
      (client : I2cClient) (clients : ClientList) (reg value : ℕ) (t : Trace)
      → Reachable clients
      → Member client clients
      → let (status, u) = smbus_read bus client reg (mutex_lock ∷ t) in
        let (status', u') = smbus_write bus client reg value (mutex_lock ∷ t) in
        (accton_i2c_cpld_read bus clients client.addr reg t ≡ (status, mutex_unlock ∷ u))
        × (accton_i2c_cpld_write bus clients client.addr reg value t ≡ (status', mutex_unlock ∷ u'))
  unfolding accton_i2c_cpld_read accton_i2c_cpld_write
  registered_is_reached client clients reg value t r m =
      let distinct = Reachable-Distinct clients r in
      (
        ap (λ (x : ℤ × Trace). (x.0, mutex_unlock ∷ x.1))
            (read_first_lem client clients reg (mutex_lock ∷ t) distinct m),
        ap (λ (x : ℤ × Trace). (x.0, mutex_unlock ∷ x.1))
            (write_first_lem client clients reg value (mutex_lock ∷ t) distinct m),
      )

  pub read_first-Fresh :
      (a reg : ℕ) (clients : ClientList) (t : Trace)
      → Fresh a clients
      → read_first bus clients a reg t ≡ (eperm, t)
  unfolding read_first
  read_first-Fresh a reg [] t fresh = refl
  read_first-Fresh a reg (c ∷ clients) t (other, fresh) =
      rw (ne→== c.addr a other, read_first) (read_first-Fresh a reg clients t fresh)

  pub write_first-Fresh :
      (a reg value : ℕ) (clients : ClientList) (t : Trace)
      → Fresh a clients
      → write_first bus clients a reg value t ≡ (eio, t)
  unfolding write_first
  write_first-Fresh a reg value [] t fresh = refl
  write_first-Fresh a reg value (c ∷ clients) t (other, fresh) =
      rw (ne→== c.addr a other, write_first) (write_first-Fresh a reg value clients t fresh)

  -- After a client is removed from a list that removing clients and adding clients of addresses
  -- that are not in the list at the time leads to, and in which no other client has its handle,
  -- accton_i2c_cpld_read with its address returns -EPERM and accton_i2c_cpld_write -EIO, and
  -- neither touches the bus.
  pub removed_is_refused :
      (client : I2cClient) (clients : ClientList) (reg value : ℕ) (t : Trace)
      → Reachable clients
      → ((c : I2cClient) → Member c clients → c.handle ≡ client.handle → c ≡ client)
      → Member client clients
      → let rest = accton_i2c_cpld_remove_client client clients in
        let u : Trace = mutex_unlock ∷ mutex_lock ∷ t in
        (accton_i2c_cpld_read bus rest client.addr reg t ≡ (eperm, u))
        × (accton_i2c_cpld_write bus rest client.addr reg value t ≡ (eio, u))
  unfolding accton_i2c_cpld_read accton_i2c_cpld_write
  removed_is_refused client clients reg value t r alone m =
      let fresh = Fresh-removed client clients (Reachable-Distinct clients r) alone m in
      let rest = accton_i2c_cpld_remove_client client clients in
      (
        ap (λ (x : ℤ × Trace). (x.0, mutex_unlock ∷ x.1))
            (read_first-Fresh client.addr reg rest (mutex_lock ∷ t) fresh),
        ap (λ (x : ℤ × Trace). (x.0, mutex_unlock ∷ x.1))
            (write_first-Fresh client.addr reg value rest (mutex_lock ∷ t) fresh),
      )
