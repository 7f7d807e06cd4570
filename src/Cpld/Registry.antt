-- ===== src/Cpld/Registry.antt =====
-- The list of the CPLDs that the driver is bound to, and the two functions that other drivers reach
-- their registers by.
pub mod Routes
use meta_bisdn_linux.Base.{
  ℕ, zero, suc, ◌+◌, ◌≤◌, ◌<◌, ◌≡◌, ◌≢◌, refl, sym, ap, subst, ◌∙◌, inl, inr, ◌⊎◌, arith, Option,
  none, some, List, [], ◌∷◌, ℤ, pos, negsuc, Bool, true, false, Bool-cases, ◌==◌, eq→==, ne→==,
}
use meta_bisdn_linux.Cpld.Bus.{
  I2cClient, Event, mutex_lock, mutex_unlock, Trace, Smbus, smbus_read, smbus_write, eperm, eio,
}

-- `cpld_client_list`, first node first.
abbrev pub ClientList : Type 0
ClientList = List I2cClient

-- `allocated`: kzalloc gave a node. list_add puts it first.
unfoldable pub accton_i2c_cpld_add_client : Bool → I2cClient → ClientList → ClientList
accton_i2c_cpld_add_client allocated client clients = elim allocated [
  | true ↦ client ∷ clients
  | false ↦ clients
]

-- The first node of the client is deleted.
unfoldable pub accton_i2c_cpld_remove_client : I2cClient → ClientList → ClientList
accton_i2c_cpld_remove_client client [] = []
accton_i2c_cpld_remove_client client (c ∷ clients) = elim (c.handle == client.handle) [
  | true ↦ clients
  | false ↦ c ∷ accton_i2c_cpld_remove_client client clients
]

module _ (bus : Smbus) where
  -- list_for_each with its `break`.
  unfoldable pub read_first : ClientList → ℕ → ℕ → Trace → ℤ × Trace
  read_first [] cpld_addr reg t = (eperm, t)
  read_first (c ∷ clients) cpld_addr reg t = elim (c.addr == cpld_addr) [
    | true ↦ smbus_read bus c reg t
    | false ↦ read_first clients cpld_addr reg t
  ]

  unfoldable pub accton_i2c_cpld_read : ClientList → ℕ → ℕ → Trace → ℤ × Trace
  unfolding read_first
  accton_i2c_cpld_read clients cpld_addr reg t =
      let (ret, t') = read_first clients cpld_addr reg (mutex_lock ∷ t) in (ret, mutex_unlock ∷ t')

  unfoldable pub write_first : ClientList → ℕ → ℕ → ℕ → Trace → ℤ × Trace
  write_first [] cpld_addr reg value t = (eio, t)
  write_first (c ∷ clients) cpld_addr reg value t = elim (c.addr == cpld_addr) [
    | true ↦ smbus_write bus c reg value t
    | false ↦ write_first clients cpld_addr reg value t
  ]

  unfoldable pub accton_i2c_cpld_write : ClientList → ℕ → ℕ → ℕ → Trace → ℤ × Trace
  unfolding write_first
  accton_i2c_cpld_write clients cpld_addr reg value t =
      let (ret, t') = write_first clients cpld_addr reg value (mutex_lock ∷ t) in
      (ret, mutex_unlock ∷ t')
