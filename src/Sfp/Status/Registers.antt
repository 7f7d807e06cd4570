-- ===== src/Sfp/Status/Registers.antt =====
-- CPLDs whose registers keep their values, as the attributes of the ports see them, and the driver
-- of the CPLDs as an implementation.
use meta_bisdn_linux.Base.{
  ℕ, ◌≡◌, ℤ, pos, ◌&&◌, ◌==◌, if◌then◌else◌, ap, subst, ◌∙◌, ◌∷◌, ◌+◌, ◌*◌, ◌/◌, ◌<◌, arith, inl,
  inr, ltb, Bool-cases,
}
use meta_bisdn_linux.Cpld.Bus.{
  I2cClient, Trace, Smbus, mutex_lock, mutex_unlock, read_byte_data, write_byte_data,
}
use meta_bisdn_linux.Cpld.Registry.{ClientList, accton_i2c_cpld_read, accton_i2c_cpld_write}
use meta_bisdn_linux.Cpld.Registry.Routes.{Member, Reachable, registered_is_reached}
use meta_bisdn_linux.Cpld.Memory.{contents, HoldsRegisters}
use meta_bisdn_linux.Sfp.Status.{CpldAccess, Cpld, cpld1, cpld2, i2c_addr}

-- Reading gives the value of the register and changes none; writing changes that one.
pub record KeepsRegisters {S : Type 0} (cpld : CpldAccess S) (value : S → ℕ → ℕ → ℕ) : Type 0 where
  pub reads :
      (c : Cpld) (reg : ℕ) (s : S)
      → (cpld.read (i2c_addr c) reg s).0 ≡ pos (value s (i2c_addr c) reg)
  pub read_keeps :
      (c : Cpld) (reg : ℕ) (s : S) (a r : ℕ)
      → value (cpld.read (i2c_addr c) reg s).1 a r ≡ value s a r
  pub writes :
      (c : Cpld) (reg v : ℕ) (s : S) (a r : ℕ)
      → value (cpld.write (i2c_addr c) reg v s).1 a r
        ≡ (if i2c_addr c == a && reg == r then v else value s a r)

-- The CPLD of a port.
abbrev pub cpld_of : ℕ → Cpld
cpld_of port = if ltb port 16 then cpld1 else cpld2

pub cpld_of-addr : (port : ℕ) → port < 32 → i2c_addr (cpld_of port) ≡ 0x62 + 2 * (port / 16)
cpld_of-addr port h = elim (Bool-cases (ltb port 16)) [
  | inl first ↦ rw first (ground arith)
  | inr second ↦ rw second (ground arith)
]

-- The two exported functions, on the trace of the transfers to the CPLDs.
abbrev pub cpld_driver : Smbus → ClientList → CpldAccess Trace
cpld_driver bus clients = record {
  read = accton_i2c_cpld_read bus clients;
  write = accton_i2c_cpld_write bus clients;
}

module _ (bus : Smbus) (initial : ℕ → ℕ → ℕ) (holds : HoldsRegisters bus initial) where
  -- The registers after one read and after one write of a registered client.
  registered_read :
      (client : I2cClient) (clients : ClientList) (reg : ℕ) (t : Trace)
      → Reachable clients
      → Member client clients
      → accton_i2c_cpld_read bus clients client.addr reg t ≡ (
        pos (contents initial t client.addr reg),
        mutex_unlock
            ∷ read_byte_data client reg (pos (contents initial t client.addr reg))
            ∷ mutex_lock
            ∷ t,
      )
  registered_read client clients reg t r m =
      (registered_is_reached bus client clients reg 0 t r m).0
      ∙ ap (λ (s : ℤ). (s, mutex_unlock ∷ read_byte_data client reg s ∷ mutex_lock ∷ t))
          (holds.reads (mutex_lock ∷ t) client reg)

  registered_write :
      (client : I2cClient) (clients : ClientList) (reg v : ℕ) (t : Trace)
      → Reachable clients
      → Member client clients
      → accton_i2c_cpld_write bus clients client.addr reg v t
        ≡ (pos 0, mutex_unlock ∷ write_byte_data client reg v (pos 0) ∷ mutex_lock ∷ t)
  registered_write client clients reg v t r m =
      (registered_is_reached bus client clients reg v t r m).1
      ∙ ap (λ (s : ℤ). (s, mutex_unlock ∷ write_byte_data client reg v s ∷ mutex_lock ∷ t))
          (holds.writes (mutex_lock ∷ t) client reg v)

  -- Where the transfers to the CPLDs succeed and their registers keep what is written, the driver
  -- of the CPLDs, in every state of its list in which both CPLDs are registered, gives the
  -- attributes of the ports registers that keep their values.
  pub cpld_driver-KeepsRegisters :
      (client : Cpld → I2cClient) (clients : ClientList)
      → Reachable clients
      → ((c : Cpld) → Member (client c) clients)
      → ((c : Cpld) → (client c).addr ≡ i2c_addr c)
      → KeepsRegisters (cpld_driver bus clients) (contents initial)
  cpld_driver-KeepsRegisters client clients r m e = record {
    reads = λ c reg t.
        subst (λ a. (accton_i2c_cpld_read bus clients a reg t).0 ≡ pos (contents initial t a reg))
          (e c) (ap (λ (x : ℤ × Trace). x.0) (registered_read (client c) clients reg t r (m c)));
    read_keeps = λ c reg t a reg'.
        subst
          (λ x.
            contents initial (accton_i2c_cpld_read bus clients x reg t).1 a reg'
            ≡ contents initial t a reg')
          (e c)
          (ap (λ (x : ℤ × Trace). contents initial x.1 a reg')
            (registered_read (client c) clients reg t r (m c)));
    writes = λ c reg v t a reg'.
        subst
          (λ x.
            contents initial (accton_i2c_cpld_write bus clients x reg v t).1 a reg'
            ≡ (if x == a && reg == reg' then v else contents initial t a reg'))
          (e c)
          (ap (λ (x : ℤ × Trace). contents initial x.1 a reg')
            (registered_write (client c) clients reg v t r (m c)));
  }
