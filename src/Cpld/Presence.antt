-- ===== src/Cpld/Presence.antt =====
-- show_presnet_all and array_stringify: the registers that tell which ports have a module in them,
-- as text.
pub mod Text
use meta_bisdn_linux.Base.{
  ℕ, zero, suc, ◌+◌, ◌-◌, ◌*◌, ◌/◌, ◌%◌, ◌≤◌, ◌<◌, ◌≡◌, refl, sym, ap, ◌∙◌, arith, List, [], ◌∷◌,
  ◌++◌, length, length-append, take, take_all, low_byte, ℤ, pos,
}
use meta_bisdn_linux.Cpld.Bus.{I2cClient, read_byte_data, mutex_lock, mutex_unlock, Trace, Smbus}
use meta_bisdn_linux.Cpld.Retry.{cpld_read_internal}
use meta_bisdn_linux.Cpld.Bits.{CpldSensor}
use meta_bisdn_linux.Cpld.Ports.{Model, csp7551, sfp_num}
use meta_bisdn_linux.Cpld.Memory.{contents, HoldsRegisters, cpld_read_internal-holds}

abbrev pub max_resp_length : ℕ
max_resp_length = 48

-- What the kernel's snprintf makes of a number for "%x".
abbrev pub Hex : Type 0
Hex = ℕ → List ℕ

-- The elements, each with a blank after it, as snprintf leaves them in `t`.
abbrev pub joined : Hex → List ℕ → List ℕ
joined hex [] = []
joined hex (v ∷ input) = take (max_resp_length - 1) (hex v ++ b' ' ∷ []) ++ joined hex input

-- `buf[strlen(buf)-1] = '\0'`, if there is a last one.
abbrev pub without_last : List ℕ → List ℕ
without_last [] = []
without_last (x ∷ []) = []
without_last (x ∷ y ∷ xs) = x ∷ without_last (y ∷ xs)

-- The return value and the text in `buf`, which is printed into itself.
unfoldable pub array_stringify : Hex → List ℕ → ℕ × List ℕ
array_stringify hex input =
    let text = without_last (joined hex input) ++ b'\n' ∷ [] in
    (length text, take (max_resp_length - 1) text)

module _ (bus : Smbus) (client : I2cClient) where
  -- The loop, `n` rounds from register `reg` on. The elements are a `u8` each, so that no failed
  -- read is seen.
  unfoldable pub read_present : ℕ → ℕ → Trace → List ℕ × Trace
  read_present zero reg t = ([], t)
  read_present (suc n) reg t =
      let (value, t₁) = cpld_read_internal bus client reg t in
      let (values, t₂) = read_present n ((reg + 1) % 256) t₁ in (low_byte value ∷ values, t₂)

  -- `sensor->reg < 0` never holds, since `reg` is a u8.
  unfoldable pub show_presnet_all : Hex → Model → CpldSensor → Trace → (ℕ × List ℕ) × Trace
  unfolding read_present array_stringify sfp_num
  show_presnet_all hex model sensor t =
      let (values, t') = read_present ((sfp_num model + 7) / 16) sensor.reg (mutex_lock ∷ t) in
      (array_stringify hex values, mutex_unlock ∷ t')
