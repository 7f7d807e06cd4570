-- ===== src/Sfp/Life/Held.antt =====
-- What sfp_device_probe should leave behind: what is held, and what fits the client.
use meta_bisdn_linux.Base.{
  ℕ, ◌==◌, ◌≡◌, ap, Bool, true, not, Option, none, some, [], ◌∷◌, ℤ, pos, is_zero, is_neg,
  if◌then◌else◌,
}
use meta_bisdn_linux.Base.Uses.{Use, free, held, take, give}
use meta_bisdn_linux.Sfp.Bus.{Mode, plain_i2c, i2c_block_data, word_data, byte_data}
use meta_bisdn_linux.Sfp.Client.{qsfp}
use meta_bisdn_linux.Sfp.Life.{
  Func, i2c, read_i2c_block, read_word_data, read_byte_data, Client, Resource, port_data, writebuf,
  qsfp_data, qsfp_group, eeprom_file, msa_data, msa_group, ddm_client, acquired, released,
  set_clientdata, Log, Probed, can_write,
}

abbrev index : Resource → ℕ
index port_data = 0
index writebuf = 1
index qsfp_data = 2
index qsfp_group = 3
index eeprom_file = 4
index msa_data = 5
index msa_group = 6
index ddm_client = 7

-- What has become of a resource.
abbrev pub use_of : Resource → Log → Use
use_of r [] = free
use_of r (acquired q ∷ log) = if index r == index q then take (use_of r log) else use_of r log
use_of r (released q ∷ log) = if index r == index q then give (use_of r log) else use_of r log
use_of r (set_clientdata ∷ log) = use_of r log

abbrev pub uses : (Resource → Use) → Use × Use × Use × Use × Use × Use × Use × Use
uses f = (
  f port_data,
  f writebuf,
  f qsfp_data,
  f qsfp_group,
  f eeprom_file,
  f msa_data,
  f msa_group,
  f ddm_client,
)

-- It is enough to look at each resource.
pub same_uses : (f g : Resource → Use) → uses f ≡ uses g → (r : Resource) → f r ≡ g r
same_uses f g h port_data = ap (λ u. u.0) h
same_uses f g h writebuf = ap (λ u. u.1) h
same_uses f g h qsfp_data = ap (λ u. u.2) h
same_uses f g h qsfp_group = ap (λ u. u.3) h
same_uses f g h eeprom_file = ap (λ u. u.4) h
same_uses f g h msa_data = ap (λ u. u.5) h
same_uses f g h msa_group = ap (λ u. u.6) h
same_uses f g h ddm_client = ap (λ u. u.7) h

-- What a port holds after a probe that succeeds.
abbrev pub held_by : Bool → Resource → Use
held_by has_buf port_data = held
held_by has_buf writebuf = if has_buf then held else free
held_by has_buf qsfp_data = held
held_by has_buf qsfp_group = held
held_by has_buf eeprom_file = held
held_by has_buf r = free

abbrev pub read_func : Mode → Func
read_func plain_i2c = i2c
read_func i2c_block_data = read_i2c_block
read_func word_data = read_word_data
read_func byte_data = read_byte_data

-- The data fit the client: it is a QSFP port, its adapter can read in the port's mode, and there
-- is a buffer, for writes of one byte, exactly if the adapter can write.
pub record Fits (c : Client) (d : Probed) : Type 0 where
  pub is_qsfp : d.data_of.driver_type ≡ qsfp
  pub reads : c.check_functionality (read_func d.data_of.use_smbus) ≡ true
  pub buffer : d.has_writebuf ≡ can_write c.check_functionality d.data_of.use_smbus
  pub one_byte : d.data_of.write_max ≡ (if d.has_writebuf then 1 else 0)

abbrev pub Settled : Client → ℤ × Option Probed × Log → Type 0
Settled c (ret, none, log) = (is_neg ret ≡ true) × ((r : Resource) → use_of r log ≡ free)
Settled c (ret, some d, log) =
    (ret ≡ pos 0) × Fits c d × ((r : Resource) → use_of r log ≡ held_by d.has_writebuf r)

-- A status that is no error is 0.
abbrev pub IsStatus : ℤ → Type 0
IsStatus x = is_neg x ≡ not (is_zero x)
