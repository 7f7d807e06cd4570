-- ===== src/Cpld/Ports.antt =====
-- Where the CPLDs keep the bit that tells whether a port has a module in it.
use meta_bisdn_linux.Base.{
  ℕ, ◌+◌, ◌*◌, ◌/◌, ◌%◌, ◌≤◌, ◌<◌, ◌≡◌, refl, sym, ap, ◌∙◌, inl, inr, ◌⊎◌, arith, none, some, List,
  [], ◌∷◌, Bool-cases, ltb, leb, ◌&&◌, ◌||◌, if◌then◌else◌, get_elem?, lt→ltb, ge→ltb,
}

pub data Model : Type 0 where
  csp9550 csp7551 plain : Model

-- How many ports a model has.
unfoldable pub sfp_num : Model → ℕ
sfp_num csp9550 = 56
sfp_num csp7551 = 32
sfp_num plain = 0

-- `past_array`: `cpld_address` was read past its end.
pub data PresentReg : Type 0 where
  found : ℕ → ℕ → ℕ → PresentReg
  invalid past_array : PresentReg

abbrev pub cpld_addrs : List ℕ
cpld_addrs = 0x62 ∷ 0x64 ∷ []

-- The element `i` of `cpld_address`, beside the register and the number of bits.
abbrev pub at_cpld : ℕ → ℕ → ℕ → PresentReg
at_cpld i reg num = elim (get_elem? cpld_addrs i) [
  | none ↦ past_array
  | some addr ↦ found addr reg num
]

unfoldable pub get_present_reg : Model → ℕ → PresentReg
get_present_reg csp9550 port =
    if ltb port 48
    then at_cpld (1 + port / 24) (0x09 + port % 24 / 8) 8
    else at_cpld (if ltb port 52 then 1 else 2) 0x18 4
get_present_reg csp7551 port =
    at_cpld (port / 16) (if leb port 7 || (leb 16 port && leb port 23) then 0x60 else 0x61) 8
get_present_reg plain port = invalid

-- The bit of a port in a row of registers, as `value`'s divisor.
abbrev pub port_bit : ℕ → ℕ
port_bit port = port % 8

abbrev addr_of : PresentReg → ℕ
addr_of (found addr reg num) = addr
addr_of _ = 0

abbrev reg_of : PresentReg → ℕ
reg_of (found addr reg num) = reg
reg_of _ = 0

csp7551_reg :
    (port : ℕ)
    → port < 32
    → (if leb port 7 || (leb 16 port && leb port 23) then 0x60 else 0x61) ≡ 0x60 + port % 16 / 8
csp7551_reg port h = ground arith

pub csp7551_present :
    (port : ℕ)
    → port < 32
    → get_present_reg csp7551 port ≡ found (0x62 + 2 * (port / 16)) (0x60 + port % 16 / 8) 8
unfolding get_present_reg
csp7551_present port h = rw (csp7551_reg port h) (elim (Bool-cases (ltb port 16)) [
  | inl first ↦ let i : port / 16 ≡ 0 = ground arith in rw i refl
  | inr second ↦ let i : port / 16 ≡ 1 = ground arith in rw i refl
])

-- get_present_reg gives each port of CSP7551 a bit of its own: two ports with the same CPLD, the
-- same register and the same bit of it are the same.
csp7551_bits_distinct :
    (port port' : ℕ)
    → port < sfp_num csp7551
    → port' < sfp_num csp7551
    → get_present_reg csp7551 port ≡ get_present_reg csp7551 port'
    → port_bit port ≡ port_bit port'
    → port ≡ port'
unfolding sfp_num
csp7551_bits_distinct port port' h h' same_reg same_bit =
    let e = sym (csp7551_present port h) ∙ same_reg ∙ csp7551_present port' h' in
    let same_addr : 0x62 + 2 * (port / 16) ≡ 0x62 + 2 * (port' / 16) = ap addr_of e in
    let same_row : 0x60 + port % 16 / 8 ≡ 0x60 + port' % 16 / 8 = ap reg_of e in omega arith

-- For CSP9550, get_present_reg reads past the end of the array of CPLD addresses for the ports from
-- 24 to 47 and from 52 on.
csp9550_past_array :
    (port : ℕ)
    → port < sfp_num csp9550
    → (((24 ≤ port) × (port < 48)) ⊎ (52 ≤ port))
    → get_present_reg csp9550 port ≡ past_array
unfolding get_present_reg
csp9550_past_array port h (inl (low, high)) =
    let i : 1 + port / 24 ≡ 2 = omega arith in rw (lt→ltb port 48 high, i) refl
csp9550_past_array port h (inr high) = rw (ge→ltb port 48 (omega arith), ge→ltb port 52 high) refl
