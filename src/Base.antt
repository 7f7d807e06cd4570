-- ===== src/Base.antt =====
-- The names that the models of the drivers share: library names passed on, Boolean tests, lists
-- over the native numbers and the C integers.
pub mod Tests
pub mod Lists
pub mod Int
pub mod Bits
pub mod Bytes
pub mod Nibbles
pub mod Uses
pub use Tests.*
pub use Lists.*
pub use Int.*
unfoldable pub use Bits.*
pub use Bytes.*
pub use Nibbles.*
pub use Prim.Native.Nat.{ℕ, zero, suc, ◌+◌, ◌-◌, ◌*◌, ◌/◌, ◌%◌, ◌^◌, ◌≤◌, ◌<◌, min, max}
pub use Prim.Native.Nat.{bit_and, bit_or, bit_xor}
pub use mathlib.Core.Path.{◌≡◌, refl, sym, ap, subst, ◌∙◌}
pub use mathlib.Core.Logic.{◌≢◌, ◌↔◌, ◌⊎◌, inl, inr}
pub use mathlib.Core.Bool.{Bool, true, false, true≢false, not, ◌&&◌, ◌||◌}
pub use mathlib.Core.Option.{Option, none, some}
pub use mathlib.Core.List.{List, [], ◌∷◌, ◌++◌, map, append-nil, append_assoc, map-append}
pub use native.Mathlib.Omega.{arith}
