-- ===== src/Prelude.antt =====
-- Shared names: the library names that the other modules use, and the children of this module.
mod Tests
mod Lists
mod Bits
mod Funs
mod Words
mod Count
pub use Tests.*
pub use Lists.*
pub use Bits.*
unfoldable pub use Bits.{every}
pub use Funs.*
pub use Words.*
pub use Count.*
unfoldable pub use Count.{count}
pub use Prim.Native.Nat.{
  ℕ, zero, suc, ◌+◌, ◌-◌, ◌*◌, ◌/◌, ◌%◌, ◌^◌, ◌≤◌, ◌<◌, min, max, bit_and, bit_or,
}
pub use mathlib.Core.Path.{◌≡◌, refl, sym, ap, ap₂, ◌∙◌, subst}
pub use mathlib.Core.Logic.{◌≢◌, ◌↔◌, ◌⊎◌, inl, inr}
pub use mathlib.Core.Bool.{Bool, true, false, not, ◌&&◌, ◌||◌}
pub use mathlib.Core.Option.{Option, none, some}
pub use mathlib.Core.List.{List, [], ◌∷◌, ◌++◌, append-nil, append_assoc}
pub use native.Mathlib.Omega.{arith}
unfoldable pub use native.Mathlib.Decide.{dec_lt, ℕ_discrete}
