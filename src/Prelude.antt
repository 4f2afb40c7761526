-- ===== src/Prelude.antt =====
-- The names that the other modules share: the libraries', passed on, and those of the children.
pub mod Tests
pub mod Lists
pub mod Strings
pub mod Maps
pub mod Int
pub mod Keys
pub mod Cuts
pub mod Decimal
pub use Tests.*
pub use Lists.*
pub use Strings.{Bytes, codes, eq_bytes_refl, eq_bytes_iff}
unfoldable pub use Strings.{eq_bytes}
unfoldable pub use Maps.{lookup, insert, erase}
pub use Keys.*
pub use Maps.{Map, lookup-erase, lookup-insert, lookup-insert_self, lookup-insert_ne}
pub use Prim.Native.Nat.{ℕ, zero, suc, ◌+◌, ◌-◌, ◌*◌, ◌/◌, ◌%◌, ◌^◌, ◌≤◌, ◌<◌}
pub use mathlib.Core.Path.{◌≡◌, refl, sym, ap, ◌∙◌}
pub use mathlib.Core.Logic.{◌≢◌, ◌↔◌, ◌⊎◌, inl, inr}
pub use mathlib.Core.Bool.{Bool, true, false, not, ◌&&◌, ◌||◌}
pub use mathlib.Core.Option.{Option, none, some}
pub use mathlib.Core.List.{List, [], ◌∷◌, ◌++◌, map}
pub use native.Mathlib.Omega.{arith}
