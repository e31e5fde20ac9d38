-- ===== src/Base.antt =====
-- What the other modules share: library names passed on, Boolean tests, lists over the native
-- numbers, bits as arithmetic, and JavaScript strings as lists of UTF-16 code units.
mod Tests
mod Lists
pub mod Bits
pub mod Positional
pub mod Strings
pub mod Json
pub mod Result
pub mod Utf8
unfoldable pub use Tests.{text_eq}
pub use Tests.*
pub use Lists.*
pub use Prim.Native.Nat.{ℕ, zero, suc, ◌+◌, ◌-◌, ◌*◌, ◌/◌, ◌%◌, ◌^◌, ◌≤◌, ◌<◌, min, bit_and, bit_or}
pub use Prim.Native.String.{String}
pub use mathlib.Core.Path.{◌≡◌, refl, sym, ap, ◌∙◌}
pub use mathlib.Core.Logic.{◌≢◌, ◌↔◌, ◌⊎◌, inl, inr}
pub use mathlib.Core.Bool.{Bool, true, false, not, ◌&&◌, ◌||◌}
pub use mathlib.Core.Option.{Option, none, some}
pub use mathlib.Core.List.{List, [], ◌∷◌, ◌++◌, map, reverse}
pub use native.Mathlib.Omega.{arith}
