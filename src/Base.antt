-- ===== src/Base.antt =====
-- What every module shares: the library's names, passed on, tests on numbers, lists over the
-- native numbers, decidable equality as an interface, texts as lists of code points, and maps.
mod Tests
mod Lists
mod Equality
mod Maps
mod Results
pub mod Keys
pub use Tests.*
pub use Lists.*
pub use Equality.*
pub use Maps.*
pub use Results.*
unfoldable pub use Equality.{text_beq}
unfoldable pub use Maps.{lookup, insert, remove, contains_key, total}
pub use Prim.Native.Nat.{ℕ, zero, suc, ◌+◌, ◌-◌, ◌*◌, ◌/◌, ◌%◌, ◌^◌, ◌≤◌, ◌<◌, min, max}
pub use Prim.Native.String.{String}
pub use mathlib.Core.Path.{◌≡◌, refl, sym, ap, subst, ◌∙◌, ◌≡⟨◌⟩◌, ◌∎}
pub use mathlib.Core.Logic.{◌≢◌, ◌↔◌, ◌⊎◌, inl, inr}
pub use mathlib.Core.Bool.{Bool, true, false, not, ◌&&◌, ◌||◌}
pub use mathlib.Core.Option.{Option, none, some, some-injective}
pub use mathlib.Core.List.{List, [], ◌∷◌, ◌++◌, map, reverse, append-nil, append_assoc}
pub use native.Mathlib.Omega.{arith}
