-- ===== src/Base.antt =====
-- The names that the modules share: the libraries', passed on, and those of the children.
mod Tests
mod Lists
pub mod Equality
pub mod Dict
pub mod Int
pub mod Maybe
pub mod Exception
pub mod Perm
pub use Tests.*
pub use Lists.*
pub use Equality.{Eq, ◌==◌, ==_sound, ==_refl, ==_ne}
pub use Exception.{
  Exc, value_error, key_error, runtime_error, unicode_decode_error, buffer_error, kafka_exception,
  database_error, other_exception, Result, ok, raise, Result-cases,
}
pub use Prim.Native.Nat.{ℕ, zero, suc, ◌+◌, ◌-◌, ◌*◌, ◌/◌, ◌%◌, ◌^◌, ◌≤◌, ◌<◌, min, max}
pub use Prim.Native.String.{String}
pub use mathlib.Core.Path.{◌≡◌, refl, sym, ap, subst, ◌∙◌}
pub use mathlib.Core.Logic.{◌≢◌, ◌↔◌, ◌⊎◌, inl, inr}
pub use mathlib.Core.Bool.{Bool, true, false, not, ◌&&◌, ◌||◌}
pub use mathlib.Core.Option.{Option, none, some}
pub use mathlib.Core.List.{List, [], ◌∷◌, ◌++◌, map}
pub use native.Mathlib.Omega.{arith}
