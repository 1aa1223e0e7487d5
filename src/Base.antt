-- ===== src/Base.antt =====
-- Names that every module shares: the libraries' names, passed on, and the children's.
mod Tests
mod Lists
pub mod Errors
pub mod Exec
pub mod Ranges
pub mod Table
pub mod Int
pub mod Counting
pub use Tests.*
unfoldable pub use Lists.*
pub use Errors.{
  Exception, protocol, timed_protocol, sanity, paillier, standard, divide_by_zero, out_of_fuel,
  Result, ok, err, guard, for_each, for_each-ok, >>=-eq-ok, >>-eq-ok, guard-eq-ok, for_each-All,
  Result-cases,
}
pub use Ranges.*
pub use Prim.Native.Nat.{ℕ, zero, suc, ◌+◌, ◌-◌, ◌*◌, ◌/◌, ◌%◌, ◌^◌, ◌≤◌, ◌<◌, ◌∣◌}
pub use Prim.Native.String.{String}
pub use mathlib.Core.Path.{◌≡◌, refl, sym, ap, ap₂, subst, ◌∙◌, ◌≡⟨◌⟩◌, ◌∎}
pub use mathlib.Core.Logic.{◌≢◌, ◌↔◌, ◌⊎◌, inl, inr}
pub use mathlib.Core.Bool.{Bool, true, false}
unfoldable pub use mathlib.Core.Bool.{not, xor, ◌&&◌, ◌||◌}
pub use mathlib.Core.Option.{Option, none, some}
pub use mathlib.Core.List.{List, [], ◌∷◌, ◌++◌, map}
pub use native.Mathlib.Omega.{arith}
