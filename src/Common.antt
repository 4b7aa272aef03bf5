-- ===== src/Common.antt =====
-- What every part uses: numbers, tests, options, lists, and the results of calls that may throw.
pub mod Tests
pub mod Lists
pub use mathlib.Core.Path.{◌≡◌, refl, sym, ◌∙◌, ap, ap₂, subst}
pub use mathlib.Core.Logic.{◌⊎◌, inl, inr, ◌↔◌, ◌≢◌}
pub use mathlib.Core.Bool.{Bool, true, false, not, ◌&&◌, ◌||◌}
pub use mathlib.Core.Option.{Option, none, some}
pub use mathlib.Core.List.{List, [], ◌∷◌, ◌++◌, map}
pub use native.Mathlib.Omega.{arith}
pub use Prim.Native.Nat.{ℕ, zero, suc, ◌+◌, ◌-◌, ◌*◌, ◌/◌, ◌%◌, ◌^◌, ◌≤◌, ◌<◌, max, min}
pub use orgmodule_services.Common.Tests.{
  ltb, leb, ◌==◌, if◌then◌else◌, ltb→lt, ltb→le, leb→le, leb→lt, Bool-cases, Option-cases, if-cases,
  some-cases, u64_mod, u32_mod, u64, u32, u64_max, u32_max, Fault, length_error, invalid_argument,
  out_of_range, logic_error, runtime_error, no_fuel, Result, ok, err, ◌>>=◌, >>=-inversion, >>=-ok,
  Result-cases, elim-cases,
}
pub use orgmodule_services.Common.Lists.{
  length, get_or, take, drop, length-append, keep_if, count_if, All, times-append,
}
unfoldable pub use orgmodule_services.Common.Lists.{times}
