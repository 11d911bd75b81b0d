-- ===== src/Common/Arrays.antt =====
-- Reads and writes of a C array, with a fault outside its bounds.
use Prim.Native.Nat.{ℕ, ◌<◌}
use mathlib.Core.Path.{◌≡◌}
use mathlib.Core.List.{List}
use mathlib.Core.Option.{Option, none, some}
use native.Mathlib.Omega.{arith}
use linfo1341_project.Common.Compare.{ltb, if◌then◌else◌}
use linfo1341_project.Common.Lists.{length, get_elem?, set}

module _ {ℓ} {A : Type ℓ} where
  abbrev pub load : List A → ℕ → Option A
  load = get_elem?

  unfoldable pub store : List A → ℕ → A → Option (List A)
  store xs i v = if ltb i (length xs) then some (set xs i v) else none

  pub store_in : (xs : List A) (i : ℕ) (v : A) → i < length xs → store xs i v ≡ some (set xs i v)
  unfolding store
  store_in xs i v h = ground arith
