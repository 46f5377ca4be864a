-- ===== src/Base/Maps.antt =====
-- Keyed storage as functions, with the update that a storage `set` or `remove` makes.
use Prim.Native.Nat.{ℕ}
use mathlib.Core.Path.{◌≡◌}
use mathlib.Core.Logic.{◌≢◌}
use mathlib.Core.Option.{Option, none, some}
use native.Mathlib.Omega.{arith}
use grainlify_stellar_contra.Base.Tests.{◌==◌, if◌then◌else◌}

abbrev pub Map {ℓ} : Type ℓ → Type ℓ
Map V = ℕ → Option V

module _ {ℓ} {V : Type ℓ} where
  abbrev pub insert : ℕ → V → Map V → Map V
  insert k v m j = if j == k then some v else m j

  abbrev pub remove : ℕ → Map V → Map V
  remove k m j = if j == k then none else m j

  pub insert_self : (k : ℕ) (v : V) (m : Map V) → insert k v m k ≡ some v
  insert_self k v m = ground arith

  pub insert_ne : (j k : ℕ) (v : V) (m : Map V) → j ≢ k → insert k v m j ≡ m j
  insert_ne j k v m h = ground arith
