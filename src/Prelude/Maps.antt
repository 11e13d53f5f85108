-- ===== src/Prelude/Maps.antt =====
-- Go's map[int64]*T: a missing key and a nil pointer read alike, as none.
use Prim.Native.Nat.{ℕ}
use mathlib.Core.Path.{◌≡◌}
use mathlib.Core.Logic.{◌≢◌}
use mathlib.Core.Option.{Option, none}
use native.Mathlib.Omega.{arith}
use go_norn.Prelude.Tests.{◌==◌, if◌then◌else◌}

module _ {ℓ} {V : Type ℓ} where
  -- m[k] = v
  abbrev pub update : (ℕ → Option V) → ℕ → Option V → ℕ → Option V
  update m k v j = if k == j then v else m j

  -- delete(m, k)
  abbrev pub delete : (ℕ → Option V) → ℕ → ℕ → Option V
  delete m k = update m k none

  abbrev pub empty : ℕ → Option V
  empty j = none

  pub update_self : (m : ℕ → Option V) (k : ℕ) (v : Option V) → update m k v k ≡ v
  update_self m k v = ground arith

  pub update_other : (m : ℕ → Option V) (k j : ℕ) (v : Option V) → k ≢ j → update m k v j ≡ m j
  update_other m k j v h = ground arith
