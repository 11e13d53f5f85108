-- ===== src/Prelude/Lru.antt =====
-- The cache of github.com/hashicorp/golang-lru, which is not part of the repository: what the code
-- relies on. A cache may drop any entry but the one that was added last.
use mathlib.Core.Path.{◌≡◌, refl, sym, ap, ◌∙◌}
use mathlib.Core.Logic.{◌≢◌, ◌⊎◌, inl, inr}
use mathlib.Core.Bool.{Bool}
use mathlib.Core.Option.{Option, none, some}
use native.Mathlib.Omega.{arith}
use go_norn.Prelude.Tests.{is_some, if◌then◌else◌}
use go_norn.Prelude.Bytes.{Bytes, bytes_eq, bytes_eq_iff, bytes_eq_refl}

-- `find` is what Get would return now, `touch` the change that Get makes to the order of use.
pub record Lru (K V : Type 0) : Type 1 where
  pub Cache : Type 0
  pub new : Cache
  pub find : Cache → K → Option V
  pub touch : Cache → K → Cache
  pub add : Cache → K → V → Cache
  pub find-new : (k : K) → find new k ≡ none
  pub find-touch : (c : Cache) (k j : K) → find (touch c k) j ≡ find c j
  pub find-add_self : (c : Cache) (k : K) (v : V) → find (add c k v) k ≡ some v
  pub find-add_other :
      (c : Cache) (k j : K) (v w : V) → k ≢ j → find (add c k v) j ≡ some w → find c j ≡ some w

-- cache.Contains(k)
abbrev pub contains : {K V : Type 0} (lru : Lru K V) → lru.Cache → K → Bool
contains lru c k = is_some (lru.find c k)

-- What is found after an addition is what was added, or was found before.
pub find-add :
    {K V : Type 0} (lru : Lru K V) (c : lru.Cache) (k j : K) (v w : V)
    → ((k ≡ j) ⊎ (k ≢ j))
    → lru.find (lru.add c k v) j ≡ some w
    → ((k ≡ j) × (v ≡ w)) ⊎ (lru.find c j ≡ some w)
find-add lru c k j v w (inl q) e =
    let found : some v ≡ some w =
      sym (lru.find-add_self c k v) ∙ ap (lru.find (lru.add c k v)) q ∙ e in
    inl (q, cc found)
find-add lru c k j v w (inr ne) e = inr (lru.find-add_other c k j v w ne e)

pub add_self :
    {V : Type 0} (c : Bytes → Option V) (k : Bytes) (v : V)
    → (if bytes_eq k k then some v else c k) ≡ some v
add_self c k v = rw (bytes_eq_refl k)

pub add_other :
    {V : Type 0} (c : Bytes → Option V) (k j : Bytes) (v w : V)
    → k ≢ j
    → (if bytes_eq k j then some v else c j) ≡ some w
    → c j ≡ some w
add_other c k j v w ne e = ground (arith, bytes_eq_iff k j)

-- A cache without a limit, keyed by texts, meets the laws.
abbrev pub unlimited : (V : Type 0) → Lru Bytes V
unlimited V = record {
  Cache = Bytes → Option V;
  new = λ k. none;
  find = λ c k. c k;
  touch = λ c k. c;
  add = λ c k v j. if bytes_eq k j then some v else c j;
  find-new = λ k. refl;
  find-touch = λ c k j. refl;
  find-add_self = λ c k v. add_self c k v;
  find-add_other = λ c k j v w ne e. add_other c k j v w ne e;
}
