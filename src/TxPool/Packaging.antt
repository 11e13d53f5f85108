-- ===== src/TxPool/Packaging.antt =====
-- What Package takes out of the pool.
use go_norn.Prelude.{
  ℕ, zero, suc, ◌+◌, ◌≤◌, ◌≡◌, refl, ap, ◌∙◌, inl, inr, arith, Option, none, some, List, [], ◌∷◌,
  length, Bool-cases, if◌then◌else◌, is_some, All, All-map, ltb,
}
use go_norn.Prelude.Bytes.{Bytes}
use go_norn.Prelude.Outcome.{done, ◌>>=◌}
use go_norn.Common.{Transaction}
use go_norn.TxPool.{
  TxPool, load, key_of, collect, package_loop, package_transactions, range_func,
  max_tx_package_count,
}
use go_norn.TxPool.Visits.{IsValid, Bounded, Distinct, Visited, visit-Visited}

module _ (chain : Bytes → Option Transaction) where
  -- What the loop does to the pool; `taken` are the transactions it returns.
  pub record Packaged (pool : TxPool) (rounds : ℕ) (after : TxPool × List Transaction)
      : Type 0 where
    pub at_most : length after.1 ≤ rounds
    pub smaller :
        (k : Bytes) (tx : Transaction) → load after.0.txs k ≡ some tx → load pool.txs k ≡ some tx
    pub bounded : Bounded after.0
    pub from_pool :
        All (λ tx. (load pool.txs (key_of tx) ≡ some tx) × (chain tx.body.hash ≡ none)) after.1
    pub gone : All (λ tx. load after.0.txs (key_of tx) ≡ none) after.1
    pub distinct : Distinct after.1

  Packaged-none :
      (pool : TxPool) (n : ℕ) (queue : List Bytes)
      → Bounded pool
      → Packaged pool n (record pool { tx_queue = queue }, [])
  Packaged-none pool n queue b = record {
    at_most = omega arith;
    smaller = λ k tx h. h;
    bounded = b;
    from_pool = tt;
    gone = tt;
    distinct = tt;
  }

  Packaged-step :
      (pool : TxPool) (n : ℕ) (mid : TxPool × Option Transaction)
      (after : TxPool × List Transaction)
      → Visited chain pool mid
      → Packaged mid.0 n after
      → Packaged pool (suc n) (after.0, collect chain mid.1 after.1)
  Packaged-step pool n (mid, none) after v p = record {
    at_most = omega (arith, p.at_most);
    smaller = λ k tx h. v.smaller k tx (p.smaller k tx h);
    bounded = p.bounded;
    from_pool = All-map after.1 (λ tx h. (v.smaller (key_of tx) tx h.0, h.1)) p.from_pool;
    gone = p.gone;
    distinct = p.distinct;
  }
  Packaged-step pool n (mid, some tx) after v p =
      let t = v.taken tx refl in
      record {
        at_most = omega (arith, p.at_most);
        smaller = λ k tx h. v.smaller k tx (p.smaller k tx h);
        bounded = p.bounded;
        from_pool =
            ((t.0, t.1), All-map after.1 (λ tx h. (v.smaller (key_of tx) tx h.0, h.1)) p.from_pool);
        gone = (absent (load after.0.txs (key_of tx)) (p.smaller (key_of tx)) t.2, p.gone);
        distinct = (
          All-map after.1 (λ other h same. cc (ap (load mid.txs) same, h.0, t.2)) p.from_pool,
          p.distinct,
        );
      }
    where
      absent :
          {o : Option Transaction} (q : Option Transaction)
          → ((tx : Transaction) → q ≡ some tx → o ≡ some tx)
          → o ≡ none
          → q ≡ none
      absent none f e = refl
      absent (some tx) f e = cc (f tx refl, e)

  package_loop-Packaged :
      (rounds count : ℕ) (queue : List Bytes) (pool : TxPool)
      → IsValid pool
      → Bounded pool
      → (after : TxPool × List Transaction) × (package_loop chain rounds count queue pool
          ≡ done after)
        × Packaged pool rounds after
  unfolding package_loop
  package_loop-Packaged zero count queue pool valid b =
      ((record pool { tx_queue = queue }, []), refl, Packaged-none pool 0 queue b)
  package_loop-Packaged (suc n) count [] pool valid b =
      ((record pool { tx_queue = [] }, []), refl, Packaged-none pool (suc n) [] b)
  package_loop-Packaged (suc n) count (h ∷ queue) pool valid b =
      elim (Bool-cases (ltb max_tx_package_count count)) [
        | inl full ↦
            let e : package_loop chain (suc n) count (h ∷ queue) pool
                ≡ done (record pool { tx_queue = h ∷ queue }, []) =
              rw full refl in
            (
              (record pool { tx_queue = h ∷ queue }, []),
              e,
              Packaged-none pool (suc n) (h ∷ queue) b,
            )
        | inr room ↦
            let v = visit-Visited chain pool h valid in
            let c = if is_some v.0.1 then count + 1 else count in
            let r =
              package_loop-Packaged n c queue v.0.0 (λ k tx h. valid k tx (v.2.smaller k tx h))
                (v.2.bounded b) in
            let e : package_loop chain (suc n) count (h ∷ queue) pool
                ≡ done (r.0.0, collect chain v.0.1 r.0.1) =
              rw room (
                ap
                  (λ m. m >>= λ v.
                    package_loop chain n (if is_some v.1 then count + 1 else count) queue v.0
                    >>= λ r. done (r.0, collect chain v.1 r.1))
                  v.1
                ∙ ap (λ m. m >>= λ r. done (r.0, collect chain v.0.1 r.1)) r.1) in
            ((r.0.0, collect chain v.0.1 r.0.1), e, Packaged-step pool n v.0 r.0 v.2 r.2)
      ]

-- On a valid pool within its bounds, whatever order Range visits the keys in, Package neither panics nor blocks: it returns
-- at most 10000 transactions with different hashes, each of which was in the pool under its hash, is not
-- on the chain and is no longer in the pool; and the pool has gained no
-- transaction and keeps its bounds.
pub package_transactions-Packaged :
    (chain : Bytes → Option Transaction) (ranged : List Bytes) (pool : TxPool)
    → IsValid pool
    → Bounded pool
    → (after : TxPool × List Transaction) × (package_transactions chain ranged pool ≡ done after)
      × Packaged chain pool max_tx_package_count after
unfolding package_transactions
package_transactions-Packaged chain ranged pool valid b =
    package_loop-Packaged chain max_tx_package_count 0 (range_func pool.tx_queue ranged) pool valid
      b
