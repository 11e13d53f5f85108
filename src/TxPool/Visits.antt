-- ===== src/TxPool/Visits.antt =====
-- core/txpool.go: one iteration of Package, and what it does to the pool.
use go_norn.Prelude.{
  ◌+◌, ◌≤◌, ◌≡◌, ◌≢◌, refl, sym, ap, ◌∙◌, inl, inr, false, arith, Option, none, some, List, [], ◌∷◌,
  length, Option-cases, All, ltb, take-short,
}
use go_norn.Prelude.Bytes.{Bytes, decode_string, decode-encode, IsBytes}
use go_norn.Prelude.Outcome.{done}
use go_norn.Common.{Transaction}
use go_norn.TxPool.{
  TxPool, load, delete, key_of, take_out, visit_hit, visit_found, visit, max_tx_pool_size,
}
use go_norn.TxPool.Entries.{load-delete_self, load-delete, length-delete_hit}

-- Every transaction stands under its own hash, which has 32 bytes.
abbrev pub IsValid : TxPool → Type 0
IsValid pool =
    (k : Bytes) (tx : Transaction)
    → load pool.txs k ≡ some tx
    → (k ≡ key_of tx) × (length tx.body.hash ≡ 32) × IsBytes tx.body.hash

-- The counter is at least the number of entries, and at most 20481.
abbrev pub Bounded : TxPool → Type 0
Bounded pool = (length pool.txs ≤ pool.count) × (pool.count ≤ max_tx_pool_size + 1)

-- No two of the transactions have the same hash.
abbrev pub Distinct : List Transaction → Type 0
Distinct [] = Unit
Distinct (tx ∷ txs) = All (λ other. key_of other ≢ key_of tx) txs × Distinct txs

module _ (chain : Bytes → Option Transaction) where
  -- What an iteration does to the pool.
  pub record Visited (pool : TxPool) (after : TxPool × Option Transaction) : Type 0 where
    pub smaller :
        (k : Bytes) (tx : Transaction) → load after.0.txs k ≡ some tx → load pool.txs k ≡ some tx
    pub bounded : Bounded pool → Bounded after.0
    pub taken :
        (tx : Transaction)
        → after.1 ≡ some tx
        → (load pool.txs (key_of tx) ≡ some tx)
          × (chain tx.body.hash ≡ none)
          × (load after.0.txs (key_of tx) ≡ none)

  Visited-unchanged : (pool : TxPool) → Visited pool (pool, none)
  Visited-unchanged pool = record { smaller = λ k tx h. h; bounded = λ b. b; taken = λ tx e. cc e }

  -- Whether the transaction goes to the block is up to the chain alone.
  Visited-take_out :
      (pool : TxPool) (value : Transaction) (chosen : Option Transaction)
      → load pool.txs (key_of value) ≡ some value
      → ((tx : Transaction) → chosen ≡ some tx → (tx ≡ value) × (chain value.body.hash ≡ none))
      → Visited pool (take_out pool (key_of value), chosen)
  Visited-take_out pool value chosen hit why = record {
    smaller = λ k tx h. load-delete pool.txs (key_of value) k tx h;
    bounded = λ b. (
      omega (arith, b.0, length-delete_hit pool.txs (key_of value) value hit),
      omega (arith, b.1),
    );
    taken = λ tx e.
        let w = why tx e in
        (
          ap (λ t. load pool.txs (key_of t)) w.0 ∙ hit ∙ ap some (sym w.0),
          ap (λ (t : Transaction). chain t.body.hash) w.0 ∙ w.1,
          ap (λ t. load (delete pool.txs (key_of value)) (key_of t)) w.0
              ∙ load-delete_self pool.txs (key_of value),
        );
  }

  visit_hit-Visited :
      (pool : TxPool) (value : Transaction)
      → load pool.txs (key_of value) ≡ some value
      → length value.body.hash ≡ 32
      → (after : TxPool × Option Transaction) × (visit_hit chain pool
            (key_of value)
            value.body.hash
            value
          ≡ done after)
        × Visited pool after
  unfolding visit_hit
  visit_hit-Visited pool value hit l =
      let long : ltb (length value.body.hash) 32 ≡ false = ground arith in
      elim (Option-cases (chain value.body.hash)) [
        | inl e ↦
            rw (long, take-short 32 value.body.hash (omega (arith, l)), e)
              (
                (take_out pool (key_of value), some value),
                refl,
                Visited-take_out pool value (some value) hit (λ tx h. (cc h, e)),
              )
        | inr (other, e) ↦
            rw (long, take-short 32 value.body.hash (omega (arith, l)), e)
              (
                (take_out pool (key_of value), none),
                refl,
                Visited-take_out pool value none hit (λ tx h. cc h),
              )
      ]

  pub visit-Visited :
      (pool : TxPool) (k : Bytes)
      → IsValid pool
      → (after : TxPool × Option Transaction) × (visit chain pool k ≡ done after)
        × Visited pool after
  unfolding visit visit_found
  visit-Visited pool k valid = elim (Option-cases (load pool.txs k)) [
    | inl miss ↦ elim (Option-cases (decode_string k)) [
      | inl bad ↦
          let e : visit chain pool k ≡ done (pool, none) =
            ap (λ d. visit_found chain pool k d (load pool.txs k)) bad in
          ((pool, none), e, Visited-unchanged pool)
      | inr (hash, ok) ↦
          let e : visit chain pool k ≡ done (pool, none) =
            ap (λ d. visit_found chain pool k d (load pool.txs k)) ok
            ∙ ap (visit_found chain pool k (some hash)) miss in
          ((pool, none), e, Visited-unchanged pool)
    ]
    | inr (value, hit) ↦
        let v = valid k value hit in
        let own : load pool.txs (key_of value) ≡ some value = ap (load pool.txs) (sym v.0) ∙ hit in
        let ok : decode_string k ≡ some value.body.hash =
          ap decode_string v.0 ∙ decode-encode value.body.hash v.2 in
        let r = visit_hit-Visited pool value own v.1 in
        let e : visit chain pool k ≡ visit_hit chain pool k value.body.hash value =
          ap (λ d. visit_found chain pool k d (load pool.txs k)) ok
          ∙ ap (visit_found chain pool k (some value.body.hash)) hit in
        (r.0, e ∙ ap (λ j. visit_hit chain pool j value.body.hash value) v.0 ∙ r.1, r.2)
  ]
