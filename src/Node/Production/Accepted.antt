-- ===== src/Node/Production/Accepted.antt =====
-- node/manager.go: the blocks that a node makes pass the other nodes' test of the VRF.
use go_norn.Prelude.{
  ℕ, ◌<◌, ◌^◌, length, ◌≡◌, refl, sym, ap, ◌∙◌, subst, Bool, true, false, not, Option, none, some,
  if◌then◌else◌, ◌%◌, Bool-cases, inl, inr, arith,
}
use go_norn.Prelude.Bytes.{decode_string}
use go_norn.Prelude.Outcome.{Outcome, done, >>=-eq-done, done-injective}
use go_norn.Common.{Block, GeneralParams}
use go_norn.Calculator.{Calculator, get_seed_params}
use go_norn.TimeSync
use go_norn.TimeSync.{SyncStatus, initial, confirming, is_synced, get_logic_clock}
use go_norn.BlockSync
use go_norn.BlockSync.{Status, sync_paused, block_syncing, buffer_syncing}
use go_norn.TxPool.{package_transactions}
use go_norn.Prelude.Int64.{Int64, quot, add64}
use go_norn.Chain.{BlockChain, get_latest_block, get_transaction_by_hash}
use go_norn.Chain.Packaging.{PackEnv, package_new_block}
use go_norn.Chain.Packaging.Placement.{IsPacked, package_new_block-IsPacked}
use go_norn.Vrf.{PrivateKey, vrf_check_local_consensus, vrf_calculate}
use go_norn.Node.{NodeEnv, Manager, is_status_synced, verify_block_vrf}
use go_norn.Node.Handlers.{synced_both}
use go_norn.Node.Production.{
  Turn, int_bytes, is_package_time, general_params, package_chosen, package_seed,
  package_calculated, package_latest, package_block, package_block_interval, with_chain,
}
use go_norn.Node.Production.Tested.{
  SeedIsGood, IsReady, params_of, Calculates, general_params_lem, packed-accepted,
}

module _ {env : NodeEnv} (pack : PackEnv) (turn : Turn) (prv : PrivateKey env.curve)
    (ready : IsReady env pack turn prv) where
  chosen-accepted :
      (pm pm' : Manager env) (seed pi : ℕ) (chosen : Bool) (block : Block)
      → vrf_check_local_consensus env.curve env.sha256 turn.prv_hex turn.local_random
          (int_bytes seed)
        ≡ done chosen
      → package_chosen pack turn pm seed pi chosen ≡ done (pm', some block)
      → length block.header.params < 2 ^ 32
      → SeedIsGood env block
      → verify_block_vrf env block ≡ done true
  unfolding package_chosen Calculates
  chosen-accepted pm pm' seed pi false block c e small good =
      let no : none ≡ some block =
        ap (λ (r : Manager env × Option Block). r.1) (done-injective e) in
      cc no
  chosen-accepted pm pm' seed pi true block c e small good =
      let out =
        >>=-eq-done (vrf_calculate env.curve env.sha256 turn.prv_hex turn.random (int_bytes seed)) _
          e in
      let params = >>=-eq-done (general_params seed pi out.0) _ out.2 in
      let packed =
        >>=-eq-done
          (package_transactions (λ hash. (get_transaction_by_hash pm.chain hash).1) turn.ranged
            pm.chain.pool)
          _ params.2 in
      let bc : BlockChain env.chain_env = record pm.chain { pool = packed.0.0 } in
      let now : Int64 = get_logic_clock turn.clock pm.time_syncer in
      let made =
        >>=-eq-done
          (package_new_block pack bc (packed.0.1) now params.0 package_block_interval turn.pub_hex)
          _ packed.2 in
      let one : made.0 ≡ some block =
        ap (λ (r : Manager env × Option Block). r.1) (done-injective made.2) in
      let own : params_of pack turn prv ready seed pi out.0 ≡ params.0 =
        done-injective
          (sym ((general_params_lem pack turn prv ready seed pi out.0 out.1).0) ∙ params.1) in
      let header =
        package_new_block-IsPacked pack bc (packed.0.1) now params.0 package_block_interval
          turn.pub_hex block (made.1 ∙ ap done one) in
      packed-accepted pack turn prv ready seed pi out.0 header.0 block (packed.0.1) out.1
        (subst
          (λ (p : GeneralParams).
            IsPacked pack header.0 (packed.0.1) p (decode_string turn.pub_hex) block)
          (sym own) header.1)
        c small good

  seed-accepted :
      (pm pm' : Manager env) (o : Option (ℕ × ℕ × Calculator)) (block : Block)
      → package_seed pack turn pm o ≡ done (pm', some block)
      → length block.header.params < 2 ^ 32
      → SeedIsGood env block
      → verify_block_vrf env block ≡ done true
  unfolding package_seed
  seed-accepted pm pm' none block e small good = cc e
  seed-accepted pm pm' (some (seed, pi, calc)) block e small good =
      let c =
        >>=-eq-done
          (vrf_check_local_consensus env.curve env.sha256 turn.prv_hex turn.local_random
            (int_bytes seed))
          _ e in
      chosen-accepted (with_chain pm (record pm.chain { calculator = some calc })) pm' seed pi c.0
        block c.1 c.2 small good

  calculated-accepted :
      (pm pm' : Manager env) (o : Option Calculator) (block : Block)
      → package_calculated pack turn pm o ≡ done (pm', some block)
      → length block.header.params < 2 ^ 32
      → SeedIsGood env block
      → verify_block_vrf env block ≡ done true
  unfolding package_calculated
  calculated-accepted pm pm' none block e small good = cc e
  calculated-accepted pm pm' (some calc) block e small good =
      seed-accepted pm pm' (get_seed_params calc) block e small good

  latest-accepted :
      (pm pm' : Manager env) (latest : Option Block) (block : Block)
      → package_latest pack turn pm latest ≡ done (pm', some block)
      → length block.header.params < 2 ^ 32
      → SeedIsGood env block
      → verify_block_vrf env block ≡ done true
  unfolding package_latest
  latest-accepted pm pm' none block e small good =
      let no : none ≡ some block =
        ap (λ (r : Manager env × Option Block). r.1) (done-injective e) in
      cc no
  latest-accepted pm pm' (some latest) block e small good =
      calculated-accepted pm pm' pm.chain.calculator block e small good

  -- No block is made at another time than the one for packaging, nor by a node that is not synchronised.
  skipped :
      (pm pm' : Manager env) (block : Block) (skip : Bool)
      (other : Outcome (Manager env × Option Block))
      → (if skip then done (pm, none) else other) ≡ done (pm', some block)
      → (skip ≡ false) × (other ≡ done (pm', some block))
  skipped pm pm' block true other e =
      let no : none ≡ some block =
        ap (λ (r : Manager env × Option Block). r.1) (done-injective e) in
      cc no
  skipped pm pm' block false other e = (refl, e)

  not-false : (b : Bool) → not b ≡ false → b ≡ true
  not-false true e = refl
  not-false false e = cc e

  is_package_time-even :
      (timestamp : Int64) → is_package_time timestamp ≡ true → quot timestamp 1000 % 2 ≡ 0
  unfolding is_package_time
  is_package_time-even timestamp e = ground (arith, e)

  is_status_synced-synced : (s : Status) → is_status_synced s ≡ true → s ≡ BlockSync.synced
  is_status_synced-synced sync_paused e = cc e
  is_status_synced-synced block_syncing e = cc e
  is_status_synced-synced buffer_syncing e = cc e
  is_status_synced-synced BlockSync.synced e = refl

  is_synced-synced : (s : SyncStatus) → is_synced s ≡ true → s ≡ TimeSync.synced
  is_synced-synced initial e = cc e
  is_synced-synced TimeSync.synced e = refl
  is_synced-synced confirming e = cc e

  synced_both-both :
      (pm : Manager env)
      → synced_both pm ≡ true
      → (pm.block_syncer.status ≡ BlockSync.synced) × (pm.time_syncer.status ≡ TimeSync.synced)
  synced_both-both pm e = elim (Bool-cases (is_status_synced pm.block_syncer.status)) [
    | inl b ↦ (
      is_status_synced-synced pm.block_syncer.status b,
      is_synced-synced pm.time_syncer.status (rw b at e),
    )
    | inr b ↦ let no : false ≡ true = rw b at e in cc no
  ]

  -- If a turn of packageBlockRoutine makes a block with parameters of fewer than 2 ^ 32 bytes, then the seconds of its
  -- logical clock are even, both syncers of the node are synchronised, and verifyBlockVRF accepts the block, at any node.
  -- The order of the curve must not divide the hash of the seed in the block, and the node must be ready: its two keys are
  -- a pair, compressed points have 33 bytes, parameters with a random number of 33 bytes and of fewer than 2 ^ 32 bytes are
  -- read as they were written, and the order divides neither the private key nor the two random numbers.
  pub package_block-accepted :
      (pm pm' : Manager env) (block : Block)
      → package_block pack turn pm ≡ done (pm', some block)
      → length block.header.params < 2 ^ 32
      → SeedIsGood env block
      → (quot (add64 turn.clock pm.time_syncer.delta) 1000 % 2 ≡ 0)
        × (pm.block_syncer.status ≡ BlockSync.synced)
        × (pm.time_syncer.status ≡ TimeSync.synced)
        × (verify_block_vrf env block ≡ done true)
  unfolding package_block
  package_block-accepted pm pm' block e small good =
      let timely =
        skipped pm pm' block (not (is_package_time (get_logic_clock turn.clock pm.time_syncer))) _
          e in
      let in_sync = skipped pm pm' block (not (synced_both pm)) _ timely.1 in
      let latest = >>=-eq-done (get_latest_block pm.chain) _ in_sync.1 in
      (
        is_package_time-even (add64 turn.clock pm.time_syncer.delta) (not-false _ timely.0),
        (synced_both-both pm (not-false _ in_sync.0)).0,
        (synced_both-both pm (not-false _ in_sync.0)).1,
        latest-accepted (with_chain pm (latest.0.0)) pm' (latest.0.1) block latest.2 small good,
      )
