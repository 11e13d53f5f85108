-- ===== src/Node/Production.antt =====
-- node/manager.go: packageBlockRoutine, in which a node that the VRF chooses makes a block and sends it out. What the
-- look-ups of the pool leave in the transaction cache, and the start of the broadcast routines, are left out.
pub mod Tested
pub mod Accepted
mod Examples
use go_norn.Prelude.{
  ℕ, zero, suc, ◌+◌, ◌-◌, ◌*◌, ◌/◌, ◌%◌, Bool, true, false, not, Option, none, some, List, [], ◌∷◌,
  ◌++◌, ◌==◌, if◌then◌else◌,
}
use go_norn.Prelude.Int64.{Int64, quot}
use go_norn.Prelude.Bytes.{Bytes}
use go_norn.Prelude.Outcome.{Outcome, done, panicked, blocked, ◌>>=◌}
use go_norn.Common.{Block, Transaction, GeneralParams}
use go_norn.Calculator.{Calculator, get_seed_params}
use go_norn.TimeSync.{get_logic_clock}
use go_norn.TxPool.{package_transactions}
use go_norn.Chain.{BlockChain, get_latest_block, get_transaction_by_hash}
use go_norn.Chain.Packaging.{PackEnv, to_array, package_new_block}
use go_norn.Vrf.{vrf_check_local_consensus, vrf_calculate}
use go_norn.Node.{NodeEnv, Manager, append_task, broadcast}
use go_norn.Node.Handlers.{synced_both}

-- big.Int.Bytes: the digits to the base 256, the highest first, none of them leading zeros. Each round takes a
-- digit, so n rounds are enough.
unfoldable pub int_loop : ℕ → ℕ → Bytes → Bytes
int_loop zero n acc = acc
int_loop (suc fuel) n acc =
    let rest = int_loop fuel (n / 256) (n % 256 ∷ acc) in if n == 0 then acc else rest

unfoldable pub int_bytes : ℕ → Bytes
unfolding int_loop
int_bytes n = int_loop n n []

-- packageBlockInterval, in seconds.
abbrev pub package_block_interval : ℕ
package_block_interval = 2

-- What one turn of the routine reads: the clock, the random numbers of its two VRFs, the order in which the pool's
-- keys are visited, and the configured keys.
pub record Turn : Type 0 where
  pub clock : Int64
  pub local_random : ℕ
  pub random : ℕ
  pub ranged : List Bytes
  pub prv_hex : Bytes
  pub pub_hex : Bytes

-- (timestamp / 1000) % packageBlockInterval == 0; the offset of an int64 is even.
unfoldable pub is_package_time : Int64 → Bool
is_package_time timestamp = quot timestamp 1000 % package_block_interval == 0

-- The parameters of the block, from the seed, its proof and what VRFCalculate returns.
unfoldable pub general_params : ℕ → ℕ → Bytes × ℕ × ℕ → Outcome GeneralParams
unfolding to_array int_bytes
general_params seed pi out = do
  random_number ← to_array 33 (out.0)
  done (record {
    result = int_bytes seed;
    proof = int_bytes pi;
    random_number = random_number;
    s = int_bytes (out.1);
    t = int_bytes (out.2);
  })

module _ {env : NodeEnv} where
  abbrev with_chain : Manager env → BlockChain env.chain_env → Manager env
  with_chain pm bc = record pm { chain = bc }

module _ {env : NodeEnv} (pack : PackEnv) (turn : Turn) where
  -- The block for a seed, if the node is chosen: the transactions are taken out of the pool.
  package_chosen : Manager env → ℕ → ℕ → Bool → Outcome (Manager env × Option Block)
  unfolding general_params package_transactions get_transaction_by_hash package_new_block
      vrf_calculate int_bytes
  package_chosen pm seed pi false = done (pm, none)
  package_chosen pm seed pi true = do
    out ← vrf_calculate env.curve env.sha256 turn.prv_hex turn.random (int_bytes seed)
    params ← general_params seed pi out
    packed ←
        package_transactions (λ hash. (get_transaction_by_hash pm.chain hash).1) turn.ranged
          pm.chain.pool
    let pm' = with_chain pm (record pm.chain { pool = packed.0 })
    block ←
        package_new_block pack pm'.chain packed.1 (get_logic_clock turn.clock pm.time_syncer) params
          package_block_interval turn.pub_hex
    done (pm', block)

  package_seed : Manager env → Option (ℕ × ℕ × Calculator) → Outcome (Manager env × Option Block)
  unfolding package_chosen vrf_check_local_consensus int_bytes
  package_seed pm none = blocked
  package_seed pm (some (seed, pi, calc)) = do
    consensus ←
        vrf_check_local_consensus env.curve env.sha256 turn.prv_hex turn.local_random
          (int_bytes seed)
    package_chosen (with_chain pm (record pm.chain { calculator = some calc })) seed pi consensus

  -- The global calculator is nil until a genesis block has set it.
  package_calculated : Manager env → Option Calculator → Outcome (Manager env × Option Block)
  unfolding package_seed get_seed_params
  package_calculated pm none = panicked
  package_calculated pm (some calc) = package_seed pm (get_seed_params calc)

  package_latest : Manager env → Option Block → Outcome (Manager env × Option Block)
  unfolding package_calculated
  package_latest pm none = done (pm, none)
  package_latest pm (some latest) = package_calculated pm pm.chain.calculator

  -- One turn of packageBlockRoutine, up to the new block.
  unfoldable pub package_block : Manager env → Outcome (Manager env × Option Block)
  unfolding package_latest get_latest_block is_package_time
  package_block pm =
      let package_it = do r ← get_latest_block pm.chain; package_latest (with_chain pm r.0) r.1
      in if not (is_package_time (get_logic_clock turn.clock pm.time_syncer))
        then done (pm, none)
        else if not (synced_both pm)
        then done (pm, none)
        else package_it

  send_out : Manager env → Option Block → Outcome (Manager env)
  send_out pm none = done pm
  send_out pm (some block) = do pm' ← append_task pm block; broadcast pm' block

  -- One turn of packageBlockRoutine.
  unfoldable pub package_block_turn : Manager env → Outcome (Manager env)
  unfolding package_block send_out
  package_block_turn pm = do r ← package_block pm; send_out r.0 r.1
