-- ===== src/Chain/Fixtures.antt =====
-- A small chain on which the modules try their definitions.
use go_norn.Prelude.{
  ℕ, Option, some, ◌≢◌, ◌==◌, if◌then◌else◌, zero, suc, ◌+◌, ◌*◌, ◌^◌, length, ◌<◌, ◌≡◌, refl,
  arith, none, List, [], ◌∷◌, replicate,
}
use go_norn.Prelude.Int64.{Int64, int, minus}
use go_norn.Prelude.Lru.{Lru, unlimited}
use go_norn.Prelude.Bytes.{Bytes, IsBytes, encode_to_string, bytes_eq}
use go_norn.Prelude.Outcome.{done}
use go_norn.Common.{Block, Transaction, Hash, is_genesis_block}
use go_norn.Common.Encodable.{IsBody, AllBodies, bodies, IsSendable}
use go_norn.TxPool.{new_tx_pool}
use go_norn.Chain.{BlockChain}
use go_norn.Chain.{ChainEnv}
use go_norn.Wire.Fixtures.{runtime}
use go_norn.Wire.Memory.{splice}
use go_norn.Wire.{write_cells}
use go_norn.Prelude.LittleEndian.{put_little_endian}
use go_norn.Serializer.{serialize_transaction}
use go_norn.Serializer.Environments.{chain_env as karmem_chain_env}
use go_norn.Chain.Insert.{insert_block}
use go_norn.Chain.Ledger.{find_hash, find_height, IsMember, Growing, Represents, spec_insert}
use go_norn.Chain.Insert.Growth.{insert_block-spec_insert}

pub heights_self :
    (c : ℕ → Option Bytes) (k : ℕ) (v : Bytes) → (if k == k then some v else c k) ≡ some v
heights_self c k v = ground arith

pub heights_other :
    (c : ℕ → Option Bytes) (k j : ℕ) (v w : Bytes)
    → k ≢ j
    → (if k == j then some v else c j) ≡ some w
    → c j ≡ some w
heights_other c k j v w ne e = ground (arith, ne, e)

-- A cache without a limit, keyed by numbers.
abbrev heights : Lru ℕ Bytes
heights = record {
  Cache = ℕ → Option Bytes;
  new = λ k. none;
  find = λ c k. c k;
  touch = λ c k. c;
  add = λ c k v j. if k == j then some v else c j;
  find-new = λ k. refl;
  find-touch = λ c k j. refl;
  find-add_self = heights_self;
  find-add_other = heights_other;
}

-- An environment of the chain: structs are encoded over a simple memory, and the parameters are always the same.
abbrev pub chain_env : ChainEnv
chain_env =
    record (karmem_chain_env runtime (unlimited Unit) (unlimited Block) heights
      (unlimited Transaction)) {
        buffer_env = record {
          lru = unlimited Unit;
          deserialize_general_params = λ text. record {
            result = [];
            proof = [];
            random_number = 2 ∷ 1 ∷ replicate 31 0;
            s = 1 ∷ [];
            t = 2 ∷ [];
          };
        };
        deserialize_genesis_params = λ text. record {
          order = 35 ∷ [];
          time_param = int 2;
          seed = 2 ∷ [];
          verify_param = 5 ∷ [];
        };
      }

pub replicate-IsBytes : (n b : ℕ) → b < 256 → IsBytes (replicate n b)
replicate-IsBytes zero b h = tt
replicate-IsBytes (suc n) b h = (h, replicate-IsBytes n b h)

-- A hash of 32 equal bytes, and a block with that hash.
abbrev pub hash : ℕ → Hash
hash b = replicate 32 b

abbrev pub block : ℕ → ℕ → Int64 → List Transaction → Block
block own prev height txs = record {
  header = record {
    timestamp = int 1000;
    prev_block_hash = hash prev;
    block_hash = hash own;
    merkle_root = hash 0;
    height = height;
    public_key = replicate 33 2;
    params = [];
    gas_limit = int 0;
  };
  transactions = txs;
}

pub block-IsMember :
    (own prev n : ℕ) (txs : List Transaction)
    → own < 256
    → n < 1000
    → AllBodies txs
    → 200 + 8 * length txs + bodies txs < 2 ^ 32
    → IsMember (block own prev (int n) txs)
block-IsMember own prev n txs h k whole small = (
  (refl, replicate-IsBytes 32 own h),
  omega (arith, k),
  (
    record {
      prev_block_hash = refl;
      block_hash = refl;
      merkle_root = refl;
      public_key = refl;
      timestamp = omega arith;
      height = omega (arith, k);
      gas_limit = omega arith;
    },
    whole,
    omega (arith, small),
  ),
)

-- A genesis block.
abbrev pub genesis : Block
genesis = block 1 0 (int 0) []

abbrev pub tx : ℕ → Transaction
tx own = record {
  body = record {
    hash = hash own;
    address = replicate 20 0;
    receiver = replicate 20 0;
    gas = int 0;
    nonce = int 0;
    event = [];
    opt = [];
    state = [];
    payload = [];
    expire = int 0;
    height = int 0;
    index = int 0;
    block_hash = hash 0;
    timestamp = int 0;
    public = replicate 33 2;
    signature = [];
  };
}

pub tx-IsBody : (own : ℕ) → IsBody (tx own).body
tx-IsBody own = record {
  hash = refl;
  address = refl;
  receiver = refl;
  block_hash = refl;
  public = refl;
  gas = omega arith;
  nonce = omega arith;
  expire = omega arith;
  height = omega arith;
  index = omega arith;
  timestamp = omega arith;
  signature = omega arith;
}

abbrev pub start : BlockChain chain_env
start = record {
  db = λ k. none;
  block_height_map = chain_env.height_lru.new;
  block_cache = chain_env.block_lru.new;
  tx_cache = chain_env.tx_lru.new;
  latest_block = none;
  latest_height = minus 1;
  buffer = none;
  block_chan = [];
  tasks = [];
  genesis_params = none;
  genesis_time = int 0;
  calculator = none;
  pool = new_tx_pool;
}

pub start-Represents : Represents start []
unfolding find_hash find_height Growing
start-Represents = record {
  stored = record {
    members = tt;
    growing = tt;
    hashes = λ h hh. refl;
    heights = λ n hn. refl;
    latest = refl;
  };
  cached = record {
    blocks_true = λ h b hh e. let q : none ≡ some b = e in cc q;
    heights_true = λ n h e. let q : none ≡ some h = e in cc q;
  };
  tip_eq = refl;
  top_eq = refl;
}

-- The chain with the genesis block.
pub one :
    (after : BlockChain chain_env) × (insert_block start genesis ≡ done after)
    × Represents after (genesis ∷ [])
unfolding spec_insert find_hash is_genesis_block encode_to_string bytes_eq
one =
    insert_block-spec_insert start [] genesis start-Represents
      (block-IsMember 1 0 0 [] (omega arith) (omega arith) tt (omega arith))

-- A transaction all of whose numbers are small enough to be written in bytes, with the compressed point 03 01 00…
-- for its key.
abbrev pub small : Transaction
small = record {
  body = record {
    hash = replicate 32 7;
    address = replicate 20 0;
    receiver = replicate 20 0;
    gas = 0;
    nonce = 0;
    event = [];
    opt = [];
    state = [];
    payload = [];
    expire = 0;
    height = 0;
    index = 0;
    block_hash = replicate 32 0;
    timestamp = 0;
    public = 3 ∷ 1 ∷ replicate 31 0;
    signature = 9 ∷ [];
  };
}

pub small-IsBytes : IsBytes (chain_env.serialize_transaction small)
unfolding serialize_transaction splice put_little_endian write_cells
small-IsBytes = omega arith

pub small-IsSendable : IsSendable small
small-IsSendable = (
  record {
    hash = refl;
    address = refl;
    receiver = refl;
    block_hash = refl;
    public = refl;
    gas = omega arith;
    nonce = omega arith;
    expire = omega arith;
    height = omega arith;
    index = omega arith;
    timestamp = omega arith;
    signature = omega arith;
  },
  omega arith,
)
