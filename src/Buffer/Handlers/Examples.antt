-- ===== src/Buffer/Handlers/Examples.antt =====
-- A buffer at height 0, with caches that forget nothing and headers whose parameters all carry the
-- current seed.
use go_norn.Prelude.{ℕ, zero, suc, ◌+◌, ◌-◌, ◌≡◌, refl, ◌⊎◌, false, some, List, [], ◌∷◌, arith}
use go_norn.Prelude.Int64.{Int64, int, half}
use go_norn.Prelude.Bytes.{bytes_eq, encode_to_string}
use go_norn.Prelude.Outcome.{Outcome, done, panicked}
use go_norn.Prelude.Lru.{unlimited}
use go_norn.Common.{Block, Transaction, set_bytes}
use go_norn.Calculator.{Calculator, verify_block_vdf, append_new_seed}
use go_norn.Buffer.{Env, new_block_buffer, get_priority_leaf}
use go_norn.Buffer.Handlers.{State, Event, arrives, ticks, process, second_process, run}
use go_norn.Buffer.Handlers.Validity.{IsValid}
use go_norn.Buffer.Handlers.Gapless.{Gapless, run-Gapless}
use go_norn.Buffer.Handlers.Admission.{Admissible, process-selects, second_process-selects}
use go_norn.Buffer.Handlers.Faults.{Claims, process-forged_height}

abbrev env : Env
env = record {
  lru = unlimited (Unit {0});
  deserialize_general_params =
      λ bytes. record { result = 2 ∷ []; proof = []; random_number = []; s = []; t = [] };
}

abbrev calculator : Calculator
calculator = record {
  seed_channel = [];
  prev_proof_channel = [];
  result_channel = [];
  proof_channel = [];
  proof_param = 3;
  order = 35;
  time_param = int 4;
  prev_seed = 0;
  seed = 2;
  proof = 0;
  changed = false;
}

abbrev tx : Transaction
tx = record {
  body = record {
    hash = 9 ∷ [];
    address = [];
    receiver = [];
    gas = int 0;
    nonce = int 0;
    event = [];
    opt = [];
    state = [];
    payload = [];
    expire = int 0;
    height = int 0;
    index = int 0;
    block_hash = [];
    timestamp = int 0;
    public = [];
    signature = [];
  };
}

-- A block with the hash `hash` on the block with the hash `prev`.
abbrev block : ℕ → ℕ → Int64 → List Transaction → Block
block prev hash height txs = record {
  header = record {
    timestamp = int 1000;
    prev_block_hash = prev ∷ [];
    block_hash = hash ∷ [];
    merkle_root = [];
    height = height;
    public_key = [];
    params = [];
    gas_limit = int 0;
  };
  transactions = txs;
}

abbrev genesis : Block
genesis = block 0 100 (int 0) []

abbrev start : State env
start = record { buffer = new_block_buffer env genesis; calculator = calculator }

-- The blocks of the heights from h on, each on the one before it.
abbrev chain : ℕ → ℕ → List Event
chain zero h = []
chain (suc n) h = arrives (block (99 + h) (100 + h) (int h) []) ∷ chain n (h + 1)

-- Fourteen blocks, the second before the first: it waits in the second queue for a tick.
abbrev events : List Event
events =
    arrives (block 101 102 (int 2) []) ∷ arrives (block 100 101 (int 1) []) ∷ ticks ∷ chain 12 3

abbrev or_start : Outcome (State env) → State env
or_start (done st) = st
or_start _ = start

events-run : run start events ≡ done (or_start (run start events))
unfolding run new_block_buffer verify_block_vdf append_new_seed set_bytes bytes_eq encode_to_string
events-run = refl

confirmed_heights : (or_start (run start events)).buffer.latest_block_height ≡ int 2
unfolding run new_block_buffer verify_block_vdf append_new_seed set_bytes bytes_eq encode_to_string
confirmed_heights = refl

run-Gapless_example :
    IsValid (or_start (run start events)).buffer
    × Gapless
        (int 0)
        (or_start (run start events)).buffer.pop_chan
        (or_start (run start events)).buffer.latest_block_height
run-Gapless_example =
    run-Gapless env genesis calculator events (or_start (run start events)) (omega arith)
      (omega arith) events-run

abbrev one : Block
one = block 100 101 (int 1) []

abbrev after_one : State env
after_one = or_start (process start one)

process-one : process start one ≡ done after_one
unfolding process new_block_buffer verify_block_vdf append_new_seed set_bytes bytes_eq
    encode_to_string
process-one = refl

selected_one : after_one.buffer.selected_block (int 1) ≡ some one
unfolding process new_block_buffer verify_block_vdf append_new_seed set_bytes bytes_eq
    encode_to_string
selected_one = refl

process-selects_example :
    (start.buffer.selected_block (int 1) ≡ some one)
    ⊎ ((one ≡ one) × (int 1 ≡ one.header.height) × Admissible start one)
process-selects_example = process-selects start after_one one process-one (int 1) one selected_one

abbrev two : Block
two = block 101 102 (int 2) []

abbrev after_two : State env
after_two = or_start (second_process after_one two)

second_process-two : second_process after_one two ≡ done after_two
unfolding process second_process new_block_buffer verify_block_vdf append_new_seed set_bytes
    bytes_eq encode_to_string
second_process-two = refl

selected_two : after_two.buffer.selected_block (int 2) ≡ some two
unfolding process second_process new_block_buffer verify_block_vdf append_new_seed set_bytes
    bytes_eq encode_to_string
selected_two = refl

second_process-selects_example :
    (after_one.buffer.selected_block (int 2) ≡ some two)
    ⊎ ((two ≡ two) × (int 2 ≡ two.header.height) × Admissible after_one two)
second_process-selects_example =
    second_process-selects after_one after_two two second_process-two (int 2) two selected_two

-- The latest block is the predecessor by its hash, and the height is 20.
abbrev forged : Block
forged = block 100 101 (int 20) []

abbrev greatest : Block
greatest = block 100 101 (half + (half - 1)) []

forged-Claims : Claims start forged
unfolding new_block_buffer verify_block_vdf set_bytes
forged-Claims = record {
  above = omega arith;
  in_range = omega arith;
  fresh = refl;
  on_latest = refl;
  vdf = refl;
  free = refl;
}

greatest-Claims : Claims start greatest
unfolding new_block_buffer verify_block_vdf set_bytes
greatest-Claims = record {
  above = omega arith;
  in_range = omega arith;
  fresh = refl;
  on_latest = refl;
  vdf = refl;
  free = refl;
}

process-forged_height_example : process start forged ≡ panicked
unfolding new_block_buffer
process-forged_height_example =
    process-forged_height start forged forged-Claims (omega arith) (omega arith) (omega arith) refl

abbrev rich : Block
rich = block 100 103 (int 1) (tx ∷ [])

leaf_below_two : get_priority_leaf after_two.buffer (int 2) ≡ one
unfolding get_priority_leaf process second_process new_block_buffer verify_block_vdf append_new_seed
    set_bytes bytes_eq encode_to_string
leaf_below_two = refl
