-- ===== src/Rpc/Examples.antt =====
-- Runs of the services.
use go_norn.Prelude.{
  ◌≡◌, ◌∙◌, refl, ap, arith, Bool, true, false, Option, none, some, [], ◌∷◌, inl, replicate,
  get_elem?,
}
use go_norn.Prelude.Int64.{int}
use go_norn.Prelude.Lru.{unlimited}
use go_norn.Prelude.Bytes.{Bytes, bytes_eq, encode_to_string, decode_string, decode-encode}
use go_norn.Prelude.Outcome.{Outcome, done, panicked}
use go_norn.Common.{Block, Transaction, set_bytes, is_genesis_block}
use go_norn.BlockSync.{new_block_syncer, set_synced}
use go_norn.TimeSync.{new_time_syncer}
use go_norn.Chain.{BlockChain}
use go_norn.Wire.Fixtures.{runtime}
use go_norn.Wire.Memory.{splice}
use go_norn.Prelude.LittleEndian.{put_little_endian}
use go_norn.Serializer.{bytes_of, serialize_data_command}
use go_norn.Serializer.Environments.{body_back, deserialize-serialize_data_command}
use go_norn.Wire.Headers.{write_transaction_body, read_transaction_body}
use go_norn.Wire.{new_viewer}
use go_norn.Chain.Fixtures.{
  chain_env, small, small-IsBytes, small-IsSendable, replicate-IsBytes, hash, block, block-IsMember,
  tx-IsBody, start, start-Represents, tx,
}
use go_norn.Chain.Ledger.{find_hash, find_height, Represents, spec_insert}
use go_norn.Chain.Insert.{insert_block}
use go_norn.Chain.Insert.Growth.{insert_block-spec_insert}
use go_norn.Node.{NodeEnv, Manager}
use go_norn.Vrf.Three.{Three, once, three, multiple, unmarshal, marshal_length}
use go_norn.Vrf.{PrivateKey, decode_private_key_from_hex_string}
use go_norn.Signing.{Signatures, verify}
use go_norn.Signing.Verdict.{verify-signed}
use go_norn.Rpc.{RpcEnv, error, decode_failed, ok, hex_text, PbTransaction, print_all}
use go_norn.Rpc.Queries.{
  GetBlockReq, GetTransactionReq, answer_block_by_hash, answer_block_by_number,
  answer_transaction_by_block_number_and_index, answer_transaction_by_block_hash_and_index,
}
use go_norn.Rpc.Queries.Blocks.{
  hash_reply, height_reply, answer_block_by_hash-find_hash, answer_block_by_number-find_height,
}
use go_norn.Rpc.Queries.Indexed.{
  at_place, elem_reply, answer_transaction_by_block_number_and_index-full,
  answer_transaction_by_block_hash_and_index-spelling,
}
use go_norn.Rpc.Submission.{
  SendTransactionWithDataReq, command_bytes, set_command, is_command, send_transaction_with_data,
  success, submit_transaction,
}
use go_norn.Rpc.Submission.Acceptance.{
  Added, Carries, send_transaction_with_data-verified, submit_transaction-verified,
}
use go_norn.Rpc.Submission.Screening.{Screened, submit_transaction-Screened}

-- A chain with one block, which has two transactions.
abbrev only : Block
only = block 1 0 (int 0) (tx 4 ∷ tx 5 ∷ [])

loaded :
    (after : BlockChain chain_env) × (insert_block start only ≡ done after)
    × Represents after (only ∷ [])
unfolding spec_insert find_hash is_genesis_block encode_to_string bytes_eq
loaded = insert_block-spec_insert start [] only start-Represents (
    block-IsMember 1 0 0 (tx 4 ∷ tx 5 ∷ []) (omega arith) (omega arith)
      (tx-IsBody 4, (tx-IsBody 5, tt)) (omega arith))

abbrev ask : GetBlockReq
ask = record { hash = some (hex_text (hash 1)); number = some 0; full = some true }

answer_block_by_hash-find_hash_example :
    (bc' : BlockChain chain_env) × (answer_block_by_hash 7 loaded.0 ask
      ≡ hash_reply 7 true bc' (find_hash (only ∷ []) (hash 1)))
    × Represents bc' (only ∷ [])
answer_block_by_hash-find_hash_example =
    answer_block_by_hash-find_hash 7 loaded.0 (only ∷ []) ask (hex_text (hash 1)) (hash 1) true
      loaded.2 (refl, replicate-IsBytes 32 1 (omega arith)) (inl refl) refl refl

answer_block_by_number-find_height_example :
    (bc' : BlockChain chain_env) × (answer_block_by_number 7 loaded.0 ask
      ≡ done (bc', height_reply 7 (some true) (find_height (only ∷ []) (int 0))))
    × Represents bc' (only ∷ [])
answer_block_by_number-find_height_example =
    answer_block_by_number-find_height 7 loaded.0 (only ∷ []) ask 0 loaded.2 (omega arith) refl

only-found :
    (find_hash (only ∷ []) (hash 1) ≡ some only) × (find_height (only ∷ []) (int 0) ≡ some only)
unfolding find_hash find_height bytes_eq
only-found = (refl, refl)

abbrev second_of_block : GetTransactionReq
second_of_block = record { hash = none; block_hash = none; block_number = some 0; index = some 1 }

answer_transaction_by_block_number_and_index-full_example :
    (bc' : BlockChain chain_env) × (p : PbTransaction)
    × (answer_transaction_by_block_number_and_index 7 loaded.0 second_of_block
        ≡ done (bc', ok (7, p)))
    × (get_elem? (print_all only 0 only.transactions) 1 ≡ some (at_place (hash 1) 0 1 p))
    × Represents bc' (only ∷ [])
answer_transaction_by_block_number_and_index-full_example =
    answer_transaction_by_block_number_and_index-full 7 loaded.0 (only ∷ []) second_of_block 0 1
      only loaded.2 (omega arith) (omega arith) refl refl only-found.1 (omega arith)

answer_transaction_by_block_hash_and_index-spelling_example :
    (answer_transaction_by_block_hash_and_index 7 loaded.0
        (record second_of_block { block_hash = some (hex_text (hash 1)); index = some 1 })
      ≡ done (loaded.0, error decode_failed))
    × ((bc' : BlockChain chain_env) × (answer_transaction_by_block_hash_and_index 7 loaded.0
            (record second_of_block {
              block_hash = some (encode_to_string (hash 1));
              index = some 1;
            })
          ≡ done (bc', elem_reply 7 (some (tx 5))))
        × Represents bc' (only ∷ []))
answer_transaction_by_block_hash_and_index-spelling_example =
    answer_transaction_by_block_hash_and_index-spelling 7 loaded.0 (only ∷ []) second_of_block 1
      only loaded.2 (refl, replicate-IsBytes 32 1 (omega arith)) only-found.0

abbrev node_env : NodeEnv
node_env = record {
  chain_env = chain_env;
  curve = three;
  sha256 = λ text. replicate 32 7;
  known_lru = unlimited Unit;
  serialize_status_msg = λ m. [];
}

-- A point that is nil ends the program.
checked : Option Three → Bytes → Bytes → Outcome Bool
checked none text sig = panicked
checked (some p) text sig = done true

checked-some : (p : Three) (text sig : Bytes) → checked (some p) text sig ≡ done true
unfolding checked
checked-some p text sig = refl

abbrev signatures : Signatures three node_env.sha256
signatures = record {
  sha1 = λ text. replicate 20 6;
  write_body = λ b. (true, bytes_of (write_transaction_body runtime b));
  read_body = λ text. read_transaction_body runtime text (new_viewer runtime text 0);
  sign_asn1 = λ r prv text. some (r ∷ []);
  verify_asn1 = checked;
  writes = λ b. refl;
  read-write_body = body_back runtime;
  verify-sign = λ r prv text sig e h. checked-some prv.public text sig;
  length-sha1 = λ text. refl;
  length-sha256 = λ text. refl;
}

abbrev env : RpcEnv
env = record {
  node_env = node_env;
  signatures = signatures;
  write_data_command = λ c. bytes_of (serialize_data_command runtime c);
  read-write_data_command = deserialize-serialize_data_command runtime;
  length-marshal_compressed = marshal_length;
}

abbrev node : Manager node_env
node = record {
  known_block = node_env.known_lru.new;
  known_transaction = node_env.known_lru.new;
  block_broadcast_queue = [];
  tx_broadcast_queue = [];
  chain = start;
  buffer_chan = [];
  block_syncer = set_synced new_block_syncer;
  time_syncer = new_time_syncer true (int 0);
}

-- The key 02, and twenty bytes of zeros.
abbrev prv_hex : Bytes
prv_hex = b'0' ∷ b'2' ∷ []

abbrev prv : PrivateKey three
prv = record { number = 2; public = multiple 2 once }

prv-decoded : decode_private_key_from_hex_string three prv_hex ≡ some prv
unfolding decode_private_key_from_hex_string decode_string set_bytes
prv-decoded = refl

abbrev receiver : Bytes
receiver = replicate 40 b'0'

receiver-decoded : decode_string receiver ≡ some (replicate 20 0)
unfolding decode_string
receiver-decoded = refl

abbrev request : SendTransactionWithDataReq
request = record {
  kind = some set_command;
  receiver = some receiver;
  key = some (b'k' ∷ []);
  value = some (b'v' ∷ []);
}

set-is_command : is_command set_command ≡ true
unfolding is_command bytes_eq
set-is_command = refl

send_transaction_with_data-verified_example :
    (pm' : Manager node_env) × (sent : Transaction) × (send_transaction_with_data env
        (int 5)
        1
        request
        prv_hex
        node
      ≡ done (pm', ok (encode_to_string sent.body.hash)))
    × (verify signatures sent ≡ done true)
    × Added env node pm' sent
    × Carries env request set_command (replicate 20 0) (int 5) sent.body
unfolding command_bytes serialize_data_command splice put_little_endian
send_transaction_with_data-verified_example =
    send_transaction_with_data-verified env prv_hex set_command receiver (replicate 20 0) prv
      (int 5) 1 request node prv-decoded (λ e. absurd (omega (arith, e))) refl receiver-decoded
      (omega arith) refl set-is_command (omega arith) (omega arith)
      (λ t. (1 ∷ [], refl, omega arith)) (omega arith)

-- The text of a small transaction.
abbrev payload : Bytes
payload = chain_env.serialize_transaction small

payload-decoded : decode_string (encode_to_string payload) ≡ some payload
payload-decoded = decode-encode payload small-IsBytes

payload-verified : verify signatures (chain_env.deserialize_transaction payload) ≡ done true
unfolding unmarshal bytes_eq checked
payload-verified =
    ap (verify signatures) (chain_env.deserialize-serialize_transaction small small-IsSendable)
    ∙ verify-signed signatures small (small-IsSendable.0, omega arith) refl refl

-- The node after the submission.
submitted :
    (pm' : Manager node_env) × (submit_transaction env (some node) (encode_to_string payload)
      ≡ done (some pm', success, false))
    × Added env node pm' (chain_env.deserialize_transaction payload)
submitted =
    submit_transaction-verified env node (encode_to_string payload) payload payload-decoded
      payload-verified (omega arith)

submit_transaction-Screened_example :
    Screened env
      (some node)
      (decode_string (encode_to_string payload))
      (some submitted.0, success, false)
submit_transaction-Screened_example =
    submit_transaction-Screened env (some node) (encode_to_string payload)
      (some submitted.0, success, false) submitted.1
