-- ===== src/Rpc/Submission/Acceptance.antt =====
-- rpc/blockchain.go and rpc/transaction.go: transactions that are accepted.
use go_norn.Prelude.{
  ℕ, ◌%◌, ◌≤◌, ◌<◌, ◌≡◌, ◌≢◌, refl, sym, ap, ◌∙◌, true, false, some, [], ◌∷◌, ◌++◌, length, take,
  ltb, lt→ltb, arith, length-take, ◌+◌, ◌^◌, Option, none,
}
use go_norn.Prelude.Int64.{Int64, add64, InRange}
use go_norn.Prelude.Bytes.{Bytes, encode_to_string, decode_string}
use go_norn.Prelude.Outcome.{done}
use go_norn.Common.{Transaction, TransactionBody}
use go_norn.TxPool.{add}
use go_norn.Vrf.{decode_private_key_from_hex_string}
use go_norn.Vrf.Acceptance.{key_public}
use go_norn.Vrf.Laws.{times_finite}
use go_norn.Node.{Manager, tx_queue_cap}
use go_norn.Node.Gossip.{add_transaction}
use go_norn.Common.Encodable.{max_signature, IsBody, IsFit, slices}
use go_norn.Chain.Packaging.Arrays.{to_array-exact, to_array-enough}
use go_norn.Signing.{public_key_bytes2_address, blank, verify}
use go_norn.Signing.Verdict.{digest, verify-signed}
use go_norn.Rpc.{RpcEnv, ok}
use go_norn.Rpc.Submission.{
  Key, SendTransactionWithDataReq, is_command, expire_after, command_bytes, body_of, build_body,
  with_signature, sign, send_transaction_with_data, send_from, send_typed, send_with_key, send_to,
  add_signed, success, submit_transaction, submit_decoded, add_verified,
}

module _ (env : RpcEnv) where
  -- The node after a transaction was added: it is in the pool and waits to be broadcast.
  pub record Added (old new : Manager env.node_env) (tx : Transaction) : Type 0 where
    pub in_pool : new.chain.pool ≡ add old.chain.pool tx
    pub queued : new.tx_broadcast_queue ≡ old.tx_broadcast_queue ++ tx ∷ []

  add_transaction-Added :
      (pm : Manager env.node_env) (tx : Transaction)
      → length pm.tx_broadcast_queue < tx_queue_cap
      → (pm' : Manager env.node_env) × (add_transaction pm tx ≡ done pm') × Added pm pm' tx
  unfolding add_transaction
  add_transaction-Added pm tx h =
      let room : ltb (length pm.tx_broadcast_queue) tx_queue_cap ≡ true = lt→ltb _ _ h in
      (
        record pm {
          known_transaction =
              env.node_env.known_lru.add pm.known_transaction (encode_to_string tx.body.hash) tt;
          tx_broadcast_queue = pm.tx_broadcast_queue ++ tx ∷ [];
          chain = record pm.chain { pool = add pm.chain.pool tx };
        },
        rw room refl,
        record { in_pool = refl; queued = refl },
      )

  -- If the text that is submitted decodes to the bytes of a transaction that Verify accepts, and the broadcast queue
  -- has room, then SubmitTransaction returns success without an error, and the transaction has been handed to the
  -- pool and to the queue.
  pub submit_transaction-verified :
      (pm : Manager env.node_env) (signed_transaction bytes : Bytes)
      → decode_string signed_transaction ≡ some bytes
      → verify env.signatures (env.node_env.chain_env.deserialize_transaction bytes) ≡ done true
      → length pm.tx_broadcast_queue < tx_queue_cap
      → (pm' : Manager env.node_env) × (submit_transaction env (some pm) signed_transaction
          ≡ done (some pm', success, false))
        × Added pm pm' (env.node_env.chain_env.deserialize_transaction bytes)
  unfolding submit_transaction submit_decoded add_verified
  submit_transaction-verified pm signed_transaction bytes e v h =
      let added =
        add_transaction-Added pm (env.node_env.chain_env.deserialize_transaction bytes) h in
      (added.0, rw (e, v, added.1) refl, added.2)

  -- The data of the transaction is read as the command that the request asks for, and there is none if the request has
  -- no key or no value.
  abbrev pub Tells : (kind : Bytes) (key value : Option Bytes) (payload : Bytes) → Type 0
  Tells kind (some key) (some value) payload =
      env.node_env.chain_env.deserialize_data_command payload
      ≡ record { opt = kind; key = key; value = value }
  Tells kind (some key) none payload = payload ≡ []
  Tells kind none value payload = payload ≡ []

  command_bytes-Tells :
      (kind : Bytes) (key value : Option Bytes)
      → length (command_bytes env kind key value) < 2 ^ 31
      → Tells kind key value (command_bytes env kind key value)
  unfolding command_bytes
  command_bytes-Tells kind (some key) (some value) small =
      env.read-write_data_command (record { opt = kind; key = key; value = value })
        (omega (arith, small))
  command_bytes-Tells kind (some key) none small = refl
  command_bytes-Tells kind none value small = refl

  -- What a request asks for stands in the body.
  pub record Carries (req : SendTransactionWithDataReq) (kind decoded : Bytes) (timestamp : Int64)
      (b : TransactionBody) : Type 0 where
    pub receiver : b.receiver ≡ take 20 decoded
    pub payload : Tells kind req.key req.value b.payload
    pub timestamp_eq : b.timestamp ≡ timestamp
    pub expire : b.expire ≡ add64 timestamp expire_after
    pub empty : length b.event + (length b.opt + length b.state) ≡ 0

  -- A body that is built for a key on the curve holds the compressed key.
  build_body-Carries :
      (prv : Key env) (kind decoded : Bytes) (timestamp : Int64) (req : SendTransactionWithDataReq)
      → 20 ≤ length decoded
      → prv.public ≢ env.node_env.curve.infinity
      → InRange timestamp
      → length (command_bytes env kind req.key req.value) < 2 ^ 31
      → (b : TransactionBody) × (build_body env prv kind decoded timestamp req ≡ done b)
        × (env.node_env.curve.unmarshal_compressed b.public ≡ some prv.public)
        × (blank b ≡ b)
        × (b.payload ≡ command_bytes env kind req.key req.value)
        × IsBody b
        × Carries req kind decoded timestamp b
  unfolding build_body public_key_bytes2_address
  build_body-Carries prv kind decoded timestamp req h finite timely small =
      let point = env.node_env.curve.marshal_finite prv.public finite in
      let address = env.signatures.sha1 point.0 in
      (
        body_of env (take 20 decoded) point.0 address (command_bytes env kind req.key req.value)
            timestamp,
        rw
            (
              to_array-enough 20 decoded h,
              point.1,
              to_array-exact 33 point.0 (env.length-marshal_compressed prv.public point.0 point.1),
              to_array-exact 20 address (env.signatures.length-sha1 point.0),
            )
            refl,
        point.2,
        refl,
        refl,
        record {
          hash = refl;
          address = env.signatures.length-sha1 point.0;
          receiver = length-take 20 decoded h;
          block_hash = refl;
          public = env.length-marshal_compressed prv.public point.0 point.1;
          gas = omega arith;
          nonce = omega arith;
          expire = omega arith;
          height = omega arith;
          index = omega arith;
          timestamp = timely;
          signature = omega arith;
        },
        record {
          receiver = refl;
          payload = command_bytes-Tells kind req.key req.value small;
          timestamp_eq = refl;
          expire = refl;
          empty = refl;
        },
      )

  signed-IsFit :
      (b : TransactionBody) (tx_hash signature : Bytes)
      → IsBody b
      → length tx_hash ≡ 32
      → length signature ≤ max_signature
      → 256 + slices (record b { signature = signature }) < 2 ^ 32
      → IsFit (record b { hash = tx_hash; signature = signature })
  signed-IsFit b tx_hash signature p long short small = (
    record {
      hash = long;
      address = p.address;
      receiver = p.receiver;
      block_hash = p.block_hash;
      public = p.public;
      gas = p.gas;
      nonce = p.nonce;
      expire = p.expire;
      height = p.height;
      index = p.index;
      timestamp = p.timestamp;
      signature = short;
    },
    small,
  )

  -- A body that is signed is accepted by Verify.
  sign-verify :
      (prv : Key env) (random : ℕ) (b : TransactionBody) (signature : Bytes)
      → prv.public ≡ env.node_env.curve.times prv.number env.node_env.curve.base
      → env.node_env.curve.unmarshal_compressed b.public ≡ some prv.public
      → blank b ≡ b
      → IsBody b
      → length signature ≤ max_signature
      → 256 + slices (record b { signature = signature }) < 2 ^ 32
      → env.signatures.sign_asn1 random prv (env.node_env.sha256 (env.signatures.write_body b).1)
        ≡ some signature
      → (tx : Transaction) × (sign env prv random b ≡ done (some tx))
        × (verify env.signatures tx ≡ done true)
        × (tx.body ≡ record b {
          hash = env.node_env.sha256 (env.signatures.write_body b).1;
          signature = signature;
        })
  unfolding sign with_signature
  sign-verify prv random b signature on_curve key blank_b proper short small signed =
      let tx_hash = env.node_env.sha256 (env.signatures.write_body b).1 in
      let tx : Transaction = record { body = record b { hash = tx_hash; signature = signature } } in
      let own : digest env.signatures tx.body ≡ tx_hash =
        ap (λ (x : TransactionBody). env.node_env.sha256 (env.signatures.write_body x).1) blank_b in
      (
        tx,
        rw (signed, to_array-exact 32 tx_hash (env.signatures.length-sha256 _)) refl,
        verify-signed env.signatures tx
            (signed-IsFit b tx_hash signature proper (env.signatures.length-sha256 _) short small)
            own
            (rw (key, own)
              (env.signatures.verify-sign random prv tx_hash signature on_curve signed)),
        refl,
      )

  -- If the configured key decodes and the order of the curve does not divide it, the receiver is the hexadecimal text
  -- of at least 20 bytes, the type is set or append, the time is an int64, the data command has fewer than 2 ^ 31
  -- bytes, ECDSA signs every text with the key and the randomness in at most 72 bytes, and the broadcast queue has
  -- room, then SendTransactionWithData returns the hash of a transaction that Verify accepts, which has been handed to
  -- the pool and to the queue. Its data are read as the command that the request asks for, or are empty without a key
  -- or a value, its receiver is the first 20 bytes of the one that was asked for, and it expires 3000 milliseconds
  -- after its time.
  pub send_transaction_with_data-verified :
      (prv_hex kind text decoded : Bytes) (prv : Key env) (timestamp : Int64) (random : ℕ)
      (req : SendTransactionWithDataReq) (pm : Manager env.node_env)
      → decode_private_key_from_hex_string env.node_env.curve prv_hex ≡ some prv
      → prv.number % env.node_env.curve.order ≢ 0
      → req.receiver ≡ some text
      → decode_string text ≡ some decoded
      → 20 ≤ length decoded
      → req.kind ≡ some kind
      → is_command kind ≡ true
      → InRange timestamp
      → length (command_bytes env kind req.key req.value) < 2 ^ 31
      → ((t : Bytes)
          → (signature : Bytes) × (env.signatures.sign_asn1 random prv t ≡ some signature)
            × (length signature ≤ 72))
      → length pm.tx_broadcast_queue < tx_queue_cap
      → (pm' : Manager env.node_env) × (tx : Transaction) × (send_transaction_with_data env
            timestamp random req prv_hex pm
          ≡ done (pm', ok (encode_to_string tx.body.hash)))
        × (verify env.signatures tx ≡ done true)
        × Added pm pm' tx
        × Carries req kind decoded timestamp tx.body
  unfolding send_transaction_with_data send_from send_typed send_with_key send_to add_signed
  send_transaction_with_data-verified prv_hex kind text decoded prv timestamp random req pm ek
        nonzero er ed long et command timely small signs room =
      let on_curve = key_public env.node_env.curve env.node_env.sha256 prv_hex prv ek in
      let finite : prv.public ≢ env.node_env.curve.infinity = λ e.
        times_finite env.node_env.curve prv.number env.node_env.curve.base nonzero
          env.node_env.curve.base_finite (sym on_curve ∙ e) in
      let body = build_body-Carries prv kind decoded timestamp req long finite timely small in
      let signature = signs (env.node_env.sha256 (env.signatures.write_body body.0).1) in
      let fits : 256 + slices (record body.0 { signature = signature.0 }) < 2 ^ 32 =
        omega (arith, ap length body.4, body.6.empty, small, signature.2) in
      let tx =
        sign-verify prv random body.0 signature.0 on_curve body.2 body.3 body.5
          (omega (arith, signature.2)) fits signature.1 in
      let added = add_transaction-Added pm tx.0 room in
      (
        added.0,
        tx.0,
        ap (send_from env timestamp random req prv_hex pm) er
            ∙ ap (send_typed env timestamp random req prv_hex pm text) et
            ∙ rw (command, ek, ed, body.1, tx.1, added.1) refl,
        tx.2,
        added.2,
        rw tx.3 (record {
          receiver = body.6.receiver;
          payload = body.6.payload;
          timestamp_eq = body.6.timestamp_eq;
          expire = body.6.expire;
          empty = body.6.empty;
        }),
      )
