-- ===== src/Node/Production/Tested.antt =====
-- node/manager.go: the header that a chosen node makes, under the other nodes' test of the VRF.
use go_norn.Prelude.{
  ◌<◌, ◌^◌, ℕ, zero, suc, ◌+◌, ◌*◌, ◌/◌, ◌%◌, ◌≤◌, ◌≡◌, ◌≢◌, refl, sym, ap, ◌∙◌, Bool, true, Option,
  none, some, List, [], ◌∷◌, length, arith, Bool-cases, inl, inr, ◌==◌,
}
use mathlib.Core.Option.{some-injective}
use go_norn.Prelude.Bytes.{Bytes, decode_string}
use go_norn.Prelude.Outcome.{Outcome, done, done-injective}
use go_norn.Common.{Block, Transaction, GeneralParams, set_bytes}
use go_norn.Chain.Packaging.Arrays.{to_array-exact}
use go_norn.Chain.Packaging.{PackEnv, to_array}
use go_norn.Chain.Packaging.Placement.{IsPacked}
use go_norn.Vrf.{
  PrivateKey, decode_private_key_from_hex_string, or_panic, vrf_check_local_consensus,
  vrf_calculate, vrf_check_remote_consensus,
}
use go_norn.Vrf.Acceptance.{vrf_check_remote_consensus-local, vrf_calculate-public}
use go_norn.Node.{NodeEnv, verify_block_vrf}
use go_norn.Node.Production.{Turn, int_loop, int_bytes, general_params}

set_bytes-int_loop :
    (fuel n : ℕ) (acc : Bytes) → n ≤ fuel → set_bytes 0 (int_loop fuel n acc) ≡ set_bytes n acc
unfolding int_loop set_bytes
set_bytes-int_loop zero n acc h = ap (λ (k : ℕ). set_bytes k acc) (omega (arith, h))
set_bytes-int_loop (suc fuel) n acc h = elim (Bool-cases (n == 0)) [
  | inl e ↦ let z : 0 ≡ n = ground (arith, e) in rw e (ap (λ (k : ℕ). set_bytes k acc) z)
  | inr e ↦
      let low : n / 256 ≤ fuel = ground (arith, e, h) in
      let digits : n / 256 * 256 + n % 256 ≡ n = omega arith in
      rw e (
        set_bytes-int_loop fuel (n / 256) (n % 256 ∷ acc) low
        ∙ ap (λ (k : ℕ). set_bytes k acc) digits)
]

-- Bytes and SetBytes are inverse.
set_bytes-int_bytes : (n : ℕ) → set_bytes 0 (int_bytes n) ≡ n
unfolding int_bytes
set_bytes-int_bytes n = set_bytes-int_loop n n [] (omega arith) ∙ (unfold set_bytes in refl)

or_panic-done :
    (env : NodeEnv) (o : Option Bytes) (a : Bytes) → or_panic env.curve o ≡ done a → o ≡ some a
or_panic-done env none a e = cc e
or_panic-done env (some b) a e = ap some (done-injective e)

-- A node whose keys are a pair on the curve and whose random numbers are good.
pub record IsReady (env : NodeEnv) (pack : PackEnv) (turn : Turn) (prv : PrivateKey env.curve)
    : Type 0 where
  pub reads :
      (p : GeneralParams)
      → length p.random_number ≡ 33
      → length (pack.serialize_general_params p) < 2 ^ 32
      → env.chain_env.buffer_env.deserialize_general_params (pack.serialize_general_params p) ≡ p
  pub compressed :
      (p : env.curve.Point) (text : Bytes)
      → env.curve.marshal_compressed p ≡ some text
      → length text ≡ 33
  pub private_key : decode_private_key_from_hex_string env.curve turn.prv_hex ≡ some prv
  pub public_key :
      (k : Bytes) × (decode_string turn.pub_hex ≡ some k)
      × (length k ≡ 33)
      × (env.curve.unmarshal_compressed k ≡ some prv.public)
  pub key_nonzero : prv.number % env.curve.order ≢ 0
  pub random_nonzero : turn.random % env.curve.order ≢ 0
  pub local_nonzero : turn.local_random % env.curve.order ≢ 0

-- The order of the curve does not divide the hash of the seed that a block carries in its parameters.
abbrev pub SeedIsGood : (env : NodeEnv) → Block → Type 0
SeedIsGood env block =
    let params = env.chain_env.buffer_env.deserialize_general_params block.header.params in
    set_bytes 0 (env.sha256 params.result) % env.curve.order ≢ 0

module _ {env : NodeEnv} (pack : PackEnv) (turn : Turn) (prv : PrivateKey env.curve)
    (ready : IsReady env pack turn prv) where
  -- The parameters of the VRF's output, in the block.
  abbrev pub params_of : ℕ → ℕ → Bytes × ℕ × ℕ → GeneralParams
  params_of seed pi out = record {
    result = int_bytes seed;
    proof = int_bytes pi;
    random_number = out.0;
    s = int_bytes (out.1);
    t = int_bytes (out.2);
  }

  unfoldable pub Calculates : ℕ → Bytes × ℕ × ℕ → Type 0
  Calculates seed out =
      vrf_calculate env.curve env.sha256 turn.prv_hex turn.random (int_bytes seed) ≡ done out

  pub general_params_lem :
      (seed pi : ℕ) (out : Bytes × ℕ × ℕ)
      → Calculates seed out
      → (general_params seed pi out ≡ done (params_of seed pi out)) × (length (out.0) ≡ 33)
  unfolding Calculates general_params
  general_params_lem seed pi out e =
      let encoded = or_panic-done env _ (out.0) (
        vrf_calculate-public env.curve env.sha256 turn.prv_hex prv turn.random (int_bytes seed) out
          ready.private_key e) in
      let long = ready.compressed _ (out.0) encoded in
      (rw (to_array-exact 33 (out.0) long) refl, long)

  -- What verify_block_vrf tests, for a key and parameters.
  abbrev tested : Option env.curve.Point → GeneralParams → Outcome Bool
  tested key p =
      vrf_check_remote_consensus env.curve env.sha256 key p.result (set_bytes 0 p.s)
        (set_bytes 0 p.t) p.random_number

  packed_key :
      (best block : Block) (txs : List Transaction) (params : GeneralParams)
      → IsPacked pack best txs params (decode_string turn.pub_hex) block
      → env.curve.unmarshal_compressed block.header.public_key ≡ some prv.public
  packed_key best block txs params packed =
      let k = ready.public_key.0 in
      let same : packed.owned.0 ≡ k =
        some-injective _ k (sym packed.owned.1 ∙ ready.public_key.1) in
      let key : k ≡ block.header.public_key = done-injective (
        sym (to_array-exact 33 k ready.public_key.2)
        ∙ ap (to_array 33) (sym same)
        ∙ packed.owned.2) in
      ap env.curve.unmarshal_compressed (sym key) ∙ ready.public_key.3

  params_tested :
      (seed pi : ℕ) (out : Bytes × ℕ × ℕ)
      → Calculates seed out
      → set_bytes 0 (env.sha256 (int_bytes seed)) % env.curve.order ≢ 0
      → vrf_check_local_consensus env.curve env.sha256 turn.prv_hex turn.local_random
          (int_bytes seed)
        ≡ done true
      → tested (some prv.public) (params_of seed pi out) ≡ done true
  unfolding Calculates
  params_tested seed pi out e hashed chosen =
      let agreed =
        vrf_check_remote_consensus-local env.curve env.sha256 turn.prv_hex prv turn.random
          turn.local_random (int_bytes seed) ready.private_key ready.random_nonzero
          ready.local_nonzero ready.key_nonzero hashed in
      let same : agreed.0 ≡ out = done-injective (sym agreed.1 ∙ e) in
      rw (set_bytes-int_bytes (out.1), set_bytes-int_bytes (out.2))
        (ap
            (λ (o : Bytes × ℕ × ℕ).
              vrf_check_remote_consensus env.curve env.sha256 (some prv.public) (int_bytes seed)
                (o.1) (o.2) (o.0))
            (sym same)
          ∙ agreed.3
          ∙ chosen)

  pub packed-accepted :
      (seed pi : ℕ) (out : Bytes × ℕ × ℕ) (best block : Block) (txs : List Transaction)
      → Calculates seed out
      → IsPacked pack best txs (params_of seed pi out) (decode_string turn.pub_hex) block
      → vrf_check_local_consensus env.curve env.sha256 turn.prv_hex turn.local_random
          (int_bytes seed)
        ≡ done true
      → length block.header.params < 2 ^ 32
      → SeedIsGood env block
      → verify_block_vrf env block ≡ done true
  unfolding verify_block_vrf
  packed-accepted seed pi out best block txs e packed chosen small good =
      let params = params_of seed pi out in
      let read =
        ap env.chain_env.buffer_env.deserialize_general_params packed.encoded
        ∙ ready.reads params (general_params_lem seed pi out e).1
            (omega (arith, small, ap length packed.encoded)) in
      ap (tested (env.curve.unmarshal_compressed block.header.public_key)) read
      ∙ ap (λ (o : Option env.curve.Point). tested o params)
          (packed_key best block txs params packed)
      ∙ params_tested seed pi out e
          (λ zero_hash. good (
            ap (λ (p : GeneralParams). set_bytes 0 (env.sha256 p.result) % env.curve.order) read
            ∙ zero_hash))
          chosen
