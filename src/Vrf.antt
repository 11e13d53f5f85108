-- ===== src/Vrf.antt =====
-- crypto/vrf.go, crypto/ecdsa.go and crypto/convertor.go: the verifiable random function that decides who may package
-- a block, and the keys. The curve is the standard library's, a parameter.
pub mod Laws
pub mod Acceptance
pub mod Three
mod Examples
use go_norn.Prelude.{
  ℕ, zero, suc, ◌+◌, ◌-◌, ◌*◌, ◌/◌, ◌%◌, ◌^◌, ◌≤◌, ◌<◌, ◌≡◌, ◌≢◌, ◌⊎◌, Bool, true, false, Option,
  none, some, ltb, ◌==◌, if◌then◌else◌, take,
}
use go_norn.Prelude.Bytes.{Bytes, decode_string}
use go_norn.Prelude.Outcome.{Outcome, done, panicked, ◌>>=◌}
use go_norn.Common.{set_bytes}

-- crypto/elliptic: a group of prime order. A scalar is the number that its bytes stand for. The point at infinity has
-- no compressed form, and text that is no compressed point has no point.
pub record Curve : Type 1 where
  pub Point : Type 0
  pub infinity : Point
  pub base : Point
  pub add : Point → Point → Point
  pub times : ℕ → Point → Point
  pub order : ℕ
  pub marshal_compressed : Point → Option Bytes
  pub unmarshal_compressed : Bytes → Option Point
  pub order_positive : 0 < order
  pub add_assoc : (p q r : Point) → add (add p q) r ≡ add p (add q r)
  pub add_infinity : (p : Point) → add infinity p ≡ p
  pub times-zero : (p : Point) → times 0 p ≡ infinity
  pub times-suc : (k : ℕ) (p : Point) → times (suc k) p ≡ add p (times k p)
  pub times-order : (p : Point) → times order p ≡ infinity
  pub times-eq-infinity :
      (k : ℕ) (p : Point) → times k p ≡ infinity → (k % order ≡ 0) ⊎ (p ≡ infinity)
  pub base_finite : base ≢ infinity
  pub marshal_finite :
      (p : Point)
      → p ≢ infinity
      → (text : Bytes) × (marshal_compressed p ≡ some text) × (unmarshal_compressed text ≡ some p)

module _ (curve : Curve) where
  -- ecdsa.PrivateKey and ecdsa.PublicKey
  pub record PrivateKey : Type 0 where
    pub number : ℕ
    pub public : curve.Point

  -- ScalarBaseMult
  abbrev pub scalar_base_mult : Bytes → curve.Point
  scalar_base_mult k = curve.times (set_bytes 0 k) curve.base

  key_from : Option Bytes → Option PrivateKey
  key_from none = none
  key_from (some k) = some record { number = set_bytes 0 k; public = scalar_base_mult k }

  -- DecodePrivateKeyFromHexString
  unfoldable pub decode_private_key_from_hex_string : Bytes → Option PrivateKey
  unfolding key_from
  decode_private_key_from_hex_string hex = key_from (decode_string hex)

  -- A panic for the point at infinity; the use of a point that is nil is one too.
  abbrev pub or_panic : {A : Type 0} → Option A → Outcome A
  or_panic none = panicked
  or_panic (some a) = done a

  -- PublicKey2Bytes
  abbrev pub public_key2_bytes : curve.Point → Outcome Bytes
  public_key2_bytes p = or_panic (curve.marshal_compressed p)

  -- Bytes2PublicKey; the coordinates are nil for text that is no point.
  abbrev pub bytes2_public_key : Bytes → Option curve.Point
  bytes2_public_key text = curve.unmarshal_compressed text

  -- marshal(rM) * marshal(rO) mod N
  unfoldable pub challenge : curve.Point → curve.Point → Outcome ℕ
  challenge u1 u2 = do
    s ← or_panic (curve.marshal_compressed u1)
    o ← or_panic (curve.marshal_compressed u2)
    done (set_bytes 0 s * set_bytes 0 o % curve.order)

  -- (r - sk) mod N, with Go's Euclidean modulus.
  abbrev pub response : ℕ → ℕ → ℕ
  response r sk = (r % curve.order + (curve.order - sk % curve.order)) % curve.order

  module _ (sha256 : Bytes → Bytes) where
    -- The point of a message.
    abbrev pub point_of : Bytes → curve.Point
    point_of msg = scalar_base_mult (sha256 msg)

    calculate_with : Option PrivateKey → ℕ → Bytes → Outcome (Bytes × ℕ × ℕ)
    unfolding challenge
    calculate_with none r msg = panicked
    calculate_with (some prv) r msg = do
      s ← challenge (curve.times r (point_of msg)) (curve.times r curve.base)
      value ← or_panic (curve.marshal_compressed (curve.times prv.number (point_of msg)))
      done (value, s, response r (s * prv.number))

    -- VRFCalculate, with the configured key and the random number r; log.Fatalln ends the program.
    unfoldable pub vrf_calculate : Bytes → ℕ → Bytes → Outcome (Bytes × ℕ × ℕ)
    unfolding calculate_with decode_private_key_from_hex_string
    vrf_calculate prv_hex r msg = calculate_with (decode_private_key_from_hex_string prv_hex) r msg

    -- VRFCheckOutputConsensus: float64(r) / 1000.0 > 0.0.
    unfoldable pub vrf_check_output_consensus : Bytes → Bool
    vrf_check_output_consensus output = ltb 0 (set_bytes 0 (sha256 output) * 1000 / 2 ^ 256)

    -- VRFCheckLocalConsensus
    unfoldable pub vrf_check_local_consensus : Bytes → ℕ → Bytes → Outcome Bool
    unfolding vrf_calculate vrf_check_output_consensus
    vrf_check_local_consensus prv_hex r vdf_output = do
      out ← vrf_calculate prv_hex r vdf_output
      done (vrf_check_output_consensus out.0)

    -- VRFVerify
    unfoldable pub vrf_verify : Option curve.Point → Bytes → ℕ → ℕ → Bytes → Outcome Bool
    unfolding challenge
    vrf_verify key msg s t value = do
      v ← or_panic (curve.unmarshal_compressed value)
      y ← or_panic key
      s1 ←
          challenge (curve.add (curve.times t (point_of msg)) (curve.times s v))
            (curve.add (curve.times t curve.base) (curve.times s y))
      done (s == s1)

    -- VRFCheckRemoteConsensus
    unfoldable pub vrf_check_remote_consensus :
        Option curve.Point → Bytes → ℕ → ℕ → Bytes → Outcome Bool
    unfolding vrf_verify vrf_check_output_consensus
    vrf_check_remote_consensus key vdf_msg s t value = do
      verified ← vrf_verify key vdf_msg s t value
      if verified then done (vrf_check_output_consensus value) else done false
