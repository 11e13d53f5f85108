-- ===== src/Vrf/Acceptance.antt =====
-- What VRFVerify accepts, and what the output of VRFCalculate depends on.
use go_norn.Prelude.{
  ℕ, ◌*◌, ◌%◌, ◌≡◌, ◌≢◌, refl, sym, ap, ◌∙◌, subst, true, Option, none, some, ==_iff,
}
use go_norn.Prelude.Bytes.{Bytes, decode_string}
use go_norn.Prelude.Outcome.{done, >>=-eq-done, done-injective}
use go_norn.Common.{set_bytes}
use mathlib.Core.Option.{some-injective}
use go_norn.Vrf.{
  key_from, Curve, PrivateKey, decode_private_key_from_hex_string, or_panic, challenge, response,
  point_of, calculate_with, vrf_calculate, vrf_check_local_consensus, vrf_verify,
  vrf_check_remote_consensus,
}
use go_norn.Vrf.Laws.{times_comm, times-response, times_finite}

module _ (curve : Curve) (sha256 : Bytes → Bytes) where
  marshalled :
      (p : curve.Point)
      → p ≢ curve.infinity
      → (text : Bytes) × (or_panic curve (curve.marshal_compressed p) ≡ done text)
        × (curve.unmarshal_compressed text ≡ some p)
  marshalled p h = let m = curve.marshal_finite p h in (m.0, ap (or_panic curve) m.1, m.2)

  challenge_finite :
      (u1 u2 : curve.Point)
      → u1 ≢ curve.infinity
      → u2 ≢ curve.infinity
      → (s : ℕ) × (challenge curve u1 u2 ≡ done s)
  unfolding challenge
  challenge_finite u1 u2 h1 h2 =
      let m1 = marshalled u1 h1 in
      let m2 = marshalled u2 h2 in
      (set_bytes 0 m1.0 * set_bytes 0 m2.0 % curve.order, rw (m1.1, m2.1) refl)

  -- The output of a calculation, with the point that it encodes.
  record Calculated (prv : PrivateKey curve) (r : ℕ) (msg : Bytes) : Type 0 where
    value : Bytes
    s : ℕ
    challenged :
        challenge curve (curve.times r (point_of curve sha256 msg)) (curve.times r curve.base)
        ≡ done s
    encoded :
        or_panic curve
          (curve.marshal_compressed (curve.times prv.number (point_of curve sha256 msg)))
        ≡ done value
    decoded :
        curve.unmarshal_compressed value ≡ some (curve.times prv.number (point_of curve sha256 msg))

  calculated :
      (prv : PrivateKey curve) (r : ℕ) (msg : Bytes)
      → r % curve.order ≢ 0
      → prv.number % curve.order ≢ 0
      → set_bytes 0 (sha256 msg) % curve.order ≢ 0
      → Calculated prv r msg
  calculated prv r msg hr hk hm =
      let m = point_of curve sha256 msg in
      let finite : m ≢ curve.infinity =
        times_finite curve (set_bytes 0 (sha256 msg)) curve.base hm curve.base_finite in
      let c =
        challenge_finite (curve.times r m) (curve.times r curve.base)
          (times_finite curve r m hr finite)
          (times_finite curve r curve.base hr curve.base_finite) in
      let v = marshalled (curve.times prv.number m) (times_finite curve prv.number m hk finite) in
      record { value = v.0; s = c.0; challenged = c.1; encoded = v.1; decoded = v.2 }

  -- Both points of the verification are those of the calculation.
  verify-Calculated :
      (prv : PrivateKey curve) (r : ℕ) (msg : Bytes) (c : Calculated prv r msg)
      → prv.public ≡ curve.times prv.number curve.base
      → vrf_verify curve sha256
          (some prv.public)
          msg
          c.s
          (response curve r (c.s * prv.number))
          c.value
        ≡ done true
  unfolding vrf_verify
  verify-Calculated prv r msg c own =
      rw
        (
          c.decoded,
          own,
          times-response curve r c.s prv.number (point_of curve sha256 msg),
          times-response curve r c.s prv.number curve.base,
          c.challenged,
          (==_iff c.s c.s).1 refl,
        )
        refl

  key_from-public :
      (o : Option Bytes) (prv : PrivateKey curve)
      → key_from curve o ≡ some prv
      → prv.public ≡ curve.times prv.number curve.base
  unfolding key_from
  key_from-public none prv e = cc e
  key_from-public (some k) prv e =
      subst (λ (x : PrivateKey curve). x.public ≡ curve.times x.number curve.base)
        (some-injective _ prv e) refl

  pub key_public :
      (hex : Bytes) (prv : PrivateKey curve)
      → decode_private_key_from_hex_string curve hex ≡ some prv
      → prv.public ≡ curve.times prv.number curve.base
  unfolding decode_private_key_from_hex_string
  key_public hex prv e = key_from-public (decode_string hex) prv e

  -- If the configured key decodes, and the order of the curve divides neither the key, nor the
  -- hash of the message, nor the random numbers r and r', then VRFCalculate with r returns an
  -- output that VRFVerify accepts at the public key, and VRFCheckRemoteConsensus decides about
  -- it as VRFCheckLocalConsensus does with r'.
  pub vrf_check_remote_consensus-local :
      (hex : Bytes) (prv : PrivateKey curve) (r r' : ℕ) (msg : Bytes)
      → decode_private_key_from_hex_string curve hex ≡ some prv
      → r % curve.order ≢ 0
      → r' % curve.order ≢ 0
      → prv.number % curve.order ≢ 0
      → set_bytes 0 (sha256 msg) % curve.order ≢ 0
      → (out : Bytes × ℕ × ℕ) × (vrf_calculate curve sha256 hex r msg ≡ done out)
        × (vrf_verify curve sha256 (some prv.public) msg out.1 out.2 out.0 ≡ done true)
        × (vrf_check_remote_consensus curve sha256 (some prv.public) msg out.1 out.2 out.0
            ≡ vrf_check_local_consensus curve sha256 hex r' msg)
  unfolding vrf_calculate calculate_with vrf_check_remote_consensus vrf_check_local_consensus
  vrf_check_remote_consensus-local hex prv r r' msg key hr hr' hk hm =
      let c = calculated prv r msg hr hk hm in
      let d = calculated prv r' msg hr' hk hm in
      let verified = verify-Calculated prv r msg c (key_public hex prv key) in
      let same : c.value ≡ d.value = done-injective (sym c.encoded ∙ d.encoded) in
      (
        (c.value, c.s, response curve r (c.s * prv.number)),
        rw (key, c.challenged, c.encoded) refl,
        verified,
        rw (verified, key, d.challenged, d.encoded, same) refl,
      )

  -- If the configured key decodes and VRFCalculate returns, its output is the encoding of the
  -- public key times the hash of the message: whoever knows the public key can calculate it for
  -- any message without the private key.
  pub vrf_calculate-public :
      (hex : Bytes) (prv : PrivateKey curve) (r : ℕ) (msg : Bytes) (out : Bytes × ℕ × ℕ)
      → decode_private_key_from_hex_string curve hex ≡ some prv
      → vrf_calculate curve sha256 hex r msg ≡ done out
      → or_panic curve
          (curve.marshal_compressed (curve.times (set_bytes 0 (sha256 msg)) prv.public))
        ≡ done (out.0)
  unfolding vrf_calculate calculate_with
  vrf_calculate-public hex prv r msg out key e =
      let m = point_of curve sha256 msg in
      let run : calculate_with curve sha256 (some prv) r msg ≡ done out =
        sym (ap (λ (o : Option (PrivateKey curve)). calculate_with curve sha256 o r msg) key) ∙ e in
      let first =
        >>=-eq-done (challenge curve (curve.times r m) (curve.times r curve.base)) _ run in
      let second =
        >>=-eq-done (or_panic curve (curve.marshal_compressed (curve.times prv.number m))) _
          first.2 in
      let value : second.0 ≡ out.0 = ap (λ (o : Bytes × ℕ × ℕ). o.0) (done-injective second.2) in
      let point : curve.times (set_bytes 0 (sha256 msg)) prv.public ≡ curve.times prv.number m =
        ap (curve.times (set_bytes 0 (sha256 msg))) (key_public hex prv key)
        ∙ times_comm curve (set_bytes 0 (sha256 msg)) prv.number curve.base in
      ap (λ (p : curve.Point). or_panic curve (curve.marshal_compressed p)) point
      ∙ second.1
      ∙ ap done value
