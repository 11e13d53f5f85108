-- ===== src/Signing.antt =====
-- common/transaction.go and crypto/convertor.go: the hash and the signature of a transaction, and the address of a
-- key. ECDSA, SHA-1 and the encoding of the body are an interface.
pub mod Verdict
use go_norn.Prelude.{
  ℕ, ◌*◌, ◌≡◌, Bool, true, false, not, Option, none, some, List, [], ltb, if◌then◌else◌, length,
  take, replicate,
}
use go_norn.Prelude.Bytes.{Bytes, bytes_eq}
use go_norn.Prelude.Outcome.{Outcome, done, panicked, ◌>>=◌}
use go_norn.Common.{Transaction, TransactionBody}
use go_norn.Common.Encodable.{IsFit}
use go_norn.Vrf.{Curve, PrivateKey}
use go_norn.Chain.Packaging.{to_array}

-- What the signatures take from outside. `write_body` is WriteAsRoot of the generated code on a writer that is empty:
-- whether it had no error, which a writer that grows never has, and the writer's bytes after it. `verify_asn1` takes
-- the point that is nil too.
pub record Signatures (curve : Curve) (sha256 : Bytes → Bytes) : Type 0 where
  pub sha1 : Bytes → Bytes
  pub write_body : TransactionBody → Bool × Bytes
  pub read_body : Bytes → TransactionBody
  pub sign_asn1 : ℕ → PrivateKey curve → Bytes → Option Bytes
  pub verify_asn1 : Option curve.Point → Bytes → Bytes → Outcome Bool
  pub writes : (b : TransactionBody) → (write_body b).0 ≡ true
  pub read-write_body : (b : TransactionBody) → IsFit b → read_body (write_body b).1 ≡ b
  pub verify-sign :
      (random : ℕ) (prv : PrivateKey curve) (text sig : Bytes)
      → prv.public ≡ curve.times prv.number curve.base
      → sign_asn1 random prv text ≡ some sig
      → verify_asn1 (some prv.public) text sig ≡ done true
  pub length-sha1 : (text : Bytes) → length (sha1 text) ≡ 20
  pub length-sha256 : (text : Bytes) → length (sha256 text) ≡ 32

-- A body with no hash and no signature.
abbrev pub blank : TransactionBody → TransactionBody
blank b = record b { hash = replicate 32 0; signature = [] }

module _ {curve : Curve} {sha256 : Bytes → Bytes} (signatures : Signatures curve sha256) where
  open signatures use {sha1, write_body, read_body, verify_asn1}

  -- PublicKeyBytes2Address
  unfoldable pub public_key_bytes2_address : Bytes → Outcome Bytes
  unfolding to_array
  public_key_bytes2_address public = to_array 20 (sha1 public)

  -- Transaction.Verify
  unfoldable pub verify : Transaction → Outcome Bool
  verify tx =
      let body = tx.body in
      let public_key = curve.unmarshal_compressed body.public in
      let copy = blank (read_body (write_body body).1) in
      let tx_hash = sha256 (write_body copy).1 in
      let checked = verify_asn1 public_key tx_hash body.signature in
      if not (write_body body).0
      then done false
      else if not (write_body copy).0
      then done false
      else if not (bytes_eq tx_hash body.hash)
      then done false
      else checked
