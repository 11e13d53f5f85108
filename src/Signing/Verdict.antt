-- ===== src/Signing/Verdict.antt =====
-- common/transaction.go: what Verify accepts.
use go_norn.Prelude.{
  ◌≡◌, refl, sym, ap, ◌∙◌, Bool, true, false, not, Bool-cases, inl, inr, if◌then◌else◌,
}
use go_norn.Prelude.Bytes.{Bytes, bytes_eq, bytes_eq→eq, bytes_eq_refl}
use go_norn.Prelude.Outcome.{done}
use go_norn.Common.{Transaction, TransactionBody}
use go_norn.Common.Encodable.{IsFit}
use go_norn.Vrf.{Curve}
use go_norn.Signing.{Signatures, blank, verify}

if-not {ℓ} : {A : Type ℓ} (b : Bool) (x y : A) → (if not b then x else y) ≡ (if b then y else x)
if-not true x y = refl
if-not false x y = refl

module _ {curve : Curve} {sha256 : Bytes → Bytes} (signatures : Signatures curve sha256) where
  -- The hash of a body without its hash and its signature.
  abbrev pub digest : TransactionBody → Bytes
  digest b = sha256 (signatures.write_body (blank b)).1

  -- On a body that can be encoded, Verify compares the hash and checks the signature: a writer that grows has no errors.
  pub verify_lem :
      (tx : Transaction)
      → IsFit tx.body
      → verify signatures tx ≡ (
          if bytes_eq (digest tx.body) tx.body.hash
          then signatures.verify_asn1
              (curve.unmarshal_compressed tx.body.public)
              (digest tx.body)
              tx.body.signature
          else done false)
  unfolding verify
  verify_lem tx fits =
      rw
        (
          signatures.read-write_body tx.body fits,
          signatures.writes tx.body,
          signatures.writes (blank tx.body),
        )
        (if-not (bytes_eq (digest tx.body) tx.body.hash) (done false) _)

  -- A transaction that can be encoded and that Verify accepts carries the hash of its own content.
  pub verify-digest :
      (tx : Transaction)
      → IsFit tx.body
      → verify signatures tx ≡ done true
      → digest tx.body ≡ tx.body.hash
  verify-digest tx fits e = elim (Bool-cases (bytes_eq (digest tx.body) tx.body.hash)) [
    | inl same ↦ bytes_eq→eq (digest tx.body) tx.body.hash same
    | inr other ↦
        let refused : done false ≡ done true = sym (verify_lem tx fits ∙ rw other refl) ∙ e in
        cc refused
  ]

  -- A transaction that can be encoded, with the hash of its content, is accepted if its signature is.
  pub verify-signed :
      (tx : Transaction)
      → IsFit tx.body
      → digest tx.body ≡ tx.body.hash
      → signatures.verify_asn1
          (curve.unmarshal_compressed tx.body.public)
          (digest tx.body)
          tx.body.signature
        ≡ done true
      → verify signatures tx ≡ done true
  verify-signed tx fits e signed =
      let same : bytes_eq (digest tx.body) tx.body.hash ≡ true =
        ap (bytes_eq (digest tx.body)) (sym e) ∙ bytes_eq_refl (digest tx.body) in
      verify_lem tx fits ∙ rw same signed
