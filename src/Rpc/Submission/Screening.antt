-- ===== src/Rpc/Submission/Screening.antt =====
-- rpc/transaction.go: what SubmitTransaction lets into the pool.
use go_norn.Prelude.{◌≡◌, ◌≢◌, refl, subst, Bool, true, false, Option, none, some}
use go_norn.Prelude.Bytes.{Bytes, decode_string}
use go_norn.Prelude.Outcome.{done, >>=-eq-done, done-injective}
use go_norn.Node.{Manager}
use go_norn.Node.Gossip.{add_transaction}
use go_norn.Signing.{verify}
use go_norn.Rpc.{RpcEnv}
use go_norn.Rpc.Submission.{
  SubmitStatus, success, signature_failed, format_error, Submitted, add_verified, submit_decoded,
  submit_transaction,
}

module _ (env : RpcEnv) where
  -- What a submission may do: nothing, without success, or add a transaction that is verified, with success.
  pub data Screened (pm : Option (Manager env.node_env)) (payload : Option Bytes)
      : Submitted env → Type 0 where
    refused :
        {status : SubmitStatus} {err : Bool}
        → status ≢ success
        → Screened pm payload (pm, status, err)
    entered :
        {old new : Manager env.node_env} {text : Bytes}
        → pm ≡ some old
        → payload ≡ some text
        → verify env.signatures (env.node_env.chain_env.deserialize_transaction text) ≡ done true
        → add_transaction old (env.node_env.chain_env.deserialize_transaction text) ≡ done new
        → Screened pm payload (some new, success, false)

  refused_eq :
      (pm : Option (Manager env.node_env)) (payload : Option Bytes) (status : SubmitStatus)
      (err : Bool) (out : Submitted env)
      → status ≢ success
      → done (pm, status, err) ≡ done out
      → Screened pm payload out
  refused_eq pm payload status err out h e =
      subst (λ (o : Submitted env). Screened pm payload o) (done-injective e) (refused h)

  add_verified-Screened :
      (pm : Option (Manager env.node_env)) (text : Bytes) (verified : Bool) (out : Submitted env)
      → verify env.signatures (env.node_env.chain_env.deserialize_transaction text) ≡ done verified
      → add_verified env pm (env.node_env.chain_env.deserialize_transaction text) verified
        ≡ done out
      → Screened pm (some text) out
  unfolding add_verified
  add_verified-Screened pm text false out v e =
      refused_eq pm (some text) signature_failed false out (λ q. cc q) e
  add_verified-Screened none text true out v e =
      refused_eq none (some text) format_error false out (λ q. cc q) e
  add_verified-Screened (some old) text true out v e =
      let parts =
        >>=-eq-done (add_transaction old (env.node_env.chain_env.deserialize_transaction text)) _
          e in
      subst (λ (o : Submitted env). Screened (some old) (some text) o) (done-injective parts.2)
        (entered refl refl v parts.1)

  submit_decoded-Screened :
      (pm : Option (Manager env.node_env)) (payload : Option Bytes) (out : Submitted env)
      → submit_decoded env pm payload ≡ done out
      → Screened pm payload out
  unfolding submit_decoded
  submit_decoded-Screened pm none out e =
      refused_eq pm none SubmitStatus.decode_failed true out (λ q. cc q) e
  submit_decoded-Screened pm (some text) out e =
      let parts =
        >>=-eq-done (verify env.signatures (env.node_env.chain_env.deserialize_transaction text)) _
          e in
      add_verified-Screened pm text parts.0 out parts.1 parts.2

  -- SubmitTransaction, when it returns, has either left the node as it is, with a status other than success, or the
  -- text was the hexadecimal form of a transaction that Verify accepts, which was added to the node, with success.
  pub submit_transaction-Screened :
      (pm : Option (Manager env.node_env)) (signed_transaction : Bytes) (out : Submitted env)
      → submit_transaction env pm signed_transaction ≡ done out
      → Screened pm (decode_string signed_transaction) out
  unfolding submit_transaction
  submit_transaction-Screened pm signed_transaction out e =
      submit_decoded-Screened pm (decode_string signed_transaction) out e
