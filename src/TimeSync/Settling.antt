-- ===== src/TimeSync/Settling.antt =====
-- The way back: five tolerated responses in a row do synchronise the clock, for good.
use go_norn.Prelude.{
  ℕ, ◌+◌, ◌≤◌, ◌<◌, ◌≡◌, ◌≢◌, ◌↔◌, refl, ap, ◌∙◌, inl, inr, Bool, true, false, arith, ◌==◌,
  Bool-cases, List, [], ◌∷◌, ◌++◌, All, ◌⊎◌, All-map,
}
use go_norn.Prelude.Int64.{Int64, add64}
use go_norn.TimeSync.{
  TimeSyncMsg, TimeSyncer, SyncStatus, initial, synced, confirming, confirm_threshold, measured,
  process_sync_respond, process_all, new_time_syncer, start,
}
use go_norn.TimeSync.Progress.{
  tolerated, ignored, Fine, count, Settled, Phase, waiting, counting, settled, Phase-step,
  respond-ignored, Phase-all, Phase-synced, Fine-Steady,
}

process_all-append :
    (ts : TimeSyncer) (xs ys : List TimeSyncMsg)
    → process_all ts (xs ++ ys) ≡ process_all (process_all ts xs) ys
unfolding process_all
process_all-append ts [] ys = refl
process_all-append ts (x ∷ xs) ys = process_all-append (process_sync_respond ts x) xs ys

-- A synchronised clock stays synchronised.
respond-synced :
    (ts : TimeSyncer) (msg : TimeSyncMsg)
    → ts.status ≡ synced
    → (process_sync_respond ts msg).status ≡ synced
unfolding process_sync_respond
respond-synced ts msg e = rw e (elim (Bool-cases (ignored msg)) [
  | inl i ↦ rw i refl
  | inr i ↦ elim (Bool-cases (tolerated msg)) [ inl f ↦ rw (i, f) refl | inr f ↦ rw (i, f) refl ]
])

process_all-synced :
    (ts : TimeSyncer) (msgs : List TimeSyncMsg)
    → ts.status ≡ synced
    → (process_all ts msgs).status ≡ synced
unfolding process_all
process_all-synced ts [] e = e
process_all-synced ts (msg ∷ msgs) e =
    process_all-synced (process_sync_respond ts msg) msgs (respond-synced ts msg e)

data Counting : SyncStatus → ℕ → Type 0 where
  over : {n : ℕ} → Counting synced n
  open_at : {n : ℕ} → n < confirm_threshold → Counting confirming n

count-nil : count [] ≡ 0
unfolding count
count-nil = refl

count-ignored :
    (msg : TimeSyncMsg) (msgs : List TimeSyncMsg)
    → ignored msg ≡ true
    → count (msg ∷ msgs) ≡ count msgs
unfolding count
count-ignored msg msgs e = rw e refl

count-live :
    (msg : TimeSyncMsg) (msgs : List TimeSyncMsg)
    → ignored msg ≡ false
    → count (msg ∷ msgs) ≡ count msgs + 1
unfolding count
count-live msg msgs e = rw e refl

-- A response that is fine and reports no error is tolerated.
Fine-tolerated : (msg : TimeSyncMsg) → Fine msg → ignored msg ≡ false → tolerated msg ≡ true
Fine-tolerated msg (inl i) e = cc
Fine-tolerated msg (inr f) e = f

respond-last :
    (genesis : Bool) (delta : Int64) (n : ℕ) (msg : TimeSyncMsg)
    → ignored msg ≡ false
    → tolerated msg ≡ true
    → (n + 1 == confirm_threshold) ≡ true
    → (process_sync_respond
        (record { genesis = genesis; status = confirming; delta = delta; confirm_times = n })
        msg).status
      ≡ synced
unfolding process_sync_respond
respond-last genesis delta n msg e f last = rw (e, f, last) refl

respond-more :
    (genesis : Bool) (delta : Int64) (n : ℕ) (msg : TimeSyncMsg)
    → ignored msg ≡ false
    → tolerated msg ≡ true
    → (n + 1 == confirm_threshold) ≡ false
    → process_sync_respond
        (record { genesis = genesis; status = confirming; delta = delta; confirm_times = n })
        msg
      ≡ record {
        genesis = genesis;
        status = confirming;
        delta = add64 delta (measured msg);
        confirm_times = n + 1;
      }
unfolding process_sync_respond
respond-more genesis delta n msg e f more = rw (e, f, more) refl

process_all-window :
    (genesis : Bool) (delta : Int64) (status : SyncStatus) (n : ℕ) (window : List TimeSyncMsg)
    → Counting status n
    → All Fine window
    → confirm_threshold ≤ n + count window
    → (process_all
        (record { genesis = genesis; status = status; delta = delta; confirm_times = n })
        window).status
      ≡ synced
unfolding process_all process_sync_respond
process_all-window genesis delta synced n window over fine enough = process_all-synced _ window refl
process_all-window genesis delta initial n window c fine enough = elim c [ ]
process_all-window genesis delta confirming n [] (open_at h) fine enough =
    let zero_more : count [] ≡ 0 = count-nil in absurd (omega (arith, zero_more))
process_all-window genesis delta confirming n (msg ∷ window) (open_at h) fine enough =
    elim (Bool-cases (ignored msg)) [
      | inl e ↦
          ap (λ (ts : TimeSyncer). (process_all ts window).status) (respond-ignored _ msg e)
          ∙ process_all-window genesis delta confirming n window (open_at h) fine.1
              (omega (arith, count-ignored msg window e))
      | inr e ↦
          let f = Fine-tolerated msg fine.0 e in
          elim (Bool-cases (n + 1 == confirm_threshold)) [
            | inl last ↦ process_all-synced _ window (respond-last genesis delta n msg e f last)
            | inr more ↦
                ap (λ (ts : TimeSyncer). (process_all ts window).status)
                  (respond-more genesis delta n msg e f more)
                ∙ process_all-window genesis (add64 delta (measured msg)) confirming (n + 1) window
                    (open_at (ground arith)) fine.1 (omega (arith, count-live msg window e))
          ]
    ]

-- A response that reports no error leaves the initial status.
respond-not_initial :
    (genesis : Bool) (delta : Int64) (status : SyncStatus) (n : ℕ) (msg : TimeSyncMsg)
    → ignored msg ≡ false
    → (process_sync_respond
        (record { genesis = genesis; status = status; delta = delta; confirm_times = n })
        msg).status
      ≢ initial
unfolding process_sync_respond
respond-not_initial genesis delta initial n msg e = rw e (λ h. cc)
respond-not_initial genesis delta confirming n msg e = elim (Bool-cases (tolerated msg)) [
  | inl f ↦ elim (Bool-cases (n + 1 == confirm_threshold)) [
    | inl l ↦ rw (e, f, l) (λ h. cc)
    | inr m ↦ rw (e, f, m) (λ h. cc)
  ]
  | inr f ↦ rw (e, f) (λ h. cc)
]
respond-not_initial genesis delta synced n msg e = elim (Bool-cases (tolerated msg)) [
  | inl f ↦ rw (e, f) (λ h. cc)
  | inr f ↦ rw (e, f) (λ h. cc)
]

Phase-Counting :
    {seen : List TimeSyncMsg} {status : SyncStatus} {n : ℕ}
    → Phase seen status n
    → status ≢ initial
    → Counting status n
Phase-Counting waiting ne = absurd (ne refl)
Phase-Counting (counting h s) ne = open_at h
Phase-Counting (settled s) ne = over

Settled-synced :
    (genesis : Bool) (delta : Int64) (msgs : List TimeSyncMsg)
    → Settled msgs
    → (process_all (new_time_syncer genesis delta) msgs).status ≡ synced
unfolding process_all
Settled-synced genesis delta msgs s =
    let w = s.five in
    let new = new_time_syncer genesis delta in
    let t = process_all new w.before in
    let u = process_sync_respond t w.first in
    let p : Phase w.before t.status t.confirm_times = Phase-all new [] w.before waiting in
    let c : Counting u.status u.confirm_times =
      Phase-Counting
        (Phase-step t.genesis t.delta w.before t.status t.confirm_times w.first w.live p)
        (respond-not_initial t.genesis t.delta t.status t.confirm_times w.first w.live) in
    let v : (process_all u w.window).status ≡ synced =
      process_all-window u.genesis u.delta u.status u.confirm_times w.window c
        (All-map w.window (λ msg steady. (Fine-Steady msg).1 steady) w.fine)
        (omega (arith, w.counted)) in
    let cut : process_all new msgs ≡ process_all (process_all u w.window) s.after =
      ap (process_all new) s.parts
      ∙ process_all-append new s.upto s.after
      ∙ ap (λ (l : List TimeSyncMsg). process_all (process_all new l) s.after) w.parts
      ∙ ap (λ (ts : TimeSyncer). process_all ts s.after)
          (process_all-append new w.before (w.first ∷ w.window)) in
    ap (λ (ts : TimeSyncer). ts.status) cut ∙ process_all-synced (process_all u w.window) s.after v

-- Whatever responses a time syncer has processed since Start, it is synchronised exactly if it is the genesis node's, or
-- among the responses five in a row that report no error are within the tolerance, after one that reports no error: the
-- difference that the four readings tell lies strictly between -1000 and 1000 ms, or is the least int64. The responses that
-- report an error may stand anywhere between, and nothing that follows undoes it.
pub process_all-Settled :
    (genesis : Bool) (delta : Int64) (msgs : List TimeSyncMsg)
    → ((process_all (start (new_time_syncer genesis delta)) msgs).status ≡ synced)
      ↔ ((genesis ≡ true) ⊎ Settled msgs)
process_all-Settled true delta msgs =
    (λ e. inl refl, λ h. process_all-synced (start (new_time_syncer true delta)) msgs refl)
process_all-Settled false delta msgs = (
  λ e. inr (Phase-synced (Phase-all (new_time_syncer false delta) [] msgs waiting) e),
  λ h. elim h [ inl e ↦ cc e | inr s ↦ Settled-synced false delta msgs s ],
)
