-- ===== src/TimeSync/Progress.antt =====
-- When the clock counts as synchronised: after five responses in a row within the tolerance.
use go_norn.Prelude.{
  ℕ, ◌+◌, ◌<◌, ◌≡◌, refl, sym, ap, ◌∙◌, ◌⊎◌, inl, inr, Bool, true, false, not, arith, ltb, ◌==◌,
  ==_iff, if◌then◌else◌, Bool-cases, List, [], ◌∷◌, ◌++◌, All, All-append, append_assoc, append-nil,
  subst, ◌↔◌,
}
use go_norn.Prelude.Int64.{Int64, int, add64, sub64, quot, minus}
use go_norn.TimeSync.Tolerance.{abs_lem}
use go_norn.TimeSync.{
  TimeSyncMsg, TimeSyncer, SyncStatus, initial, synced, confirming, available_threshold,
  confirm_threshold, abs, measured, process_sync_respond, process_all,
}

-- A response that reports no error and is within the tolerance, and the ones that are ignored.
abbrev pub tolerated : TimeSyncMsg → Bool
tolerated msg = ltb (abs (measured msg)) (int available_threshold)

abbrev pub ignored : TimeSyncMsg → Bool
ignored msg = not (msg.code == int 0)

-- A response that does not interrupt the confirmation.
abbrev pub Fine : TimeSyncMsg → Type 0
Fine msg = (ignored msg ≡ true) ⊎ (tolerated msg ≡ true)

-- The difference of the clocks that the four readings of a response tell, with Go's division and wrap-around, and when it is
-- within the tolerance: it lies strictly between -1000 and 1000 ms, or is the least int64, whose negation wraps to itself.
abbrev pub difference : TimeSyncMsg → Int64
difference msg =
    add64 (quot (sub64 msg.rsp_time msg.rec_rsp_time) 2)
      (quot (sub64 msg.rec_req_time msg.req_time) 2)

abbrev pub Within : TimeSyncMsg → Type 0
Within msg = ((minus 1000 < difference msg) × (difference msg < int 1000)) ⊎ (difference msg ≡ 0)

-- A response that reports an error or is within the tolerance.
abbrev pub Steady : TimeSyncMsg → Type 0
Steady msg = (ignored msg ≡ true) ⊎ Within msg

pub Fine-Steady : (msg : TimeSyncMsg) → Fine msg ↔ Steady msg
Fine-Steady msg =
    let test = abs_lem (measured msg) (omega arith) in
    (
      λ f. elim f [ inl e ↦ inl e | inr t ↦ inr (test.0 t) ],
      λ s. elim s [ inl e ↦ inl e | inr w ↦ inr (test.1 w) ],
    )

-- How many of the responses report no error.
unfoldable pub count : List TimeSyncMsg → ℕ
count [] = 0
count (msg ∷ msgs) = if ignored msg then count msgs else count msgs + 1

count-append : (xs ys : List TimeSyncMsg) → count (xs ++ ys) ≡ count xs + count ys
unfolding count
count-append [] ys = omega arith
count-append (x ∷ xs) ys = elim (Bool-cases (ignored x)) [
  | inl e ↦ rw e (count-append xs ys)
  | inr e ↦ rw e (omega (arith, count-append xs ys))
]

-- The responses end in `n` ones within the tolerance in a row, after one that was processed; those that report an error
-- may stand between.
pub record Streak (seen : List TimeSyncMsg) (n : ℕ) : Type 0 where
  pub before : List TimeSyncMsg
  pub first : TimeSyncMsg
  pub window : List TimeSyncMsg
  pub parts : seen ≡ before ++ first ∷ window
  pub live : ignored first ≡ false
  pub fine : All Steady window
  pub counted : count window ≡ n

-- Somewhere among the responses five in a row are tolerated, after one that was processed.
pub record Settled (seen : List TimeSyncMsg) : Type 0 where
  pub upto : List TimeSyncMsg
  pub after : List TimeSyncMsg
  pub parts : seen ≡ upto ++ after
  pub five : Streak upto 5

-- What the status and the counter say about the responses so far.
pub data Phase (seen : List TimeSyncMsg) : SyncStatus → ℕ → Type 0 where
  waiting : Phase seen initial 0
  counting : {n : ℕ} → n < confirm_threshold → Streak seen n → Phase seen confirming n
  settled : {n : ℕ} → Settled seen → Phase seen synced n

Streak-start :
    (seen : List TimeSyncMsg) (msg : TimeSyncMsg)
    → ignored msg ≡ false
    → Streak (seen ++ msg ∷ []) 0
unfolding count
Streak-start seen msg e = record {
  before = seen;
  first = msg;
  window = [];
  parts = refl;
  live = e;
  fine = tt;
  counted = refl;
}

Streak-next :
    {seen : List TimeSyncMsg} {n : ℕ} (msg : TimeSyncMsg)
    → Streak seen n
    → Fine msg
    → Streak (seen ++ msg ∷ []) (n + count (msg ∷ []))
Streak-next msg s f = record {
  before = s.before;
  first = s.first;
  window = s.window ++ msg ∷ [];
  parts = ap (λ xs. xs ++ msg ∷ []) s.parts ∙ append_assoc s.before (s.first ∷ s.window) (msg ∷ []);
  live = s.live;
  fine = All-append Steady s.window (msg ∷ []) s.fine ((Fine-Steady msg).0 f, tt);
  counted = count-append s.window (msg ∷ []) ∙ ap (λ (k : ℕ). k + count (msg ∷ [])) s.counted;
}

Settled-next :
    {seen : List TimeSyncMsg} (msg : TimeSyncMsg) → Settled seen → Settled (seen ++ msg ∷ [])
Settled-next msg s = record {
  upto = s.upto;
  after = s.after ++ msg ∷ [];
  parts = ap (λ xs. xs ++ msg ∷ []) s.parts ∙ append_assoc s.upto s.after (msg ∷ []);
  five = s.five;
}

Streak-tolerated :
    {seen : List TimeSyncMsg} {n : ℕ} (msg : TimeSyncMsg)
    → ignored msg ≡ false
    → tolerated msg ≡ true
    → Streak seen n
    → Streak (seen ++ msg ∷ []) (n + 1)
unfolding count
Streak-tolerated {seen} {n} msg live fine s =
    let one : count (msg ∷ []) ≡ 1 = rw live refl in
    subst (λ (k : ℕ). Streak (seen ++ msg ∷ []) (n + k)) one (Streak-next msg s (inr fine))

Streak-Settled :
    {seen : List TimeSyncMsg} {n : ℕ} → Streak seen n → n ≡ confirm_threshold → Settled seen
Streak-Settled {seen} s e = record {
  upto = seen;
  after = [];
  parts = sym (append-nil seen);
  five = subst (λ (k : ℕ). Streak seen k) e s;
}

-- One response.
pub Phase-step :
    (genesis : Bool) (delta : Int64) (seen : List TimeSyncMsg) (status : SyncStatus) (n : ℕ)
    (msg : TimeSyncMsg)
    → ignored msg ≡ false
    → Phase seen status n
    → let after =
        process_sync_respond
          (record { genesis = genesis; status = status; delta = delta; confirm_times = n })
          msg in
      Phase (seen ++ msg ∷ []) after.status after.confirm_times
unfolding process_sync_respond
Phase-step genesis delta seen initial n msg live waiting =
    rw live (counting (omega arith) (Streak-start seen msg live))
Phase-step genesis delta seen confirming n msg live (counting h s) =
    elim (Bool-cases (tolerated msg)) [
      | inl fine ↦ elim (Bool-cases (n + 1 == confirm_threshold)) [
        | inl last ↦
            rw (live, fine, last)
              (settled (Streak-Settled (Streak-tolerated msg live fine s) ((==_iff _ _).0 last)))
        | inr more ↦
            rw (live, fine, more) (counting (ground arith) (Streak-tolerated msg live fine s))
      ]
      | inr far ↦ rw (live, far) (counting (omega arith) (Streak-start seen msg live))
    ]
Phase-step genesis delta seen synced n msg live (settled s) = elim (Bool-cases (tolerated msg)) [
  | inl fine ↦ rw (live, fine) (settled (Settled-next msg s))
  | inr far ↦ rw (live, far) (settled (Settled-next msg s))
]

Phase-ignored :
    {seen : List TimeSyncMsg} {status : SyncStatus} {n : ℕ} (msg : TimeSyncMsg)
    → ignored msg ≡ true
    → Phase seen status n
    → Phase (seen ++ msg ∷ []) status n
unfolding count
Phase-ignored msg e waiting = waiting
Phase-ignored {seen} msg e (counting {n} h s) =
    let none_more : n + count (msg ∷ []) ≡ n = rw e (omega arith) in
    counting h
      (subst (λ (k : ℕ). Streak (seen ++ msg ∷ []) k) none_more (Streak-next msg s (inl e)))
Phase-ignored msg e (settled s) = settled (Settled-next msg s)

pub respond-ignored :
    (ts : TimeSyncer) (msg : TimeSyncMsg) → ignored msg ≡ true → process_sync_respond ts msg ≡ ts
unfolding process_sync_respond
respond-ignored ts msg e = rw e refl

-- All responses.
pub Phase-all :
    (ts : TimeSyncer) (seen msgs : List TimeSyncMsg)
    → Phase seen ts.status ts.confirm_times
    → let after = process_all ts msgs in Phase (seen ++ msgs) after.status after.confirm_times
unfolding process_all
Phase-all ts seen [] p = rw (append-nil seen) p
Phase-all ts seen (msg ∷ msgs) p =
    let next = process_sync_respond ts msg in
    let moved : Phase (seen ++ msg ∷ []) next.status next.confirm_times =
      elim (Bool-cases (ignored msg)) [
        | inl e ↦ rw (respond-ignored ts msg e) (Phase-ignored msg e p)
        | inr e ↦ Phase-step ts.genesis ts.delta seen ts.status ts.confirm_times msg e p
      ] in
    subst
      (λ (l : List TimeSyncMsg).
        Phase l (process_all next msgs).status (process_all next msgs).confirm_times)
      (append_assoc seen (msg ∷ []) msgs) (Phase-all next (seen ++ msg ∷ []) msgs moved)

pub Phase-synced :
    {seen : List TimeSyncMsg} {status : SyncStatus} {n : ℕ}
    → Phase seen status n
    → status ≡ synced
    → Settled seen
Phase-synced waiting e = cc
Phase-synced (counting h s) e = cc
Phase-synced (settled s) e = s
