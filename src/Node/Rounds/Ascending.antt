-- ===== src/Node/Rounds/Ascending.antt =====
-- node/block_syncer.go: the heights that one round asks for.
use go_norn.Prelude.{
  ℕ, zero, suc, ◌+◌, ◌-◌, ◌≤◌, ◌<◌, ◌≡◌, ◌≢◌, refl, sym, ap, ◌∙◌, inl, inr, arith, Bool, true,
  false, Option, none, some, List, [], ◌∷◌, ◌++◌, Bool-cases, ltb, ◌==◌, ==_iff, ◌&&◌,
  if◌then◌else◌, ltb→lt, ltb_false→le,
}
use go_norn.Prelude.Int64.{Int64, int}
use go_norn.Prelude.Maps.{update, update_self, update_other}
use go_norn.BlockSync.{
  BlockSyncer, wanted, select_loop, select_block_height, requested_at, request_block_interval,
  is_missing,
}
use go_norn.BlockSync.Requests.{Selection, lowest, select_block_height-Selection, wanted-update}
use go_norn.Node.{NodeEnv, Peer}
use go_norn.Node.Rounds.{PeerSet, Request, Round, ask, visit_peer, is_busy, run_loop, run_tick}

-- What a selection leaves of the syncer: the answer is not wanted again, and nothing else has changed.
record Marked (now : ℕ) (bs bs' : BlockSyncer) (answer : Option Int64) : Type 0 where
  known : bs'.known_height ≡ bs.known_height
  remote : bs'.remote_height ≡ bs.remote_height
  others : (j : Int64) → answer ≢ some j → wanted now bs' j ≡ wanted now bs j
  own : (h : Int64) → answer ≡ some h → wanted now bs' h ≡ false

asked-other :
    (now : ℕ) (bs : BlockSyncer) (height j : Int64)
    → height ≢ j
    → wanted now (record bs { request_timestamp = update bs.request_timestamp height (some now) }) j
      ≡ wanted now bs j
asked-other now bs height j ne =
    ap
      (λ (o : Option ℕ).
        is_missing (bs.block_map j) && ltb request_block_interval (now - requested_at o))
      (update_other bs.request_timestamp height j (some now) ne)

and-false : (b : Bool) → (b && false) ≡ false
and-false true = refl
and-false false = refl

asked_self :
    (now : ℕ) (bs : BlockSyncer) (height h : Int64)
    → height ≡ h
    → wanted now (record bs { request_timestamp = update bs.request_timestamp height (some now) }) h
      ≡ false
asked_self now bs height h e =
    let early : ltb request_block_interval (now - now) ≡ false = ground arith in
    let at : update bs.request_timestamp height (some now) h ≡ some now =
      ap (update bs.request_timestamp height (some now)) (sym e)
      ∙ update_self bs.request_timestamp height (some now) in
    ap
      (λ (o : Option ℕ).
        is_missing (bs.block_map h) && ltb request_block_interval (now - requested_at o))
      at
    ∙ ap (is_missing (bs.block_map h) &&◌) early
    ∙ and-false (is_missing (bs.block_map h))

select_loop-Marked :
    (now left : ℕ) (height : Int64) (bs : BlockSyncer)
    → Marked now bs (select_loop now left height bs).0 (select_loop now left height bs).1
unfolding select_loop
select_loop-Marked now zero height bs = record {
  known = refl;
  remote = refl;
  others = λ j ne. refl;
  own = λ h e. cc e;
}
select_loop-Marked now (suc left) height bs = elim (Bool-cases (wanted now bs height)) [
  | inl w ↦ rw w (record {
    known = refl;
    remote = refl;
    others = λ j ne. asked-other now bs height j (λ q. ne (ap some q));
    own = λ h e. asked_self now bs height h (cc e);
  })
  | inr skip ↦
      let next = record bs {
        request_timestamp =
            update bs.request_timestamp height (some (requested_at (bs.request_timestamp height)));
      } in
      let more = select_loop-Marked now left (height + 1) next in
      rw skip (record {
        known = more.known;
        remote = more.remote;
        others = λ j ne. more.others j ne ∙ wanted-update now bs height j;
        own = more.own;
      })
]

-- Heights in ascending order, from `low` to the remote height, each of them wanted.
abbrev pub Ascending : ℕ → BlockSyncer → Int64 → List Request → Type 0
Ascending now bs low [] = Unit
Ascending now bs low (r ∷ rs) =
    (low ≤ r.0)
    × (r.0 ≤ bs.remote_height)
    × (wanted now bs (r.0) ≡ true)
    × Ascending now bs (r.0 + 1) rs

Ascending-weaken :
    (now : ℕ) (bs : BlockSyncer) (low high : Int64) (rs : List Request)
    → low ≤ high
    → Ascending now bs high rs
    → Ascending now bs low rs
Ascending-weaken now bs low high [] h a = tt
Ascending-weaken now bs low high (r ∷ rs) h a = (omega (arith, h, a.0), a.1, a.2, a.3)

-- Between two peers of a round: below `low` nothing is wanted any more, and from there on what was wanted at first.
record Between (now : ℕ) (bs bs' : BlockSyncer) (low : Int64) : Type 0 where
  known : bs'.known_height ≡ bs.known_height
  remote : bs'.remote_height ≡ bs.remote_height
  above : bs.known_height + 1 ≤ low
  done_below : (j : Int64) → bs.known_height + 1 ≤ j → j < low → wanted now bs' j ≡ false
  open_above : (j : Int64) → low ≤ j → wanted now bs' j ≡ wanted now bs j

module _ {env : NodeEnv} (now : ℕ) (times : ℕ → Option ℕ) (bs : BlockSyncer) where
  -- Part of a round asks for heights from `low` on, and the rest may go on from `next`.
  record Part (low : Int64) (r : Round env) : Type 0 where
    next : Int64
    grows : low ≤ next
    asked : Ascending now bs low r.requests
    ends : (rs : List Request) → Ascending now bs next rs → Ascending now bs low (r.requests ++ rs)
    between : Between now bs r.syncer next

  idle :
      (bs' : BlockSyncer) (low : Int64) (kept : List (ℕ × Peer env))
      → Between now bs bs' low
      → Part low (record { syncer = bs'; kept = kept; requests = [] })
  idle bs' low kept b = record {
    next = low;
    grows = omega arith;
    asked = tt;
    ends = λ rs h. h;
    between = b;
  }

  ask-Part :
      (p : ℕ × Peer env) (bs' next : BlockSyncer) (low : Int64) (answer : Option Int64)
      → Between now bs bs' low
      → Marked now bs' next answer
      → Selection now bs' (bs'.known_height + 1) (bs'.remote_height - bs'.known_height) answer
      → Part low (ask now times p (next, answer))
  unfolding ask
  ask-Part p bs' next low none b m sel = idle next low (p ∷ []) (record {
    known = m.known ∙ b.known;
    remote = m.remote ∙ b.remote;
    above = b.above;
    done_below = λ j l u. m.others j (λ q. cc q) ∙ b.done_below j l u;
    open_above = λ j l. m.others j (λ q. cc q) ∙ b.open_above j l;
  })
  ask-Part p bs' next low (some h) b m (lowest _ l u w all) = elim (Bool-cases (ltb h (int 0))) [
    | inl negative ↦ rw negative (record {
      next = h + 1;
      grows = omega (arith, from_low);
      asked = tt;
      ends = λ rs a. Ascending-weaken now bs low (h + 1) rs (omega (arith, from_low)) a;
      between = after;
    })
    | inr proper ↦ rw proper (record {
      next = h + 1;
      grows = omega (arith, from_low);
      asked = (from_low, up_to, wanted_first, tt);
      ends = λ rs a. (from_low, up_to, wanted_first, a);
      between = after;
    })
  ]
    where
      from_low : low ≤ h
      from_low = elim (Bool-cases (ltb h low)) [
        | inl below ↦
            let gone = b.done_below h (omega (arith, l, b.known)) (ltb→lt h low below) in
            let no : true ≡ false = sym w ∙ gone in cc no
        | inr high ↦ ltb_false→le h low high
      ]

      up_to : h ≤ bs.remote_height
      up_to = omega (arith, u, l, b.remote, b.known)

      wanted_first : wanted now bs h ≡ true
      wanted_first = sym (b.open_above h from_low) ∙ w

      after_done : (j : Int64) → bs.known_height + 1 ≤ j → j < h + 1 → wanted now next j ≡ false
      after_done j lj uj = elim (Bool-cases (h == j)) [
        | inl same ↦ m.own j (ap some ((==_iff h j).0 same))
        | inr other ↦
            m.others j (λ q. let e : h ≡ j = cc q in ground (arith, other, e))
            ∙ all j (omega (arith, lj, b.known)) (ground (arith, other, uj))
      ]

      after : Between now bs next (h + 1)
      after = record {
        known = m.known ∙ b.known;
        remote = m.remote ∙ b.remote;
        above = omega (arith, from_low, b.above);
        done_below = after_done;
        open_above = λ j lj.
            m.others j (λ q. let e : h ≡ j = cc q in absurd (omega (arith, e, lj)))
            ∙ b.open_above j (omega (arith, lj, from_low));
      }

  either :
      (low : Int64) (b : Bool) {x y : Round env}
      → Part low x
      → Part low y
      → Part low (if b then x else y)
  either low true px py = px
  either low false px py = py

  visit_peer-Part :
      (bs' : BlockSyncer) (p : ℕ × Peer env) (low : Int64)
      → Between now bs bs' low
      → Part low (visit_peer now times bs' p)
  unfolding visit_peer select_block_height
  visit_peer-Part bs' p low b = either low p.1.connection.stopped (idle bs' low [] b) (
      either low (is_busy now times p) (idle bs' low (p ∷ []) b) (
        ask-Part p bs' (select_block_height now bs').0 low (select_block_height now bs').1 b
          (select_loop-Marked now (bs'.remote_height - bs'.known_height) (bs'.known_height + 1) bs')
          (select_block_height-Selection now bs')))

  run_loop-Ascending :
      (ps : List (ℕ × Peer env)) (bs' : BlockSyncer) (low : Int64)
      → Between now bs bs' low
      → Ascending now bs low (run_loop now times bs' ps).requests
  unfolding run_loop
  run_loop-Ascending [] bs' low b = tt
  run_loop-Ascending (p ∷ ps) bs' low b =
      let first = visit_peer-Part bs' p low b in
      first.ends (run_loop now times (visit_peer now times bs' p).syncer ps).requests
        (run_loop-Ascending ps (visit_peer now times bs' p).syncer first.next first.between)

module _ {env : NodeEnv} where
  -- The heights that a round asks for, peer after peer, ascend strictly, so that no block is asked of two peers; each
  -- of them lies above the known height and not above the remote one, and at the start of the round there is no block
  -- of it and it has not been asked for in the last 3 seconds.
  pub run_tick-Ascending :
      (now : ℕ) (bs : BlockSyncer) (peers : PeerSet env)
      → Ascending now bs (bs.known_height + 1) (run_tick now bs peers).2
  unfolding run_tick
  run_tick-Ascending now bs peers =
      run_loop-Ascending now peers.peer_req_time bs peers.peer_set bs (bs.known_height + 1)
        (record {
          known = refl;
          remote = refl;
          above = omega arith;
          done_below = λ j l u. absurd (omega (arith, l, u));
          open_above = λ j l. refl;
        })
