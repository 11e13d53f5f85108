-- ===== src/BlockSync/Requests.antt =====
-- Which height is asked for next.
use go_norn.Prelude.{
  ℕ, zero, suc, ◌+◌, ◌-◌, ◌≤◌, ◌<◌, ◌≡◌, refl, sym, ap, ◌∙◌, inl, inr, arith, true, false, Option,
  none, some, Bool-cases, ltb, ◌==◌, ==_iff, ◌&&◌,
}
use go_norn.Prelude.Int64.{Int64}
use go_norn.Prelude.Maps.{update}
use go_norn.BlockSync.{
  BlockSyncer, wanted, select_loop, select_block_height, requested_at, request_block_interval,
  is_missing,
}

-- What selectBlockHeight answers, over the heights from `height` on, `left` of them.
pub data Selection (now : ℕ) (bs : BlockSyncer) (height : Int64) (left : ℕ)
    : Option Int64 → Type 0 where
  nothing :
      ((h : Int64) → height ≤ h → h < height + left → wanted now bs h ≡ false)
      → Selection now bs height left none
  lowest :
      (h : Int64)
      → height ≤ h
      → h < height + left
      → wanted now bs h ≡ true
      → ((j : Int64) → height ≤ j → j < h → wanted now bs j ≡ false)
      → Selection now bs height left (some h)

-- A height that has no time gets the time 0, which changes no answer.
pub wanted-update :
    (now : ℕ) (bs : BlockSyncer) (height h : Int64)
    → wanted now
        (record bs {
          request_timestamp =
              update bs.request_timestamp height
                (some (requested_at (bs.request_timestamp height)));
        })
        h
      ≡ wanted now bs h
wanted-update now bs height h = elim (Bool-cases (height == h)) [
  | inl e ↦ rw e (
      ap
        (λ (j : Int64).
          is_missing (bs.block_map h)
          && ltb request_block_interval (now - requested_at (bs.request_timestamp j)))
        ((==_iff height h).0 e))
  | inr e ↦ rw e refl
]

Selection-step :
    (now : ℕ) (bs next : BlockSyncer) (height : Int64) (left : ℕ) (answer : Option Int64)
    → wanted now bs height ≡ false
    → ((h : Int64) → wanted now next h ≡ wanted now bs h)
    → Selection now next (height + 1) left answer
    → Selection now bs height (suc left) answer
Selection-step now bs next height left answer skip same (nothing all) = nothing (λ h l u.
    elim (Bool-cases (height == h)) [
      | inl e ↦ ap (wanted now bs) (sym ((==_iff height h).0 e)) ∙ skip
      | inr e ↦ sym (same h) ∙ all h (ground (arith, l, e)) (omega (arith, u))
    ])
Selection-step now bs next height left answer skip same (lowest h l u w all) =
    lowest h (omega (arith, l)) (omega (arith, u)) (sym (same h) ∙ w) (λ j lj uj.
      elim (Bool-cases (height == j)) [
        | inl e ↦ ap (wanted now bs) (sym ((==_iff height j).0 e)) ∙ skip
        | inr e ↦ sym (same j) ∙ all j (ground (arith, lj, e)) uj
      ])

select_loop-Selection :
    (now left : ℕ) (height : Int64) (bs : BlockSyncer)
    → Selection now bs height left (select_loop now left height bs).1
unfolding select_loop
select_loop-Selection now zero height bs = nothing (λ h l u. absurd (omega (arith, l, u)))
select_loop-Selection now (suc left) height bs = elim (Bool-cases (wanted now bs height)) [
  | inl w ↦
      rw w (lowest height (omega arith) (omega arith) w (λ j l u. absurd (omega (arith, l, u))))
  | inr skip ↦
      let next = record bs {
        request_timestamp =
            update bs.request_timestamp height (some (requested_at (bs.request_timestamp height)));
      } in
      rw skip (
        Selection-step now bs next height left (select_loop now left (height + 1) next).1 skip
          (wanted-update now bs height) (select_loop-Selection now left (height + 1) next))
]

-- selectBlockHeight answers the lowest height above the known one, up to the remote one, of which there is no
-- block and which has not been asked for in the last 3 seconds; or -1 if there is no such height.
pub select_block_height-Selection :
    (now : ℕ) (bs : BlockSyncer)
    → Selection now bs
        (bs.known_height + 1)
        (bs.remote_height - bs.known_height)
        (select_block_height now bs).1
unfolding select_block_height
select_block_height-Selection now bs =
    select_loop-Selection now (bs.remote_height - bs.known_height) (bs.known_height + 1) bs
