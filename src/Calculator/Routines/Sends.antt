-- ===== src/Calculator/Routines/Sends.antt =====
-- AppendNewSeed as one step, where both channels have room, and its sends one by one.
use go_norn.Prelude.{
  ℕ, ◌<◌, ◌≡◌, refl, sym, subst, [], ◌∷◌, ◌++◌, true, length, Bool-cases, inl, inr,
}
use go_norn.Calculator.{channel_cap, takes_seed, append_new_seed}
use go_norn.Calculator.Routines.{
  Appender, idle, is_unlocked, Routines, refuse, accept, send_seed, send_prev_proof, Reach, here,
  next,
}

-- If nobody holds changeLock and both channels have room, the routines can take AppendNewSeed through both of its sends,
-- or its refusal, to the state that append_new_seed gives, with the lock released again.
pub Reach-append_new_seed :
    (s : Routines) (seed proof : ℕ)
    → s.appender ≡ idle
    → is_unlocked s.worker ≡ true
    → length s.calc.seed_channel < channel_cap
    → length s.calc.prev_proof_channel < channel_cap
    → Reach s (record s { calc = append_new_seed s.calc seed proof })
unfolding append_new_seed
Reach-append_new_seed s seed proof e u room room' =
    elim (Bool-cases (takes_seed s.calc seed proof)) [
      | inl q ↦ rw q (
          subst
            (λ (a : Appender). Reach s (record s {
              calc = record s.calc {
                changed = true;
                seed_channel = s.calc.seed_channel ++ seed ∷ [];
                prev_proof_channel = s.calc.prev_proof_channel ++ proof ∷ [];
              };
              appender = a;
            }))
            (sym e)
            (next (next (next here (accept s seed proof e u q)) (send_seed _ seed proof refl room))
              (send_prev_proof _ proof refl room')))
      | inr q ↦ rw q (next here (refuse s seed proof e u q))
    ]
