-- ===== src/Calculator/Routines/Deadlock.antt =====
-- A deadlock of AppendNewSeed and run: run has taken a seed and waits for changeLock, which AppendNewSeed holds while it
-- waits for room for a proof.
use go_norn.Prelude.{
  ℕ, zero, suc, ◌<◌, ◌≤◌, ◌≡◌, ◌≢◌, refl, ap, subst, arith, Bool, true, false, List, [], ◌∷◌, ◌++◌,
  length, replicate, length-replicate,
}
use go_norn.Calculator.{channel_cap, takes_seed, calculator_initialization}
use go_norn.Calculator.Routines.{
  Appender, Worker, idle, sending_prev_proof, waiting, locking, resting, Routines, started, Step,
  refuse, accept, send_seed, send_prev_proof, take_seed, lock, take_prev_proof, interrupt, finish,
  send_result, send_proof, take_result, take_proof, Reach, here, next,
}
use go_norn.Calculator.Routines.Balance.{appended, adopted, held, taken}

-- AppendNewSeed waits for room for a proof, run for the lock, and there is no result to read.
record IsStuck (s : Routines) : Type 0 where
  appending : appended s.appender ≡ 1
  wants_lock : adopted s.worker ≡ 1
  lockless : held s.worker ≡ 0
  no_room : length s.calc.prev_proof_channel ≡ channel_cap
  at_rest : taken s.reader ≡ 0
  no_result : length s.calc.result_channel ≡ 0

stuck : {s t : Routines} → IsStuck s → ¬ Step s t
stuck v (refuse s seed proof e u q) = absurd (omega (arith, v.appending, ap appended e))
stuck v (accept s seed proof e u q) = absurd (omega (arith, v.appending, ap appended e))
stuck v (send_seed s seed proof e h) = absurd (omega (arith, v.appending, ap appended e))
stuck v (send_prev_proof s proof e h) = absurd (omega (arith, v.no_room, h))
stuck v (take_seed s seed seeds e q) = absurd (omega (arith, v.wants_lock, ap adopted e))
stuck v (lock s seed e q) = absurd (omega (arith, v.appending, ap appended q))
stuck v (take_prev_proof s seed proof proofs e q) = absurd (omega (arith, v.lockless, ap held e))
stuck v (interrupt s seed changed e q) = absurd (omega (arith, v.wants_lock, ap adopted e))
stuck v (finish s seed result pi changed e q) = absurd (omega (arith, v.wants_lock, ap adopted e))
stuck v (send_result s result pi e h) = absurd (omega (arith, v.wants_lock, ap adopted e))
stuck v (send_proof s pi e h) = absurd (omega (arith, v.wants_lock, ap adopted e))
stuck v (take_result s result results e q) =
    absurd (omega (arith, v.no_result, ap (λ (l : List ℕ). length l) q))
stuck v (take_proof s result proof proofs e q) = absurd (omega (arith, v.at_rest, ap taken e))

replicate-snoc : (n a : ℕ) → replicate n a ++ a ∷ [] ≡ replicate (suc n) a
replicate-snoc zero a = refl
replicate-snoc (suc n) a = ap (λ l. a ∷ l) (replicate-snoc n a)

module _ (proof_param order t : ℕ) where
  -- The calculator before run has taken a seed.
  abbrev with_channels : Bool → List ℕ → List ℕ → Appender → Worker → Routines
  unfolding started calculator_initialization
  with_channels changed seeds proofs appender worker = record {
    calc = record (calculator_initialization proof_param order t) {
      changed = changed;
      seed_channel = seeds;
      prev_proof_channel = proofs;
    };
    appender = appender;
    worker = worker;
    reader = resting;
  }

  started-takes_seed :
      (b : Bool) (seeds proofs : List ℕ) (a : Appender) (w : Worker) (seed proof : ℕ)
      → seed ≢ 0
      → takes_seed (with_channels b seeds proofs a w).calc seed proof ≡ true
  unfolding calculator_initialization
  started-takes_seed b seeds proofs a w seed proof h = ground arith

  Reach-append :
      (b : Bool) (seeds proofs : List ℕ) (seed proof : ℕ)
      → seed ≢ 0
      → length seeds < channel_cap
      → length proofs < channel_cap
      → Reach (started proof_param order t) (with_channels b seeds proofs idle waiting)
      → Reach
          (started proof_param order t)
          (with_channels true (seeds ++ seed ∷ []) (proofs ++ proof ∷ []) idle waiting)
  unfolding with_channels
  Reach-append b seeds proofs seed proof h r r' reach =
      next
        (next
          (next reach (
            accept _ seed proof refl refl
              (started-takes_seed b seeds proofs idle waiting seed proof h)))
          (send_seed _ seed proof refl r))
        (send_prev_proof _ proof refl r')

  Reach-filled :
      (seed proof n : ℕ)
      → seed ≢ 0
      → n ≤ channel_cap
      → (b : Bool) × Reach
          (started proof_param order t)
          (with_channels b (replicate n seed) (replicate n proof) idle waiting)
  unfolding with_channels started calculator_initialization
  Reach-filled seed proof zero h r = (false, here)
  Reach-filled seed proof (suc n) h r =
      let (b, reach) = Reach-filled seed proof n h (omega arith) in
      (
        true,
        subst
            (λ (proofs : List ℕ).
              Reach (started proof_param order t)
                (with_channels true (replicate (suc n) seed) proofs idle waiting))
            (replicate-snoc n proof)
            (subst
              (λ (seeds : List ℕ).
                Reach (started proof_param order t)
                  (with_channels true seeds (replicate n proof ++ proof ∷ []) idle waiting))
              (replicate-snoc n seed)
              (Reach-append b (replicate n seed) (replicate n proof) seed proof h
                (omega (arith, length-replicate n seed)) (omega (arith, length-replicate n proof))
                reach)),
      )

  -- If AppendNewSeed takes the same seed other than 0 for the 33rd time before run has taken the first, run can take that
  -- seed while AppendNewSeed sends the last: then AppendNewSeed waits for room for its proof, with the lock, run waits for the
  -- lock, and no step of any of the routines is possible.
  pub Reach-deadlock :
      (seed proof : ℕ)
      → seed ≢ 0
      → (s : Routines) × Reach (started proof_param order t) s
        × (s.appender ≡ sending_prev_proof proof)
        × (s.worker ≡ locking seed)
        × ((u : Routines) → ¬ Step s u)
  unfolding with_channels
  Reach-deadlock seed proof h =
      let (b, reach) = Reach-filled seed proof channel_cap h (omega arith) in
      let seeds = replicate channel_cap seed in
      let proofs = replicate channel_cap proof in
      (
        with_channels true (replicate 31 seed ++ seed ∷ []) proofs (sending_prev_proof proof)
            (locking seed),
        next
            (next
              (next reach (
                accept _ seed proof refl refl
                  (started-takes_seed b seeds proofs idle waiting seed proof h)))
              (take_seed _ seed (replicate 31 seed) refl refl))
            (send_seed _ seed proof refl (omega (arith, length-replicate 31 seed))),
        refl,
        refl,
        λ u. stuck (record {
          appending = refl;
          wants_lock = refl;
          lockless = refl;
          no_room = length-replicate channel_cap proof;
          at_rest = refl;
          no_result = refl;
        }),
      )
