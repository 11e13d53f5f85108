-- ===== src/Calculator/Routines.antt =====
-- crypto/calculator.go: AppendNewSeed, run and GetSeedParams as routines that share the calculator, each send and each
-- receive a step of its own, which must wait while its channel is full or empty. Only AppendNewSeed takes changeLock for
-- writing, and holds it until both its sends have gone through; run takes it for reading between its two receives.
pub mod Balance
pub mod Deadlock
pub mod Sends
use go_norn.Prelude.{ℕ, ◌<◌, ◌≡◌, Bool, true, false, List, [], ◌∷◌, ◌++◌, length}
use go_norn.Calculator.{
  Calculator, Calculation, interrupted, finished, channel_cap, takes_seed, calculate,
  calculator_initialization,
}

-- Where AppendNewSeed stands; it holds the lock unless it is idle.
pub data Appender : Type 0 where
  idle : Appender
  sending_seed : ℕ → ℕ → Appender
  sending_prev_proof : ℕ → Appender

-- Where run stands: it waits for a seed, has one and waits for the lock, has the lock and waits for the proof, calculates,
-- or sends what it has calculated.
pub data Worker : Type 0 where
  waiting : Worker
  locking : ℕ → Worker
  receiving : ℕ → Worker
  calculating : ℕ → Worker
  sending_result : ℕ → ℕ → Worker
  sending_proof : ℕ → Worker

-- Where the packaging routine stands, which calls GetSeedParams: it may have a result and wait for its proof.
pub data Reader : Type 0 where
  resting : Reader
  expecting : ℕ → Reader

pub record Routines : Type 0 where
  pub calc : Calculator
  pub appender : Appender
  pub worker : Worker
  pub reader : Reader

abbrev pub started : (proof_param order : ℕ) → ℕ → Routines
unfolding calculator_initialization
started proof_param order t = record {
  calc = calculator_initialization proof_param order t;
  appender = idle;
  worker = waiting;
  reader = resting;
}

-- run does not hold the lock for reading.
abbrev pub is_unlocked : Worker → Bool
is_unlocked (receiving seed) = false
is_unlocked _ = true

pub data Step : Routines → Routines → Type 0 where
  -- AppendNewSeed: the test under the lock, and the two sends.
  refuse :
      (s : Routines) (seed proof : ℕ)
      → s.appender ≡ idle
      → is_unlocked s.worker ≡ true
      → takes_seed s.calc seed proof ≡ false
      → Step s s
  accept :
      (s : Routines) (seed proof : ℕ)
      → s.appender ≡ idle
      → is_unlocked s.worker ≡ true
      → takes_seed s.calc seed proof ≡ true
      → Step s
          (record s { calc = record s.calc { changed = true }; appender = sending_seed seed proof })
  send_seed :
      (s : Routines) (seed proof : ℕ)
      → s.appender ≡ sending_seed seed proof
      → length s.calc.seed_channel < channel_cap
      → Step s (record s {
        calc = record s.calc { seed_channel = s.calc.seed_channel ++ seed ∷ [] };
        appender = sending_prev_proof proof;
      })
  send_prev_proof :
      (s : Routines) (proof : ℕ)
      → s.appender ≡ sending_prev_proof proof
      → length s.calc.prev_proof_channel < channel_cap
      → Step s (record s {
        calc = record s.calc { prev_proof_channel = s.calc.prev_proof_channel ++ proof ∷ [] };
        appender = idle;
      })
  -- run: the seed, the lock, the proof, the calculation, and the two sends.
  take_seed :
      (s : Routines) (seed : ℕ) (seeds : List ℕ)
      → s.worker ≡ waiting
      → s.calc.seed_channel ≡ seed ∷ seeds
      → Step s (record s { calc = record s.calc { seed_channel = seeds }; worker = locking seed })
  lock :
      (s : Routines) (seed : ℕ)
      → s.worker ≡ locking seed
      → s.appender ≡ idle
      → Step s (record s {
        calc = record s.calc { changed = false; prev_seed = s.calc.seed; seed = seed };
        worker = receiving seed;
      })
  take_prev_proof :
      (s : Routines) (seed proof : ℕ) (proofs : List ℕ)
      → s.worker ≡ receiving seed
      → s.calc.prev_proof_channel ≡ proof ∷ proofs
      → Step s (record s {
        calc = record s.calc { prev_proof_channel = proofs; proof = proof };
        worker = calculating seed;
      })
  interrupt :
      (s : Routines) (seed : ℕ) (changed : ℕ → Bool)
      → s.worker ≡ calculating seed
      → calculate s.calc changed seed ≡ interrupted
      → Step s (record s { worker = waiting })
  finish :
      (s : Routines) (seed result pi : ℕ) (changed : ℕ → Bool)
      → s.worker ≡ calculating seed
      → calculate s.calc changed seed ≡ finished result pi
      → Step s (record s { worker = sending_result result pi })
  send_result :
      (s : Routines) (result pi : ℕ)
      → s.worker ≡ sending_result result pi
      → length s.calc.result_channel < channel_cap
      → Step s (record s {
        calc = record s.calc { result_channel = s.calc.result_channel ++ result ∷ [] };
        worker = sending_proof pi;
      })
  send_proof :
      (s : Routines) (pi : ℕ)
      → s.worker ≡ sending_proof pi
      → length s.calc.proof_channel < channel_cap
      → Step s (record s {
        calc = record s.calc { proof_channel = s.calc.proof_channel ++ pi ∷ [] };
        worker = waiting;
      })
  -- GetSeedParams: the result, and its proof.
  take_result :
      (s : Routines) (result : ℕ) (results : List ℕ)
      → s.reader ≡ resting
      → s.calc.result_channel ≡ result ∷ results
      → Step s (record s {
        calc = record s.calc { result_channel = results };
        reader = expecting result;
      })
  take_proof :
      (s : Routines) (result proof : ℕ) (proofs : List ℕ)
      → s.reader ≡ expecting result
      → s.calc.proof_channel ≡ proof ∷ proofs
      → Step s (record s { calc = record s.calc { proof_channel = proofs }; reader = resting })

pub data Reach (s : Routines) : Routines → Type 0 where
  here : Reach s s
  next : {t u : Routines} → Reach s t → Step t u → Reach s u
