-- ===== src/Calculator/Routines/Balance.antt =====
-- No result waits without its proof for ever.
use go_norn.Prelude.{
  ℕ, true, ◌+◌, ◌<◌, ◌≤◌, ◌≡◌, refl, ap, ◌⊎◌, arith, List, [], ◌∷◌, ◌++◌, length, length-append,
}
use go_norn.Calculator.{channel_cap}
use go_norn.Calculator.Routines.{
  Appender, is_unlocked, idle, sending_seed, sending_prev_proof, Worker, waiting, locking,
  receiving, calculating, sending_result, sending_proof, Reader, resting, expecting, Routines, Step,
  refuse, accept, send_seed, send_prev_proof, take_seed, lock, take_prev_proof, interrupt, finish,
  send_result, send_proof, take_result, take_proof, Reach, here, next,
}

-- What is under way between two channels: 1 if the first of a pair has been sent or received and the second not.
abbrev pub appended : Appender → ℕ
appended idle = 0
appended (sending_seed seed proof) = 0
appended (sending_prev_proof proof) = 1

abbrev pub adopted : Worker → ℕ
adopted (locking seed) = 1
adopted (receiving seed) = 1
adopted waiting = 0
adopted (calculating seed) = 0
adopted (sending_result result pi) = 0
adopted (sending_proof pi) = 0

abbrev pub published : Worker → ℕ
published (sending_proof pi) = 1
published waiting = 0
published (locking seed) = 0
published (receiving seed) = 0
published (calculating seed) = 0
published (sending_result result pi) = 0

abbrev pub taken : Reader → ℕ
taken resting = 0
taken (expecting result) = 1

-- Who holds the lock: run for reading, AppendNewSeed for writing.
abbrev pub held : Worker → ℕ
held (receiving seed) = 1
held waiting = 0
held (locking seed) = 0
held (calculating seed) = 0
held (sending_result result pi) = 0
held (sending_proof pi) = 0

abbrev pub busy : Appender → ℕ
busy idle = 0
busy (sending_seed seed proof) = 1
busy (sending_prev_proof proof) = 1

-- The channels of a pair differ by what is under way, none holds more than its capacity, and the lock excludes.
pub record IsBalanced (s : Routines) : Type 0 where
  pub seeds :
      length s.calc.seed_channel + adopted s.worker
      ≡ length s.calc.prev_proof_channel + appended s.appender
  pub results :
      length s.calc.result_channel + taken s.reader
      ≡ length s.calc.proof_channel + published s.worker
  pub exclusive : held s.worker + busy s.appender ≤ 1
  pub seeds_cap : length s.calc.seed_channel ≤ channel_cap
  pub prev_proofs_cap : length s.calc.prev_proof_channel ≤ channel_cap
  pub results_cap : length s.calc.result_channel ≤ channel_cap
  pub proofs_cap : length s.calc.proof_channel ≤ channel_cap

length-snoc : (xs : List ℕ) (x : ℕ) → length (xs ++ x ∷ []) ≡ length xs + 1
length-snoc xs x = length-append xs (x ∷ [])

unlocked-held : (w : Worker) → is_unlocked w ≡ true → held w ≡ 0
unlocked-held (receiving seed) u = cc u
unlocked-held waiting u = refl
unlocked-held (locking seed) u = refl
unlocked-held (calculating seed) u = refl
unlocked-held (sending_result result pi) u = refl
unlocked-held (sending_proof pi) u = refl

pub Step-IsBalanced : {s t : Routines} → Step s t → IsBalanced s → IsBalanced t
Step-IsBalanced (refuse s seed proof e u q) v = v
Step-IsBalanced (accept s seed proof e u q) v = record {
  seeds = omega (arith, v.seeds, ap appended e);
  results = omega (arith, v.results);
  exclusive = omega (arith, v.exclusive, unlocked-held s.worker u);
  seeds_cap = omega (arith, v.seeds_cap);
  prev_proofs_cap = omega (arith, v.prev_proofs_cap);
  results_cap = omega (arith, v.results_cap);
  proofs_cap = omega (arith, v.proofs_cap);
}
Step-IsBalanced (send_seed s seed proof e h) v = record {
  seeds = omega (arith, v.seeds, ap appended e, length-snoc s.calc.seed_channel seed);
  results = omega (arith, v.results);
  exclusive = omega (arith, v.exclusive, ap busy e);
  seeds_cap = omega (arith, v.seeds_cap, h, length-snoc s.calc.seed_channel seed);
  prev_proofs_cap = omega (arith, v.prev_proofs_cap, h, length-snoc s.calc.seed_channel seed);
  results_cap = omega (arith, v.results_cap, h, length-snoc s.calc.seed_channel seed);
  proofs_cap = omega (arith, v.proofs_cap, h, length-snoc s.calc.seed_channel seed);
}
Step-IsBalanced (send_prev_proof s proof e h) v = record {
  seeds = omega (arith, v.seeds, ap appended e, length-snoc s.calc.prev_proof_channel proof);
  results = omega (arith, v.results);
  exclusive = omega (arith, v.exclusive, ap busy e);
  seeds_cap = omega (arith, v.seeds_cap, h, length-snoc s.calc.prev_proof_channel proof);
  prev_proofs_cap =
      omega (arith, v.prev_proofs_cap, h, length-snoc s.calc.prev_proof_channel proof);
  results_cap = omega (arith, v.results_cap, h, length-snoc s.calc.prev_proof_channel proof);
  proofs_cap = omega (arith, v.proofs_cap, h, length-snoc s.calc.prev_proof_channel proof);
}
Step-IsBalanced (take_seed s seed seeds e q) v = record {
  seeds = omega (arith, v.seeds, ap adopted e, ap (λ (l : List ℕ). length l) q);
  results = omega (arith, v.results, ap published e);
  exclusive = omega (arith, v.exclusive, ap held e);
  seeds_cap = omega (arith, v.seeds_cap, ap (λ (l : List ℕ). length l) q);
  prev_proofs_cap = omega (arith, v.prev_proofs_cap, ap (λ (l : List ℕ). length l) q);
  results_cap = omega (arith, v.results_cap, ap (λ (l : List ℕ). length l) q);
  proofs_cap = omega (arith, v.proofs_cap, ap (λ (l : List ℕ). length l) q);
}
Step-IsBalanced (lock s seed e q) v = record {
  seeds = omega (arith, v.seeds, ap adopted e);
  results = omega (arith, v.results, ap published e);
  exclusive = omega (arith, v.exclusive, ap busy q);
  seeds_cap = omega (arith, v.seeds_cap);
  prev_proofs_cap = omega (arith, v.prev_proofs_cap);
  results_cap = omega (arith, v.results_cap);
  proofs_cap = omega (arith, v.proofs_cap);
}
Step-IsBalanced (take_prev_proof s seed proof proofs e q) v = record {
  seeds = omega (arith, v.seeds, ap adopted e, ap (λ (l : List ℕ). length l) q);
  results = omega (arith, v.results, ap published e);
  exclusive = omega (arith, v.exclusive, ap held e);
  seeds_cap = omega (arith, v.seeds_cap, ap (λ (l : List ℕ). length l) q);
  prev_proofs_cap = omega (arith, v.prev_proofs_cap, ap (λ (l : List ℕ). length l) q);
  results_cap = omega (arith, v.results_cap, ap (λ (l : List ℕ). length l) q);
  proofs_cap = omega (arith, v.proofs_cap, ap (λ (l : List ℕ). length l) q);
}
Step-IsBalanced (interrupt s seed changed e q) v = record {
  seeds = omega (arith, v.seeds, ap adopted e);
  results = omega (arith, v.results, ap published e);
  exclusive = omega (arith, v.exclusive, ap held e);
  seeds_cap = omega (arith, v.seeds_cap);
  prev_proofs_cap = omega (arith, v.prev_proofs_cap);
  results_cap = omega (arith, v.results_cap);
  proofs_cap = omega (arith, v.proofs_cap);
}
Step-IsBalanced (finish s seed result pi changed e q) v = record {
  seeds = omega (arith, v.seeds, ap adopted e);
  results = omega (arith, v.results, ap published e);
  exclusive = omega (arith, v.exclusive, ap held e);
  seeds_cap = omega (arith, v.seeds_cap);
  prev_proofs_cap = omega (arith, v.prev_proofs_cap);
  results_cap = omega (arith, v.results_cap);
  proofs_cap = omega (arith, v.proofs_cap);
}
Step-IsBalanced (send_result s result pi e h) v = record {
  seeds = omega (arith, v.seeds, ap adopted e);
  results = omega (arith, v.results, ap published e, length-snoc s.calc.result_channel result);
  exclusive = omega (arith, v.exclusive, ap held e);
  seeds_cap = omega (arith, v.seeds_cap, h, length-snoc s.calc.result_channel result);
  prev_proofs_cap = omega (arith, v.prev_proofs_cap, h, length-snoc s.calc.result_channel result);
  results_cap = omega (arith, v.results_cap, h, length-snoc s.calc.result_channel result);
  proofs_cap = omega (arith, v.proofs_cap, h, length-snoc s.calc.result_channel result);
}
Step-IsBalanced (send_proof s pi e h) v = record {
  seeds = omega (arith, v.seeds, ap adopted e);
  results = omega (arith, v.results, ap published e, length-snoc s.calc.proof_channel pi);
  exclusive = omega (arith, v.exclusive, ap held e);
  seeds_cap = omega (arith, v.seeds_cap, h, length-snoc s.calc.proof_channel pi);
  prev_proofs_cap = omega (arith, v.prev_proofs_cap, h, length-snoc s.calc.proof_channel pi);
  results_cap = omega (arith, v.results_cap, h, length-snoc s.calc.proof_channel pi);
  proofs_cap = omega (arith, v.proofs_cap, h, length-snoc s.calc.proof_channel pi);
}
Step-IsBalanced (take_result s result results e q) v = record {
  seeds = omega (arith, v.seeds);
  results = omega (arith, v.results, ap taken e, ap (λ (l : List ℕ). length l) q);
  exclusive = omega (arith, v.exclusive);
  seeds_cap = omega (arith, v.seeds_cap, ap (λ (l : List ℕ). length l) q);
  prev_proofs_cap = omega (arith, v.prev_proofs_cap, ap (λ (l : List ℕ). length l) q);
  results_cap = omega (arith, v.results_cap, ap (λ (l : List ℕ). length l) q);
  proofs_cap = omega (arith, v.proofs_cap, ap (λ (l : List ℕ). length l) q);
}
Step-IsBalanced (take_proof s result proof proofs e q) v = record {
  seeds = omega (arith, v.seeds);
  results = omega (arith, v.results, ap taken e, ap (λ (l : List ℕ). length l) q);
  exclusive = omega (arith, v.exclusive);
  seeds_cap = omega (arith, v.seeds_cap, ap (λ (l : List ℕ). length l) q);
  prev_proofs_cap = omega (arith, v.prev_proofs_cap, ap (λ (l : List ℕ). length l) q);
  results_cap = omega (arith, v.results_cap, ap (λ (l : List ℕ). length l) q);
  proofs_cap = omega (arith, v.proofs_cap, ap (λ (l : List ℕ). length l) q);
}

pub Reach-IsBalanced : {s t : Routines} → IsBalanced s → Reach s t → IsBalanced t
Reach-IsBalanced v here = v
Reach-IsBalanced v (next r step) = Step-IsBalanced step (Reach-IsBalanced v r)

-- A proof can be received, or run is about to send it and the channel has room.
abbrev pub ProofComes : Routines → Type 0
ProofComes s =
    ((proof : ℕ) × (rest : List ℕ) × (s.calc.proof_channel ≡ proof ∷ rest))
    ⊎ ((published s.worker ≡ 1) × (length s.calc.proof_channel < channel_cap))
