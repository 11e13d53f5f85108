-- ===== src/Calculator/Examples.antt =====
-- A calculator small enough to run: modulus 35, proof parameter 3, four rounds.
use go_norn.Prelude.{ℕ, ◌≡◌, refl, Bool, true, false, [], arith}
use go_norn.Prelude.Int64.{int}
use go_norn.Calculator.{
  Calculator, calculator_initialization, calculate_loop, calculate, finished, verify,
  verify_block_vdf, calculator_initialization,
}
use go_norn.Calculator.Power.{IsProper, verify-calculate}
use go_norn.Calculator.Protocol.{verify_block_vdf-calculate}
use go_norn.Calculator.Routines.{
  idle, sending_prev_proof, locking, sending_proof, expecting, Routines, started, Step, Reach,
}
use go_norn.Calculator.Routines.Deadlock.{Reach-deadlock}

abbrev quiet : ℕ → Bool
quiet i = false

abbrev small : Calculator
small = record {
  seed_channel = [];
  prev_proof_channel = [];
  result_channel = [];
  proof_channel = [];
  proof_param = 3;
  order = 35;
  time_param = int 4;
  prev_seed = 0;
  seed = 2;
  proof = 0;
  changed = false;
}

small-IsProper : IsProper small
small-IsProper = omega arith

calculate_runs : calculate small quiet 2 ≡ finished 16 32
unfolding calculate calculate_loop
calculate_runs = refl

verify-calculate_example :
    (result pi : ℕ) × (calculate small quiet 2 ≡ finished result pi)
    × (result ≡ 16)
    × (verify small 2 pi result ≡ true)
verify-calculate_example = verify-calculate small quiet 2 small-IsProper (λ i. refl)

verify_block_vdf-calculate_example :
    (result pi : ℕ) × (calculate small quiet 2 ≡ finished result pi)
    × (verify_block_vdf small result pi ≡ true)
verify_block_vdf-calculate_example =
    verify_block_vdf-calculate small quiet small-IsProper (λ i. refl) (omega arith)

verify_16 : verify small 2 32 16 ≡ true
unfolding verify
verify_16 = refl

verify_17 : verify small 2 32 17 ≡ false
unfolding verify
verify_17 = refl

-- A seed has been appended and calculated from, its result sent and received, and its proof not yet.
abbrev midway : Routines
midway = record {
  calc = record small { proof = 9 };
  appender = idle;
  worker = sending_proof 32;
  reader = expecting 16;
}

Reach-deadlock_example :
    (s : Routines) × Reach (started 3 35 (int 4)) s
    × (s.appender ≡ sending_prev_proof 9)
    × (s.worker ≡ locking 7)
    × ((u : Routines) → ¬ Step s u)
Reach-deadlock_example = Reach-deadlock 3 35 (int 4) 7 9 (omega arith)
