-- ===== src/Calculator.antt =====
-- crypto/calculator.go: the VDF calculator, its channels and its verification. big.Int values are
-- natural numbers: none of the code's operations makes one negative. A channel is the queue of what waits
-- in it; the sends and receives of the routines, which may block, stand in Routines.
pub mod Power
pub mod Protocol
pub mod Routines
mod Examples
use go_norn.Prelude.{
  ℕ, zero, suc, ◌+◌, ◌-◌, ◌*◌, ◌/◌, ◌%◌, ◌^◌, Bool, true, false, not, ◌&&◌, ◌||◌, Option, none,
  some, List, [], ◌∷◌, ◌++◌, ◌==◌, if◌then◌else◌,
}
use go_norn.Prelude.Int64.{Int64, half}

-- The capacity of each of the four channels.
abbrev pub channel_cap : ℕ
channel_cap = 32

pub record Calculator : Type 0 where
  pub seed_channel : List ℕ
  pub prev_proof_channel : List ℕ
  pub result_channel : List ℕ
  pub proof_channel : List ℕ
  pub proof_param : ℕ
  pub order : ℕ
  pub time_param : Int64
  pub prev_seed : ℕ
  pub seed : ℕ
  pub proof : ℕ
  pub changed : Bool

-- CalculatorInitialization: what the first call builds.
unfoldable pub calculator_initialization : ℕ → ℕ → Int64 → Calculator
calculator_initialization pp order t = record {
  seed_channel = [];
  prev_proof_channel = [];
  result_channel = [];
  proof_channel = [];
  proof_param = pp;
  order = order;
  time_param = t;
  prev_seed = 0;
  seed = 0;
  proof = 0;
  changed = false;
}

-- x.Exp(x, y, m) for y that is not negative; like Go's, it does not reduce when m is 0.
abbrev pub exp : ℕ → ℕ → ℕ → ℕ
exp x y m = x ^ y % m

-- How often a loop `round < timeParam` runs: not at all when timeParam is negative.
abbrev pub rounds : Int64 → ℕ
rounds t = t - half

-- Verify: result == pi^pp * seed^(2^t mod pp) mod order. A negative timeParam is not modelled.
unfoldable pub verify : Calculator → ℕ → ℕ → ℕ → Bool
verify c seed pi result =
    let r = exp 2 (rounds c.time_param) c.proof_param in
    let h = exp pi c.proof_param c.order in let s = exp seed r c.order in result == h * s % c.order

-- VerifyBlockVDF
unfoldable pub verify_block_vdf : Calculator → ℕ → ℕ → Bool
verify_block_vdf c seed proof =
    c.prev_seed == seed || (c.seed == seed || (not (c.seed == 0) && verify c c.seed proof seed))

-- The test of AppendNewSeed: the seed is a new one, and it verifies if the current one is not the initial 0.
abbrev pub takes_seed : Calculator → ℕ → ℕ → Bool
takes_seed c seed proof = not (
    c.prev_seed == seed
    || (c.seed == seed || (not (c.seed == 0) && not (verify c c.seed proof seed))))

-- AppendNewSeed, when the channels take both; Routines has the two sends one by one.
unfoldable pub append_new_seed : Calculator → ℕ → ℕ → Calculator
append_new_seed c seed proof =
    if takes_seed c seed proof
    then record c {
      changed = true;
      seed_channel = c.seed_channel ++ seed ∷ [];
      prev_proof_channel = c.prev_proof_channel ++ proof ∷ [];
    }
    else c

-- What `calculate` comes back with: it is interrupted by a new seed, panics on a division by zero,
-- or finishes with the result and its proof.
pub data Calculation : Type 0 where
  interrupted : Calculation
  panicked : Calculation
  finished : ℕ → ℕ → Calculation

-- The loop of `calculate`, with `left` rounds to go. `changed i` is what the flag `changed` reads in
-- round i.
unfoldable pub calculate_loop :
    (seed l n : ℕ) → (ℕ → Bool) → (left i : ℕ) → (result r pi : ℕ) → Calculation
calculate_loop seed l n changed zero i result r pi = finished result pi
calculate_loop seed l n changed (suc left) i result r pi =
    let result' = result * result % n in
    let tmp = 2 * r in
    let b = tmp / l in
    let r' = tmp % l in
    let pi' = pi * pi * exp seed b n % n in
    let rest = calculate_loop seed l n changed left (i + 1) result' r' pi' in
    if changed i then interrupted else if n == 0 || l == 0 then panicked else rest

-- calculate
unfoldable pub calculate : Calculator → (ℕ → Bool) → ℕ → Calculation
calculate c changed seed =
    calculate_loop seed c.proof_param c.order changed (rounds c.time_param) 0 seed 1 1

take_result : Calculator → List ℕ → List ℕ → Option (ℕ × ℕ × Calculator)
take_result c [] proofs = some (c.seed, c.proof, c)
take_result c (result ∷ results) [] = none
take_result c (result ∷ results) (pi ∷ proofs) =
    some (result, pi, record c { result_channel = results; proof_channel = proofs })

-- GetSeedParams: a finished result if there is one, else the current seed and proof. `none`: the
-- receive on the proof channel waits.
unfoldable pub get_seed_params : Calculator → Option (ℕ × ℕ × Calculator)
unfolding take_result
get_seed_params c = take_result c c.result_channel c.proof_channel
