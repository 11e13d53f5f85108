-- ===== src/Calculator/Protocol.antt =====
-- Which seeds the calculator accepts.
use go_norn.Prelude.{ℕ, ◌≡◌, ◌≢◌, ◌↔◌, ◌⊎◌, inr, Bool, true, false, arith}
use go_norn.Calculator.{Calculator, finished, verify, verify_block_vdf, append_new_seed, calculate}
use go_norn.Calculator.Power.{IsProper, verify-calculate}

-- A block is accepted exactly when its seed is one of the last two adopted ones, or a verified output
-- for the current one, which is then not the initial 0.
pub verify_block_vdf_lem :
    (c : Calculator) (seed proof : ℕ)
    → (verify_block_vdf c seed proof ≡ true) ↔ (
        (seed ≡ c.prev_seed)
        ⊎ (seed ≡ c.seed)
        ⊎ ((c.seed ≢ 0) × (verify c c.seed proof seed ≡ true)))
unfolding verify_block_vdf
verify_block_vdf_lem c seed proof = (λ h. ground arith, λ h. ground arith)

-- An honest output is accepted: a node whose seed is not 0 accepts the block of a node that finished
-- the calculation from that seed undisturbed.
pub verify_block_vdf-calculate :
    (c : Calculator) (changed : ℕ → Bool)
    → IsProper c
    → ((i : ℕ) → changed i ≡ false)
    → c.seed ≢ 0
    → (result pi : ℕ) × (calculate c changed c.seed ≡ finished result pi)
      × (verify_block_vdf c result pi ≡ true)
verify_block_vdf-calculate c changed v quiet h =
    let (result, pi, done, _, ok) = verify-calculate c changed c.seed v quiet in
    (result, pi, done, (verify_block_vdf_lem c result pi).1 (inr (inr (h, ok))))

-- A seed that is known, or that does not verify against a current seed other than 0, changes nothing.
pub append_new_seed-refused :
    (c : Calculator) (seed proof : ℕ)
    → (seed ≡ c.prev_seed) ⊎ (seed ≡ c.seed) ⊎ ((c.seed ≢ 0) × (verify c c.seed proof seed ≡ false))
    → append_new_seed c seed proof ≡ c
unfolding append_new_seed
append_new_seed-refused c seed proof h = ground arith
