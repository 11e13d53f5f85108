-- ===== src/Vrf/Examples.antt =====
-- Runs of the VRF on a group of three elements.
use go_norn.Prelude.{ℕ, ◌≡◌, refl, arith, true, some, [], ◌∷◌, replicate}
use go_norn.Prelude.Bytes.{Bytes, decode_string}
use go_norn.Prelude.Outcome.{done}
use go_norn.Common.{set_bytes}
use go_norn.Vrf.{
  PrivateKey, decode_private_key_from_hex_string, key_from, challenge, or_panic, calculate_with,
  vrf_calculate, vrf_check_local_consensus, vrf_verify, vrf_check_remote_consensus,
}
use go_norn.Vrf.Three.{twice, plus, multiple, marshal, three}
use go_norn.Vrf.Acceptance.{vrf_check_remote_consensus-local, vrf_calculate-public}

-- The text "02", the key 2, and a hash of one byte.
abbrev hex : Bytes
hex = b'0' ∷ b'2' ∷ []

abbrev key : PrivateKey three
key = record { number = 2; public = twice }

abbrev hash : Bytes → Bytes
hash msg = 1 ∷ []

hex-key : decode_private_key_from_hex_string three hex ≡ some key
unfolding decode_private_key_from_hex_string key_from decode_string set_bytes multiple plus
hex-key = refl

vrf_check_remote_consensus-local_example :
    (out : Bytes × ℕ × ℕ) × (vrf_calculate three hash hex 1 [] ≡ done out)
    × (vrf_verify three hash (some twice) [] out.1 out.2 out.0 ≡ done true)
    × (vrf_check_remote_consensus three hash (some twice) [] out.1 out.2 out.0
        ≡ vrf_check_local_consensus three hash hex 2 [])
unfolding set_bytes
vrf_check_remote_consensus-local_example =
    vrf_check_remote_consensus-local three hash hex key 1 2 [] hex-key
      (λ e. absurd (omega (arith, e))) (λ e. absurd (omega (arith, e)))
      (λ e. absurd (omega (arith, e))) (λ e. absurd (omega (arith, e)))

calculated : vrf_calculate three hash hex 1 [] ≡ done (2 ∷ 1 ∷ replicate 31 0, 1, 2)
unfolding vrf_calculate calculate_with decode_private_key_from_hex_string key_from decode_string
    set_bytes multiple plus challenge marshal
calculated = refl

vrf_calculate-public_example :
    or_panic three (marshal (multiple 1 twice)) ≡ done (2 ∷ 1 ∷ replicate 31 0)
unfolding set_bytes
vrf_calculate-public_example =
    vrf_calculate-public three hash hex key 1 [] (2 ∷ 1 ∷ replicate 31 0, 1, 2) hex-key calculated
