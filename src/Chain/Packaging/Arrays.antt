-- ===== src/Chain/Packaging/Arrays.antt =====
-- The conversion of a slice to an array, which panics on a slice that is too short.
use go_norn.Prelude.{ℕ, ◌≤◌, ◌≡◌, refl, sym, ap, ◌∙◌, arith, false, ltb, length, take_all, take}
use go_norn.Prelude.Bytes.{Bytes}
use go_norn.Prelude.Outcome.{done}
use go_norn.Common.{Hash}
use go_norn.Chain.Keys.{IsHash}
use go_norn.Chain.Packaging.{to_array}

pub to_array-enough :
    (n : ℕ) (text : Bytes) → n ≤ length text → to_array n text ≡ done (take n text)
unfolding to_array
to_array-enough n text h =
    let enough : ltb (length text) n ≡ false = ground (arith, h) in rw enough refl

pub to_array-exact : (n : ℕ) (text : Bytes) → length text ≡ n → to_array n text ≡ done text
to_array-exact n text h =
    to_array-enough n text (omega (arith, h))
    ∙ ap done (ap (λ (l : ℕ). take l text) (sym h) ∙ take_all text)

pub to_array-IsHash : (h : Hash) → IsHash h → to_array 32 h ≡ done h
to_array-IsHash h hh = to_array-exact 32 h hh.0
