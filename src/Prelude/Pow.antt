-- ===== src/Prelude/Pow.antt =====
-- Powers and residues of the native numbers.
use Prim.Native.Nat.{ℕ, zero, suc, ◌+◌, ◌*◌, ◌/◌, ◌%◌, ◌^◌}
use mathlib.Core.Path.{◌≡◌, sym, ap, ◌∙◌}
use native.Mathlib.Omega.{arith}
use native.Mathlib.Nat.{
  pow-zero, pow-suc, mul_assoc, div-add-mod, mul-add-mod_self_left, add-zero, add-suc, mul_comm,
}

pub pow-add : (a m n : ℕ) → a ^ (m + n) ≡ a ^ m * a ^ n
pow-add a m zero = rw (add-zero, pow-zero) (omega arith)
pow-add a m (suc n) = rw (add-suc, pow-suc, pow-suc, pow-add a m n) (mul_assoc (a ^ m) (a ^ n) a)

pub pow-mul : (a m n : ℕ) → a ^ (m * n) ≡ (a ^ m) ^ n
pow-mul a m zero = let e : m * 0 ≡ 0 = omega arith in rw (e, pow-zero, pow-zero)
pow-mul a m (suc n) =
    let e : m * suc n ≡ m * n + m = omega arith in rw (e, pow-add, pow-mul a m n, pow-suc)

-- A factor may be reduced before a product is.
pub mod-mul_left : (a b n : ℕ) → (a % n * b) % n ≡ (a * b) % n
mod-mul_left a b n =
    let split : n * (a / n) + a % n ≡ a = div-add-mod a n in
    let e : a * b ≡ n * (a / n * b) + a % n * b = omega (arith, ap (λ (k : ℕ). k * b) split) in
    rw (e, mul-add-mod_self_left)

pub mod-mul_right : (a b n : ℕ) → (a * (b % n)) % n ≡ (a * b) % n
mod-mul_right a b n = rw (mul_comm a (b % n), mul_comm a b) (mod-mul_left b a n)

-- The base of a power may be reduced.
pub mod-pow : (a k n : ℕ) → (a % n) ^ k % n ≡ a ^ k % n
mod-pow a zero n = rw (pow-zero, pow-zero)
mod-pow a (suc k) n =
    rw (pow-suc, pow-suc, mod-mul_right, ← mod-mul_left, mod-pow a k n, mod-mul_left)

-- Residues multiply.
pub mul-mod_cong : (a a' b b' n : ℕ) → a % n ≡ a' % n → b % n ≡ b' % n → a * b % n ≡ a' * b' % n
mul-mod_cong a a' b b' n p q =
    sym (mod-mul_left a b n)
    ∙ ap (λ (k : ℕ). k * b % n) p
    ∙ mod-mul_left a' b n
    ∙ sym (mod-mul_right a' b n)
    ∙ ap (λ (k : ℕ). a' * k % n) q
    ∙ mod-mul_right a' b' n
