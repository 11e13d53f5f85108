-- ===== src/Vrf/Laws.antt =====
-- Multiples of the points of a curve.
use go_norn.Prelude.{
  ℕ, zero, suc, ◌+◌, ◌-◌, ◌*◌, ◌/◌, ◌%◌, ◌≤◌, ◌≡◌, ◌≢◌, refl, sym, ap, ◌∙◌, arith, inl, inr,
}
use native.Mathlib.Nat.{div-add-mod, mul_comm, mod-lt}
use go_norn.Vrf.{Curve, response}

module _ (curve : Curve) where
  times-add :
      (m n : ℕ) (p : curve.Point)
      → curve.times (m + n) p ≡ curve.add (curve.times m p) (curve.times n p)
  times-add zero n p =
      let e : 0 + n ≡ n = omega arith in
      rw (e, curve.times-zero p) (sym (curve.add_infinity (curve.times n p)))
  times-add (suc m) n p =
      let e : suc m + n ≡ suc (m + n) = omega arith in
      rw (e, curve.times-suc (m + n) p, times-add m n p, curve.times-suc m p)
        (sym (curve.add_assoc p (curve.times m p) (curve.times n p)))

  times-infinity : (n : ℕ) → curve.times n curve.infinity ≡ curve.infinity
  times-infinity zero = curve.times-zero curve.infinity
  times-infinity (suc n) =
      rw (curve.times-suc n curve.infinity, times-infinity n) (curve.add_infinity curve.infinity)

  pub times-mul :
      (m n : ℕ) (p : curve.Point) → curve.times (m * n) p ≡ curve.times m (curve.times n p)
  times-mul zero n p =
      let e : 0 * n ≡ 0 = omega arith in
      rw (e, curve.times-zero p, curve.times-zero (curve.times n p))
  times-mul (suc m) n p =
      let e : suc m * n ≡ n + m * n = omega arith in
      rw (e, times-add n (m * n) p, times-mul m n p, curve.times-suc m (curve.times n p))

  -- Multiples commute.
  pub times_comm :
      (m n : ℕ) (p : curve.Point)
      → curve.times m (curve.times n p) ≡ curve.times n (curve.times m p)
  times_comm m n p =
      sym (times-mul m n p) ∙ ap (λ (k : ℕ). curve.times k p) (mul_comm m n) ∙ times-mul n m p

  times-mod : (k : ℕ) (p : curve.Point) → curve.times (k % curve.order) p ≡ curve.times k p
  times-mod k p =
      let split : curve.order * (k / curve.order) + k % curve.order ≡ k =
        div-add-mod k curve.order in
      let swap : curve.order * (k / curve.order) ≡ k / curve.order * curve.order =
        mul_comm curve.order (k / curve.order) in
      let whole : curve.times (curve.order * (k / curve.order)) p ≡ curve.infinity =
        rw (swap, times-mul (k / curve.order) curve.order p, curve.times-order p)
          (times-infinity (k / curve.order)) in
      let parts =
        times-add (curve.order * (k / curve.order)) (k % curve.order) p
        ∙ rw whole (curve.add_infinity (curve.times (k % curve.order) p)) in
      sym parts ∙ ap (λ (j : ℕ). curve.times j p) split

  -- The response to a challenge: t M + s k M is r M.
  pub times-response :
      (r s k : ℕ) (p : curve.Point)
      → curve.add (curve.times (response curve r (s * k)) p) (curve.times s (curve.times k p))
        ≡ curve.times r p
  times-response r s k p =
      let x = s * k % curve.order in
      let low : x ≤ curve.order = omega (arith, mod-lt (s * k) curve.order_positive) in
      let whole : r % curve.order + (curve.order - x) + x ≡ curve.order + r % curve.order =
        omega (arith, low) in
      rw
        (
          ← times-mul s k p,
          ← times-mod (s * k) p,
          times-mod (r % curve.order + (curve.order - x)) p,
          ← times-add (r % curve.order + (curve.order - x)) x p,
          whole,
          times-add curve.order (r % curve.order) p,
          curve.times-order p,
          curve.add_infinity (curve.times (r % curve.order) p),
          times-mod r p,
        )
        refl

  -- A multiple of a finite point by a number that the order does not divide is finite.
  pub times_finite :
      (k : ℕ) (p : curve.Point)
      → k % curve.order ≢ 0
      → p ≢ curve.infinity
      → curve.times k p ≢ curve.infinity
  times_finite k p hk hp e = elim (curve.times-eq-infinity k p e) [ inl q ↦ hk q | inr q ↦ hp q ]
