-- ===== src/Vrf/Three.antt =====
-- A group of three elements, which meets the laws of a curve; its compressed points have 33 bytes.
use go_norn.Prelude.{
  ℕ, zero, suc, ◌%◌, ◌≡◌, ◌≢◌, ◌⊎◌, inl, inr, refl, sym, ap, ◌∙◌, arith, Option, none, some, ◌∷◌,
  replicate, length, if◌then◌else◌,
}
use go_norn.Prelude.Bytes.{Bytes, bytes_eq}
use go_norn.Vrf.{Curve}

pub data Three : Type 0 where
  none_of_it : Three
  once : Three
  twice : Three

unfoldable pub plus : Three → Three → Three
plus none_of_it q = q
plus once none_of_it = once
plus once once = twice
plus once twice = none_of_it
plus twice none_of_it = twice
plus twice once = none_of_it
plus twice twice = once

unfoldable pub multiple : ℕ → Three → Three
multiple zero p = none_of_it
multiple (suc k) p = plus p (multiple k p)

unfoldable pub marshal : Three → Option Bytes
marshal none_of_it = none
marshal once = some (3 ∷ 1 ∷ replicate 31 0)
marshal twice = some (2 ∷ 1 ∷ replicate 31 0)

unfoldable pub unmarshal : Bytes → Option Three
unfolding bytes_eq
unmarshal text =
    if bytes_eq text (3 ∷ 1 ∷ replicate 31 0)
    then some once
    else if bytes_eq text (2 ∷ 1 ∷ replicate 31 0)
    then some twice
    else none

pub plus_assoc : (p q r : Three) → plus (plus p q) r ≡ plus p (plus q r)
unfolding plus
plus_assoc none_of_it q r = refl
plus_assoc once none_of_it r = refl
plus_assoc once once none_of_it = refl
plus_assoc once once once = refl
plus_assoc once once twice = refl
plus_assoc once twice none_of_it = refl
plus_assoc once twice once = refl
plus_assoc once twice twice = refl
plus_assoc twice none_of_it r = refl
plus_assoc twice once none_of_it = refl
plus_assoc twice once once = refl
plus_assoc twice once twice = refl
plus_assoc twice twice none_of_it = refl
plus_assoc twice twice once = refl
plus_assoc twice twice twice = refl

pub multiple_order : (p : Three) → multiple 3 p ≡ none_of_it
unfolding multiple plus
multiple_order none_of_it = refl
multiple_order once = refl
multiple_order twice = refl

plus_thrice : (p q : Three) → plus p (plus p (plus p q)) ≡ q
unfolding plus
plus_thrice none_of_it q = refl
plus_thrice once none_of_it = refl
plus_thrice once once = refl
plus_thrice once twice = refl
plus_thrice twice none_of_it = refl
plus_thrice twice once = refl
plus_thrice twice twice = refl

pub plus_infinity : (p : Three) → plus none_of_it p ≡ p
unfolding plus
plus_infinity p = refl

pub multiple-zero : (p : Three) → multiple 0 p ≡ none_of_it
unfolding multiple
multiple-zero p = refl

pub multiple-suc : (k : ℕ) (p : Three) → multiple (suc k) p ≡ plus p (multiple k p)
unfolding multiple
multiple-suc k p = refl

-- Tells the elements apart.
number_of : Three → ℕ
number_of none_of_it = 0
number_of once = 1
number_of twice = 2

pub multiple-none_of_it :
    (k : ℕ) (p : Three) → multiple k p ≡ none_of_it → (k % 3 ≡ 0) ⊎ (p ≡ none_of_it)
unfolding multiple plus number_of
multiple-none_of_it k none_of_it e = inr refl
multiple-none_of_it zero once e = inl refl
multiple-none_of_it zero twice e = inl refl
multiple-none_of_it (suc zero) once e = absurd (omega (arith, ap number_of e))
multiple-none_of_it (suc zero) twice e = absurd (omega (arith, ap number_of e))
multiple-none_of_it (suc (suc zero)) once e = absurd (omega (arith, ap number_of e))
multiple-none_of_it (suc (suc zero)) twice e = absurd (omega (arith, ap number_of e))
multiple-none_of_it (suc (suc (suc k))) once e =
    elim (multiple-none_of_it k once (sym (plus_thrice once (multiple k once)) ∙ e)) [
      | inl h ↦ inl (omega (arith, h))
      | inr h ↦ inr h
    ]
multiple-none_of_it (suc (suc (suc k))) twice e =
    elim (multiple-none_of_it k twice (sym (plus_thrice twice (multiple k twice)) ∙ e)) [
      | inl h ↦ inl (omega (arith, h))
      | inr h ↦ inr h
    ]

pub marshal_finite :
    (p : Three)
    → p ≢ none_of_it
    → (text : Bytes) × (marshal p ≡ some text) × (unmarshal text ≡ some p)
unfolding marshal unmarshal bytes_eq
marshal_finite none_of_it h = absurd (h refl)
marshal_finite once h = (3 ∷ 1 ∷ replicate 31 0, refl, refl)
marshal_finite twice h = (2 ∷ 1 ∷ replicate 31 0, refl, refl)

pub marshal_length : (p : Three) (text : Bytes) → marshal p ≡ some text → length text ≡ 33
unfolding marshal
marshal_length none_of_it text e = cc e
marshal_length once text e =
    let q : 3 ∷ 1 ∷ replicate 31 0 ≡ text = cc e in ap (λ (t : Bytes). length t) (sym q)
marshal_length twice text e =
    let q : 2 ∷ 1 ∷ replicate 31 0 ≡ text = cc e in ap (λ (t : Bytes). length t) (sym q)

pub once-none_of_it : once ≢ none_of_it
unfolding number_of
once-none_of_it e = absurd (omega (arith, ap number_of e))

abbrev pub three : Curve
three = record {
  Point = Three;
  infinity = none_of_it;
  base = once;
  add = plus;
  times = multiple;
  order = 3;
  marshal_compressed = marshal;
  unmarshal_compressed = unmarshal;
  order_positive = omega arith;
  add_assoc = plus_assoc;
  add_infinity = plus_infinity;
  times-zero = multiple-zero;
  times-suc = multiple-suc;
  times-order = multiple_order;
  times-eq-infinity = multiple-none_of_it;
  base_finite = once-none_of_it;
  marshal_finite = marshal_finite;
}
