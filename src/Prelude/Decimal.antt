-- ===== src/Prelude/Decimal.antt =====
-- strconv.FormatInt in base 10. Twenty digits suffice for an int64.
use Prim.Native.Nat.{ℕ, zero, suc, ◌+◌, ◌-◌, ◌*◌, ◌/◌, ◌%◌, ◌^◌, ◌≤◌, ◌<◌}
use mathlib.Core.Path.{◌≡◌, refl, sym, ap, ◌∙◌}
use mathlib.Core.Logic.{inl, inr}
use mathlib.Core.Bool.{false}
use mathlib.Core.List.{[], ◌∷◌, ◌++◌}
use native.Mathlib.Nat.{pow-suc}
use native.Mathlib.Omega.{arith}
use go_norn.Prelude.Tests.{ltb, leb, ◌==◌, if◌then◌else◌, leb→le, leb_false→lt, Bool-cases}
use go_norn.Prelude.Lists.{All, All-append, length, length-append}
use go_norn.Prelude.Int64.{Int64, InRange, half}
use go_norn.Prelude.Bytes.{Bytes}

-- The digits of a natural number, at most `k` of them.
unfoldable pub digits : ℕ → ℕ → Bytes
digits zero n = []
digits (suc k) n =
    let rest = digits k (n / 10) ++ (48 + n % 10) ∷ [] in if ltb n 10 then (48 + n) ∷ [] else rest

unfoldable pub format_int : Int64 → Bytes
unfolding digits
format_int a = if leb half a then digits 20 (a - half) else b'-' ∷ digits 20 (half - a)

-- The number that digits stand for.
value : ℕ → Bytes → ℕ
value acc [] = acc
value acc (c ∷ cs) = value (acc * 10 + (c - 48)) cs

value-snoc : (acc c : ℕ) (cs : Bytes) → value acc (cs ++ c ∷ []) ≡ value acc cs * 10 + (c - 48)
unfolding value
value-snoc acc c [] = refl
value-snoc acc c (d ∷ cs) = value-snoc (acc * 10 + (d - 48)) c cs

value-digits : (k n : ℕ) → n < 10 ^ k → value 0 (digits k n) ≡ n
unfolding value digits
value-digits zero n h = omega arith
value-digits (suc k) n h = elim (Bool-cases (ltb n 10)) [
  | inl small ↦ rw small (omega arith)
  | inr large ↦
      rw (large, value-snoc 0 (48 + n % 10) (digits k (n / 10)))
        (omega (arith, value-digits k (n / 10) (omega (arith, pow-suc 10 k))))
]

digits-large : (k n : ℕ) → All (λ c. 48 ≤ c) (digits k n)
unfolding digits
digits-large zero n = tt
digits-large (suc k) n = elim (Bool-cases (ltb n 10)) [
  | inl small ↦ rw small (omega arith, tt)
  | inr large ↦ rw large (
      All-append (λ (c : ℕ). 48 ≤ c) (digits k (n / 10)) ((48 + n % 10) ∷ [])
        (digits-large k (n / 10)) (omega arith, tt))
]

length-digits : (k n : ℕ) → length (digits k n) ≤ k
unfolding digits
length-digits zero n = omega arith
length-digits (suc k) n = elim (Bool-cases (ltb n 10)) [
  | inl small ↦ rw small (omega arith)
  | inr large ↦ rw large (
      omega
        (arith, length-append (digits k (n / 10)) ((48 + n % 10) ∷ []), length-digits k (n / 10)))
]

pub length-format_int : (a : Int64) → length (format_int a) ≤ 21
unfolding format_int
length-format_int a = elim (Bool-cases (leb half a)) [
  | inl e ↦ rw e (omega (arith, length-digits 20 (a - half)))
  | inr e ↦ rw e (omega (arith, length-digits 20 (half - a)))
]

-- The number that a text stands for, read back.
parse : Bytes → Int64
unfolding value
parse [] = half
parse (c ∷ cs) = if c == b'-' then half - value 0 cs else half + value 0 (c ∷ cs)

parse-digits : (ds : Bytes) → All (λ c. 48 ≤ c) ds → parse ds ≡ half + value 0 ds
unfolding parse value
parse-digits [] h = omega arith
parse-digits (c ∷ cs) h = let digit : (c == b'-') ≡ false = ground (arith, h.0) in rw digit refl

negative : (ds : Bytes) → parse (b'-' ∷ ds) ≡ half - value 0 ds
unfolding parse
negative ds = refl

parse-format_int : (a : Int64) → InRange a → parse (format_int a) ≡ a
unfolding format_int
parse-format_int a r = elim (Bool-cases (leb half a)) [
  | inl e ↦
      let v = value-digits 20 (a - half) (omega arith) in
      rw e (
        parse-digits (digits 20 (a - half)) (digits-large 20 (a - half))
        ∙ omega (arith, v, leb→le half a e))
  | inr e ↦
      let v = value-digits 20 (half - a) (omega arith) in
      rw e (negative (digits 20 (half - a)) ∙ omega (arith, v, leb_false→lt half a e))
]

-- Different numbers are written differently.
pub format_int_injective :
    (a b : Int64) → InRange a → InRange b → format_int a ≡ format_int b → a ≡ b
format_int_injective a b ha hb e = sym (parse-format_int a ha) ∙ ap parse e ∙ parse-format_int b hb

format_int_run : format_int (half - 205) ≡ b'-' ∷ b'2' ∷ b'0' ∷ b'5' ∷ []
unfolding format_int
format_int_run = refl
