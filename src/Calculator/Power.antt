-- ===== src/Calculator/Power.antt =====
-- What `calculate` computes, and that `verify` accepts it.
use native.Mathlib.Nat.{
  pow-suc, pow-zero, div-add-mod, div-add-mod', mod-eq_of_lt, div-eq_of_lt, mod-lt, mod-mod,
  mul-add-div, mul-add-mod_self_left,
}
use go_norn.Prelude.{
  ℕ, zero, suc, ◌+◌, ◌*◌, ◌/◌, ◌%◌, ◌^◌, ◌<◌, ◌≡◌, refl, sym, ap, ◌∙◌, subst, Bool, true, false,
  arith, ==_iff,
}
use go_norn.Prelude.Pow.{pow-add, pow-mul, mod-mul_left, mod-mul_right, mod-pow, mul-mod_cong}
use go_norn.Calculator.{
  Calculator, finished, interrupted, exp, rounds, verify, calculate_loop, calculate,
}

double_pow : (s k : ℕ) → s ^ (2 * k) ≡ s ^ k * s ^ k
double_pow s k = let e : 2 * k ≡ k + k = omega arith in rw e (pow-add s k k)

-- A square of a residue.
square_mod : (x s k n : ℕ) → x % n ≡ s ^ k % n → x * x % n ≡ s ^ (2 * k) % n
square_mod x s k n h = rw double_pow (mul-mod_cong x (s ^ k) x (s ^ k) n h h)

-- One step of the proof.
proof_mod : (pi s q b n : ℕ) → pi % n ≡ s ^ q % n → pi * pi * exp s b n % n ≡ s ^ (2 * q + b) % n
proof_mod pi s q b n h = rw pow-add (
    mul-mod_cong (pi * pi) (s ^ (2 * q)) (s ^ b % n) (s ^ b) n (square_mod pi s q n h)
      (mod-mod (s ^ b) n))

double_split : (e l : ℕ) → 2 * e ≡ l * (2 * (e / l)) + 2 * (e % l)
double_split e l = omega (arith, ap (λ (k : ℕ). 2 * k) (div-add-mod e l))

-- The quotient and the remainder of a doubled number.
double_div : (e l : ℕ) → 0 < l → 2 * e / l ≡ 2 * (e / l) + 2 * (e % l) / l
double_div e l h =
    ap (λ (k : ℕ). k / l) (double_split e l) ∙ mul-add-div h (2 * (e / l)) (2 * (e % l))

double_mod : (e l : ℕ) → 2 * e % l ≡ 2 * (e % l) % l
double_mod e l =
    ap (λ (k : ℕ). k % l) (double_split e l) ∙ mul-add-mod_self_left l (2 * (e / l)) (2 * (e % l))

-- What the loop has reached after rounds that used up the exponent `e`.
record Reached (seed l n e result r pi : ℕ) : Type 0 where
  power : result % n ≡ seed ^ e % n
  remainder : r ≡ e % l
  quotient : pi % n ≡ seed ^ (e / l) % n

step-Reached :
    (seed l n e result r pi : ℕ)
    → 0 < l
    → Reached seed l n e result r pi
    → Reached seed l n
        (2 * e)
        (result * result % n)
        (2 * r % l)
        (pi * pi * exp seed (2 * r / l) n % n)
step-Reached seed l n e result r pi h v = record {
  power = rw mod-mod (square_mod result seed e n v.power);
  remainder = ap (λ (k : ℕ). 2 * k % l) v.remainder ∙ sym (double_mod e l);
  quotient =
      rw (mod-mod, double_div e l h, v.remainder)
        (proof_mod pi seed (e / l) (2 * (e % l) / l) n v.quotient);
}

pow-one : (s : ℕ) → s ^ 1 ≡ s
pow-one s = rw (pow-suc, pow-zero) (omega arith)

double_exponent : (e k : ℕ) → 2 * e * 2 ^ k ≡ e * 2 ^ suc k
double_exponent e k = rw pow-suc (omega arith)

module _ (seed l n : ℕ) (changed : ℕ → Bool) (quiet : (i : ℕ) → changed i ≡ false) (hl : 0 < l)
    (hn : 0 < n) where
  round_lem :
      (left i result r pi : ℕ)
      → calculate_loop seed l n changed (suc left) i result r pi
        ≡ calculate_loop seed l n changed left
            (i + 1)
            (result * result % n)
            (2 * r % l)
            (pi * pi * exp seed (2 * r / l) n % n)
  unfolding calculate_loop
  round_lem left i result r pi = ground (arith, quiet i)

  -- From one round on, the loop finishes, with a reduced result.
  calculate_loop_lem :
      (left i e result r pi : ℕ)
      → Reached seed l n e result r pi
      → (result' pi' r' : ℕ) × (calculate_loop seed l n changed (suc left) i result r pi
          ≡ finished result' pi')
        × (result' < n)
        × Reached seed l n (e * 2 ^ suc left) result' r' pi'
  unfolding calculate_loop
  calculate_loop_lem zero i e result r pi v =
      let e' : 2 * e ≡ e * 2 ^ 1 = omega arith in
      (
        result * result % n,
        pi * pi * exp seed (2 * r / l) n % n,
        2 * r % l,
        round_lem zero i result r pi,
        mod-lt (result * result) hn,
        rw (← e') (step-Reached seed l n e result r pi hl v),
      )
  calculate_loop_lem (suc left) i e result r pi v =
      let (result', pi', r', done, reduced, v') =
        calculate_loop_lem left (i + 1) (2 * e) (result * result % n) (2 * r % l)
          (pi * pi * exp seed (2 * r / l) n % n) (step-Reached seed l n e result r pi hl v) in
      (
        result',
        pi',
        r',
        round_lem (suc left) i result r pi ∙ done,
        reduced,
        subst (λ k. Reached seed l n k result' r' pi') (double_exponent e (suc left)) v',
      )

  start-Reached : 1 < l → Reached seed l n 1 seed 1 1
  start-Reached h = record {
    power = ap (λ (k : ℕ). k % n) (sym (pow-one seed));
    remainder = sym (mod-eq_of_lt h);
    quotient = rw (div-eq_of_lt h, pow-zero);
  }

  -- From the start, over `t` rounds.
  calculate_from_start :
      (t : ℕ)
      → 1 < l
      → 0 < t
      → (pi : ℕ) × (calculate_loop seed l n changed t 0 seed 1 1 ≡ finished (seed ^ (2 ^ t) % n) pi)
        × (pi % n ≡ seed ^ (2 ^ t / l) % n)
  calculate_from_start zero h ht = absurd (omega arith)
  calculate_from_start (suc k) h ht =
      let (result, pi, r, done, reduced, v) = calculate_loop_lem k 0 1 seed 1 1 (start-Reached h) in
      let whole : 1 * 2 ^ suc k ≡ 2 ^ suc k = omega arith in
      let value : result ≡ seed ^ (2 ^ suc k) % n =
        sym (mod-eq_of_lt reduced) ∙ v.power ∙ ap (λ (e : ℕ). seed ^ e % n) whole in
      (
        pi,
        done ∙ ap (λ (x : ℕ). finished x pi) value,
        v.quotient ∙ ap (λ (e : ℕ). seed ^ (e / l) % n) whole,
      )

-- pi ^ l * seed ^ (e % l) is the power that the division of the exponent took apart.
verify_identity :
    (pi seed e l n : ℕ)
    → pi % n ≡ seed ^ (e / l) % n
    → exp pi l n * exp seed (e % l) n % n ≡ seed ^ e % n
verify_identity pi seed e l n h =
    let split : e / l * l + e % l ≡ e = div-add-mod' e l in
    let lifted : exp pi l n ≡ seed ^ (e / l * l) % n =
      sym (mod-pow pi l n)
      ∙ ap (λ (k : ℕ). k ^ l % n) h
      ∙ mod-pow (seed ^ (e / l)) l n
      ∙ ap (λ (k : ℕ). k % n) (sym (pow-mul seed (e / l) l)) in
    let whole : seed ^ (e / l * l) * seed ^ (e % l) ≡ seed ^ e =
      sym (pow-add seed (e / l * l) (e % l)) ∙ ap (λ (k : ℕ). seed ^ k) split in
    ap (λ (k : ℕ). k * exp seed (e % l) n % n) lifted
    ∙ mod-mul_left (seed ^ (e / l * l)) (exp seed (e % l) n) n
    ∙ mod-mul_right (seed ^ (e / l * l)) (seed ^ (e % l)) n
    ∙ ap (λ (k : ℕ). k % n) whole

-- A flag raised `k` rounds on stops the loop, there or before.
interrupted_from :
    (seed l n : ℕ) (changed : ℕ → Bool)
    → 0 < l
    → 0 < n
    → (left i k result r pi : ℕ) → k < left
    → changed (i + k) ≡ true
    → calculate_loop seed l n changed left i result r pi ≡ interrupted
unfolding calculate_loop
interrupted_from seed l n changed hl hn zero i k result r pi h e = absurd (omega arith)
interrupted_from seed l n changed hl hn (suc left) i zero result r pi h e =
    let now : changed i ≡ true =
      subst (λ j. changed j ≡ true) (let z : i + 0 ≡ i = omega arith in z) e in
    ground arith
interrupted_from seed l n changed hl hn (suc left) i (suc k) result r pi h e =
    let later : changed (i + 1 + k) ≡ true =
      subst (λ j. changed j ≡ true) (let z : i + suc k ≡ i + 1 + k = omega arith in z) e in
    ground (
      arith,
      interrupted_from seed l n changed hl hn left (i + 1) k (result * result % n) (2 * r % l)
          (pi * pi * exp seed (2 * r / l) n % n) (omega arith) later,
    )

-- The parameters that a genesis block carries: a modulus, a proof parameter above 1, and at least
-- one round.
pub record IsProper (c : Calculator) : Type 0 where
  pub modulus : 0 < c.order
  pub proper : 1 < c.proof_param
  pub delayed : 0 < rounds c.time_param

-- Undisturbed, the calculation ends, and its result is seed ^ (2 ^ t) modulo the order.
pub calculate_lem :
    (c : Calculator) (changed : ℕ → Bool) (seed : ℕ)
    → IsProper c
    → ((i : ℕ) → changed i ≡ false)
    → (pi : ℕ) × (calculate c changed seed
        ≡ finished (seed ^ (2 ^ rounds c.time_param) % c.order) pi)
      × (pi % c.order ≡ seed ^ (2 ^ rounds c.time_param / c.proof_param) % c.order)
unfolding calculate
calculate_lem c changed seed v quiet =
    calculate_from_start seed c.proof_param c.order changed quiet (omega arith) v.modulus
      (rounds c.time_param) v.proper v.delayed

-- The result of a calculation passes the verification with the proof that came with it.
pub verify-calculate :
    (c : Calculator) (changed : ℕ → Bool) (seed : ℕ)
    → IsProper c
    → ((i : ℕ) → changed i ≡ false)
    → (result pi : ℕ) × (calculate c changed seed ≡ finished result pi)
      × (result ≡ seed ^ (2 ^ rounds c.time_param) % c.order)
      × (verify c seed pi result ≡ true)
unfolding verify
verify-calculate c changed seed v quiet =
    let (pi, done, quotient) = calculate_lem c changed seed v quiet in
    let e : ℕ = 2 ^ rounds c.time_param in
    (
      seed ^ e % c.order,
      pi,
      done,
      refl,
      (==_iff _ _).1 (sym (verify_identity pi seed e c.proof_param c.order quotient)),
    )

-- A flag that is raised in some round interrupts the calculation: it has no result.
pub calculate-interrupted :
    (c : Calculator) (changed : ℕ → Bool) (seed k : ℕ)
    → 0 < c.proof_param
    → 0 < c.order
    → k < rounds c.time_param
    → changed k ≡ true
    → calculate c changed seed ≡ interrupted
unfolding calculate
calculate-interrupted c changed seed k hl hn h e =
    interrupted_from seed c.proof_param c.order changed hl hn (rounds c.time_param) 0 k seed 1 1 h
      (subst (λ j. changed j ≡ true) (let z : k ≡ 0 + k = omega arith in z) e)
