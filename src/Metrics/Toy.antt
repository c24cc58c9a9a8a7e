-- ===== src/Metrics/Toy.antt =====
-- Numbers for tests: a fraction of two natural numbers, written out as its whole part.
use native.Mathlib.Nat.{mul-le-mul, pow-suc}
use parq.Prelude.{subst, sym, ◌∙◌, ℕ, zero, suc, ◌+◌, ◌*◌, ◌/◌, ◌≤◌, ◌<◌, ◌≡◌, ◌≢◌, ◌^◌, arith, ap}
use parq.Text.Decimal.{decimal}
use parq.Metrics.{Floats}

abbrev pub Fraction : Type 0
Fraction = ℕ × ℕ

abbrev ToyWithin : ℕ → Fraction → Type 0
ToyWithin e (n, d) = (0 < d) × (n ≤ 2 ^ e * d)

abbrev ToyAbove : ℕ → Fraction → Type 0
ToyAbove e (n, d) = (0 < n) × (d ≤ 2 ^ e * n)

abbrev toy_div : Fraction → Fraction → Fraction
toy_div (n, d) (m, k) = (n * k, d * m)

swap : (p q : ℕ) → p * q * 2 ≡ p * 2 * q
swap p q = grind arith

pow_add : (a b : ℕ) → 2 ^ (a + b) ≡ 2 ^ a * 2 ^ b
pow_add zero b = let e : 0 + b ≡ b = omega arith in omega (arith, ap (λ (t : ℕ). 2 ^ t) e)
pow_add (suc a) b =
    let e : suc a + b ≡ suc (a + b) = omega arith in
    ap (λ (t : ℕ). 2 ^ t) e
    ∙ pow-suc 2 (a + b)
    ∙ ap (λ (t : ℕ). t * 2) (pow_add a b)
    ∙ swap (2 ^ a) (2 ^ b)
    ∙ ap (λ (t : ℕ). t * 2 ^ b) (sym (pow-suc 2 a))

shuffle : (p d q m : ℕ) → p * d * (q * m) ≡ p * q * (d * m)
shuffle p d q m = grind arith

pub toy_div-Within :
    (a b : ℕ) (x y : Fraction)
    → ToyWithin a x
    → ToyAbove b y
    → a + b ≤ 1000
    → ToyWithin (a + b) (toy_div x y)
toy_div-Within a b (n, d) (m, k) h g u = (
  grind arith,
  rw pow_add (subst (λ t. n * k ≤ t) (shuffle (2 ^ a) d (2 ^ b) m) (mul-le-mul h.1 g.1)),
)

pub toy_div-Above :
    (a b : ℕ) (x y : Fraction)
    → ToyAbove a x
    → ToyWithin b y
    → a + b ≤ 1000
    → ToyAbove (a + b) (toy_div x y)
toy_div-Above a b (n, d) (m, k) h g u = (
  grind arith,
  rw pow_add (subst (λ t. d * m ≤ t) (shuffle (2 ^ a) n (2 ^ b) k) (mul-le-mul h.1 g.1)),
)

pub of_int-Within : (n e : ℕ) → n < 2 ^ e → e ≤ 64 → ToyWithin e (n, 1)
of_int-Within n e h u = (omega arith, omega arith)

pub of_int-Above : (n : ℕ) → n ≢ 0 → n < 2 ^ 64 → ToyAbove 0 (n, 1)
of_int-Above n h u = (omega (arith, pos), omega (arith, pos))
  where
    pos : 0 < n
    pos = ground (arith, h)

abbrev pub toy_floats : Floats
toy_floats = record {
  F64 = Fraction;
  zero = (0, 1);
  of_int = λ n. (n, 1);
  div = toy_div;
  fixed = λ places x. decimal (x.0 / x.1);
  duration = λ n. decimal n;
  Within = ToyWithin;
  Above = ToyAbove;
  zero-Within = (omega arith, omega arith);
  of_int-Within = of_int-Within;
  of_int-Above = of_int-Above;
  div-Within = toy_div-Within;
  div-Above = toy_div-Above;
}
