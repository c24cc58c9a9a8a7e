-- ===== src/Text/Decimal.antt =====
-- std's decimal output of an unsigned integer, and its padding of a text to a width.
use parq.Prelude.{
  ℕ, zero, suc, ◌+◌, ◌-◌, ◌*◌, ◌/◌, ◌%◌, ◌≤◌, ◌<◌, ◌≡◌, refl, [], ◌∷◌, ◌++◌, arith, Bytes, All,
  length, length-append, ltb, ltb→lt, Bool-cases, inl, inr, ap, ◌∙◌, max, if◌then◌else◌,
}

-- The digits of `n` in front of `out`; the fuel is above the number of digits.
unfoldable pub put_digits : ℕ → ℕ → Bytes → Bytes
put_digits zero n out = out
put_digits (suc fuel) n out =
    let rest = put_digits fuel (n / 10) ((b'0' + n % 10) ∷ out) in
    if ltb n 10 then (b'0' + n) ∷ out else rest

-- `format!("{n}")`
unfoldable pub decimal : ℕ → Bytes
unfolding put_digits
decimal n = put_digits (n + 1) n []

-- The number that digits stand for, behind those that stand for `acc`.
abbrev pub value_from : ℕ → Bytes → ℕ
value_from acc [] = acc
value_from acc (c ∷ s) = value_from (acc * 10 + (c - b'0')) s

abbrev pub IsDigit : ℕ → Type 0
IsDigit c = (b'0' ≤ c) × (c ≤ b'9')

put_digits-value :
    (fuel n : ℕ) (out : Bytes) → n < fuel → value_from 0 (put_digits fuel n out) ≡ value_from n out
unfolding put_digits
put_digits-value zero n out h = absurd (omega arith)
put_digits-value (suc fuel) n out h = elim (Bool-cases (ltb n 10)) [
  | inl e ↦
      let same : 0 * 10 + (b'0' + n - b'0') ≡ n = omega arith in
      rw e (ap (λ k. value_from k out) same)
  | inr e ↦
      let same : n / 10 * 10 + (b'0' + n % 10 - b'0') ≡ n = omega arith in
      rw e (
        put_digits-value fuel (n / 10) ((b'0' + n % 10) ∷ out) (ground arith)
        ∙ ap (λ k. value_from k out) same)
]

put_digits-IsDigit :
    (fuel n : ℕ) (out : Bytes) → All IsDigit out → All IsDigit (put_digits fuel n out)
unfolding put_digits
put_digits-IsDigit zero n out h = h
put_digits-IsDigit (suc fuel) n out h = elim (Bool-cases (ltb n 10)) [
  | inl e ↦ let small = ltb→lt n 10 e in rw e ((omega arith, omega arith), h)
  | inr e ↦
      rw e
        (put_digits-IsDigit fuel (n / 10) ((b'0' + n % 10) ∷ out) ((omega arith, omega arith), h))
]

pub value_from-decimal : (n : ℕ) → value_from 0 (decimal n) ≡ n
unfolding decimal
value_from-decimal n = put_digits-value (n + 1) n [] (omega arith)

pub decimal-IsDigit : (n : ℕ) → All IsDigit (decimal n)
unfolding decimal
decimal-IsDigit n = put_digits-IsDigit (n + 1) n [] tt

abbrev pub spaces : ℕ → Bytes
spaces zero = []
spaces (suc n) = b' ' ∷ spaces n

-- `{:<w}`, `{:>w}` and `{:^w}`
unfoldable pub pad_left : ℕ → Bytes → Bytes
pad_left w s = s ++ spaces (w - length s)

unfoldable pub pad_right : ℕ → Bytes → Bytes
pad_right w s = spaces (w - length s) ++ s

unfoldable pub pad_center : ℕ → Bytes → Bytes
pad_center w s = spaces ((w - length s) / 2) ++ s ++ spaces ((w - length s + 1) / 2)

length-spaces : (n : ℕ) → length (spaces n) ≡ n
length-spaces zero = refl
length-spaces (suc n) = omega (arith, length-spaces n)

pub length-pad_left : (w : ℕ) (s : Bytes) → length (pad_left w s) ≡ max w (length s)
unfolding pad_left
length-pad_left w s =
    omega (arith, length-append s (spaces (w - length s)), length-spaces (w - length s))

pub length-pad_right : (w : ℕ) (s : Bytes) → length (pad_right w s) ≡ max w (length s)
unfolding pad_right
length-pad_right w s =
    omega (arith, length-append (spaces (w - length s)) s, length-spaces (w - length s))
