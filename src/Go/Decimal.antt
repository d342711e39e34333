-- ===== src/Go/Decimal.antt =====
-- `fmt.Sprintf("%d", n)` of a number that is not negative.
use loraplex.Prelude.{
  ◌/◌, ◌<◌, ◌%◌, Text, ◌-◌, ℕ, ◌∷◌, suc, inl, if◌then◌else◌, zero, [], ◌≡◌, arith, inr, ltb, ◌*◌,
  ◌+◌, ◌∙◌, Bool-cases, ap,
}

-- The digits of `n` in front of `s`. Each round divides by 10, so `n` bounds the rounds after the first.
unfoldable pub digits_before : ℕ → ℕ → Text → Text
digits_before zero n s = s
digits_before (suc k) n s =
    let rest = digits_before k (n / 10) ((b'0' + n % 10) ∷ s) in
    if ltb n 10 then (b'0' + n) ∷ s else rest

unfoldable pub decimal : ℕ → Text
decimal n = digits_before (suc n) n []

-- The number that digits stand for, after `n`.
abbrev pub read_digits : ℕ → Text → ℕ
read_digits n [] = n
read_digits n (c ∷ s) = read_digits (n * 10 + (c - b'0')) s

read-digits_before :
    (k n : ℕ) (s : Text) → n < k → read_digits 0 (digits_before k n s) ≡ read_digits n s
unfolding digits_before
read-digits_before zero n s h = omega arith
read-digits_before (suc k) n s h = elim (Bool-cases (ltb n 10)) [
  | inl e ↦ rw e (ap (λ m. read_digits m s) (plain n))
  | inr e ↦ rw e (
      read-digits_before k (n / 10) ((b'0' + n % 10) ∷ s) (ground arith)
      ∙ ap (λ m. read_digits m s) (last n))
]
  where
    plain : (n : ℕ) → 0 * 10 + (b'0' + n - b'0') ≡ n
    plain n = omega arith

    last : (n : ℕ) → n / 10 * 10 + (b'0' + n % 10 - b'0') ≡ n
    last n = omega arith

-- The rounds are enough: the number is read back from its digits.
pub read-decimal : (n : ℕ) → read_digits 0 (decimal n) ≡ n
unfolding decimal
read-decimal n = read-digits_before (suc n) n [] (omega arith)
