-- ===== src/Config/Size/Value.antt =====
-- What `ParseSize` of internal/config/config.go makes of a number and a unit.
use loraplex.Config.Size.{
  is_digit, scan_digits, skip_blanks, is_blank, starts_with_digit, scan_unsigned, scan_sign,
  scan_int, unit_of, parse_size,
}
use loraplex.Go.Int64.{mul64}
use loraplex.Prelude.{
  refl, ℕ, ◌^◌, take, some, drop, ◌+◌, All, false, [], ap, Text, ◌≡◌, ◌-◌, ◌*◌, ◌++◌, length, ◌%◌,
  ◌<◌, true, ◌∷◌, length-append, ltb, ◌∙◌, arith, ◌==◌, lt→ltb,
}

-- The number that a text of digits stands for, after the digits of `n`.
unfoldable pub decimal_after : ℕ → Text → ℕ
decimal_after n [] = n
decimal_after n (c ∷ s) = decimal_after (n * 10 + (c - b'0')) s

scan_digits_stop : (n : ℕ) (rest : Text) → starts_with_digit rest ≡ false → scan_digits n rest ≡ n
unfolding scan_digits starts_with_digit
scan_digits_stop n [] h = refl
scan_digits_stop n (c ∷ s) h = rw h refl

scan_digits-append :
    (n : ℕ) (ds rest : Text)
    → All (λ c. is_digit c ≡ true) ds
    → starts_with_digit rest ≡ false
    → scan_digits n (ds ++ rest) ≡ decimal_after n ds
unfolding scan_digits decimal_after
scan_digits-append n [] rest h stop = scan_digits_stop n rest stop
scan_digits-append n (c ∷ ds) rest (hc, h) stop =
    rw hc (scan_digits-append (n * 10 + (c - b'0')) ds rest h stop)

-- A digit is neither a space nor a sign.
scan_int_digit :
    (d : ℕ) (s : Text) → is_digit d ≡ true → scan_int (d ∷ s) ≡ scan_unsigned false (d ∷ s)
unfolding scan_int scan_sign skip_blanks
scan_int_digit d s h = rw (not_blank, not_minus, not_plus) refl
  where
    not_blank : is_blank d ≡ false
    not_blank = ground arith

    not_minus : (d == b'-') ≡ false
    not_minus = ground arith

    not_plus : (d == b'+') ≡ false
    not_plus = ground arith

scan_int-append :
    (d : ℕ) (ds rest : Text)
    → All (λ c. is_digit c ≡ true) (d ∷ ds)
    → starts_with_digit rest ≡ false
    → decimal_after 0 (d ∷ ds) < 2 ^ 63
    → scan_int (d ∷ ds ++ rest) ≡ some (decimal_after 0 (d ∷ ds))
unfolding scan_unsigned starts_with_digit
scan_int-append d ds rest (hd, h) stop small =
    scan_int_digit d (ds ++ rest) hd
    ∙ rw (scan_digits-append 0 (d ∷ ds) rest (hd, h) stop, hd, lt→ltb _ _ small) refl

drop-append : (s t : Text) → drop (length s) (s ++ t) ≡ t
drop-append [] t = refl
drop-append (c ∷ s) t = drop-append s t

take-append : (s t : Text) → take (length s) (s ++ t) ≡ s
take-append [] t = refl
take-append (c ∷ s) t = ap (λ r. c ∷ r) (take-append s t)

cut_length : (s : Text) (a b : ℕ) → length (s ++ a ∷ b ∷ []) - 2 ≡ length s
cut_length s a b = omega (arith, length-append s (a ∷ b ∷ []))

long_enough : (s : Text) (a b : ℕ) → ltb (length (s ++ a ∷ b ∷ [])) 2 ≡ false
long_enough s a b = ground (arith, length-append s (a ∷ b ∷ []))

parse_size-append :
    (s : Text) (a b n multiplier : ℕ)
    → unit_of (a ∷ b ∷ []) ≡ some multiplier
    → scan_int s ≡ some n
    → parse_size (s ++ a ∷ b ∷ []) ≡ some (mul64 n multiplier)
unfolding parse_size
parse_size-append s a b n multiplier unit number =
    rw (long_enough s a b, cut_length s a b, drop-append s (a ∷ b ∷ []), unit)
      (rw (cut_length s a b, take-append s (a ∷ b ∷ []), number) refl)

-- Digits that stand for a number below 2^63, then anything that does not begin with a digit, then a
-- unit: the size is the number times the unit, modulo 2^64.
pub parse_size_value :
    (d : ℕ) (ds rest : Text) (a b multiplier : ℕ)
    → All (λ c. is_digit c ≡ true) (d ∷ ds)
    → starts_with_digit rest ≡ false
    → decimal_after 0 (d ∷ ds) < 2 ^ 63
    → unit_of (a ∷ b ∷ []) ≡ some multiplier
    → parse_size ((d ∷ ds ++ rest) ++ a ∷ b ∷ [])
      ≡ some (decimal_after 0 (d ∷ ds) * multiplier % 2 ^ 64)
unfolding mul64
parse_size_value d ds rest a b multiplier digits stop small unit =
    parse_size-append (d ∷ ds ++ rest) a b (decimal_after 0 (d ∷ ds)) multiplier unit
      (scan_int-append d ds rest digits stop small)
