-- ===== src/Config/Size.antt =====
-- internal/config/config.go: the sizes "10GB", "1TB", "500MB". `fmt.Sscanf` with "%d" skips spaces, reads
-- a sign and digits, and leaves what follows them unread; of the spaces, the ASCII ones are modelled.
pub mod Value
use loraplex.Go.Int64.{mul64, neg64}
use loraplex.Prelude.{
  Bool, Option, length, ◌*◌, str_eq, ℕ, ◌-◌, ◌&&◌, not, true, drop, ◌^◌, ltb, false, take, Text,
  none, if◌then◌else◌, leb, ◌∷◌, ◌+◌, codes, ◌||◌, some, ◌==◌, [],
}

abbrev pub is_digit : ℕ → Bool
is_digit c = leb b'0' c && leb c b'9'

-- A space that is not the newline, on which the scan fails.
abbrev pub is_blank : ℕ → Bool
is_blank c = c == 32 || c == 9 || c == 11 || c == 12 || c == 13

unfoldable pub skip_blanks : Text → Text
skip_blanks [] = []
skip_blanks (c ∷ s) = let rest = skip_blanks s in if is_blank c then rest else c ∷ s

-- The number that the leading digits stand for, after the digits of `n`.
unfoldable pub scan_digits : ℕ → Text → ℕ
scan_digits n [] = n
scan_digits n (c ∷ s) =
    let more = scan_digits (n * 10 + (c - b'0')) s in if is_digit c then more else n

unfoldable pub starts_with_digit : Text → Bool
starts_with_digit [] = false
starts_with_digit (c ∷ s) = is_digit c

-- The bit pattern of the int64; a number that does not fit is an error.
unfoldable pub scan_unsigned : Bool → Text → Option ℕ
unfolding scan_digits starts_with_digit
scan_unsigned negative s =
    let n = scan_digits 0 s in
    if not (starts_with_digit s)
    then none
    else if negative
    then (if leb n (2 ^ 63) then some (neg64 n) else none)
    else if ltb n (2 ^ 63)
    then some n
    else none

unfoldable pub scan_sign : Text → Option ℕ
unfolding scan_unsigned
scan_sign [] = none
scan_sign (c ∷ s) =
    if c == b'-'
    then scan_unsigned true s
    else if c == b'+'
    then scan_unsigned false s
    else scan_unsigned false (c ∷ s)

unfoldable pub scan_int : Text → Option ℕ
unfolding scan_sign skip_blanks
scan_int s = scan_sign (skip_blanks s)

unfoldable pub unit_of : Text → Option ℕ
unit_of s =
    if str_eq s (codes "TB")
    then some (2 ^ 40)
    else if str_eq s (codes "GB")
    then some (2 ^ 30)
    else if str_eq s (codes "MB")
    then some (2 ^ 20)
    else none

unfoldable pub parse_size : Text → Option ℕ
unfolding unit_of scan_int
parse_size s =
    let cut = length s - 2 in
    if ltb (length s) 2 then none else elim (unit_of (drop cut s)) [
      | none ↦ none
      | some multiplier ↦ elim (scan_int (take cut s)) [
        | none ↦ none
        | some n ↦ some (mul64 n multiplier)
      ]
    ]
