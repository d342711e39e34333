-- ===== src/Tests/Config.antt =====
-- Sizes, lists of peers and configurations.
use loraplex.Config.{Config, Threshold, zero_config}
use loraplex.Config.Flags.{split_peers, split_peers_from}
use loraplex.Config.Flags.Peers.{join_commas, has_comma, split_peers-join_commas}
use loraplex.Config.Size.{
  scan_digits, skip_blanks, starts_with_digit, scan_unsigned, scan_sign, scan_int, unit_of,
  parse_size,
}
use loraplex.Config.Size.Value.{decimal_after, parse_size_value}
use loraplex.Go.Int64.{mul64, neg64}
use loraplex.Prelude.{
  Bool, codes, ◌≡◌, ◌%◌, ◌||◌, ℕ, ◌^◌, refl, ◌==◌, ◌*◌, some, none, false, Text, ltb, [], arith,
  ◌∷◌, str_eq, is_empty,
}

sizes : Unit {0}
unfolding scan_digits skip_blanks starts_with_digit scan_unsigned scan_sign scan_int unit_of
    parse_size mul64 neg64 str_eq
sizes = tt

hundred_gb : parse_size (codes "100GB") ≡ some 107374182400
unfolding sizes
hundred_gb = refl

-- What stands between the number and the unit is not looked at.
fraction : parse_size (codes "1.5GB") ≡ some 1073741824
unfolding sizes
fraction = refl

no_unit : parse_size (codes "100") ≡ none
unfolding sizes
no_unit = refl

-- The product wraps around: 2^24 TB are 0 bytes.
wrapped : parse_size (codes "16777216TB") ≡ some 0
unfolding sizes
wrapped = refl

parse_size_value_example :
    parse_size (codes "1.5GB") ≡ some (decimal_after 0 (codes "1") * 2 ^ 30 % 2 ^ 64)
unfolding unit_of starts_with_digit decimal_after str_eq
parse_size_value_example =
    parse_size_value b'1' [] (codes ".5") b'G' b'B' (2 ^ 30) (refl, tt) refl (omega arith) refl

three_peers : split_peers (codes "a:1,,b:2,") ≡ codes "a:1" ∷ codes "b:2" ∷ []
unfolding split_peers split_peers_from is_empty
three_peers = refl

split_peers-join_commas_example :
    split_peers (join_commas (codes "a:1" ∷ codes "b:2" ∷ [])) ≡ codes "a:1" ∷ codes "b:2" ∷ []
unfolding has_comma is_empty
split_peers-join_commas_example =
    split_peers-join_commas (codes "a:1" ∷ codes "b:2" ∷ []) ((refl, refl), ((refl, refl), tt))

-- Tenths in place of float64.
abbrev pub tenths : Threshold ℕ
tenths = record {
  is_zero = λ x. x == 0;
  below_zero = λ x. false;
  above_one = λ x. ltb 10 x;
  default_threshold = 8;
}

abbrev pub file : Config ℕ
file = record (zero_config 3) { listen = codes ":9090" }

abbrev pub is_duration : Text → Bool
is_duration s = str_eq s (codes "1h") || str_eq s (codes "5s")
