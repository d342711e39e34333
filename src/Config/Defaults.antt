-- ===== src/Config/Defaults.antt =====
-- The defaults of internal/config/config.go against its checks, and against those of the flags.
use loraplex.Config.{
  Config, Threshold, or_text, or_number, or_peers, or_threshold, apply_defaults, default_config,
  zero_config, validate, validate_hash_on,
}
use loraplex.Config.Flags.{no_flags, apply_overrides, override, override_peers}
use loraplex.Config.Size.{parse_size}
use loraplex.Go.Duration.{ℤ, pos, negsuc}
use loraplex.Prelude.{
  Bool, true, str_eq, refl, Option, ◌∷◌, inl, suc, zero, Text, inr, codes, [], false, List,
  Bool-cases, ◌≡◌, ℕ, ok, some, none,
}

or_text_twice : (d s : Text) → or_text d (or_text d s) ≡ or_text d s
unfolding or_text
or_text_twice [] [] = refl
or_text_twice (c ∷ d) [] = refl
or_text_twice d (c ∷ s) = refl

or_number_twice : (d : ℕ) (n : ℤ) → or_number d (or_number d n) ≡ or_number d n
unfolding or_number
or_number_twice zero (pos zero) = refl
or_number_twice (suc d) (pos zero) = refl
or_number_twice d (pos (suc n)) = refl
or_number_twice d (negsuc n) = refl

or_peers_twice :
    (d e : List Text) (ps : Option (List Text)) → or_peers d (or_peers e ps) ≡ or_peers e ps
unfolding or_peers
or_peers_twice d e none = refl
or_peers_twice d e (some ps) = refl

module _ {F : Type 0} (th : Threshold F) where
  pub or_threshold_twice : (x : F) → or_threshold th (or_threshold th x) ≡ or_threshold th x
  unfolding or_threshold
  or_threshold_twice x = elim (Bool-cases (th.is_zero x)) [
    | inl e ↦ rw e again
    | inr e ↦ rw (e, e) refl
  ]
    where
      again : or_threshold th th.default_threshold ≡ th.default_threshold
      again = elim (Bool-cases (th.is_zero th.default_threshold)) [
        | inl e ↦ rw e refl
        | inr e ↦ rw e refl
      ]

  -- After the defaults of the file, the flags' own defaults change nothing: without a flag, the
  -- configuration stays as it was.
  pub apply_overrides-apply_defaults :
      (cfg : Config F) → apply_overrides th (apply_defaults th cfg) no_flags ≡ apply_defaults th cfg
  unfolding apply_overrides apply_defaults override override_peers
  apply_overrides-apply_defaults cfg =
      simp (or_text_twice, or_number_twice, or_peers_twice, or_threshold_twice)

  -- The default configuration passes the checks, if "1h" and "5s" are durations, and the zero value and 0.8 are as
  -- they are on float64: the one is zero and the other neither below 0 nor above 1.
  pub default_config-validate :
      (is_duration : Text → Bool) (z : F)
      → is_duration (codes "1h") ≡ true
      → is_duration (codes "5s") ≡ true
      → th.is_zero z ≡ true
      → th.below_zero th.default_threshold ≡ false
      → th.above_one th.default_threshold ≡ false
      → validate is_duration th (default_config th z) ≡ ok tt
  unfolding validate default_config apply_defaults zero_config or_text or_threshold validate_hash_on
      str_eq parse_size
  default_config-validate is_duration z h1 h5 hz low high = rw (h1, h5, hz, low, high) refl
