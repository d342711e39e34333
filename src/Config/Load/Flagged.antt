-- ===== src/Config/Load/Flagged.antt =====
-- The flags of cmd/loraplex/main.go against the configuration that they override.
use loraplex.Config.{Threshold, Config, ConfigError, apply_defaults, validate}
use loraplex.Config.Defaults.{apply_overrides-apply_defaults}
use loraplex.Config.Flags.{split_peers, override, override, Flags, apply_overrides, no_flags}
use loraplex.Config.Load.{
  unparsable, unreadable, invalid, Sources, checked, load, load_config, configure,
}
use loraplex.Go.Expand.{expand_env}
use loraplex.Go.Fs.{Fs, at, read_file}
use loraplex.Prelude.{
  Text, ℕ, ok, ◌∷◌, bind_ok, relabel, ◌≡◌, [], ◌||◌, err, or_fail, is_empty, refl, Result, codes,
  bind_then, Bool, ◌>>=◌, str_eq, subst, relabel_ok, List, some,
}

-- A flag, or what stands for it if it is not given.
abbrev pub flag_or : Text → Text → Text
flag_or default [] = default
flag_or default (c ∷ flag) = c ∷ flag

-- The peers of a flag; if it is given and has none, the node is its own only peer.
abbrev pub flag_peers : Text → Text → List Text
flag_peers listen [] = codes "localhost:8080" ∷ []
flag_peers listen (c ∷ flag) = elim (split_peers (c ∷ flag)) [ [] ↦ listen ∷ [] | p ∷ ps ↦ p ∷ ps ]

-- A configuration that the flags have made, with the defaults where there is no flag.
pub record FromFlags {F : Type 0} (th : Threshold F) (flags : Flags) (cfg : Config F) : Type 0 where
  pub listen_is : cfg.listen ≡ flag_or (codes ":8080") flags.listen
  pub self_addr_is : cfg.self_addr ≡ flags.self_addr
  pub vllm_url_is : cfg.vllm_url ≡ flag_or (codes "http://localhost:8000") flags.vllm_url
  pub dir_is : cfg.storage.dir ≡ flag_or (codes "/mnt/nvme/loraplex") flags.dir
  pub max_size_is : cfg.storage.max_size ≡ codes "100GB"
  pub origins_is : cfg.origins ≡ []
  pub ttl_is : cfg.invalidation.ttl ≡ codes "1h"
  pub mode_is : cfg.discovery.mode ≡ flag_or (codes "static") flags.discovery_mode
  pub peers_is :
      cfg.discovery.static.peers
      ≡ some (flag_peers (flag_or (codes ":8080") flags.listen) flags.peers)
  pub hash_on_is : cfg.routing.hash_on ≡ codes "model"
  pub forward_timeout_is : cfg.routing.forward_timeout ≡ codes "5s"
  pub threshold_is : cfg.routing.overflow_threshold ≡ th.default_threshold
  pub interval_is : cfg.vllm.health_check_interval ≡ codes "10s"

module _ {F : Type 0} (src : Sources F) where
  -- What has passed the checks, without flags, passes them again.
  checked_twice :
      (raw : Config F)
      → (checked src (apply_defaults src.th raw) >>= λ cfg.
          checked src (apply_overrides src.th cfg no_flags))
        ≡ checked src (apply_defaults src.th raw)
  unfolding checked
  checked_twice raw = by_result (validate src.is_duration src.th (apply_defaults src.th raw)) refl
    where
      by_result :
          (r : Result ConfigError (Unit {0}))
          → validate src.is_duration src.th (apply_defaults src.th raw) ≡ r
          → (checked src (apply_defaults src.th raw) >>= λ cfg.
              checked src (apply_overrides src.th cfg no_flags))
            ≡ checked src (apply_defaults src.th raw)
      by_result (err e) h = rw h refl
      by_result (ok u) h = rw h (rw (apply_overrides-apply_defaults src.th raw) (rw h refl))

  -- Without flags, the configuration is what `Load` gives, errors included.
  pub configure-no_flags :
      (c : ℕ) (path : Text) (fs : Fs)
      → configure src (c ∷ path) no_flags fs ≡ load src (c ∷ path) fs
  unfolding configure load_config load
  configure-no_flags c path fs =
      bind_then (or_fail unreadable (read_file (at (c ∷ path)) fs)) _ _ _ (λ content.
        bind_then (or_fail unparsable (src.unmarshal (expand_env src.env content))) _ _ _
          checked_twice)

  -- A mode that the flag may give; without the flag it is the default one.
  abbrev pub known_mode : Text → Bool
  known_mode mode =
      is_empty mode
      || str_eq mode (codes "static")
      || str_eq mode (codes "file")
      || str_eq mode (codes "k8s")

  -- What `main` runs with has passed the checks.
  pub configure-validate :
      (path : Text) (flags : Flags) (fs : Fs) (cfg : Config F)
      → configure src path flags fs ≡ ok cfg
      → validate src.is_duration src.th cfg ≡ ok tt
  unfolding configure checked
  configure-validate path flags fs cfg h =
      let (raw, (loaded, h1)) = bind_ok (load_config src path fs) _ cfg h in
      let (u, (accepted, same)) = bind_ok (relabel invalid _) _ cfg h1 in
      subst (λ c. validate src.is_duration src.th c ≡ ok tt) (cc same)
        (relabel_ok invalid _ accepted)
