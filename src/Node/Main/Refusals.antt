-- ===== src/Node/Main/Refusals.antt =====
-- Which errors `run` of cmd/loraplex/main.go is left with after the checks of `main`.
use loraplex.Cache.World.{World}
use loraplex.Routing.Ring.{Ring}
use loraplex.Config.{Config, Threshold}
use loraplex.Go.Duration.{ℤ}
use loraplex.Config.Flags.{Flags}
use loraplex.Config.Size.{parse_size}
use loraplex.Discovery.Modes
use loraplex.Discovery.Modes.{Discovery, bad_duration, unknown_mode, io}
use loraplex.Go.Fs.{Fs}
use loraplex.Node.{Platform}
use loraplex.Node.Boot.{
  BootError, bad_size, bad_origin, bad_ttl, bad_discovery, not_started, bad_forward_timeout,
  bad_health_interval, negative_vnodes,
}
use loraplex.Prelude.{Text, ◌≡◌, some, ◌||◌, str_eq, true, false, codes, ℕ, Bool}

-- An origin that cannot be made, a duration that the checks do not look at, a discovery that does not start, or a
-- negative number of vnodes.
unfoldable pub is_unchecked : BootError → Bool
is_unchecked bad_size = false
is_unchecked (bad_origin e) = true
is_unchecked bad_ttl = false
is_unchecked (bad_discovery bad_duration) = true
is_unchecked (bad_discovery (unknown_mode m)) = false
is_unchecked (bad_discovery io) = false
is_unchecked not_started = true
is_unchecked bad_forward_timeout = false
is_unchecked bad_health_interval = true
is_unchecked negative_vnodes = true

abbrev pub is_mode : Text → Bool
is_mode mode =
    str_eq mode (codes "static") || str_eq mode (codes "file") || str_eq mode (codes "k8s")

module _ {F : Type 0} (pf : Platform F) (th : Threshold F) where
  -- What the checks of a configuration settle for `run`.
  record Accepted (cfg : Config F) : Type 0 where
    size : (n : ℕ) × (parse_size cfg.storage.max_size ≡ some n)
    ttl : (d : ℤ) × (pf.parse_duration cfg.invalidation.ttl ≡ some d)
    timeout : (d : ℤ) × (pf.parse_duration cfg.routing.forward_timeout ≡ some d)
    mode : is_mode cfg.discovery.mode ≡ true
