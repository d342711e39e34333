-- ===== src/Node/Boot.antt =====
-- `run` of cmd/loraplex/main.go, up to the start of the server.
use loraplex.Cache.Meta.{second}
use loraplex.Cache.Store.{new_store}
use loraplex.Cache.Store.Rebuild.{rebuild}
use loraplex.Cache.World.{World}
use loraplex.Config.{Config}
use loraplex.Config.Size.{parse_size}
use loraplex.Discovery.Modes.{by_k8s, by_file, static, Discovery, DiscoveryError}
use loraplex.Discovery.Modes
use loraplex.Cache.Manager.{OriginFetcher}
use loraplex.Go.Duration.{ℤ, pos, negsuc}
use loraplex.Go.Fs.{Fs}
use loraplex.Health.{new_checker}
use loraplex.Node.{Platform, Settings, Node}
use loraplex.Origin.{OriginError, from_config}
use loraplex.Routing.Ring.{Ring, new_ring, update}
use loraplex.Prelude.{
  [], Text, ℕ, if◌then◌else◌, Result, ◌/◌, ok, is_empty, ◌>>=◌, List, err, or_fail, relabel, none,
  some, ◌∷◌, Option,
}

pub data BootError : Type 0 where
  bad_size : BootError
  bad_origin : OriginError → BootError
  bad_ttl : BootError
  bad_discovery : DiscoveryError → BootError
  not_started : BootError
  bad_forward_timeout : BootError
  bad_health_interval : BootError
  negative_vnodes : BootError

-- The time to live in whole seconds; a negative one expires nothing, like none.
unfoldable pub whole_seconds : ℤ → ℕ
whole_seconds (pos n) = n / second
whole_seconds (negsuc n) = 0

abbrev pub or_no_origins : Result OriginError (List OriginFetcher) → List OriginFetcher
or_no_origins (err e) = []
or_no_origins (ok os) = os

unfoldable pub ring_addr : {F : Type 0} → Config F → Text
ring_addr cfg = if is_empty cfg.self_addr then cfg.listen else cfg.self_addr

module _ {F : Type 0} (pf : Platform F) where
  unfoldable pub settings_of : Config F → ℤ → Settings F
  settings_of cfg ttl = record {
    origins = λ now. or_no_origins (from_config pf.outside now cfg.origins);
    ttl = whole_seconds ttl;
    vllm_url = cfg.vllm_url;
    base_model = cfg.vllm.model_name;
    hash_on = cfg.routing.hash_on;
    fallback_base = cfg.routing.fallback_to_base_model;
    threshold = cfg.routing.overflow_threshold;
  }

  abbrev pub new_ring_of : ℕ → Config F → Ring F
  new_ring_of vnodes cfg = new_ring vnodes (ring_addr cfg)

  -- The node, from what `Start` of the discovery has left; the parsed durations set timeouts only.
  unfoldable pub assemble :
      Config F → ℤ → World → (Discovery (Ring F) × Ring F) × Fs → Result BootError (Node F)
  assemble cfg ttl w ((d, ring), fs) = do
    timeout ← or_fail bad_forward_timeout (pf.parse_duration cfg.routing.forward_timeout)
    interval ← or_fail bad_health_interval (pf.parse_duration cfg.vllm.health_check_interval)
    ok (record {
      settings = settings_of cfg ttl;
      world = record w { fs = fs };
      ring = ring;
      discovery = d;
      checker = new_checker (ring_addr cfg) cfg.vllm_url;
      in_flight = [];
      revalidating = [];
    })

  -- The number of vnodes of a peer. With a negative one `make` panics in `Update`, if there is a peer, which ends the
  -- process: at once for the static peers, and else in the first round that finds one, which the model takes to be
  -- the start. Without a peer it is as good as none.
  unfoldable pub vnodes_for : ℤ → Discovery (Ring F) → Option ℕ
  vnodes_for (pos n) d = some n
  vnodes_for (negsuc n) (static b) = elim b.peers [ [] ↦ some 0 | p ∷ ps ↦ none ]
  vnodes_for (negsuc n) (by_file f) = none
  vnodes_for (negsuc n) (by_k8s k) = none

  -- The ring listens to the discovery before that starts.
  unfoldable pub start_discovery :
      Config F → ℤ → World → Discovery (Ring F) → Result BootError (Node F)
  start_discovery cfg ttl w d = do
    vnodes ← or_fail negative_vnodes (vnodes_for cfg.routing.vnodes_per_peer d)
    started ← or_fail not_started (
        Modes.start (Modes.subscribe (update pf.sha pf.vnode_sorter pf.no_load) d) w.fs
          (new_ring_of vnodes cfg))
    assemble cfg ttl w started

  unfoldable pub launch : Config F → ℤ → World → Result BootError (Node F)
  launch cfg ttl w = do
    d ←
        relabel bad_discovery
          (Modes.new pf.parse_duration pf.hostname pf.k8s_client w.fs cfg.discovery (ring_addr cfg))
    start_discovery cfg ttl w d

  -- `NewStore` and `Rebuild`, an error of which is logged.
  unfoldable pub open_store : Config F → ℕ → ℕ → Fs → World
  open_store cfg now max_size fs =
      (rebuild pf.mod_sorter now (record { store = new_store cfg.storage.dir max_size; fs = fs })).1

  unfoldable pub with_origins : Config F → ℕ → ℕ → Fs → Result BootError (Node F)
  with_origins cfg now max_size fs = do
    origins ← relabel bad_origin (from_config pf.outside now cfg.origins)
    ttl ← or_fail bad_ttl (pf.parse_duration cfg.invalidation.ttl)
    launch cfg ttl (open_store cfg now max_size fs)

  unfoldable pub boot : Config F → ℕ → Fs → Result BootError (Node F)
  boot cfg now fs = do
    max_size ← or_fail bad_size (parse_size cfg.storage.max_size)
    with_origins cfg now max_size fs
