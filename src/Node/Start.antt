-- ===== src/Node/Start.antt =====
-- The node that `run` of cmd/loraplex/main.go starts with.
use loraplex.Cache.Lru.{new_lru}
use loraplex.Cache.Lru.Runs.{run, run-new_lru-IsValid}
use loraplex.Cache.Manager.{OriginFetcher}
use loraplex.Cache.Manager.Installing.{Confined}
use loraplex.Cache.Manager.Steps.{Inv}
use loraplex.Cache.Store.{new_store}
use loraplex.Cache.Store.Rebuild.Inside.{AllProper, rebuild-Leads}
use loraplex.Cache.World.{World}
use loraplex.Config.{Config}
use loraplex.Config.Size.{parse_size}
use loraplex.Discovery.{on_change}
use loraplex.Go.Dict
use loraplex.Discovery.Following.{IsNew, new-IsNew, Follows, start-Follows, is_static}
use loraplex.Discovery.Modes
use loraplex.Discovery.Modes.{DiscoveryError, Discovery, static, by_file, by_k8s, base_of, or_none}
use loraplex.Go.Fs.{Fs}
use loraplex.Go.Path.{is_rooted}
use loraplex.Go.Duration.{ℤ}
use loraplex.Health.{new_checker}
use loraplex.Node.{Platform, Settings, Node}
use loraplex.Node.Boot.{
  assemble, open_store, start_discovery, launch, with_origins, new_ring_of, boot, settings_of,
  ring_addr, or_no_origins, vnodes_for,
}
use loraplex.Node.Invariant.{Sound, InStep, renew, renew-InStep}
use loraplex.Origin.{OriginError, from_config}
use loraplex.Origin.Bucket.{BucketClient}
use loraplex.Origin.Plain.{IsPlain, from_config-Confined}
use loraplex.Routing.Ring.{Ring, new_ring}
use loraplex.Prelude.{
  err, true, Result, refl, ◌≡◌, Text, some, ℕ, List, All, ok, [], inl, Option-cases, inr, subst,
  sym, ◌∙◌, ap,
}

module _ {F : Type 0} (pf : Platform F) (cfg : Config F)
    (plain : (bucket region : Text) (client : BucketClient)
      → pf.outside.aws bucket region ≡ some client
      → IsPlain client)
    (rooted : is_rooted cfg.storage.dir ≡ true) where
  Confined-or_none :
      (now : ℕ) (x : Result OriginError (List OriginFetcher))
      → from_config pf.outside now cfg.origins ≡ x
      → All Confined (or_no_origins x)
  Confined-or_none now (err e) h = tt
  Confined-or_none now (ok os) h = from_config-Confined pf.outside now plain cfg.origins os h

  origins-Confined :
      (now : ℕ) → All Confined (or_no_origins (from_config pf.outside now cfg.origins))
  origins-Confined now = Confined-or_none now (from_config pf.outside now cfg.origins) refl

  new_store-Inv :
      (max_size : ℕ) (fs : Fs)
      → Inv cfg.storage.dir (record { store = new_store cfg.storage.dir max_size; fs = fs })
  unfolding new_store new_lru run
  new_store-Inv max_size fs = record {
    same_base = refl;
    lru_valid = run-new_lru-IsValid max_size [];
    listed = tt;
  }

  open_store-Inv :
      (now max_size : ℕ) (fs : Fs)
      → AllProper fs.entries
      → Inv cfg.storage.dir (open_store pf cfg now max_size fs)
  unfolding open_store
  open_store-Inv now max_size fs proper =
      (rebuild-Leads cfg.storage.dir rooted pf.mod_sorter now
        (record { store = new_store cfg.storage.dir max_size; fs = fs }) (new_store-Inv max_size fs)
        proper).inv

  -- The node that `assemble` makes.
  abbrev fresh : ℤ → World → (Discovery (Ring F) × Ring F) × Fs → Node F
  fresh ttl w started = record {
    settings = settings_of pf cfg ttl;
    world = record w { fs = started.1 };
    ring = started.0.1;
    discovery = started.0.0;
    checker = new_checker (ring_addr cfg) cfg.vllm_url;
    in_flight = [];
    revalidating = [];
  }

  assemble_fresh :
      (ttl : ℤ) (w : World) (started : (Discovery (Ring F) × Ring F) × Fs) (n : Node F)
      → assemble pf cfg ttl w started ≡ ok n
      → fresh ttl w started ≡ n
  unfolding assemble
  assemble_fresh ttl w started n e =
      elim (Option-cases (pf.parse_duration cfg.routing.forward_timeout)) [
        | inl e1 ↦ cc (rw (e1, assemble) at e)
        | inr (t, e1) ↦ elim (Option-cases (pf.parse_duration cfg.vllm.health_check_interval)) [
          | inl e2 ↦ cc (rw e2 at (rw (e1, assemble) at e))
          | inr (i, e2) ↦
              let made : ok (fresh ttl w started) ≡ ok n = rw e2 at (rw (e1, assemble) at e) in
              cc made
        ]
      ]

  new_ring-InStep : (vnodes : ℕ) → InStep [] (new_ring_of pf vnodes cfg)
  unfolding new_ring
  new_ring-InStep vnodes = record {
    well_formed = record { sorted = tt; bounded = tt; known = tt };
    same = λ addr. unfold Dict.lookup in refl;
  }

  subscribe-base :
      (d : Discovery (Ring F))
      → ((base_of (Modes.subscribe (renew pf) d)) ≡ on_change (renew pf) (base_of d))
        × (is_static (Modes.subscribe (renew pf) d) ≡ is_static d)
  unfolding Modes.subscribe Modes.with_base base_of
  subscribe-base (static b) = (refl, refl)
  subscribe-base (by_file f) = (refl, refl)
  subscribe-base (by_k8s k) = (refl, refl)

  started-Follows :
      (vnodes : ℕ) (fs : Fs) (d : Discovery (Ring F)) (r : (Discovery (Ring F) × Ring F) × Fs)
      → IsNew d
      → Modes.start (Modes.subscribe (renew pf) d) fs (new_ring_of pf vnodes cfg) ≡ some r
      → Follows (renew pf) InStep (renew-InStep pf) (base_of r.0.0) r.0.1
  unfolding on_change Modes.peers
  started-Follows vnodes fs d r (unheard, alone) e =
      let (same_base, same_kind) = subscribe-base d in
      start-Follows (renew pf) InStep (renew-InStep pf) (Modes.subscribe (renew pf) d) fs
        (new_ring_of pf vnodes cfg) r (rw (same_base, unheard) refl)
        (λ not_static.
          let none_yet : Modes.peers (Modes.subscribe (renew pf) d) ≡ [] =
            ap (λ b. b.peers) same_base ∙ alone (sym same_kind ∙ not_static) in
          subst (λ ps. InStep ps (new_ring_of pf vnodes cfg)) (sym none_yet)
            (new_ring-InStep vnodes))
        e

  fresh-Sound :
      (ttl : ℤ) (w : World) (r : (Discovery (Ring F) × Ring F) × Fs)
      → Inv cfg.storage.dir w
      → Follows (renew pf) InStep (renew-InStep pf) (base_of r.0.0) r.0.1
      → Sound pf cfg.storage.dir (settings_of pf cfg ttl) (fresh ttl w r)
  unfolding new_checker
  fresh-Sound ttl w r i follows = record {
    settled = refl;
    stored = record { same_base = i.same_base; lru_valid = i.lru_valid; listed = i.listed };
    follows = follows;
    pending = refl;
    inside = tt;
    apart = tt;
  }

  start_discovery-Sound :
      (ttl : ℤ) (w : World) (d : Discovery (Ring F)) (n : Node F)
      → Inv cfg.storage.dir w
      → IsNew d
      → start_discovery pf cfg ttl w d ≡ ok n
      → Sound pf cfg.storage.dir (settings_of pf cfg ttl) n
  unfolding start_discovery
  start_discovery-Sound ttl w d n i isnew e =
      elim (Option-cases (vnodes_for pf cfg.routing.vnodes_per_peer d)) [
        | inl e0 ↦ cc (rw (e0, start_discovery) at e)
        | inr (vnodes, e0) ↦
            let counted = rw (e0, start_discovery) at e in
            let ring = new_ring_of pf vnodes cfg in
            elim (Option-cases (Modes.start (Modes.subscribe (renew pf) d) w.fs ring)) [
              | inl e1 ↦ cc (rw e1 at counted)
              | inr (r, e1) ↦
                  let made : assemble pf cfg ttl w r ≡ ok n = rw e1 at counted in
                  subst (Sound pf cfg.storage.dir (settings_of pf cfg ttl))
                    (assemble_fresh ttl w r n made)
                    (fresh-Sound ttl w r i (started-Follows vnodes w.fs d r isnew e1))
            ]
      ]

  launch-Sound :
      (ttl : ℤ) (w : World) (n : Node F)
      → Inv cfg.storage.dir w
      → launch pf cfg ttl w ≡ ok n
      → Sound pf cfg.storage.dir (settings_of pf cfg ttl) n
  unfolding launch
  launch-Sound ttl w n i e =
      by_result
        (Modes.new pf.parse_duration pf.hostname pf.k8s_client w.fs cfg.discovery (ring_addr cfg))
        refl
    where
      by_result :
          (x : Result DiscoveryError (Discovery (Ring F)))
          → Modes.new pf.parse_duration pf.hostname pf.k8s_client w.fs cfg.discovery (ring_addr cfg)
            ≡ x
          → Sound pf cfg.storage.dir (settings_of pf cfg ttl) n
      by_result (err e') e1 = cc (rw (e1, launch) at e)
      by_result (ok d) e1 =
          start_discovery-Sound ttl w d n i
            (new-IsNew pf.parse_duration pf.hostname pf.k8s_client cfg.discovery (ring_addr cfg)
              w.fs d e1)
            (rw (e1, launch) at e)

  -- What holds of a node that `boot` has made.
  abbrev pub Booted : Node F → Type 0
  Booted n =
      (st : Settings F) × (((now : ℕ) → All Confined (st.origins now))
        × Sound pf cfg.storage.dir st n)

  with_origins-Booted :
      (now max_size : ℕ) (fs : Fs) (n : Node F)
      → AllProper fs.entries
      → with_origins pf cfg now max_size fs ≡ ok n
      → Booted n
  unfolding with_origins settings_of
  with_origins-Booted now max_size fs n proper e =
      by_origins (from_config pf.outside now cfg.origins) refl
    where
      by_origins :
          (x : Result OriginError (List OriginFetcher))
          → from_config pf.outside now cfg.origins ≡ x
          → Booted n
      by_origins (err e') e1 = cc (rw (e1, with_origins) at e)
      by_origins (ok os) e1 = elim (Option-cases (pf.parse_duration cfg.invalidation.ttl)) [
        | inl e2 ↦ cc (rw e2 at (rw (e1, with_origins) at e))
        | inr (ttl, e2) ↦ (
          settings_of pf cfg ttl,
          (
            origins-Confined,
            launch-Sound ttl (open_store pf cfg now max_size fs) n
                (open_store-Inv now max_size fs proper) (rw e2 at (rw (e1, with_origins) at e)),
          ),
        )
      ]

  pub boot-Booted :
      (now : ℕ) (fs : Fs) (n : Node F) → AllProper fs.entries → boot pf cfg now fs ≡ ok n → Booted n
  unfolding boot
  boot-Booted now fs n proper e = elim (Option-cases (parse_size cfg.storage.max_size)) [
    | inl e1 ↦ cc (rw (e1, boot) at e)
    | inr (max_size, e1) ↦ with_origins-Booted now max_size fs n proper (rw (e1, boot) at e)
  ]
