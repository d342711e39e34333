-- ===== src/Node/Step.antt =====
-- The steps of a running node, in any order: what the handlers of internal/server/server.go do with a
-- request, and one round of each goroutine. Between two steps every lock is free.
use loraplex.Admin.{AdminRequest, serve_admin}
use loraplex.Cache.Manager.{maybe_revalidate, revalidate_adapter}
use loraplex.Cache.Meta.{AdapterMeta}
use loraplex.Cache.Store.{validate_adapter_id}
use loraplex.Discovery.Heartbeat.{TickTimes}
use loraplex.Discovery.Modes
use loraplex.Go.Http.{Writer, fresh_writer}
use loraplex.Health.{incr_pending, decr_pending, check_peers, serve_health}
use loraplex.Node.{Platform, Node, proxy_of, admin_of}
use loraplex.Proxy.Body.{Request}
use loraplex.Proxy.Handler.{Outcome, serve_http}
use loraplex.Server.{to_admin, to_proxy, route}
use loraplex.Prelude.{Option, ok, Text, ◌≡◌, ◌++◌, some, ◌∷◌, List, ℕ, map}

module _ {F : Type 0} (pf : Platform F) where
  -- A request to the proxy is counted as pending while it is served.
  unfoldable pub arrive : Node F → Request → Node F
  arrive n r = record n { in_flight = r ∷ n.in_flight; checker = incr_pending n.checker }

  unfoldable pub answer : Node F → Request → ℕ → Outcome
  answer n r now = serve_http pf.sha pf.geb pf.body_json (proxy_of pf n now) r n.world

  unfoldable pub finish : Node F → List Request → Request → ℕ → Node F
  finish n others r now = record n {
    world = (answer n r now).world;
    in_flight = others;
    checker = decr_pending n.checker;
  }

  abbrev pub admin_request : Request → AdminRequest
  admin_request r = record { method = r.method; path = r.path; headers = r.headers; body = r.body }

  unfoldable pub administer : Node F → Request → ℕ → Node F
  administer n r now = record n {
    world =
        (serve_admin (admin_of pf n) pf.meta_json (n.settings.origins now) n.settings.ttl now
          (admin_request r) n.world).world;
  }

  unfoldable pub health_page : Node F → Writer
  health_page n = serve_health pf.loads n.checker fresh_writer

  -- The callback of `OnChange` has the ring as its state.
  unfoldable pub poll : Node F → TickTimes → Node F
  poll n times =
      let ((d, ring), fs) = Modes.poll pf.decode_endpoints n.discovery times n.world.fs n.ring in
      record n { discovery = d; ring = ring; world = record (n.world) { fs = fs } }

  unfoldable pub check : Node F → Node F
  check n =
      let (checker, ring) = check_peers pf.loads pf.health_client n.checker n.ring in
      record n { checker = checker; ring = ring }

  -- A goroutine is started for an adapter that has expired, unless one is under way.
  unfoldable pub expired : Node F → Text → ℕ → Option AdapterMeta
  expired n id now =
      maybe_revalidate pf.meta_json (n.settings.origins now) n.settings.ttl now
        (map (λ e. e.0) n.revalidating) id n.world

  unfoldable pub revalidate : Node F → List (Text × AdapterMeta) → Text → AdapterMeta → ℕ → Node F
  revalidate n others id old now = record n {
    world =
        revalidate_adapter pf.meta_json (n.settings.origins now) n.settings.ttl now id old n.world;
    revalidating = others;
  }

  pub data Step (n : Node F) : Node F → Type 0 where
    arrives : (r : Request) → route r.method r.path ≡ to_proxy → Step n (arrive n r)
    finishes :
        (xs ys : List Request) (r : Request) (now : ℕ)
        → n.in_flight ≡ xs ++ r ∷ ys
        → Step n (finish n (xs ++ ys) r now)
    administers :
        (r : Request) (now : ℕ) → route r.method r.path ≡ to_admin → Step n (administer n r now)
    polls : (times : TickTimes) → Step n (poll n times)
    checks : Step n (check n)
    expires :
        (id : Text) (old : AdapterMeta) (now : ℕ)
        → validate_adapter_id n.world.store id ≡ ok tt
        → expired n id now ≡ some old
        → Step n (record n { revalidating = (id, old) ∷ n.revalidating })
    revalidates :
        (xs ys : List (Text × AdapterMeta)) (id : Text) (old : AdapterMeta) (now : ℕ)
        → n.revalidating ≡ xs ++ (id, old) ∷ ys
        → Step n (revalidate n (xs ++ ys) id old now)

  pub data Reach (start : Node F) : Node F → Type 0 where
    here : Reach start start
    then_step : (n m : Node F) → Reach start n → Step n m → Reach start m
