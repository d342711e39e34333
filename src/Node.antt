-- ===== src/Node.antt =====
-- A whole node: cmd/loraplex/main.go, `run`, puts the parts together, and the steps of its goroutines
-- follow in `Step`.
pub mod Boot
pub mod Main
pub mod Step
pub mod Handlers
pub mod Invariant
pub mod Preservation
pub mod Start
pub mod Reach
use loraplex.Admin.{AdminJson, Handler}
use loraplex.Cache.Manager.{OriginFetcher, ensure_adapter}
use loraplex.Cache.Meta.{AdapterMeta, MetaJson}
use loraplex.Cache.Store.Rebuild.{mod_time}
use loraplex.Cache.World.{World}
use loraplex.Discovery.Kubernetes.{K8sSubset}
use loraplex.Discovery.Modes.{Discovery}
use loraplex.Go.Bytes.{Sha256}
use loraplex.Go.Duration.{ℤ}
use loraplex.Go.Http.{HttpClient}
use loraplex.Go.Sort.{Sorter}
use loraplex.Health.{Checker, Loads}
use loraplex.Origin.{Outside}
use loraplex.Proxy.Body.{Json, Request}
use loraplex.Proxy.Handler.{Proxy, ErrorText}
use loraplex.Routing.Forwarder.{Forwarder}
use loraplex.Routing.Ring.{Ring, vnode_hash}
use loraplex.Prelude.{Bool, Text, Option, ℕ, List}

-- What the program takes from libraries and from the outside.
pub record Platform (F : Type 0) : Type 0 where
  pub sha : Sha256
  pub vnode_sorter : Sorter vnode_hash
  pub mod_sorter : Sorter mod_time
  pub no_load : F
  pub geb : F → F → Bool
  pub loads : Loads F
  pub parse_duration : Text → Option ℤ
  pub hostname : Text
  pub outside : Outside
  pub k8s_client : HttpClient
  pub decode_endpoints : Text → Option (List K8sSubset)
  pub peer_client : HttpClient
  pub vllm_client : HttpClient
  pub health_client : HttpClient
  pub body_json : Json
  pub meta_json : MetaJson
  pub admin_json : AdminJson F
  pub error_text : ErrorText

-- What the configuration has settled; the origins stamp their files with the time of the call.
pub record Settings (F : Type 0) : Type 0 where
  pub origins : ℕ → List OriginFetcher
  pub ttl : ℕ
  pub vllm_url : Text
  pub base_model : Text
  pub hash_on : Text
  pub fallback_base : Bool
  pub threshold : F

-- The state that the parts share, the requests to the proxy that are not answered yet, and the runs of
-- `revalidateAdapter` that are under way.
pub record Node (F : Type 0) : Type 0 where
  pub settings : Settings F
  pub world : World
  pub ring : Ring F
  pub discovery : Discovery (Ring F)
  pub checker : Checker
  pub in_flight : List Request
  pub revalidating : List (Text × AdapterMeta)

module _ {F : Type 0} (pf : Platform F) where
  unfoldable pub forwarder_of : Node F → Forwarder F
  forwarder_of n = record {
    client = pf.peer_client;
    ring = n.ring;
    threshold = n.settings.threshold;
  }

  unfoldable pub proxy_of : Node F → ℕ → Proxy F
  proxy_of n now = record {
    vllm_url = n.settings.vllm_url;
    base_model = n.settings.base_model;
    ensure = ensure_adapter pf.meta_json (n.settings.origins now) n.settings.ttl now;
    forwarder = forwarder_of n;
    hash_on = n.settings.hash_on;
    fallback_base = n.settings.fallback_base;
    client = pf.vllm_client;
    error_text = pf.error_text;
  }

  unfoldable pub admin_of : Node F → Handler F
  admin_of n = record {
    fwd = forwarder_of n;
    codec = pf.admin_json;
    error_text = pf.error_text.of_cache;
  }
