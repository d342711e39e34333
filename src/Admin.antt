-- ===== src/Admin.antt =====
-- internal/admin/handler.go: the handler of the administration paths.
pub mod Eviction
pub mod Warmup
use loraplex.Cache.Lru.{len}
use loraplex.Cache.Manager.{OriginFetcher, EnsureResult, ensure_adapter, evict_adapter}
use loraplex.Cache.Meta.{MetaJson}
use loraplex.Cache.World.{World, CacheError, Cached}
use loraplex.Go.Http.{Header, HttpRequest, Writer, fresh_writer, get, set, write, http_error}
use loraplex.Routing.Forwarder.{Forwarder, Sent, forward, header_forwarded}
use loraplex.Routing.Ring.{Peer, Ring, peers, is_self}
use loraplex.Prelude.{
  Bool, str_eq, none, ok, not, [], ◌&&◌, List, ◌∷◌, ℕ, if◌then◌else◌, some, Option, ◌++◌, Text,
  is_empty, codes, Result, length, err,
}

-- What the handlers read of a request.
pub record AdminRequest : Type 0 where
  pub method : Text
  pub path : Text
  pub headers : Header
  pub body : Text

pub record Stats : Type 0 where
  pub items : ℕ
  pub size : ℕ
  pub max_size : ℕ
  pub dir : Text

pub record PeerStatus (F : Type 0) : Type 0 where
  pub addr : Text
  pub load : F
  pub self : Bool

-- `encoding/json` on the requests and answers of this file: a body that is no JSON gives `none`, and a missing field is
-- empty.
pub record AdminJson (F : Type 0) : Type 0 where
  pub decode_evict : Text → Option Text
  pub decode_warmup : Text → Option (List Text)
  pub encode_evict : Text → Text
  pub encode_evicted : Text → Text
  pub encode_results : List (Text × Text) → Text
  pub encode_stats : Stats → Text
  pub encode_peers : List (PeerStatus F) → Text → ℕ → Text

-- The forwarder has the ring of the handler.
pub record Handler (F : Type 0) : Type 0 where
  pub fwd : Forwarder F
  pub codec : AdminJson F
  pub error_text : CacheError → Text

-- The state of the cache, the answer, and what was sent to peers.
pub record AdminOutcome : Type 0 where
  pub world : World
  pub writer : Writer
  pub sent : Sent

-- `Encode` ends the JSON with a newline.
unfoldable pub json_answer : Text → Writer
json_answer s =
    write (s ++ 10 ∷ [])
      (record fresh_writer { headers = set (codes "Content-Type") (codes "application/json") [] })

unfoldable pub refuse : ℕ → Text → World → AdminOutcome
refuse status text w = record { world = w; writer = http_error status text fresh_writer; sent = [] }

abbrev pub evict_path : Text
evict_path = codes "/admin/cache/evict"

abbrev pub evict_headers : Header
evict_headers = (header_forwarded, codes "true" ∷ []) ∷ []

module _ {F : Type 0} (h : Handler F) where
  unfoldable pub cache_stats : World → AdminOutcome
  cache_stats w = record {
    world = w;
    writer = json_answer (
        h.codec.encode_stats (record {
          items = len w.store.lru;
          size = w.store.lru.cur_size;
          max_size = w.store.lru.max_size;
          dir = w.store.base_path;
        }));
    sent = [];
  }

  unfoldable pub peer_statuses : List (Peer F) → List (PeerStatus F)
  peer_statuses [] = []
  peer_statuses (p ∷ ps) =
      record { addr = p.addr; load = p.load; self = is_self h.fwd.ring (some p) } ∷ peer_statuses ps

  unfoldable pub list_peers : World → AdminOutcome
  list_peers w =
      let result = peer_statuses (peers h.fwd.ring) in
      record {
        world = w;
        writer = json_answer (h.codec.encode_peers result h.fwd.ring.self (length result));
        sent = [];
      }

  -- The loop over the peers, with the goroutines in the order in which they were started; their
  -- answers are dropped.
  unfoldable pub pass_on : Text → List (Peer F) → Sent
  pass_on adapter [] = []
  pass_on adapter (p ∷ ps) =
      let rest = pass_on adapter ps in
      if is_self h.fwd.ring (some p)
      then rest
      else (forward h.fwd p (codes "POST") evict_path (h.codec.encode_evict adapter)
          evict_headers).1
        ++ rest

  -- After `EvictAdapter`.
  unfoldable pub evicted : AdminRequest → Text → Result CacheError (Unit {0}) × World → AdminOutcome
  evicted r adapter (err e, w) = refuse 500 (h.error_text e) w
  evicted r adapter (ok u, w) = record {
    world = w;
    writer = json_answer (h.codec.encode_evicted adapter);
    sent =
        if str_eq (get header_forwarded r.headers) (codes "true")
        then []
        else pass_on adapter (peers h.fwd.ring);
  }

  unfoldable pub evict_named : AdminRequest → Option Text → World → AdminOutcome
  evict_named r none w = refuse 400 (codes "invalid json") w
  evict_named r (some adapter) w =
      if is_empty adapter
      then refuse 400 (codes "adapter field required") w
      else evicted r adapter (evict_adapter adapter w)

  unfoldable pub evict : AdminRequest → World → AdminOutcome
  evict r w = evict_named r (h.codec.decode_evict r.body) w

module _ {F : Type 0} (h : Handler F) (json : MetaJson) (origins : List OriginFetcher)
    (ttl now : ℕ) where
  unfoldable pub status_of : Result CacheError EnsureResult → Text
  status_of (ok result) = codes "ok"
  status_of (err e) = codes "error: " ++ h.error_text e

  -- The loop over the adapters.
  unfoldable pub warm_each : List Text → World → List (Text × Text) × World
  warm_each [] w = ([], w)
  warm_each (adapter ∷ adapters) w =
      let (result, w') = ensure_adapter json origins ttl now adapter w in
      let (results, w'') = warm_each adapters w' in ((adapter, status_of result) ∷ results, w'')

  unfoldable pub warmup : AdminRequest → World → AdminOutcome
  warmup r w = elim (h.codec.decode_warmup r.body) [
    | none ↦ refuse 400 (codes "invalid json") w
    | some adapters ↦ record {
      world = (warm_each adapters w).1;
      writer = json_answer (h.codec.encode_results (warm_each adapters w).0);
      sent = [];
    }
  ]

  unfoldable pub serve_admin : AdminRequest → World → AdminOutcome
  serve_admin r w =
      if str_eq r.method (codes "GET") && str_eq r.path (codes "/admin/cache/stats")
      then cache_stats h w
      else if str_eq r.method (codes "GET") && str_eq r.path (codes "/admin/peers")
      then list_peers h w
      else if str_eq r.method (codes "POST") && str_eq r.path evict_path
      then evict h r w
      else if str_eq r.method (codes "POST") && str_eq r.path (codes "/admin/cache/warmup")
      then warmup r w
      else refuse 404 (codes "404 page not found") w
