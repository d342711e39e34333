-- ===== src/Health.antt =====
-- internal/health/checker.go: the checks of vLLM and of the peers, and the load that this node reports.
-- The ticker, the channels and the goroutine per peer are not modelled: a check is one step.
pub mod Overload
pub mod Peers
use loraplex.Go.Http.{HttpClient, HttpRequest, HttpResponse, Writer, set, write}
use loraplex.Go.Int64.{add64, neg64, gt64}
use loraplex.Routing.Ring.{Peer, Ring, peers, update_peer_load}
use loraplex.Prelude.{
  Bool, is_empty, true, ◌∷◌, some, codes, Option, not, false, ℕ, if◌then◌else◌, str_eq, Text, ◌||◌,
  List, ◌==◌, none, ◌++◌, [],
}

pub record Checker : Type 0 where
  pub self_addr : Text
  pub vllm_url : Text
  pub vllm_healthy : Bool
  pub pending_count : ℕ

unfoldable pub new_checker : Text → Text → Checker
new_checker self_addr vllm_url = record {
  self_addr = self_addr;
  vllm_url = vllm_url;
  vllm_healthy = true;
  pending_count = 0;
}

unfoldable pub incr_pending : Checker → Checker
incr_pending c = record c { pending_count = add64 c.pending_count 1 }

unfoldable pub decr_pending : Checker → Checker
decr_pending c = record c { pending_count = add64 c.pending_count (neg64 1) }

pub record HealthResponse (F : Type 0) : Type 0 where
  pub status : Text
  pub load : F
  pub pending : ℕ
  pub vllm : Bool

-- The float64 operations that the code makes on loads, on int64 operands, and the JSON of a status.
pub record Loads (F : Type 0) : Type 0 where
  pub one : F
  pub ratio : ℕ → ℕ → F
  pub above : F → F → Bool
  pub encode : HealthResponse F → Text
  pub load_of : Text → Option F

abbrev pub get_request : Text → HttpRequest
get_request url = record { method = codes "GET"; url = url; headers = []; body = [] }

-- `err == nil && resp != nil && resp.StatusCode == http.StatusOK`
unfoldable pub is_healthy : Option HttpResponse → Bool
is_healthy none = false
is_healthy (some resp) = resp.status == 200

unfoldable pub check_vllm : HttpClient → Checker → Checker
check_vllm client c =
    let req = get_request (c.vllm_url ++ codes "/health") in
    if is_empty c.vllm_url || not (client.can_request req.method req.url)
    then c
    else record c { vllm_healthy = is_healthy (client.send req) }

module _ {F : Type 0} (loads : Loads F) where
  -- What an answer says of a peer's load: an answer that cannot be read says nothing.
  unfoldable pub peer_answered : Text → Option HttpResponse → Ring F → Ring F
  peer_answered addr none r = update_peer_load addr loads.one r
  peer_answered addr (some resp) r = elim (loads.load_of resp.body) [
    | none ↦ r
    | some load ↦ update_peer_load addr load r
  ]

  unfoldable pub check_peer : HttpClient → Text → Ring F → Ring F
  check_peer client addr r =
      let req = get_request (codes "http://" ++ addr ++ codes "/healthz") in
      if client.can_request req.method req.url then peer_answered addr (client.send req) r else r

  -- The loop of `checkPeers`, with the goroutines in the order in which they were started.
  unfoldable pub check_each : HttpClient → Text → List (Peer F) → Ring F → Ring F
  check_each client self [] r = r
  check_each client self (p ∷ ps) r =
      check_each client self ps (if str_eq p.addr self then r else check_peer client p.addr r)

  unfoldable pub check_peers : HttpClient → Checker → Ring F → Checker × Ring F
  check_peers client c r = (check_vllm client c, check_each client c.self_addr (peers r) r)

  unfoldable pub load_score : Checker → ℕ → F
  load_score c max_concurrent =
      let m = if gt64 max_concurrent 0 then max_concurrent else 200 in
      let load = loads.ratio c.pending_count m in
      if loads.above load loads.one then loads.one else load

  unfoldable pub health_response : Checker → HealthResponse F
  health_response c = record {
    status = if c.vllm_healthy then codes "ok" else codes "degraded";
    load = load_score c 200;
    pending = c.pending_count;
    vllm = c.vllm_healthy;
  }

  -- `Encode` ends the JSON with a newline.
  unfoldable pub serve_health : Checker → Writer → Writer
  serve_health c w =
      write (loads.encode (health_response c) ++ 10 ∷ [])
        (record w { headers = set (codes "Content-Type") (codes "application/json") w.headers })
