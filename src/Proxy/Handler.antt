-- ===== src/Proxy/Handler.antt =====
-- internal/proxy/proxy.go: the handler. Of the metrics, the class of the request stands in the outcome;
-- a streamed answer is written like any other, without the flushes.
pub mod Branches
pub mod Routes
pub mod Headers
pub mod Hops
use loraplex.Cache.Manager.{EnsureResult}
use loraplex.Cache.World.{World, CacheError, Cached}
use loraplex.Go.Bytes.{Sha256}
use loraplex.Go.Http.{
  Header, HttpClient, HttpRequest, HttpResponse, Writer, fresh_writer, http_error, add_all, set,
  del, get, write, write_header,
}
use loraplex.Proxy.Body.{Json, Request, RequestInfo, BodyError, extract_request_info}
use loraplex.Routing.Forwarder.{
  Forwarder, RouteDecision, ForwardError, Sent, decide, forward_with_fallback, copy_response,
  header_forwarded,
}
use loraplex.Prelude.{
  Bool, ok, ◌&&◌, [], Result, is_empty, if◌then◌else◌, Option, err, Text, str_eq, List, some, ◌∷◌,
  none, ◌++◌, ◌||◌, codes, not,
}

-- The texts of the errors that are shown to the client.
pub record ErrorText : Type 0 where
  pub of_body : BodyError → Text
  pub of_request : Text → Text → Text
  pub of_transport : HttpRequest → Text
  pub of_cache : CacheError → Text

-- `ensure` is `EnsureAdapter` of the cache manager.
pub record Proxy (F : Type 0) : Type 0 where
  pub vllm_url : Text
  pub base_model : Text
  pub ensure : Text → Cached EnsureResult
  pub forwarder : Forwarder F
  pub hash_on : Text
  pub fallback_base : Bool
  pub client : HttpClient
  pub error_text : ErrorText

-- What a request has led to: the state of the cache, the answer, what was sent to peers and to vLLM,
-- and the class under which it is counted, if it is.
pub record Outcome : Type 0 where
  pub world : World
  pub writer : Writer
  pub to_peers : Sent
  pub to_vllm : List HttpRequest
  pub class : Option Text

module _ {F : Type 0} where
  unfoldable pub vllm_request : Proxy F → Request → Text → HttpRequest
  vllm_request p r body = record {
    method = r.method;
    url = p.vllm_url ++ r.path ++ (if is_empty r.raw_query then [] else b'?' ∷ r.raw_query);
    headers =
        set (codes "Content-Type") (codes "application/json")
          (del header_forwarded (add_all r.headers []));
    body = body;
  }

  unfoldable pub vllm_answer : Proxy F → Request → HttpRequest → Option HttpResponse → Writer
  vllm_answer p r req none =
      if r.cancelled
      then fresh_writer
      else http_error 502 (codes "vllm proxy error: " ++ p.error_text.of_transport req) fresh_writer
  vllm_answer p r req (some resp) =
      write resp.body
        (write_header resp.status (record fresh_writer { headers = add_all resp.headers [] }))

  unfoldable pub proxy_to_vllm : Proxy F → Request → Text → Writer × List HttpRequest
  proxy_to_vllm p r body =
      let req = vllm_request p r body in
      if p.client.can_request req.method req.url
      then (vllm_answer p r req (p.client.send req), req ∷ [])
      else (http_error 500 (p.error_text.of_request req.method req.url) fresh_writer, [])

  -- The calls of `proxyToVLLM` in the handler, with the class that is recorded after each.
  unfoldable pub through_vllm : Proxy F → Request → Text → Sent → Text → World → Outcome
  through_vllm p r body sent class w =
      let (writer, requests) = proxy_to_vllm p r body in
      record { world = w; writer = writer; to_peers = sent; to_vllm = requests; class = some class }

  unfoldable pub is_base_model : Proxy F → RequestInfo → Bool
  is_base_model p info = is_empty info.model || str_eq info.model p.base_model

  -- After `EnsureAdapter`.
  unfoldable pub with_adapter :
      Proxy F → Request → RequestInfo → Sent → Result CacheError EnsureResult × World → Outcome
  with_adapter p r info sent (ok result, w) =
      through_vllm p r info.body sent (if result.cached then codes "local" else codes "origin") w
  with_adapter p r info sent (err e, w) =
      if p.fallback_base
      then through_vllm p r info.body sent (codes "fallback-base") w
      else record {
        world = w;
        writer =
            http_error 503 (codes "adapter not available: " ++ p.error_text.of_cache e)
              fresh_writer;
        to_peers = sent;
        to_vllm = [];
        class = none;
      }

  unfoldable pub serve_locally : Proxy F → Request → RequestInfo → Sent → World → Outcome
  serve_locally p r info sent w =
      if is_base_model p info
      then through_vllm p r info.body sent (codes "routed") w
      else with_adapter p r info sent (p.ensure info.model w)

  -- After `ForwardWithFallback`: if all peers have failed, the request is served here.
  unfoldable pub after_forward :
      Proxy F → Request → RequestInfo → Result ForwardError HttpResponse × Sent → World → Outcome
  after_forward p r info (ok resp, sent) w = record {
    world = w;
    writer = copy_response fresh_writer resp;
    to_peers = sent;
    to_vllm = [];
    class = some (codes "forwarded");
  }
  after_forward p r info (err e, sent) w = serve_locally p r info sent w

module _ (sha : Sha256) {F : Type 0} (geb : F → F → Bool) (json : Json) where
  unfoldable pub serve_info : Proxy F → Request → RequestInfo → World → Outcome
  serve_info p r info w =
      let is_forwarded = str_eq (get header_forwarded r.headers) (codes "true") in
      let decision = decide sha geb p.forwarder info.hash_key is_forwarded in
      if is_base_model p info && (str_eq p.hash_on (codes "model") || is_empty info.hash_key)
      then through_vllm p r info.body [] (codes "passthrough") w
      else if decision.handle_locally
      then serve_locally p r info [] w
      else after_forward p r info
          (forward_with_fallback sha p.forwarder info.hash_key r.method r.path info.body r.headers)
          w

  -- After the body was read.
  unfoldable pub serve_extracted :
      Proxy F → Request → Result BodyError RequestInfo → World → Outcome
  serve_extracted p r (err e) w = record {
    world = w;
    writer = http_error 400 (p.error_text.of_body e) fresh_writer;
    to_peers = [];
    to_vllm = [];
    class = none;
  }
  serve_extracted p r (ok info) w = serve_info p r info w

  unfoldable pub serve_http : Proxy F → Request → World → Outcome
  serve_http p r w = serve_extracted p r (extract_request_info json r p.hash_on) w
