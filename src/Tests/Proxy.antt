-- ===== src/Tests/Proxy.antt =====
-- The handler of the data path and the health checks on the node at `c`.
use loraplex.Cache.Lru.{new_lru}
use loraplex.Cache.Manager.{EnsureResult}
use loraplex.Cache.World.{World}
use loraplex.Go.Dict
use loraplex.Go.Http.{HttpRequest, Header, canonical, get, values}
use loraplex.Health.{get_request, Loads, check_peer}
use loraplex.Health.Overload.{decide-check_peer}
use loraplex.Proxy.Body.{Json, Request, RequestInfo, extract_request_info, build_hash_key, model_of}
use loraplex.Proxy.Handler.{
  after_forward, Proxy, ErrorText, serve_http, serve_extracted, serve_info, serve_locally,
  with_adapter, through_vllm, proxy_to_vllm, vllm_request, is_base_model,
}
use loraplex.Proxy.Handler.Branches.{OnlyTheClients}
use loraplex.Proxy.Handler.Hops.{serve_http_one_hop}
use loraplex.Routing.Forwarder.Relaying.{IsRelayed}
use loraplex.Proxy.Handler.Routes.{
  serve_http-OnlyTheClients, serve_http-forwarded, serve_http-adapter_first,
}
use loraplex.Routing.Forwarder.{
  header_forwarded, decide, forward_with_fallback, forward, forward_request,
}
use loraplex.Tests.Nodes.{
  sha, client, at_c, at_c-WellFormed, at_c-owner, key, peer_b, leb_load, get_method, path, b,
  program,
}
use loraplex.Routing.Ring.{is_self, update}
use loraplex.Go.Http.Headers.{IsCanonical}
use loraplex.Proxy.Handler.Headers.{values-vllm_request}
use loraplex.Prelude.{
  ℕ, some, str_eq, [], ◌≡◌, ltb, ◌∷◌, false, true, refl, codes, none, ok, ◌++◌, is_empty,
  has_prefix, if◌then◌else◌, ◌≤◌, Text, All, length,
}

-- The body is the name of the model.
abbrev json : Json
json = record { object_of = λ body. some ((codes "model", body) ∷ []); string_of = λ raw. some raw }

abbrev world : World
world = record {
  store = record { base_path = codes "/s"; lru = new_lru 100 };
  fs = record { entries = []; denied = λ p. false };
}

abbrev error_text : ErrorText
error_text = record {
  of_body = λ e. [];
  of_request = λ m u. [];
  of_transport = λ req. [];
  of_cache = λ e. [];
}

-- The cache has every adapter.
abbrev node : Proxy ℕ
node = record {
  vllm_url = codes "http://1";
  base_model = codes "base";
  ensure = λ model w. (ok (record { path = model; cached = true }), w);
  forwarder = at_c;
  hash_on = codes "model";
  fallback_base = false;
  client = client;
  error_text = error_text;
}

abbrev forwarded_headers : Header
forwarded_headers = (codes "X-Loraplex-Forwarded", codes "true" ∷ []) ∷ []

abbrev request : Request
request = record {
  method = get_method;
  path = path;
  raw_query = [];
  headers = forwarded_headers;
  body = key;
  body_fails = false;
  cancelled = false;
}

abbrev info : RequestInfo
info = record { model = key; tenant = []; hash_key = key; body = key }

serve_http-OnlyTheClients_example :
    OnlyTheClients node request (serve_http sha leb_load json node request world)
serve_http-OnlyTheClients_example = serve_http-OnlyTheClients sha leb_load json node request world

marked : str_eq (get header_forwarded request.headers) (codes "true") ≡ true
unfolding get values canonical Dict.lookup str_eq
marked = refl

serve_http-forwarded_example : (serve_http sha leb_load json node request world).to_peers ≡ []
serve_http-forwarded_example = serve_http-forwarded sha leb_load json node request world marked

read_request : extract_request_info json request node.hash_on ≡ ok info
unfolding extract_request_info model_of build_hash_key get values canonical Dict.lookup str_eq
    is_empty
read_request = refl

not_base : is_base_model node info ≡ false
unfolding is_base_model str_eq is_empty
not_base = refl

served :
    (serve_http sha leb_load json node request world).to_vllm ≡ vllm_request node request key ∷ []
unfolding serve_http serve_extracted serve_info extract_request_info model_of build_hash_key get
    values canonical Dict.lookup str_eq is_empty is_base_model decide serve_locally with_adapter
    through_vllm proxy_to_vllm program
served = refl

serve_http-adapter_first_example :
    (result : EnsureResult) × (node.ensure key world
      ≡ (ok result, (serve_http sha leb_load json node request world).world))
serve_http-adapter_first_example =
    serve_http-adapter_first sha leb_load json node request world info
      (vllm_request node request key) read_request not_base refl served

not_self : is_self at_c.ring (some peer_b) ≡ false
unfolding is_self update str_eq
not_self = refl

unreachable : client.send (get_request (codes "http://" ++ b ++ codes "/healthz")) ≡ none
unfolding has_prefix
unreachable = refl

-- Tenths in place of float64.
abbrev loads : Loads ℕ
loads = record {
  one = 10;
  ratio = λ n m. n;
  above = λ x y. ltb y x;
  encode = λ h. h.status;
  load_of = λ body. none;
}

decide-check_peer_example :
    decide sha leb_load (record at_c { ring = check_peer loads client b at_c.ring }) key false
    ≡ record { handle_locally = true; forward_to = none; overflow = true }
decide-check_peer_example =
    decide-check_peer sha leb_load loads client at_c key peer_b at_c-WellFormed at_c-owner not_self
      refl refl unreachable

forwarded_headers-IsCanonical : IsCanonical forwarded_headers
unfolding canonical Dict.lookup
forwarded_headers-IsCanonical = (refl, refl, tt)

values-vllm_request_example :
    values (codes "X-Loraplex-Forwarded") (vllm_request node request key).headers ≡ (
      if str_eq (codes "Content-Type") (codes "X-Loraplex-Forwarded")
      then codes "application/json" ∷ []
      else if str_eq header_forwarded (codes "X-Loraplex-Forwarded")
      then []
      else values (codes "X-Loraplex-Forwarded") request.headers)
values-vllm_request_example =
    values-vllm_request node request key (codes "X-Loraplex-Forwarded")
      forwarded_headers-IsCanonical

abbrev from_client : Request
from_client = record request { headers = [] }

-- The owner does not answer, so that the request goes to the other peer too.
two_sent : length (serve_http sha leb_load json node from_client world).to_peers ≡ 2
unfolding serve_http serve_extracted serve_info extract_request_info model_of build_hash_key get
    values canonical Dict.lookup str_eq is_empty is_base_model decide forward_with_fallback forward
    after_forward forward_request has_prefix program
two_sent = refl

serve_http_one_hop_example :
    let sent = (serve_http sha leb_load json node from_client world).to_peers in
    (length sent ≤ 2)
    × All
        (λ (s : Text × HttpRequest).
          IsRelayed at_c.ring.self get_method path key s
          × ((p' : Proxy ℕ) (r' : Request) (w' : World)
              → r'.headers ≡ s.1.headers
              → (serve_http sha leb_load json p' r' w').to_peers ≡ []))
        sent
serve_http_one_hop_example =
    serve_http_one_hop sha leb_load json node from_client world at_c-WellFormed
