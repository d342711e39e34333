-- ===== src/Proxy/Handler/Routes.antt =====
-- Where the handler of internal/proxy/proxy.go sends a request, and what reaches vLLM.
use loraplex.Cache.Manager.{EnsureResult}
use loraplex.Cache.World.{World}
use loraplex.Go.Bytes.{Sha256}
use loraplex.Go.Http.{HttpRequest, get}
use loraplex.Proxy.Body.{Json, Request, RequestInfo, BodyError, extract_request_info}
use loraplex.Proxy.Handler.{
  Proxy, Outcome, through_vllm, is_base_model, serve_locally, after_forward, serve_info,
  serve_extracted, serve_http,
}
use loraplex.Routing.Forwarder.{decide, forward_with_fallback, header_forwarded}
use loraplex.Prelude.{
  Bool, [], inl, ok, ◌∷◌, true, refl, ◌≡◌, str_eq, codes, err, false, Result, if◌then◌else◌,
  if_both, is_empty, sym, ◌||◌, ◌&&◌, subst,
}
use loraplex.Proxy.Handler.Branches.{
  OnlyTheClients, through_vllm-to_peers, through_vllm-OnlyTheClients, serve_locally-to_peers,
  serve_locally-OnlyTheClients, after_forward-OnlyTheClients, extract_request_info-body,
  AdapterFirst, serve_locally-AdapterFirst, after_forward-AdapterFirst,
}

module _ (sha : Sha256) {F : Type 0} (geb : F → F → Bool) (json : Json) (p : Proxy F) (r : Request)
    (w : World) where
  -- The test of `Decide`, and what follows it.
  routed_here : RequestInfo → Bool
  routed_here info =
      (decide sha geb p.forwarder info.hash_key
        (str_eq (get header_forwarded r.headers) (codes "true"))).handle_locally

  forwarded_to : RequestInfo → Outcome
  forwarded_to info =
      after_forward p r info
        (forward_with_fallback sha p.forwarder info.hash_key r.method r.path info.body r.headers) w

  passes : RequestInfo → Bool
  passes info = is_base_model p info && (str_eq p.hash_on (codes "model") || is_empty info.hash_key)

  serve_info_eq :
      (info : RequestInfo)
      → serve_info sha geb json p r info w ≡ (
          if passes info
          then through_vllm p r info.body [] (codes "passthrough") w
          else if routed_here info
          then serve_locally p r info [] w
          else forwarded_to info)
  unfolding serve_info passes routed_here forwarded_to
  serve_info_eq info = refl

  serve_info-OnlyTheClients :
      (info : RequestInfo)
      → info.body ≡ r.body
      → OnlyTheClients p r (serve_info sha geb json p r info w)
  unfolding forwarded_to
  serve_info-OnlyTheClients info e = subst (OnlyTheClients p r) (sym (serve_info_eq info)) (
      if_both (OnlyTheClients p r) (passes info) _ _
        (through_vllm-OnlyTheClients p r info.body [] (codes "passthrough") w e)
        (if_both (OnlyTheClients p r) (routed_here info) _ _
          (serve_locally-OnlyTheClients p r info [] w e)
          (after_forward-OnlyTheClients p r info _ w e)))

  serve_extracted-OnlyTheClients :
      (x : Result BodyError RequestInfo)
      → extract_request_info json r p.hash_on ≡ x
      → OnlyTheClients p r (serve_extracted sha geb json p r x w)
  unfolding serve_extracted
  serve_extracted-OnlyTheClients (err e) h = inl refl
  serve_extracted-OnlyTheClients (ok info) h =
      serve_info-OnlyTheClients info (extract_request_info-body json r p.hash_on info h).0

  -- vLLM gets at most one request for a request of a client, whatever the peers and the cache do: the
  -- one that has the client's method, path, query and body, byte for byte.
  pub serve_http-OnlyTheClients : OnlyTheClients p r (serve_http sha geb json p r w)
  unfolding serve_http
  serve_http-OnlyTheClients =
      serve_extracted-OnlyTheClients (extract_request_info json r p.hash_on) refl

  routed_here_forwarded :
      (info : RequestInfo)
      → str_eq (get header_forwarded r.headers) (codes "true") ≡ true
      → routed_here info ≡ true
  unfolding routed_here decide
  routed_here_forwarded info h = rw (h, routed_here, decide) refl

  serve_info-forwarded :
      (info : RequestInfo)
      → str_eq (get header_forwarded r.headers) (codes "true") ≡ true
      → (serve_info sha geb json p r info w).to_peers ≡ []
  serve_info-forwarded info h =
      subst (λ (o : Outcome). o.to_peers ≡ []) (sym (serve_info_eq info))
        (rw (routed_here_forwarded info h) (
          if_both (λ (o : Outcome). o.to_peers ≡ []) (passes info) _ _
            (through_vllm-to_peers p r info.body [] (codes "passthrough") w)
            (serve_locally-to_peers p r info [] w)))

  serve_info-AdapterFirst :
      (info : RequestInfo)
      → is_base_model p info ≡ false
      → p.fallback_base ≡ false
      → AdapterFirst p info.model w (serve_info sha geb json p r info w)
  unfolding passes forwarded_to
  serve_info-AdapterFirst info model base =
      subst (AdapterFirst p info.model w) (sym (serve_info_eq info)) (
        rw model (
          if_both (AdapterFirst p info.model w) (routed_here info) _ _
            (serve_locally-AdapterFirst p r info base [] w model)
            (after_forward-AdapterFirst p r info base _ w model)))

  -- A request that bears the mark of a forwarded one is sent to no peer: it is served by the node that
  -- it reaches.
  pub serve_http-forwarded :
      str_eq (get header_forwarded r.headers) (codes "true") ≡ true
      → (serve_http sha geb json p r w).to_peers ≡ []
  unfolding serve_http serve_extracted
  serve_http-forwarded h = of_extracted (extract_request_info json r p.hash_on)
    where
      of_extracted :
          (x : Result BodyError RequestInfo) → (serve_extracted sha geb json p r x w).to_peers ≡ []
      of_extracted (err e) = refl
      of_extracted (ok info) = serve_info-forwarded info h

  -- If the model is neither empty nor the base model, and falling back to the base model is off, then
  -- vLLM gets the request only after the cache has made sure of that adapter, and the state of the
  -- cache is the one that this call has left.
  pub serve_http-adapter_first :
      (info : RequestInfo) (req : HttpRequest)
      → extract_request_info json r p.hash_on ≡ ok info
      → is_base_model p info ≡ false
      → p.fallback_base ≡ false
      → (serve_http sha geb json p r w).to_vllm ≡ req ∷ []
      → (result : EnsureResult) × (p.ensure info.model w
          ≡ (ok result, (serve_http sha geb json p r w).world))
  unfolding serve_http serve_extracted
  serve_http-adapter_first info req h model base =
      subst (λ x. AdapterFirst p info.model w (serve_extracted sha geb json p r x w)) (sym h)
        (serve_info-AdapterFirst info model base) req
