-- ===== src/Proxy/Handler/Branches.antt =====
-- The branches of the handler of internal/proxy/proxy.go, one by one, and what they send.
use loraplex.Cache.Manager.{EnsureResult}
use loraplex.Cache.World.{World, CacheError}
use loraplex.Go.Http.{Writer, HttpRequest, HttpResponse}
use loraplex.Proxy.Body.{Json, Request, RequestInfo, extract_request_info, max_body_size}
use loraplex.Proxy.Handler.{
  Proxy, Outcome, vllm_request, proxy_to_vllm, through_vllm, is_base_model, with_adapter,
  serve_locally, after_forward,
}
use loraplex.Routing.Forwarder.{ForwardError, Sent}
use loraplex.Prelude.{
  [], inl, ok, ◌≤◌, ◌⊎◌, ◌∷◌, refl, Text, arith, ◌≡◌, codes, err, false, Result, length, inr, List,
  if◌then◌else◌, if_both, ◌++◌, is_empty,
}

-- The client's request as vLLM gets it: the method, the path, the query and the body.
pub record IsTheClients (vllm_url : Text) (r : Request) (req : HttpRequest) : Type 0 where
  pub same_method : req.method ≡ r.method
  pub same_body : req.body ≡ r.body
  pub same_url :
      req.url ≡ vllm_url ++ r.path ++ (if is_empty r.raw_query then [] else b'?' ∷ r.raw_query)

-- vLLM gets at most one request, and it is the client's.
abbrev pub OnlyTheClients : {F : Type 0} → Proxy F → Request → Outcome → Type 0
OnlyTheClients p r o =
    (o.to_vllm ≡ [])
    ⊎ ((req : HttpRequest) × ((o.to_vllm ≡ req ∷ []) × IsTheClients p.vllm_url r req))

module _ {F : Type 0} (p : Proxy F) (r : Request) where
  pub through_vllm-to_peers :
      (body : Text) (sent : Sent) (class : Text) (w : World)
      → (through_vllm p r body sent class w).to_peers ≡ sent
  unfolding through_vllm
  through_vllm-to_peers body sent class w = refl

  proxy_to_vllm_cases :
      (body : Text)
      → ((proxy_to_vllm p r body).1 ≡ [])
        ⊎ ((proxy_to_vllm p r body).1 ≡ vllm_request p r body ∷ [])
  unfolding proxy_to_vllm
  proxy_to_vllm_cases body =
      if_both (λ (x : Writer × List HttpRequest). (x.1 ≡ []) ⊎ (x.1 ≡ vllm_request p r body ∷ [])) _
        _ _ (inr refl) (inl refl)

  pub through_vllm-OnlyTheClients :
      (body : Text) (sent : Sent) (class : Text) (w : World)
      → body ≡ r.body
      → OnlyTheClients p r (through_vllm p r body sent class w)
  unfolding through_vllm vllm_request
  through_vllm-OnlyTheClients body sent class w e = elim (proxy_to_vllm_cases body) [
    | inl none_sent ↦ inl none_sent
    | inr one ↦ inr (
      vllm_request p r body,
      (one, record { same_method = refl; same_body = e; same_url = refl }),
    )
  ]

  with_adapter-OnlyTheClients :
      (info : RequestInfo) (sent : Sent) (res : Result CacheError EnsureResult × World)
      → info.body ≡ r.body
      → OnlyTheClients p r (with_adapter p r info sent res)
  unfolding with_adapter
  with_adapter-OnlyTheClients info sent (ok result, w) e =
      through_vllm-OnlyTheClients info.body sent
        (if result.cached then codes "local" else codes "origin") w e
  with_adapter-OnlyTheClients info sent (err e', w) e =
      if_both (OnlyTheClients p r) p.fallback_base _ _
        (through_vllm-OnlyTheClients info.body sent (codes "fallback-base") w e) (inl refl)

  with_adapter-to_peers :
      (info : RequestInfo) (sent : Sent) (res : Result CacheError EnsureResult × World)
      → (with_adapter p r info sent res).to_peers ≡ sent
  unfolding with_adapter through_vllm
  with_adapter-to_peers info sent (ok result, w) = refl
  with_adapter-to_peers info sent (err e, w) =
      if_both (λ (o : Outcome). o.to_peers ≡ sent) p.fallback_base _ _ refl refl

  pub serve_locally-to_peers :
      (info : RequestInfo) (sent : Sent) (w : World)
      → (serve_locally p r info sent w).to_peers ≡ sent
  unfolding serve_locally through_vllm
  serve_locally-to_peers info sent w =
      if_both (λ (o : Outcome). o.to_peers ≡ sent) (is_base_model p info) _ _ refl
        (with_adapter-to_peers info sent (p.ensure info.model w))

  pub serve_locally-OnlyTheClients :
      (info : RequestInfo) (sent : Sent) (w : World)
      → info.body ≡ r.body
      → OnlyTheClients p r (serve_locally p r info sent w)
  unfolding serve_locally
  serve_locally-OnlyTheClients info sent w e =
      if_both (OnlyTheClients p r) (is_base_model p info) _ _
        (through_vllm-OnlyTheClients info.body sent (codes "routed") w e)
        (with_adapter-OnlyTheClients info sent (p.ensure info.model w) e)

  pub after_forward-OnlyTheClients :
      (info : RequestInfo) (res : Result ForwardError HttpResponse × Sent) (w : World)
      → info.body ≡ r.body
      → OnlyTheClients p r (after_forward p r info res w)
  unfolding after_forward
  after_forward-OnlyTheClients info (ok resp, sent) w e = inl refl
  after_forward-OnlyTheClients info (err e', sent) w e = serve_locally-OnlyTheClients info sent w e

pub extract_request_info-body :
    (json : Json) (r : Request) (hash_on : Text) (info : RequestInfo)
    → extract_request_info json r hash_on ≡ ok info
    → (info.body ≡ r.body) × (length r.body ≤ max_body_size)
unfolding extract_request_info
extract_request_info-body json r hash_on info h = ground arith

-- vLLM has got the request only if the cache has made sure of the adapter, and `o` has its state.
abbrev pub AdapterFirst : {F : Type 0} → Proxy F → Text → World → Outcome → Type 0
AdapterFirst p model w o =
    (req : HttpRequest)
    → o.to_vllm ≡ req ∷ []
    → (result : EnsureResult) × (p.ensure model w ≡ (ok result, o.world))

module _ {F : Type 0} (p : Proxy F) (r : Request) (info : RequestInfo)
    (base : p.fallback_base ≡ false) where
  with_adapter-first :
      (sent : Sent) (x : Result CacheError EnsureResult × World) (req : HttpRequest)
      → (with_adapter p r info sent x).to_vllm ≡ req ∷ []
      → (result : EnsureResult) × (x ≡ (ok result, (with_adapter p r info sent x).world))
  unfolding with_adapter through_vllm
  with_adapter-first sent (ok result, w) req h = (result, refl)
  with_adapter-first sent (err e, w) req h = cc (base)

  pub serve_locally-AdapterFirst :
      (sent : Sent) (w : World)
      → is_base_model p info ≡ false
      → AdapterFirst p info.model w (serve_locally p r info sent w)
  unfolding serve_locally
  serve_locally-AdapterFirst sent w model =
      rw model (with_adapter-first sent (p.ensure info.model w))

  pub after_forward-AdapterFirst :
      (res : Result ForwardError HttpResponse × Sent) (w : World)
      → is_base_model p info ≡ false
      → AdapterFirst p info.model w (after_forward p r info res w)
  unfolding after_forward
  after_forward-AdapterFirst (ok resp, sent) w model = λ req h. cc
  after_forward-AdapterFirst (err e, sent) w model = serve_locally-AdapterFirst sent w model
