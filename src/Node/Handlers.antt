-- ===== src/Node/Handlers.antt =====
-- The handlers of internal/proxy/proxy.go and internal/admin/handler.go, and what is outside of the storage
-- directory.
use loraplex.Admin.{
  Handler, AdminRequest, AdminOutcome, serve_admin, cache_stats, list_peers, evict, evict_named,
  evicted, warmup, warm_each, refuse, evict_path,
}
use loraplex.Admin
use loraplex.Admin.Warmup.{warm_each_answers}
use loraplex.Cache.Manager.{OriginFetcher, EnsureResult, evict_adapter}
use loraplex.Cache.Manager.Confinement.{evict_adapter-Leads}
use loraplex.Cache.Manager.Installing.{Confined}
use loraplex.Cache.Manager.Steps.{Inv, Leads, Leads-refl}
use loraplex.Cache.Meta.{MetaJson}
use loraplex.Cache.World.{World, CacheError}
use loraplex.Go.Bytes.{Sha256}
use loraplex.Go.Http.{HttpResponse, get}
use loraplex.Go.Path.{is_rooted}
use loraplex.Proxy.Body.{Json, Request, RequestInfo, BodyError, extract_request_info}
use loraplex.Proxy.Handler.{
  Proxy, Outcome, through_vllm, is_base_model, with_adapter, serve_locally, after_forward,
  serve_info, serve_extracted, serve_http,
}
use loraplex.Routing.Forwarder.{ForwardError, Sent, forward_with_fallback, decide, header_forwarded}
use loraplex.Prelude.{
  Bool, Text, none, refl, err, some, Option-cases, if◌then◌else◌, [], Option, Result, ◌≡◌, inl,
  if_both, ok, All, true, ℕ, is_empty, inr, List, Bool-cases, codes, str_eq, ◌||◌, ◌&&◌,
}

module _ (base : Text) where
  module _ {F : Type 0} (p : Proxy F) (r : Request)
      (ensured : (id : Text) (w : World) → Inv base w → Leads base w (p.ensure id w).1) where
    with_adapter-world :
        (info : RequestInfo) (sent : Sent) (x : Result CacheError EnsureResult × World)
        → (with_adapter p r info sent x).world ≡ x.1
    unfolding with_adapter through_vllm
    with_adapter-world info sent (ok result, w) = refl
    with_adapter-world info sent (err e, w) = elim (Bool-cases p.fallback_base) [
      | inl e' ↦ rw (e', with_adapter) refl
      | inr e' ↦ rw (e', with_adapter) refl
    ]

    serve_locally-Leads :
        (info : RequestInfo) (sent : Sent) (w : World)
        → Inv base w
        → Leads base w (serve_locally p r info sent w).world
    unfolding serve_locally through_vllm
    serve_locally-Leads info sent w i =
        if_both (λ (o : Outcome). Leads base w o.world) (is_base_model p info) _ _
          (Leads-refl base w i)
          (rw (with_adapter-world info sent (p.ensure info.model w)) (ensured info.model w i))

    after_forward-Leads :
        (info : RequestInfo) (x : Result ForwardError HttpResponse × Sent) (w : World)
        → Inv base w
        → Leads base w (after_forward p r info x w).world
    unfolding after_forward
    after_forward-Leads info (ok resp, sent) w i = Leads-refl base w i
    after_forward-Leads info (err e, sent) w i = serve_locally-Leads info sent w i

    module _ (sha : Sha256) (geb : F → F → Bool) (json : Json) where
      serve_extracted-Leads :
          (x : Result BodyError RequestInfo) (w : World)
          → Inv base w
          → Leads base w (serve_extracted sha geb json p r x w).world
      unfolding serve_extracted serve_info through_vllm
      serve_extracted-Leads (err e) w i = Leads-refl base w i
      serve_extracted-Leads (ok info) w i =
          let marked = str_eq (get header_forwarded r.headers) (codes "true") in
          let decision = decide sha geb p.forwarder info.hash_key marked in
          let through = through_vllm p r info.body [] (codes "passthrough") w in
          let local = serve_locally p r info [] w in
          let sent_on =
            after_forward p r info
              (forward_with_fallback sha p.forwarder info.hash_key r.method r.path info.body
                r.headers)
              w in
          if_both (λ (o : Outcome). Leads base w o.world)
            (is_base_model p info && (str_eq p.hash_on (codes "model") || is_empty info.hash_key))
            through (if decision.handle_locally then local else sent_on) (Leads-refl base w i)
            (if_both (λ (o : Outcome). Leads base w o.world) decision.handle_locally local sent_on
              (serve_locally-Leads info [] w i) (after_forward-Leads info _ w i))

      pub serve_http-Leads :
          (w : World) → Inv base w → Leads base w (serve_http sha geb json p r w).world
      unfolding serve_http
      serve_http-Leads w i = serve_extracted-Leads (extract_request_info json r p.hash_on) w i

  module _ (rooted : is_rooted base ≡ true) {F : Type 0} (h : Handler F) (json : MetaJson)
      (origins : List OriginFetcher) (ttl now : ℕ) (confined : All Confined origins) where
    evicted-world :
        (r : AdminRequest) (adapter : Text) (x : Result CacheError (Unit {0}) × World)
        → (evicted h r adapter x).world ≡ x.1
    unfolding evicted refuse
    evicted-world r adapter (ok u, w) = refl
    evicted-world r adapter (err e, w) = refl

    evict_named-Leads :
        (r : AdminRequest) (o : Option Text) (w : World)
        → Inv base w
        → Leads base w (evict_named h r o w).world
    unfolding evict_named refuse
    evict_named-Leads r none w i = Leads-refl base w i
    evict_named-Leads r (some adapter) w i =
        if_both (λ (o : AdminOutcome). Leads base w o.world) (is_empty adapter) _ _
          (Leads-refl base w i)
          (rw (evicted-world r adapter (evict_adapter adapter w))
            (evict_adapter-Leads base rooted adapter w i))

    warmup-Leads :
        (r : AdminRequest) (w : World)
        → Inv base w
        → Leads base w (warmup h json origins ttl now r w).world
    unfolding warmup refuse
    warmup-Leads r w i = elim (Option-cases (h.codec.decode_warmup r.body)) [
      | inl e ↦ rw (e, warmup) (Leads-refl base w i)
      | inr (adapters, e) ↦
          rw (e, warmup)
            ((warm_each_answers base rooted json origins ttl now confined h adapters w i).0)
    ]

    branch :
        (w : World) (b : Bool) (x y : AdminOutcome)
        → Leads base w x.world
        → Leads base w y.world
        → Leads base w (if b then x else y).world
    branch w b x y hx hy = if_both (λ (o : AdminOutcome). Leads base w o.world) b x y hx hy

    pub serve_admin-Leads :
        (r : AdminRequest) (w : World)
        → Inv base w
        → Leads base w (serve_admin h json origins ttl now r w).world
    unfolding serve_admin Admin.evict cache_stats list_peers refuse
    serve_admin-Leads r w i =
        let unknown = refuse 404 (codes "404 page not found") w in
        let is_warmup =
          str_eq r.method (codes "POST") && str_eq r.path (codes "/admin/cache/warmup") in
        let warmed = if is_warmup then warmup h json origins ttl now r w else unknown in
        let is_evict = str_eq r.method (codes "POST") && str_eq r.path evict_path in
        let changed = if is_evict then Admin.evict h r w else warmed in
        let is_peers = str_eq r.method (codes "GET") && str_eq r.path (codes "/admin/peers") in
        let listed = if is_peers then list_peers h w else changed in
        let is_stats =
          str_eq r.method (codes "GET") && str_eq r.path (codes "/admin/cache/stats") in
        let untouched = Leads-refl base w i in
        branch w is_stats (cache_stats h w) listed untouched (
          branch w is_peers (list_peers h w) changed untouched (
            branch w is_evict (Admin.evict h r w) warmed
              (evict_named-Leads r (h.codec.decode_evict r.body) w i)
              (branch w is_warmup (warmup h json origins ttl now r w) unknown (warmup-Leads r w i)
                untouched)))
