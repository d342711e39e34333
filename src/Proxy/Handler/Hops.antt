-- ===== src/Proxy/Handler/Hops.antt =====
-- The handlers of internal/proxy/proxy.go on several nodes: how far a request goes.
use loraplex.Cache.World.{World}
use loraplex.Go.Bytes.{Sha256}
use loraplex.Go.Http.{HttpResponse, HttpRequest, get}
use loraplex.Proxy.Body.{Json, Request, RequestInfo, BodyError, extract_request_info}
use loraplex.Proxy.Handler.{
  Proxy, Outcome, through_vllm, is_base_model, serve_locally, after_forward, serve_info,
  serve_extracted, serve_http,
}
use loraplex.Proxy.Handler.Branches.{
  through_vllm-to_peers, serve_locally-to_peers, extract_request_info-body,
}
use loraplex.Proxy.Handler.Routes.{serve_http-forwarded}
use loraplex.Routing.Forwarder.{ForwardError, Sent, decide, header_forwarded}
use loraplex.Routing.Forwarder.Relaying.{
  IsRelayed, Relays, decide-remote, forward_with_fallback-Relays,
}
use loraplex.Routing.Ring.Placement.{WellFormed}
use loraplex.Prelude.{
  Text, Result, arith, ok, refl, [], codes, ◌≡◌, Bool, err, str_eq, is_empty, ◌&&◌, All, ◌≤◌, ◌||◌,
  Bool-cases, inr, All_weaken, str_eq_refl, inl, length,
}

after_forward-to_peers :
    {F : Type 0} (p : Proxy F) (r : Request) (info : RequestInfo)
    (x : Result ForwardError HttpResponse × Sent) (w : World)
    → (after_forward p r info x w).to_peers ≡ x.1
unfolding after_forward
after_forward-to_peers p r info (ok resp, sent) w = refl
after_forward-to_peers p r info (err e, sent) w = serve_locally-to_peers p r info sent w

module _ (sha : Sha256) {F : Type 0} (geb : F → F → Bool) (json : Json) where
  module _ (p : Proxy F) (wf : WellFormed p.forwarder.ring) (r : Request) (w : World) where
    abbrev RelaysTheClients : Outcome → Type 0
    RelaysTheClients o = Relays p.forwarder r.method r.path r.body r.headers o.to_peers

    none_sent : (o : Outcome) → o.to_peers ≡ [] → RelaysTheClients o
    none_sent o e = rw e (omega arith, tt)

    serve_info-Relays :
        (info : RequestInfo)
        → info.body ≡ r.body
        → RelaysTheClients (serve_info sha geb json p r info w)
    unfolding serve_info
    serve_info-Relays info same =
        let is_forwarded = str_eq (get header_forwarded r.headers) (codes "true") in
        let passed =
          is_base_model p info && (str_eq p.hash_on (codes "model") || is_empty info.hash_key) in
        let decision = decide sha geb p.forwarder info.hash_key is_forwarded in
        elim (Bool-cases passed) [
          | inl e ↦
              rw (e, serve_info)
                (none_sent (through_vllm p r info.body [] (codes "passthrough") w)
                  (through_vllm-to_peers p r info.body [] (codes "passthrough") w))
          | inr e ↦ elim (Bool-cases decision.handle_locally) [
            | inl here ↦
                rw (e, serve_info)
                  (rw here (
                    none_sent (serve_locally p r info [] w) (serve_locally-to_peers p r info [] w)))
            | inr away ↦
                let (o, (owned, other)) =
                  decide-remote p.forwarder sha geb info.hash_key is_forwarded away in
                rw (e, serve_info)
                  (rw away (
                    rw (after_forward-to_peers p r info _ w, same)
                      (forward_with_fallback-Relays p.forwarder r.method r.path r.body r.headers sha
                        info.hash_key wf o owned other)))
          ]
        ]

    pub serve_http-Relays : RelaysTheClients (serve_http sha geb json p r w)
    unfolding serve_http serve_extracted
    serve_http-Relays = of_extracted (extract_request_info json r p.hash_on) refl
      where
        of_extracted :
            (x : Result BodyError RequestInfo)
            → extract_request_info json r p.hash_on ≡ x
            → RelaysTheClients (serve_extracted sha geb json p r x w)
        of_extracted (err e) h = (omega arith, tt)
        of_extracted (ok info) h =
            serve_info-Relays info (extract_request_info-body json r p.hash_on info h).0

  -- What reaches a node by such a request goes no further, whatever the node and its state.
  relayed-stops :
      (self method path body : Text) (s : Text × HttpRequest)
      → IsRelayed self method path body s
      → (p' : Proxy F) (r' : Request) (w' : World) → r'.headers ≡ s.1.headers
      → (serve_http sha geb json p' r' w').to_peers ≡ []
  relayed-stops self method path body s h p' r' w' e =
      serve_http-forwarded sha geb json p' r' w' (rw (e, h.marked) (str_eq_refl (codes "true")))

  -- On a well-formed ring, a request leads to at most two requests to peers, none of them to this node. Each has the
  -- client's method, path and body, at the address of the peer, and the mark; and a node that gets it, in whatever
  -- state, sends it to no peer.
  pub serve_http_one_hop :
      (p : Proxy F) (r : Request) (w : World)
      → WellFormed p.forwarder.ring
      → let sent = (serve_http sha geb json p r w).to_peers in
        (length sent ≤ 2)
        × All
            (λ (s : Text × HttpRequest).
              IsRelayed p.forwarder.ring.self r.method r.path r.body s
              × ((p' : Proxy F) (r' : Request) (w' : World)
                  → r'.headers ≡ s.1.headers
                  → (serve_http sha geb json p' r' w').to_peers ≡ []))
            sent
  serve_http_one_hop p r w wf =
      let (short, relayed) = serve_http-Relays p wf r w in
      (
        short,
        All_weaken (λ s h. (h, relayed-stops p.forwarder.ring.self r.method r.path r.body s h)) _
            relayed,
      )
