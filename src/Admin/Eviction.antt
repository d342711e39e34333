-- ===== src/Admin/Eviction.antt =====
-- How an eviction of internal/admin/handler.go is passed on to the peers.
use loraplex.Admin.{
  AdminRequest, Handler, AdminOutcome, evict, evict_named, evicted, pass_on, refuse, evict_path,
  evict_headers,
}
use loraplex.Cache.Manager.{evict_adapter}
use loraplex.Cache.World.{World, CacheError}
use loraplex.Go.Http.{Header, HttpRequest, get, add_all}
use loraplex.Go.Http.Headers.{get-set}
use loraplex.Routing.Forwarder.{Forwarder, Sent, forward, forward_request, header_forwarded}
use loraplex.Routing.Ring.{Peer, is_self, peers}
use loraplex.Prelude.{
  str_eq, ok, if_both, true, codes, ◌≡◌, ◌∷◌, List, All, Result, err, [], Text, refl, none, Option,
  str_eq_refl, some, is_empty, All-append, inr, Bool-cases, inl,
}

-- The request bears the mark of a forwarded one.
abbrev pub IsMarked : Header → Type 0
IsMarked headers = str_eq (get header_forwarded headers) (codes "true") ≡ true

abbrev AllMarked : Sent → Type 0
AllMarked = All (λ (s : Text × HttpRequest). IsMarked s.1.headers)

forward_request-IsMarked :
    (addr method path body : Text) (headers : Header)
    → IsMarked (forward_request addr method path body headers).headers
unfolding forward_request
forward_request-IsMarked addr method path body headers =
    rw (get-set header_forwarded (codes "true") (add_all headers [])) (str_eq_refl (codes "true"))

forward-AllMarked :
    {F : Type 0} (f : Forwarder F) (p : Peer F) (method path body : Text) (headers : Header)
    → AllMarked (forward f p method path body headers).1
unfolding forward
forward-AllMarked f p method path body headers =
    elim (Bool-cases
      (f.client.can_request method (forward_request p.addr method path body headers).url)) [
        | inl e ↦ rw (e, forward) (forward_request-IsMarked p.addr method path body headers, tt)
        | inr e ↦ rw (e, forward) tt
      ]

module _ {F : Type 0} (h : Handler F) where
  pass_on-AllMarked : (adapter : Text) (ps : List (Peer F)) → AllMarked (pass_on h adapter ps)
  unfolding pass_on
  pass_on-AllMarked adapter [] = tt
  pass_on-AllMarked adapter (p ∷ ps) =
      let rest = pass_on-AllMarked adapter ps in
      if_both AllMarked (is_self h.fwd.ring (some p)) _ _ rest (
        All-append (λ (s : Text × HttpRequest). IsMarked s.1.headers) _ _
          (forward-AllMarked h.fwd p (codes "POST") evict_path (h.codec.encode_evict adapter)
            evict_headers)
          rest)

  evicted-AllMarked :
      (r : AdminRequest) (adapter : Text) (x : Result CacheError (Unit {0}) × World)
      → AllMarked (evicted h r adapter x).sent
  unfolding evicted refuse
  evicted-AllMarked r adapter (err e, w) = tt
  evicted-AllMarked r adapter (ok u, w) =
      if_both AllMarked (str_eq (get header_forwarded r.headers) (codes "true")) _ _ tt
        (pass_on-AllMarked adapter (peers h.fwd.ring))

  evict_named-AllMarked :
      (r : AdminRequest) (o : Option Text) (w : World) → AllMarked (evict_named h r o w).sent
  unfolding evict_named refuse
  evict_named-AllMarked r none w = tt
  evict_named-AllMarked r (some adapter) w =
      if_both (λ (x : AdminOutcome). AllMarked x.sent) (is_empty adapter) _ _ tt
        (evicted-AllMarked r adapter (evict_adapter adapter w))

  module _ (r : AdminRequest) (marked : IsMarked r.headers) where
    evicted-marked :
        (adapter : Text) (x : Result CacheError (Unit {0}) × World)
        → (evicted h r adapter x).sent ≡ []
    unfolding evicted refuse
    evicted-marked adapter (err e, w) = refl
    evicted-marked adapter (ok u, w) = rw (marked, evicted) refl

    evict_named-marked : (o : Option Text) (w : World) → (evict_named h r o w).sent ≡ []
    unfolding evict_named refuse
    evict_named-marked none w = refl
    evict_named-marked (some adapter) w =
        if_both (λ (x : AdminOutcome). x.sent ≡ []) (is_empty adapter) _ _ refl
          (evicted-marked adapter (evict_adapter adapter w))

-- What the handler of a peer reads of an eviction that it is sent.
abbrev pub received : HttpRequest → AdminRequest
received req = record {
  method = req.method;
  path = evict_path;
  headers = req.headers;
  body = req.body;
}

module _ {F : Type 0} (h h' : Handler F) (w' : World) where
  none_from :
      (sent : Sent)
      → AllMarked sent
      → All (λ (s : Text × HttpRequest). (evict h' (received s.1) w').sent ≡ []) sent
  unfolding evict
  none_from [] m = tt
  none_from ((addr, req) ∷ sent) (m, ms) =
      (evict_named-marked h' (received req) m _ w', none_from sent ms)

  -- An eviction is passed on by one hop: whatever a node sends when it is asked to evict an adapter, the
  -- peer that gets it, in any state, sends nothing more.
  pub evict_one_hop :
      (r : AdminRequest) (w : World)
      → All (λ (s : Text × HttpRequest). (evict h' (received s.1) w').sent ≡ []) (evict h r w).sent
  unfolding evict
  evict_one_hop r w =
      none_from (evict h r w).sent (evict_named-AllMarked h r (h.codec.decode_evict r.body) w)
