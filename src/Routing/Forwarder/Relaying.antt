-- ===== src/Routing/Forwarder/Relaying.antt =====
-- Which requests `ForwardWithFallback` of internal/routing/forwarder.go sends, and the decision before it.
use loraplex.Go.Bytes.{Sha256}
use loraplex.Go.Http.Headers.{get-set}
use loraplex.Go.Http.{get, add_all, Header, HttpRequest}
use loraplex.Prelude.{
  Text, ◌≢◌, length, str_eq_iff, arith, refl, inr, false, Option-cases, All, true, some,
  length-append, Bool-cases, All-append, ◌≤◌, ◌≡◌, inl, Bool, codes, ◌++◌, [],
}
use loraplex.Routing.Forwarder.{
  header_forwarded, Forwarder, Sent, decide, forward, forward_request, forward_with_fallback,
}
use loraplex.Routing.Forwarder.Sending.{forward_with_fallback_cases}
use loraplex.Routing.Ring.{Peer, owner, is_self}
use loraplex.Routing.Ring.Placement.{WellFormed}

-- The request of a client as it is sent to a peer other than this node, with the mark.
pub record IsRelayed (self method path body : Text) (s : Text × HttpRequest) : Type 0 where
  pub to_other : s.0 ≢ self
  pub same_method : s.1.method ≡ method
  pub url_of_path : s.1.url ≡ codes "http://" ++ s.0 ++ path
  pub same_body : s.1.body ≡ body
  pub marked : get header_forwarded s.1.headers ≡ codes "true"

forward_request-IsRelayed :
    (self addr method path body : Text) (headers : Header)
    → addr ≢ self
    → IsRelayed self method path body (addr, forward_request addr method path body headers)
unfolding forward_request
forward_request-IsRelayed self addr method path body headers other = record {
  to_other = other;
  same_method = refl;
  url_of_path = refl;
  same_body = refl;
  marked = get-set header_forwarded (codes "true") (add_all headers []);
}

module _ {F : Type 0} (f : Forwarder F) where
  not_self-addr : (o : Peer F) → is_self f.ring (some o) ≡ false → o.addr ≢ f.ring.self
  unfolding is_self
  not_self-addr o remote = λ eq. cc ((str_eq_iff o.addr f.ring.self).1 eq)

  -- A request that is not served here has an owner, another node.
  pub decide-remote :
      (sha : Sha256) (geb : F → F → Bool) (key : Text) (is_forwarded : Bool)
      → (decide sha geb f key is_forwarded).handle_locally ≡ false
      → (o : Peer F) × ((owner sha f.ring key ≡ some o) × (o.addr ≢ f.ring.self))
  unfolding decide
  decide-remote sha geb key true h = cc
  decide-remote sha geb key false h = elim (Option-cases (owner sha f.ring key)) [
    | inl e ↦ cc (rw (e, decide) at h)
    | inr (o, e) ↦ elim (Bool-cases (is_self f.ring (some o))) [
      | inl here ↦ cc (rw here at (rw (e, decide) at h))
      | inr remote ↦ (o, (e, not_self-addr o remote))
    ]
  ]

module _ {F : Type 0} (f : Forwarder F) (method path body : Text) (headers : Header) where
  abbrev pub Relays : Sent → Type 0
  Relays sent = (length sent ≤ 2) × All (IsRelayed f.ring.self method path body) sent

  forward-IsRelayed :
      (p : Peer F)
      → p.addr ≢ f.ring.self
      → let sent = (forward f p method path body headers).1 in
        (length sent ≤ 1) × All (IsRelayed f.ring.self method path body) sent
  unfolding forward
  forward-IsRelayed p other =
      elim (Bool-cases
        (f.client.can_request method (forward_request p.addr method path body headers).url)) [
          | inl good ↦
              rw (good, forward)
                (
                  omega arith,
                  (forward_request-IsRelayed f.ring.self p.addr method path body headers other, tt),
                )
          | inr bad ↦ rw (bad, forward) (omega arith, tt)
        ]

  pub forward_with_fallback-Relays :
      (sha : Sha256) (key : Text)
      → WellFormed f.ring
      → (o : Peer F) → owner sha f.ring key ≡ some o
      → o.addr ≢ f.ring.self
      → Relays (forward_with_fallback sha f key method path body headers).1
  forward_with_fallback-Relays sha key wf o e remote =
      let (short, safe) = forward-IsRelayed o remote in
      elim (forward_with_fallback_cases f method path body headers sha key wf o e) [
        | inl (resp, eq, er) ↦ rw er (omega arith, safe)
        | inr (fail, eq, inl (none_left, er)) ↦ rw er (omega arith, safe)
        | inr (fail, eq, inr (p, found, alt, er)) ↦
            let (short', safe') = forward-IsRelayed p alt.not_self in
            rw er (
              omega (
                arith,
                length-append {0} (forward f o method path body headers).1
                    (forward f p method path body headers).1,
              ),
              All-append _ _ _ safe safe',
            )
      ]
