-- ===== src/Routing/Forwarder/Sending.antt =====
-- Where `ForwardWithFallback` sends a request, and what it returns.
use loraplex.Go.Bytes.{Sha256}
use loraplex.Go.Http.{Header, HttpResponse}
use loraplex.Prelude.{
  ◌∙◌, [], Text, inl, str_eq_iff, List, inr, some, ◌∷◌, ◌≡◌, arith, ◌⊎◌, map, Result, ◌≢◌, false,
  sym, Bool-cases, Option-cases, ok, refl, none, err, ◌++◌,
}
use loraplex.Routing.Ring.{Peer, owner, fallback, is_self}
use loraplex.Routing.Ring.Placement.{WellFormed}
use loraplex.Routing.Ring.Fallback.{fallback-nearest_other}
use loraplex.Routing.Forwarder.{
  Forwarder, ForwardError, Sent, no_remote_fallback, forward, retry, forward_with_fallback,
}

abbrev pub targets : Sent → List Text
targets = map (λ s. s.0)

-- The second peer that is tried differs from the owner and from this node.
pub record IsAlternate (self owner_addr alternate : Text) : Type 0 where
  pub not_owner : alternate ≢ owner_addr
  pub not_self : alternate ≢ self

-- `Fallback` finds nobody, since all vnodes are the owner's, or this node.
abbrev pub NoAlternate : {F : Type 0} → Forwarder F → Sha256 → Text → Peer F → Type 0
NoAlternate f sha key o =
    (fallback sha f.ring key o.addr ≡ none)
    ⊎ ((p : Peer _) × ((fallback sha f.ring key o.addr ≡ some p) × (p.addr ≡ f.ring.self)))

module _ {F : Type 0} (f : Forwarder F) (method path body : Text) (headers : Header) where
  abbrev Reply : Type 0
  Reply = Result ForwardError HttpResponse × Sent

  -- `Forward` sends one request to the peer it is given, or none if the request cannot be built.
  forward-targets :
      (p : Peer F)
      → let sent = (forward f p method path body headers).1 in
        (targets sent ≡ []) ⊎ (targets sent ≡ p.addr ∷ [])
  unfolding forward
  forward-targets p = ground arith

  module _ (sha : Sha256) (key : Text) (wf : WellFormed f.ring) where
    fallback-IsAlternate :
        (o p : Peer F)
        → fallback sha f.ring key o.addr ≡ some p
        → is_self f.ring (some p) ≡ false
        → IsAlternate f.ring.self o.addr p.addr
    unfolding is_self
    fallback-IsAlternate o p e remote = elim (fallback-nearest_other sha f.ring key o.addr wf) [
      | inl (e', all) ↦ cc
      | inr (v, q, e', ea, mem, other, near) ↦ record {
        not_owner = λ eq. other (sym ea ∙ cc);
        not_self = λ eq. cc ((str_eq_iff p.addr f.ring.self).1 eq);
      }
    ]

    retry_cases :
        (o : Peer F) (first : Reply)
        → let r = retry sha f key o method path body headers first in
          ((resp : HttpResponse) × (first.0 ≡ ok resp) × (r ≡ first))
          ⊎ ((e : ForwardError) × (first.0 ≡ err e)
              × ((NoAlternate f sha key o × (r ≡ (err (no_remote_fallback o.addr), first.1)))
                  ⊎ ((p : Peer F) × (fallback sha f.ring key o.addr ≡ some p)
                      × IsAlternate f.ring.self o.addr p.addr
                      × (r ≡ (
                        (forward f p method path body headers).0,
                        first.1 ++ (forward f p method path body headers).1,
                      )))))
    unfolding retry
    retry_cases o (ok resp, sent) = inl (resp, refl, refl)
    retry_cases o (err e, sent) =
        inr (e, refl, alternate (Option-cases (fallback sha f.ring key o.addr)))
      where
        alternate :
            let next = fallback sha f.ring key o.addr in
            let r = retry sha f key o method path body headers (err e, sent) in
            ((next ≡ none) ⊎ ((p : Peer F) × (next ≡ some p)))
            → (NoAlternate f sha key o × (r ≡ (err (no_remote_fallback o.addr), sent)))
              ⊎ ((p : Peer F) × (next ≡ some p)
                  × IsAlternate f.ring.self o.addr p.addr
                  × (r ≡ (
                    (forward f p method path body headers).0,
                    sent ++ (forward f p method path body headers).1,
                  )))
        alternate (inl none_left) = inl (inl none_left, rw (none_left, retry) refl)
        alternate (inr (p, ep)) = elim (Bool-cases (is_self f.ring (some p))) [
          | inl here ↦ inl (
            inr (p, (ep, unfold is_self in (str_eq_iff p.addr f.ring.self).0 here)),
            rw (ep, retry) (rw here refl),
          )
          | inr remote ↦ inr (p, ep, fallback-IsAlternate o p ep remote, rw (ep, retry) (rw remote))
        ]

    forward_with_fallback-retry :
        (o : Peer F)
        → owner sha f.ring key ≡ some o
        → forward_with_fallback sha f key method path body headers
          ≡ retry sha f key o method path body headers (forward f o method path body headers)
    unfolding forward_with_fallback
    forward_with_fallback-retry o e = rw (e, forward_with_fallback)

    -- On a well-formed ring: a response of the owner is returned as it is. After a failure the request
    -- goes to the peer that `Fallback` finds, if that is neither the owner nor this node, and its answer is
    -- returned whatever it is. Only if `Fallback` finds nobody, or this node, the result is an error and
    -- nothing more is sent.
    pub forward_with_fallback_cases :
        (o : Peer F)
        → owner sha f.ring key ≡ some o
        → let first = forward f o method path body headers in
          let r = forward_with_fallback sha f key method path body headers in
          ((resp : HttpResponse) × (first.0 ≡ ok resp) × (r ≡ first))
          ⊎ ((e : ForwardError) × (first.0 ≡ err e)
              × ((NoAlternate f sha key o × (r ≡ (err (no_remote_fallback o.addr), first.1)))
                  ⊎ ((p : Peer F) × (fallback sha f.ring key o.addr ≡ some p)
                      × IsAlternate f.ring.self o.addr p.addr
                      × (r ≡ (
                        (forward f p method path body headers).0,
                        first.1 ++ (forward f p method path body headers).1,
                      )))))
    forward_with_fallback_cases o e =
        rw (forward_with_fallback-retry o e) (retry_cases o (forward f o method path body headers))
