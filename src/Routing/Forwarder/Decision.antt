-- ===== src/Routing/Forwarder/Decision.antt =====
-- `Decide` of internal/routing/forwarder.go, and the request that `Forward` makes.
use loraplex.Go.Bytes.{Sha256}
use loraplex.Go.Http.{Header, canonical, values, get, add_all}
use loraplex.Go.Http.Headers.{get-set, IsCanonical, values-set, values-add_all, values-nil}
use loraplex.Prelude.{
  Bool, ◌↔◌, none, false, refl, some, str_eq_refl, ◌≢◌, ◌≡◌, Text, ◌∷◌, arith, str_eq, [], true,
  codes, if◌then◌else◌, Option-cases, inr, Bool-cases, inl,
}
use loraplex.Routing.Ring.{Peer, owner, is_self}
use loraplex.Routing.Forwarder.{Forwarder, header_forwarded, decide, forward_request}

canonical-header_forwarded : canonical header_forwarded ≡ header_forwarded
unfolding canonical
canonical-header_forwarded = refl

module _ (sha : Sha256) {F : Type 0} (geb : F → F → Bool) (f : Forwarder F) (key : Text) where
  -- An overflow has an owner that would get the request if its load were lower.
  decide-overflow :
      (is_forwarded : Bool)
      → (decide sha geb f key is_forwarded).overflow ≡ true
      → (q : Peer F) × ((is_forwarded ≡ false)
          × (owner sha f.ring key ≡ some q)
          × (is_self f.ring (some q) ≡ false)
          × (geb q.load f.threshold ≡ true))
  unfolding decide
  decide-overflow true h = cc
  decide-overflow false h = elim (Option-cases (owner sha f.ring key)) [
    | inl e ↦ cc (rw (e, decide) at h)
    | inr (q, e) ↦
        let h1 = rw (e, decide) at h in
        elim (Bool-cases (is_self f.ring (some q))) [
          | inl here ↦ cc (rw here at h1)
          | inr remote ↦ elim (Bool-cases (geb q.load f.threshold)) [
            | inl full ↦ (q, (refl, e, remote, full))
            | inr low ↦ cc (rw (remote, low) at h1)
          ]
        ]
  ]

  -- `Decide` forwards a request exactly if it was not forwarded to this node, its key has an owner
  -- other than this node, and that owner's load is below the threshold; then it names that owner. It
  -- reports an overflow exactly if it was not forwarded to this node and its key has such an owner, whose
  -- load is not below the threshold.
  pub decide_iff :
      (is_forwarded : Bool) (o : Peer F)
      → let d = decide sha geb f key is_forwarded in
        let remote =
          (is_forwarded ≡ false)
          × (owner sha f.ring key ≡ some o)
          × (is_self f.ring (some o) ≡ false) in
        ((d.forward_to ≡ some o) ↔ (remote × (geb o.load f.threshold ≡ false)))
        × ((d.handle_locally ≡ false) ↔ (d.forward_to ≢ none))
        × (remote → (d.overflow ≡ geb o.load f.threshold))
        × ((d.overflow ≡ true)
            → (q : Peer F) × ((is_forwarded ≡ false)
                × (owner sha f.ring key ≡ some q)
                × (is_self f.ring (some q) ≡ false)
                × (geb q.load f.threshold ≡ true)))
  unfolding decide is_self
  decide_iff is_forwarded o = (
    (λ h. ground arith, λ h. ground arith),
    (λ h. ground arith, λ h. ground arith),
    λ h. ground arith,
    decide-overflow is_forwarded,
  )

-- One hop: the request that a node sends to a peer is served by whatever node receives it.
pub decide-forward_request :
    (sha : Sha256) {F : Type 0} (geb : F → F → Bool) (f : Forwarder F)
    (key addr method path body : Text) (headers : Header)
    → let req = forward_request addr method path body headers in
      decide sha geb f key (str_eq (get header_forwarded req.headers) (codes "true"))
      ≡ record { handle_locally = true; forward_to = none; overflow = false }
unfolding decide forward_request
decide-forward_request sha geb f key addr method path body headers =
    rw (get-set header_forwarded (codes "true") (add_all headers []), str_eq_refl (codes "true"))

-- A peer gets the client's headers, name by name, and the mark of a forwarded request once, whatever
-- the client sent under that name.
pub values-forward_request :
    (addr method path body : Text) (headers : Header) (name : Text)
    → IsCanonical headers
    → values name (forward_request addr method path body headers).headers
      ≡ (if str_eq header_forwarded name then codes "true" ∷ [] else values name headers)
unfolding forward_request
values-forward_request addr method path body headers name c = ground (
  arith,
  values-set header_forwarded name (codes "true") (add_all headers []),
  values-add_all headers [] name c,
  values-nil name,
  canonical-header_forwarded,
)
