-- ===== src/Health/Peers.antt =====
-- internal/health/checker.go: a check and the invariant of the ring.
use loraplex.Go.Http.{HttpClient, HttpResponse}
use loraplex.Health.{Loads, get_request, peer_answered, check_peer, check_each}
use loraplex.Routing.Ring.{Peer, Ring, update_peer_load}
use loraplex.Routing.Ring.Loads.{has_peer, update_peer_load-WellFormed, update_peer_load-has_peer}
use loraplex.Routing.Ring.Placement.{WellFormed}
use loraplex.Prelude.{
  if◌then◌else◌, inr, codes, inl, ◌∷◌, none, Text, if_both, Option-cases, ◌∙◌, str_eq, some, ◌≡◌,
  refl, ◌++◌, List, Option, [],
}

-- The same peers, on a ring that is still well formed.
pub record SamePeers {F : Type 0} (r r' : Ring F) : Type 0 where
  pub well_formed : WellFormed r'
  pub same : (addr : Text) → has_peer addr r'.peers ≡ has_peer addr r.peers

module _ {F : Type 0} (loads : Loads F) (client : HttpClient) where
  SamePeers-refl : (r : Ring F) → WellFormed r → SamePeers r r
  SamePeers-refl r wf = record { well_formed = wf; same = λ addr. refl }

  loaded :
      (addr : Text) (load : F) (r : Ring F)
      → WellFormed r
      → SamePeers r (update_peer_load addr load r)
  loaded addr load r wf = record {
    well_formed = update_peer_load-WellFormed addr load r wf;
    same = update_peer_load-has_peer addr load r;
  }

  peer_answered-SamePeers :
      (addr : Text) (o : Option HttpResponse) (r : Ring F)
      → WellFormed r
      → SamePeers r (peer_answered loads addr o r)
  unfolding peer_answered
  peer_answered-SamePeers addr none r wf = loaded addr loads.one r wf
  peer_answered-SamePeers addr (some resp) r wf = elim (Option-cases (loads.load_of resp.body)) [
    | inl e ↦ rw (e, peer_answered) (SamePeers-refl r wf)
    | inr (load, e) ↦ rw (e, peer_answered) (loaded addr load r wf)
  ]

  check_peer-SamePeers :
      (addr : Text) (r : Ring F) → WellFormed r → SamePeers r (check_peer loads client addr r)
  unfolding check_peer
  check_peer-SamePeers addr r wf =
      let req = get_request (codes "http://" ++ addr ++ codes "/healthz") in
      if_both (λ (x : Ring F). SamePeers r x) (client.can_request req.method req.url)
        (peer_answered loads addr (client.send req) r) r
        (peer_answered-SamePeers addr (client.send req) r wf) (SamePeers-refl r wf)

  pub check_each-SamePeers :
      (self : Text) (ps : List (Peer F)) (r : Ring F)
      → WellFormed r
      → SamePeers r (check_each loads client self ps r)
  unfolding check_each
  check_each-SamePeers self [] r wf = SamePeers-refl r wf
  check_each-SamePeers self (p ∷ ps) r wf =
      let r' = if str_eq p.addr self then r else check_peer loads client p.addr r in
      let first =
        if_both (λ (x : Ring F). SamePeers r x) (str_eq p.addr self) r
          (check_peer loads client p.addr r) (SamePeers-refl r wf)
          (check_peer-SamePeers p.addr r wf) in
      let later = check_each-SamePeers self ps r' first.well_formed in
      record { well_formed = later.well_formed; same = λ addr. later.same addr ∙ first.same addr }
