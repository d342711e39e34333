-- ===== src/Health/Overload.antt =====
-- How the checks of internal/health/checker.go act on the decision of internal/routing/forwarder.go.
use loraplex.Go.Members.{get_elem?-mem, mem_All}
use loraplex.Go.Bytes.{Sha256}
use loraplex.Go.Dict
use loraplex.Go.Http.{HttpClient}
use loraplex.Health.{Loads, get_request, check_peer, peer_answered}
use loraplex.Routing.Forwarder.{Forwarder, decide, decide_owner}
use loraplex.Routing.Ring.{
  Peer, Ring, Vnode, update_peer_load, hash_string, owner, peer_at, is_self,
}
use loraplex.Routing.Ring.Placement.{WellFormed}
use loraplex.Routing.Ring.Clockwise.{owner_index, owner_index_bound, owner-peer_at, known_peer}
use loraplex.Prelude.{
  Bool, some, ◌<◌, Text, ◌≡◌, arith, none, false, length, codes, true, get_elem?, ◌∙◌, refl, ◌++◌,
  get_elem?-some, Bool-set,
}

module _ (sha : Sha256) {F : Type 0} (r : Ring F) (key : Text) (o : Peer F) where
  owner_positive : owner sha r key ≡ some o → 0 < length r.vnodes
  unfolding owner
  owner_positive h = ground arith

  -- The vnode at which the search for the owner has stopped, and the owner in the map of peers.
  owner_vnode :
      WellFormed r
      → owner sha r key ≡ some o
      → (v : Vnode) × (0 < length r.vnodes)
        × (get_elem? r.vnodes (owner_index r.vnodes (hash_string sha key)) ≡ some v)
        × (v.peer ≡ o.addr)
        × (Dict.lookup o.addr r.peers ≡ some o)
  unfolding peer_at
  owner_vnode wf h =
      let pos = owner_positive h in
      let i = owner_index r.vnodes (hash_string sha key) in
      let (v, at_index) =
        get_elem?-some r.vnodes i
          (owner_index_bound r.vnodes (hash_string sha key) wf.sorted pos) in
      let m = get_elem?-mem r.vnodes i v at_index in
      let (p, found, same) =
        known_peer r.peers v (mem_All _ (λ y. Bool-set _ _) v r.vnodes wf.known m) in
      let owns : owner sha r key ≡ some p =
        owner-peer_at sha r key pos ∙ rw (at_index, peer_at) found in
      (v, pos, at_index, cc (owns, h, same), cc (owns, h, same, found))

  update_found :
      (load : F)
      → Dict.lookup o.addr r.peers ≡ some o
      → update_peer_load o.addr load r
        ≡ record r { peers = Dict.insert o.addr (record o { load = load }) r.peers }
  unfolding update_peer_load
  update_found load h = rw (h, update_peer_load) refl

  -- The owner of a key is the same peer after its load was set, with that load.
  pub owner-update_peer_load :
      (load : F)
      → WellFormed r
      → owner sha r key ≡ some o
      → owner sha (update_peer_load o.addr load r) key ≡ some (record o { load = load })
  unfolding peer_at
  owner-update_peer_load load wf h =
      let (v, pos, at_index, same, found) = owner_vnode wf h in
      let r' : Ring F = record r {
        peers = Dict.insert o.addr (record o { load = load }) r.peers;
      } in
      rw (update_found load found) (
        owner-peer_at sha r' key pos
        ∙ rw (at_index, peer_at, same) (Dict.lookup-insert_self o.addr _ r.peers))

update_peer_load-self :
    {F : Type 0} (addr : Text) (load : F) (r : Ring F)
    → (update_peer_load addr load r).self ≡ r.self
unfolding update_peer_load
update_peer_load-self addr load r = ground arith

module _ (sha : Sha256) {F : Type 0} (geb : F → F → Bool) (loads : Loads F) (client : HttpClient)
    (f : Forwarder F) (key : Text) (o : Peer F) where
  check_peer_unreachable :
      client.can_request (codes "GET") (codes "http://" ++ o.addr ++ codes "/healthz") ≡ true
      → client.send (get_request (codes "http://" ++ o.addr ++ codes "/healthz")) ≡ none
      → check_peer loads client o.addr f.ring ≡ update_peer_load o.addr loads.one f.ring
  unfolding check_peer peer_answered
  check_peer_unreachable can dead = rw (can, dead) refl

  -- After a check that could not reach a peer, this node serves the keys of that peer itself, and counts
  -- them as overflow, if the threshold is at most 1.
  pub decide-check_peer :
      WellFormed f.ring
      → owner sha f.ring key ≡ some o
      → is_self f.ring (some o) ≡ false
      → geb loads.one f.threshold ≡ true
      → client.can_request (codes "GET") (codes "http://" ++ o.addr ++ codes "/healthz") ≡ true
      → client.send (get_request (codes "http://" ++ o.addr ++ codes "/healthz")) ≡ none
      → decide sha geb (record f { ring = check_peer loads client o.addr f.ring }) key false
        ≡ record { handle_locally = true; forward_to = none; overflow = true }
  unfolding decide decide_owner is_self
  decide-check_peer wf own other full can dead =
      rw
        (
          check_peer_unreachable can dead,
          owner-update_peer_load sha f.ring key o loads.one wf own,
          decide,
        )
        (rw (update_peer_load-self o.addr loads.one f.ring, other, full) refl)
