-- ===== src/Routing/Ring/Loads.antt =====
-- internal/routing/ring.go: `UpdatePeerLoad` and the invariant of the ring.
use loraplex.Go.Dict
use loraplex.Go.Dict.{Dict}
use loraplex.Go.Bytes.{Sha256}
use loraplex.Go.Sort.{Sorter}
use loraplex.Routing.Ring.{
  Peer, Ring, Vnode, vnode_hash, add_vnodes, add_peers, update, update_peer_load,
}
use loraplex.Routing.Ring.Placement.{WellFormed, knows}
use loraplex.Prelude.{
  Bool, subst, Text, Bool-cases, true, inr, refl, ◌≡◌, inl, Option-cases, str_eq, str_eq_iff, some,
  false, none, All_weaken, List, [], arith, ◌∷◌, ◌||◌, ◌∙◌, ℕ,
}

-- Whether the map has a peer, and whether a list names it.
abbrev pub has_peer : {F : Type 0} → Text → Dict (Peer F) → Bool
has_peer addr ps = elim (Dict.lookup addr ps) [ none ↦ false | some p ↦ true ]

abbrev pub names_peer : Text → List Text → Bool
names_peer addr [] = false
names_peer addr (a ∷ addrs) = str_eq a addr || names_peer addr addrs

add_peers-has_peer :
    (sha : Sha256) {F : Type 0} (no_load : F) (n : ℕ) (addr : Text) (addrs : List Text)
    (ps : Dict (Peer F)) (vs : List Vnode)
    → has_peer addr (add_peers sha no_load n addrs ps vs).0
      ≡ (names_peer addr addrs || has_peer addr ps)
unfolding add_peers
add_peers-has_peer sha no_load n addr [] ps vs = refl
add_peers-has_peer sha no_load n addr (a ∷ addrs) ps vs =
    add_peers-has_peer sha no_load n addr addrs
      (Dict.insert a (record { addr = a; load = no_load }) ps) (add_vnodes sha n 0 a vs)
    ∙ rw (Dict.lookup-insert a addr (record { addr = a; load = no_load }) ps, has_peer)
        (ground arith)

-- The map of an updated ring has the peers that `Update` was given.
pub update-has_peer :
    (sha : Sha256) (sorter : Sorter vnode_hash) {F : Type 0} (no_load : F) (addrs : List Text)
    (r : Ring F) (addr : Text)
    → has_peer addr (update sha sorter no_load addrs r).peers ≡ names_peer addr addrs
unfolding update
update-has_peer sha sorter no_load addrs r addr =
    add_peers-has_peer sha no_load r.vnodes_per_peer addr addrs [] []
    ∙ unfold Dict.lookup in ground arith

module _ {F : Type 0} (addr : Text) (load : F) (r : Ring F) where
  known_still :
      (p : Peer F) (v : Vnode)
      → Dict.lookup addr r.peers ≡ some p
      → knows r.peers v ≡ true
      → knows (Dict.insert addr (record p { load = load }) r.peers) v ≡ true
  known_still p v found h = elim (Bool-cases (str_eq addr v.peer)) [
    | inl same ↦
        let same' : addr ≡ v.peer = (str_eq_iff addr v.peer).0 same in
        rw (Dict.lookup-insert addr v.peer (record p { load = load }) r.peers, knows)
          (rw same (rw (subst (λ a. Dict.lookup a r.peers ≡ some p) same' found, knows) at h))
    | inr other ↦
        rw (Dict.lookup-insert addr v.peer (record p { load = load }) r.peers, knows) (rw other h)
  ]

  pub update_peer_load-WellFormed : WellFormed r → WellFormed (update_peer_load addr load r)
  unfolding update_peer_load
  update_peer_load-WellFormed wf = elim (Option-cases (Dict.lookup addr r.peers)) [
    | inl e ↦ rw (e, update_peer_load) wf
    | inr (p, e) ↦
        rw (e, update_peer_load)
          (record {
            sorted = wf.sorted;
            bounded = wf.bounded;
            known = All_weaken (λ v h. known_still p v e h) r.vnodes wf.known;
          })
  ]

  pub update_peer_load-vnodes : (update_peer_load addr load r).vnodes ≡ r.vnodes
  unfolding update_peer_load
  update_peer_load-vnodes = elim (Option-cases (Dict.lookup addr r.peers)) [
    | inl e ↦ rw (e, update_peer_load) refl
    | inr (p, e) ↦ rw (e, update_peer_load) refl
  ]

  pub update_peer_load-has_peer :
      (b : Text) → has_peer b (update_peer_load addr load r).peers ≡ has_peer b r.peers
  unfolding update_peer_load
  update_peer_load-has_peer b = elim (Option-cases (Dict.lookup addr r.peers)) [
    | inl e ↦ rw (e, update_peer_load) refl
    | inr (p, e) ↦
        rw (e, update_peer_load)
          (rw (Dict.lookup-insert addr b (record p { load = load }) r.peers, has_peer)
            (elim (Bool-cases (str_eq addr b)) [
              | inl same ↦ rw (same) (
                  rw
                    (
                      subst (λ a. Dict.lookup a r.peers ≡ some p) ((str_eq_iff addr b).0 same) e,
                      has_peer,
                    )
                    refl)
              | inr other ↦ rw other refl
            ]))
  ]
