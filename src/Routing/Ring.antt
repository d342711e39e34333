-- ===== src/Routing/Ring.antt =====
-- internal/routing/ring.go: the consistent-hash ring.
pub mod Placement
pub mod Clockwise
pub mod Consistency
pub mod Rounds
pub mod Fallback
pub mod Loads
use loraplex.Go.Bytes.{Sha256, be_uint32, put_uint32}
use loraplex.Go.Dict
use loraplex.Go.Dict.{Dict}
use loraplex.Go.Search.{search}
use loraplex.Go.Sort.{Sorter}
use loraplex.Prelude.{
  Bool, none, true, ◌∷◌, leb, length, ◌++◌, suc, zero, ◌+◌, get_elem?, ◌%◌, some, if◌then◌else◌,
  List, ◌==◌, map, str_eq, Text, [], Option, ℕ,
}

-- `Load` is a float64; the ring stores and returns it, and looks at it nowhere.
pub record Peer (F : Type 0) : Type 0 where
  pub addr : Text
  pub load : F

pub record Vnode : Type 0 where
  pub hash : ℕ
  pub peer : Text

abbrev pub vnode_hash : Vnode → ℕ
vnode_hash v = v.hash

pub record Ring (F : Type 0) : Type 0 where
  pub vnodes : List Vnode
  pub peers : Dict (Peer F)
  pub vnodes_per_peer : ℕ
  pub self : Text

unfoldable pub new_ring : {F : Type 0} → ℕ → Text → Ring F
new_ring vnodes_per_peer self_addr = record {
  vnodes = [];
  peers = [];
  vnodes_per_peer = vnodes_per_peer;
  self = self_addr;
}

module _ (sha : Sha256) where
  unfoldable pub hash_key : Text → ℕ → ℕ
  hash_key addr idx = be_uint32 (sha.sum (addr ++ put_uint32 idx))

  unfoldable pub hash_string : Text → ℕ
  hash_string s = be_uint32 (sha.sum s)

  -- The inner loop of `Update`, from the index `i`.
  unfoldable pub add_vnodes : ℕ → ℕ → Text → List Vnode → List Vnode
  add_vnodes zero i addr vs = vs
  add_vnodes (suc n) i addr vs =
      add_vnodes n (i + 1) addr (vs ++ record { hash = hash_key addr i; peer = addr } ∷ [])

  -- The outer loop of `Update`; `no_load` is the zero value of the field `Load`.
  unfoldable pub add_peers :
      {F : Type 0} → F → ℕ → List Text → Dict (Peer F) → List Vnode → Dict (Peer F) × List Vnode
  add_peers no_load n [] peers vs = (peers, vs)
  add_peers no_load n (addr ∷ addrs) peers vs =
      add_peers no_load n addrs (Dict.insert addr (record { addr = addr; load = no_load }) peers)
        (add_vnodes n 0 addr vs)

  unfoldable pub update : {F : Type 0} → Sorter vnode_hash → F → List Text → Ring F → Ring F
  update sorter no_load addrs r =
      let (peers, vnodes) = add_peers no_load r.vnodes_per_peer addrs [] [] in
      record r { peers = peers; vnodes = sorter.sort vnodes }

-- The test that `Owner` and `Fallback` hand to `sort.Search`.
unfoldable pub at_least : List Vnode → ℕ → ℕ → Bool
at_least vs h i = elim (get_elem? vs i) [ none ↦ true | some v ↦ leb h v.hash ]

module _ {F : Type 0} where
  -- `r.peers[r.vnodes[i].peer]`: `none` is a nil pointer. An index out of range, a panic in Go,
  -- would read `none` too.
  unfoldable pub peer_at : Ring F → ℕ → Option (Peer F)
  peer_at r i = elim (get_elem? r.vnodes i) [ none ↦ none | some v ↦ Dict.lookup v.peer r.peers ]

  unfoldable pub owner : Sha256 → Ring F → Text → Option (Peer F)
  unfolding at_least peer_at
  owner sha r key =
      let n = length r.vnodes in
      let idx = search n (at_least r.vnodes (hash_string sha key)) in
      if n == 0 then none else peer_at r (if idx == n then 0 else idx)

  -- The loop of `Fallback`: `rounds` is the number of vnodes that are not seen yet.
  unfoldable pub fallback_from : ℕ → Ring F → ℕ → ℕ → Text → Option (Peer F)
  fallback_from zero r idx seen skip = none
  fallback_from (suc rounds) r idx seen skip =
      let rest = fallback_from rounds r idx (seen + 1) skip in
      let i = (idx + seen) % length r.vnodes in
      elim (get_elem? r.vnodes i) [
        | none ↦ none
        | some v ↦ if str_eq v.peer skip then rest else Dict.lookup v.peer r.peers
      ]

  unfoldable pub fallback : Sha256 → Ring F → Text → Text → Option (Peer F)
  unfolding fallback_from
  fallback sha r key skip =
      let n = length r.vnodes in
      let idx = search n (at_least r.vnodes (hash_string sha key)) in
      if n == 0 then none else fallback_from n r idx 0 skip

  -- A nil peer counts as this node.
  unfoldable pub is_self : Ring F → Option (Peer F) → Bool
  is_self r none = true
  is_self r (some p) = str_eq p.addr r.self

  unfoldable pub peer_count : Ring F → ℕ
  peer_count r = length r.peers

  -- A map has no order; this is one of the orders that `Peers` may give.
  unfoldable pub peers : Ring F → List (Peer F)
  peers r = map (λ e. e.1) r.peers

  unfoldable pub update_peer_load : Text → F → Ring F → Ring F
  update_peer_load addr load r = elim (Dict.lookup addr r.peers) [
    | none ↦ r
    | some p ↦ record r { peers = Dict.insert addr (record p { load = load }) r.peers }
  ]
