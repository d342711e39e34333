-- ===== src/Routing/Ring/Clockwise.antt =====
-- `Owner` of internal/routing/ring.go, and the distances clockwise from the hash of the key.
use loraplex.Go.Dict
use mathlib.Core.Logic.{∥∥₁_elim}
use native.Mathlib.Decide.{dec_lt}
use loraplex.Go.Members.{mem_get_elem?, get_elem?_bound, get_elem?-mem, mem_All}
use native.Mathlib.Bridge.{le_prop}
use mathlib.Core.List.{Mem}
use loraplex.Go.Dict.{Dict}
use loraplex.Go.Bytes.{Sha256, be_uint32_bound}
use loraplex.Go.Search.{search, search-Separates, Separates, Monotone}
use loraplex.Go.Sort.{IsSorted}
use loraplex.Prelude.{
  [], zero, get_elem?-some, List, ◌%◌, ℕ, length, ◌+◌, ◌==◌, ◌<◌, get_elem?, ◌^◌, All, some, suc,
  ◌∷◌, ◌-◌, arith, ◌≡◌, if◌then◌else◌, ◌≤◌, ◌⊎◌, Bool-cases, inl, leb, inr, Text, ◌∙◌, none,
  str_eq_iff, Option-cases, true, ==_iff, Bool-set,
}
use loraplex.Routing.Ring.{Peer, Vnode, Ring, vnode_hash, hash_string, at_least, peer_at, owner}
use loraplex.Routing.Ring.Placement.{WellFormed, knows}

-- The way clockwise on the circle of 32-bit words from `h` to `x`.
abbrev pub gap : ℕ → ℕ → ℕ
gap h x = (x + 2 ^ 32 - h) % 2 ^ 32

pub record IsNearest (h : ℕ) (vs : List Vnode) (v : Vnode) : Type 0 where
  pub mem : Mem v vs
  pub nearest : (w : Vnode) → Mem w vs → gap h v.hash ≤ gap h w.hash

-- A sorted list has its hashes in the order of the indices.
pub sorted_get :
    (vs : List Vnode) (i j : ℕ) (v w : Vnode)
    → IsSorted vnode_hash vs
    → i ≤ j
    → get_elem? vs i ≡ some v
    → get_elem? vs j ≡ some w
    → v.hash ≤ w.hash
sorted_get [] i j v w s le e e' = cc
sorted_get (x ∷ xs) zero zero v w s le e e' = ground arith
sorted_get (x ∷ xs) zero (suc j) v w (hx, s) le e e' =
    let le' = mem_All (λ y. x.hash ≤ y.hash) (λ y. le_prop) w xs hx (get_elem?-mem xs j w e') in
    ground arith
sorted_get (x ∷ xs) (suc i) zero v w s le e e' = absurd (omega arith)
sorted_get (x ∷ xs) (suc i) (suc j) v w (hx, s) le e e' = sorted_get xs i j v w s (omega arith) e e'

pub at_least-Monotone :
    (vs : List Vnode) (h : ℕ) → IsSorted vnode_hash vs → Monotone (length vs) (at_least vs h)
unfolding at_least
at_least-Monotone vs h s a b le inside t =
    let (v, ev) = get_elem?-some vs a (omega arith) in
    let (w, ew) = get_elem?-some vs b inside in
    let le' = sorted_get vs a b v w s le ev ew in ground arith

pub at_least_get :
    (vs : List Vnode) (h i : ℕ) (v : Vnode)
    → get_elem? vs i ≡ some v
    → at_least vs h i ≡ leb h v.hash
unfolding at_least
at_least_get vs h i v e = rw (e, at_least)

-- Going clockwise from `h`: first the hashes from `h` up, ascending, then those below, ascending.
pub gap_ahead :
    (h a b : ℕ) → a < 2 ^ 32 → b < 2 ^ 32 → h ≤ a → (b < h) ⊎ (a ≤ b) → gap h a ≤ gap h b
gap_ahead h a b ha hb le c = omega arith

pub gap_behind : (h a b : ℕ) → h < 2 ^ 32 → b < h → a ≤ b → gap h a ≤ gap h b
gap_behind h a b hh hb le = omega arith

-- The index that `Owner` settles on.
pub owner_index : List Vnode → ℕ → ℕ
owner_index vs h =
    let idx = search (length vs) (at_least vs h) in if idx == length vs then 0 else idx

module _ (vs : List Vnode) (h : ℕ) (s : IsSorted vnode_hash vs) where
  pub owner_index_bound : 0 < length vs → owner_index vs h < length vs
  unfolding owner_index
  owner_index_bound pos =
      let sep = search-Separates (length vs) (at_least vs h) (at_least-Monotone vs h s) in
      let le = sep.within in ground arith

  module _ (bounded : All (λ v. v.hash < 2 ^ 32) vs) (small : h < 2 ^ 32) where
    -- Among vnodes by index, none is nearer than the one at the owner's index.
    gap-owner_index :
        (j : ℕ) (v w : Vnode)
        → get_elem? vs (owner_index vs h) ≡ some v
        → get_elem? vs j ≡ some w
        → gap h v.hash ≤ gap h w.hash
    unfolding owner_index at_least
    gap-owner_index j v w ev ew = elim (Bool-cases (idx == length vs)) [
      | inl wraps ↦
          let ev' = rw wraps at ev in
          gap_behind h v.hash w.hash small
            (below_hash
              (omega (arith, get_elem?_bound vs j w ew, (==_iff idx (length vs)).0 wraps)))
            (sorted_get vs 0 j v w s (omega arith) ev' ew)
      | inr inside ↦
          let ev' = rw inside at ev in
          gap_ahead h v.hash w.hash (hash_bound v (get_elem?-mem vs idx v ev'))
            (hash_bound w (get_elem?-mem vs j w ew))
            (ground (
              arith,
              at_least_get vs h idx v ev',
              sep.above idx (omega arith) (get_elem?_bound vs idx v ev'),
            ))
            (ahead ev')
    ]
      where
        idx : ℕ
        idx = search (length vs) (at_least vs h)

        sep : Separates (length vs) (at_least vs h) idx
        sep = search-Separates (length vs) (at_least vs h) (at_least-Monotone vs h s)

        hash_bound : (x : Vnode) → Mem x vs → x.hash < 2 ^ 32
        hash_bound x m = mem_All (λ y. y.hash < 2 ^ 32) (λ y. le_prop) x vs bounded m

        below_hash : j < idx → w.hash < h
        below_hash lt = ground (arith, at_least_get vs h j w ew, sep.below j lt)

        ahead : get_elem? vs idx ≡ some v → (w.hash < h) ⊎ (v.hash ≤ w.hash)
        ahead ev' = elim (dec_lt j idx) [
          | yes lt ↦ inl (below_hash lt)
          | no ge ↦ inr (sorted_get vs idx j v w s (omega arith) ev' ew)
        ]

pub known_peer :
    {F : Type 0} (peers : Dict (Peer F)) (v : Vnode)
    → knows peers v ≡ true
    → (p : Peer F) × (Dict.lookup v.peer peers ≡ some p) × (p.addr ≡ v.peer)
known_peer peers v k = elim (Option-cases (Dict.lookup v.peer peers)) [
  | inl e ↦ absurd (ground arith)
  | inr (p, e) ↦ (p, e, ground (arith, str_eq_iff p.addr v.peer))
]

module _ (sha : Sha256) {F : Type 0} (r : Ring F) (key : Text) where
  pub hash_string_bound : hash_string sha key < 2 ^ 32
  unfolding hash_string
  hash_string_bound = be_uint32_bound _ (sha.sum-All_bytes key)

  pub owner-peer_at :
      0 < length r.vnodes → owner sha r key ≡ peer_at r (owner_index r.vnodes (hash_string sha key))
  unfolding owner owner_index
  owner-peer_at pos = ground arith

  -- On a well-formed ring with a vnode, `Owner` returns a peer: that of a vnode such that no other
  -- is nearer clockwise from the hash of the key.
  pub owner-IsNearest :
      WellFormed r
      → 0 < length r.vnodes
      → (v : Vnode) × (p : Peer F) × IsNearest (hash_string sha key) r.vnodes v
        × (owner sha r key ≡ some p)
        × (p.addr ≡ v.peer)
  unfolding peer_at
  owner-IsNearest wf pos =
      let h = hash_string sha key in
      let i = owner_index r.vnodes h in
      let (v, ev) = get_elem?-some r.vnodes i (owner_index_bound r.vnodes h wf.sorted pos) in
      let m = get_elem?-mem r.vnodes i v ev in
      let (p, ep, ea) =
        known_peer r.peers v (mem_All _ (λ y. Bool-set _ _) v r.vnodes wf.known m) in
      (
        v,
        p,
        record {
          mem = m;
          nearest = λ w mw. ∥∥₁_elim (mem_get_elem? w r.vnodes mw) le_prop (λ (j, ew).
              gap-owner_index r.vnodes h wf.sorted wf.bounded hash_string_bound j v w ev ew);
        },
        owner-peer_at pos ∙ rw (ev, peer_at) ep,
        ea,
      )

  -- Without vnodes there is no owner.
  pub owner-none : length r.vnodes ≡ 0 → owner sha r key ≡ none
  unfolding owner
  owner-none e = ground arith
