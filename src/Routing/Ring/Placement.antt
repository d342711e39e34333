-- ===== src/Routing/Ring/Placement.antt =====
-- What `Update` of internal/routing/ring.go puts on the ring, and when a ring is well-formed.
use mathlib.Core.List.Perm
use loraplex.Go.Members.{perm-All, All-of_mem}
use native.Mathlib.Bridge.{le_prop}
use mathlib.Core.HLevel.{×_prop}
use mathlib.Core.List.{
  mem-append, mem-cons_of_mem, mem-cons_self, mem-append_right, mem-append_left, Mem-prop, Mem,
  not-mem-nil, eq-or-mem_of_mem-cons,
}
use mathlib.Core.Logic.Or
use loraplex.Go.Bytes.{Sha256, be_uint32_bound}
use loraplex.Go.Dict
use loraplex.Go.Dict.{Dict}
use loraplex.Go.Sort.{Sorter, IsSorted}
use loraplex.Prelude.{
  Bool, ◌^◌, ℕ, ◌+◌, append_assoc, zero, [], str_eq, ◌∷◌, none, append-nil, sym, Text, some, ap,
  ◌≡◌, ◌++◌, suc, ◌<◌, All-append, All, true, List, false, Bool-set, arith, str_eq_iff, inl, inr,
  ◌⊎◌, Text-set, subst,
}
use loraplex.Routing.Ring.{
  update, update, update, update, update, Peer, Vnode, Ring, vnode_hash, hash_key, add_vnodes,
  add_peers,
}

-- The map has the vnode's peer, under its own address.
abbrev pub knows : {F : Type 0} → Dict (Peer F) → Vnode → Bool
knows peers v = elim (Dict.lookup v.peer peers) [ none ↦ false | some p ↦ str_eq p.addr v.peer ]

pub record WellFormed {F : Type 0} (r : Ring F) : Type 0 where
  pub sorted : IsSorted vnode_hash r.vnodes
  pub bounded : All (λ v. v.hash < 2 ^ 32) r.vnodes
  pub known : All (λ v. knows r.peers v ≡ true) r.vnodes

module _ (sha : Sha256) where
  -- The vnodes of one peer from the index `i`, and those of several peers.
  block : ℕ → ℕ → Text → List Vnode
  block zero i addr = []
  block (suc n) i addr = record { hash = hash_key sha addr i; peer = addr } ∷ block n (i + 1) addr

  blocks : ℕ → List Text → List Vnode
  blocks n [] = []
  blocks n (addr ∷ addrs) = block n 0 addr ++ blocks n addrs

  add_vnodes-block :
      (n i : ℕ) (addr : Text) (vs : List Vnode) → add_vnodes sha n i addr vs ≡ vs ++ block n i addr
  unfolding add_vnodes block
  add_vnodes-block zero i addr vs = sym (append-nil vs)
  add_vnodes-block (suc n) i addr vs = simp (add_vnodes-block n, append_assoc)

  add_peers-blocks :
      {F : Type 0} (no_load : F) (n : ℕ) (addrs : List Text) (ps : Dict (Peer F)) (vs : List Vnode)
      → (add_peers sha no_load n addrs ps vs).1 ≡ vs ++ blocks n addrs
  unfolding add_peers blocks
  add_peers-blocks no_load n [] ps vs = sym (append-nil vs)
  add_peers-blocks no_load n (addr ∷ addrs) ps vs =
      simp (add_peers-blocks no_load n addrs, add_vnodes-block, append_assoc)

  block-All_bounded : (n i : ℕ) (addr : Text) → All (λ v. v.hash < 2 ^ 32) (block n i addr)
  unfolding block hash_key
  block-All_bounded zero i addr = tt
  block-All_bounded (suc n) i addr =
      (be_uint32_bound _ (sha.sum-All_bytes _), block-All_bounded n (i + 1) addr)

  blocks-All_bounded : (n : ℕ) (addrs : List Text) → All (λ v. v.hash < 2 ^ 32) (blocks n addrs)
  unfolding blocks
  blocks-All_bounded n [] = tt
  blocks-All_bounded n (addr ∷ addrs) =
      All-append _ (block n 0 addr) (blocks n addrs) (block-All_bounded n 0 addr)
        (blocks-All_bounded n addrs)

  block-peer : (w : Vnode) (n i : ℕ) (addr : Text) → Mem w (block n i addr) → w.peer ≡ addr
  unfolding block
  block-peer w zero i addr m = absurd (not-mem-nil m)
  block-peer w (suc n) i addr m =
      Or.elim (Text-set _ _) (eq-or-mem_of_mem-cons m) (λ e. ap (λ (v : Vnode). v.peer) e)
        (block-peer w n (i + 1) addr)

  -- A vnode is among those of several peers exactly if it is one of its own peer's, which is listed.
  mem-blocks_to :
      (w : Vnode) (n : ℕ) (addrs : List Text)
      → Mem w (blocks n addrs)
      → Mem w (block n 0 w.peer) × Mem w.peer addrs
  unfolding blocks
  mem-blocks_to w n [] m = absurd (not-mem-nil m)
  mem-blocks_to w n (addr ∷ addrs) m =
      Or.elim (×_prop Mem-prop Mem-prop) (mem-append.0 m)
        (λ here.
          let e : w.peer ≡ addr = block-peer w n 0 addr here in
          (subst (λ a. Mem w (block n 0 a)) (sym e) here, rw e mem-cons_self))
        (λ there.
          let (own, listed) = mem-blocks_to w n addrs there in (own, mem-cons_of_mem addr listed))

  mem-blocks_of :
      (w : Vnode) (n : ℕ) (addrs : List Text)
      → Mem w (block n 0 w.peer)
      → Mem w.peer addrs
      → Mem w (blocks n addrs)
  unfolding blocks
  mem-blocks_of w n [] own listed = absurd (not-mem-nil listed)
  mem-blocks_of w n (addr ∷ addrs) own listed =
      Or.elim Mem-prop (eq-or-mem_of_mem-cons listed)
        (λ e. mem-append_left _ (subst (λ a. Mem w (block n 0 a)) e own))
        (λ m. mem-append_right _ (mem-blocks_of w n addrs own m))

  module _ {F : Type 0} (no_load : F) (n : ℕ) (v : Vnode) where
    knows-insert :
        (addr : Text) (ps : Dict (Peer F))
        → (str_eq addr v.peer ≡ true) ⊎ (knows ps v ≡ true)
        → knows (Dict.insert addr (record { addr = addr; load = no_load }) ps) v ≡ true
    knows-insert addr ps h =
        ground (arith, Dict.lookup-insert addr v.peer (record { addr = addr; load = no_load }) ps)

    add_peers-knows_old :
        (addrs : List Text) (ps : Dict (Peer F)) (vs : List Vnode)
        → knows ps v ≡ true
        → knows (add_peers sha no_load n addrs ps vs).0 v ≡ true
    unfolding add_peers
    add_peers-knows_old [] ps vs h = h
    add_peers-knows_old (addr ∷ addrs) ps vs h =
        add_peers-knows_old addrs _ _ (knows-insert addr ps (inr h))

    add_peers-knows :
        (addrs : List Text) (ps : Dict (Peer F)) (vs : List Vnode)
        → Mem v.peer addrs
        → knows (add_peers sha no_load n addrs ps vs).0 v ≡ true
    unfolding add_peers
    add_peers-knows [] ps vs m = absurd (not-mem-nil m)
    add_peers-knows (addr ∷ addrs) ps vs m =
        Or.elim (Bool-set _ _) (eq-or-mem_of_mem-cons m)
          (λ e.
            add_peers-knows_old addrs _ _
              (knows-insert addr ps (inl ((str_eq_iff addr v.peer).1 (sym e)))))
          (add_peers-knows addrs _ _)

module _ (sha : Sha256) (sorter : Sorter vnode_hash) {F : Type 0} (no_load : F) where
  mem-update_to :
      (r : Ring F) (addrs : List Text) (w : Vnode)
      → Mem w (update sha sorter no_load addrs r).vnodes
      → Mem w (blocks sha r.vnodes_per_peer addrs)
  unfolding update
  mem-update_to r addrs w m =
      rw (add_peers-blocks sha no_load r.vnodes_per_peer addrs [] []) at
        ((Perm.mem_iff (sorter.sort-perm _)).0 m)

  mem-update_of :
      (r : Ring F) (addrs : List Text) (w : Vnode)
      → Mem w (blocks sha r.vnodes_per_peer addrs)
      → Mem w (update sha sorter no_load addrs r).vnodes
  unfolding update
  mem-update_of r addrs w m =
      (Perm.mem_iff (sorter.sort-perm _)).1
        (rw (add_peers-blocks sha no_load r.vnodes_per_peer addrs [] []) m)

  -- Every vnode on the updated ring belongs to a listed peer.
  pub peer-mem-update :
      (r : Ring F) (addrs : List Text) (w : Vnode)
      → Mem w (update sha sorter no_load addrs r).vnodes
      → Mem w.peer addrs
  peer-mem-update r addrs w m =
      (mem-blocks_to sha w r.vnodes_per_peer addrs (mem-update_to r addrs w m)).1

  -- The updated ring is sorted, its hashes are 32-bit words, and it knows every vnode's peer,
  -- whatever the ring was before.
  pub update-WellFormed :
      (addrs : List Text) (r : Ring F) → WellFormed (update sha sorter no_load addrs r)
  unfolding update
  update-WellFormed addrs r =
      let n = r.vnodes_per_peer in
      let new = add_peers sha no_load n addrs [] [] in
      let e : new.1 ≡ blocks sha n addrs = add_peers-blocks sha no_load n addrs [] [] in
      record {
        sorted = sorter.sort-IsSorted new.1;
        bounded =
            perm-All _ (λ v. le_prop) (sorter.sort-perm new.1)
              (rw e (blocks-All_bounded sha n addrs));
        known =
            perm-All _ (λ v. Bool-set _ _) (sorter.sort-perm new.1)
              (All-of_mem new.1 (λ v m.
                add_peers-knows sha no_load n v addrs [] []
                  (mem-blocks_to sha v n addrs (rw e at m)).1));
      }

-- A vnode of a peer that both lists name is on both rings, if they have as many vnodes per peer.
pub mem-update_of_listed :
    (sha : Sha256) (sorter sorter' : Sorter vnode_hash) {F : Type 0} (no_load no_load' : F)
    (r r' : Ring F) (addrs addrs' : List Text) (w : Vnode)
    → r.vnodes_per_peer ≡ r'.vnodes_per_peer
    → Mem w (update sha sorter no_load addrs r).vnodes
    → Mem w.peer addrs'
    → Mem w (update sha sorter' no_load' addrs' r').vnodes
mem-update_of_listed sha sorter sorter' no_load no_load' r r' addrs addrs' w e m listed =
    let own =
      (mem-blocks_to sha w r.vnodes_per_peer addrs
        (mem-update_to sha sorter no_load r addrs w m)).0 in
    mem-update_of sha sorter' no_load' r' addrs' w
      (mem-blocks_of sha w r'.vnodes_per_peer addrs' (rw e at own) listed)
