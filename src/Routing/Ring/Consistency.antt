-- ===== src/Routing/Ring/Consistency.antt =====
-- The owners of keys on two rings of internal/routing/ring.go whose lists of peers overlap.
use loraplex.Go.Members.{mem_All}
use native.Mathlib.Bridge.{le_prop}
use native.Mathlib.Decide.{dec_lt}
use mathlib.Core.List.{not-mem-nil, Mem}
use loraplex.Go.Bytes.{Sha256}
use loraplex.Go.Sort.{Sorter}
use loraplex.Prelude.{
  length, arith, none, ℕ, ◌∷◌, ◌<◌, ◌≡◌, Text, ◌^◌, [], List, some, Option, subst, sym, ◌∙◌, inl,
  Option-cases, inr, ◌↔◌, ap,
}
use loraplex.Routing.Ring.{Peer, Vnode, Ring, vnode_hash, hash_string, update, owner}
use loraplex.Routing.Ring.Placement.{update-WellFormed, peer-mem-update, mem-update_of_listed}
use loraplex.Routing.Ring.Clockwise.{hash_string_bound, gap, owner-IsNearest, owner-none}

-- No vnodes of two peers share a hash.
abbrev pub CollisionFree : List Vnode → Type 0
CollisionFree vs = (v w : Vnode) → Mem v vs → Mem w vs → v.hash ≡ w.hash → v.peer ≡ w.peer

gap_injective : (h a b : ℕ) → h < 2 ^ 32 → a < 2 ^ 32 → b < 2 ^ 32 → gap h a ≡ gap h b → a ≡ b
gap_injective h a b hh ha hb e = omega arith

length_pos_of_mem : (v : Vnode) (vs : List Vnode) → Mem v vs → 0 < length vs
length_pos_of_mem v [] m = absurd (not-mem-nil m)
length_pos_of_mem v (x ∷ vs) m = omega arith

abbrev pub addr_of : {F : Type 0} → Option (Peer F) → Option Text
addr_of none = none
addr_of (some p) = some p.addr

module _ (sha : Sha256) {F : Type 0} (r : Ring F) (key : Text) where
  -- A ring with an owner has a vnode.
  owner_pos : (p : Peer F) → owner sha r key ≡ some p → 0 < length r.vnodes
  owner_pos p e = elim (dec_lt 0 (length r.vnodes)) [
    | yes pos ↦ pos
    | no empty ↦ cc (owner-none sha r key (omega arith))
  ]

module _ (sha : Sha256) (sorter sorter' : Sorter vnode_hash) {F : Type 0} (no_load no_load' : F)
    (r r' : Ring F) (addrs addrs' : List Text) (same : r.vnodes_per_peer ≡ r'.vnodes_per_peer)
    (subset : (a : Text) → Mem a addrs' → Mem a addrs) where
  -- If a node lists some of the peers that another node lists, in any order, a key whose owner is
  -- still listed keeps that owner: removing a peer moves no other peer's keys, and adding a peer
  -- moves keys to the new peer only.
  pub owner-update_of_listed :
      (key : Text) (p : Peer F)
      → CollisionFree (update sha sorter no_load addrs r).vnodes
      → owner sha (update sha sorter no_load addrs r) key ≡ some p
      → Mem p.addr addrs'
      → (p' : Peer F) × (owner sha (update sha sorter' no_load' addrs' r') key ≡ some p')
        × (p'.addr ≡ p.addr)
  owner-update_of_listed key p free owned listed =
      let big = update sha sorter no_load addrs r in
      let small = update sha sorter' no_load' addrs' r' in
      let wf = update-WellFormed sha sorter no_load addrs r in
      let wf' = update-WellFormed sha sorter' no_load' addrs' r' in
      let (v, q, near, eq, ea) = owner-IsNearest sha big key wf (owner_pos sha big key p owned) in
      let ep : q.addr ≡ p.addr = cc in
      let kept =
        mem-update_of_listed sha sorter sorter' no_load no_load' r r' addrs addrs' v same near.mem
          (subst (λ a. Mem a addrs') (sym ep ∙ ea) listed) in
      let (v', q', near', eq', ea') =
        owner-IsNearest sha small key wf' (length_pos_of_mem v small.vnodes kept) in
      let back =
        mem-update_of_listed sha sorter' sorter no_load' no_load r' r addrs' addrs v' (sym same)
          near'.mem
          (subset v'.peer (peer-mem-update sha sorter' no_load' r' addrs' v' near'.mem)) in
      let hash_bound =
        λ (x : Vnode). mem_All (λ y. y.hash < 2 ^ 32) (λ y. le_prop) x big.vnodes wf.bounded in
      let tie : v.hash ≡ v'.hash =
        gap_injective (hash_string sha key) v.hash v'.hash (hash_string_bound sha big key)
          (hash_bound v near.mem) (hash_bound v' back)
          (omega (arith, near.nearest v' back, near'.nearest v kept)) in
      (q', eq', ea' ∙ sym (free v v' near.mem back tie) ∙ sym ea ∙ ep)

  -- A key without an owner has none on the smaller ring either.
  owner-update-none :
      (key : Text)
      → owner sha (update sha sorter no_load addrs r) key ≡ none
      → owner sha (update sha sorter' no_load' addrs' r') key ≡ none
  owner-update-none key e =
      let big = update sha sorter no_load addrs r in
      let small = update sha sorter' no_load' addrs' r' in
      let wf = update-WellFormed sha sorter no_load addrs r in
      let wf' = update-WellFormed sha sorter' no_load' addrs' r' in
      elim (dec_lt 0 (length small.vnodes)) [
        | no empty ↦ owner-none sha small key (omega arith)
        | yes pos ↦
            let (v', q', near', eq', ea') = owner-IsNearest sha small key wf' pos in
            let back =
              mem-update_of_listed sha sorter' sorter no_load' no_load r' r addrs' addrs v'
                (sym same) near'.mem
                (subset v'.peer (peer-mem-update sha sorter' no_load' r' addrs' v' near'.mem)) in
            let (v, q, near, eq, ea) =
              owner-IsNearest sha big key wf (length_pos_of_mem v' big.vnodes back) in
            cc
      ]

-- Two nodes with as many vnodes per peer, that were given the same peers in whatever order and
-- sorted equal hashes differently, name the same owner for every key.
pub owner-update_agree :
    (sha : Sha256) (sorter sorter' : Sorter vnode_hash) {F : Type 0} (no_load no_load' : F)
    (r r' : Ring F) (addrs addrs' : List Text)
    → r.vnodes_per_peer ≡ r'.vnodes_per_peer
    → ((a : Text) → Mem a addrs ↔ Mem a addrs')
    → CollisionFree (update sha sorter no_load addrs r).vnodes
    → (key : Text)
    → addr_of (owner sha (update sha sorter no_load addrs r) key)
      ≡ addr_of (owner sha (update sha sorter' no_load' addrs' r') key)
owner-update_agree sha sorter sorter' no_load no_load' r r' addrs addrs' same members free key =
    let big = update sha sorter no_load addrs r in
    elim (Option-cases (owner sha big key)) [
      | inl e ↦ rw (
        e,
        owner-update-none sha sorter sorter' no_load no_load' r r' addrs addrs' same
            (λ a. (members a).1) key e,
      )
      | inr (p, e) ↦
          let (v, q, near, eq, ea) =
            owner-IsNearest sha big key (update-WellFormed sha sorter no_load addrs r)
              (owner_pos sha big key p e) in
          let listed = peer-mem-update sha sorter no_load r addrs v near.mem in
          let same_addr : v.peer ≡ p.addr = sym ea ∙ cc in
          let (p', e', ea') =
            owner-update_of_listed sha sorter sorter' no_load no_load' r r' addrs addrs' same
              (λ a. (members a).1) key p free e
              ((members p.addr).0 (subst (λ a. Mem a addrs) same_addr listed)) in
          rw (e, e') (ap some (sym ea'))
    ]
