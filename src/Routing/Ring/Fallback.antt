-- ===== src/Routing/Ring/Fallback.antt =====
-- `Fallback` of internal/routing/ring.go, and the distances clockwise from the hash of the key.
use mathlib.Core.Logic.{∥∥₁_elim}
use loraplex.Go.Members.{mem_get_elem?, get_elem?_bound, get_elem?-mem}
use native.Mathlib.Decide.{dec_lt}
use mathlib.Core.List.{Mem}
use loraplex.Go.Bytes.{Sha256}
use loraplex.Prelude.{
  length, ◌≡◌, ◌<◌, ◌≤◌, arith, inl, Option, ◌^◌, inr, some, ◌⊎◌, ℕ, none, Text, ◌≢◌, Text-set,
}
use loraplex.Routing.Ring.{Peer, Vnode, Ring, hash_string, fallback_from, fallback}
use loraplex.Routing.Ring.Placement.{WellFormed}
use loraplex.Routing.Ring.Clockwise.{gap, hash_string_bound}
use loraplex.Routing.Ring.Rounds.{
  start, start-Separates, Found, SkippedBelow, round_of, fallback_from-Found, nearest_of_Found,
}

module _ (sha : Sha256) {F : Type 0} (r : Ring F) (key skip : Text) (wf : WellFormed r) where
  fallback-from_start :
      0 < length r.vnodes
      → fallback sha r key skip
        ≡ fallback_from
            (length r.vnodes)
            r
            (start r (hash_string sha key) wf (hash_string_bound sha r key))
            0
            skip
  unfolding fallback start
  fallback-from_start pos = ground arith

  fallback_no_vnodes : length r.vnodes ≡ 0 → fallback sha r key skip ≡ none
  unfolding fallback
  fallback_no_vnodes e = ground arith

  -- On a well-formed ring `Fallback` finds nothing exactly if every vnode is the skipped peer's.
  -- Otherwise it returns another peer, that of a vnode such that no vnode of a peer other than the
  -- skipped one is nearer clockwise from the hash of the key.
  pub fallback-nearest_other :
      ((fallback sha r key skip ≡ none) × ((w : Vnode) → Mem w r.vnodes → w.peer ≡ skip))
      ⊎ ((v : Vnode) × (p : Peer F) × (fallback sha r key skip ≡ some p)
          × (p.addr ≡ v.peer)
          × Mem v r.vnodes
          × (v.peer ≢ skip)
          × ((w : Vnode)
              → Mem w r.vnodes
              → w.peer ≢ skip
              → gap (hash_string sha key) v.hash ≤ gap (hash_string sha key) w.hash))
  fallback-nearest_other = elim (dec_lt 0 (length r.vnodes)) [
    | no empty ↦ inl (
      fallback_no_vnodes (omega arith),
      λ w m.
          ∥∥₁_elim (mem_get_elem? w r.vnodes m) (Text-set _ _)
            (λ (j, e). absurd (omega (arith, get_elem?_bound r.vnodes j w e))),
    )
    | yes pos ↦ rw (fallback-from_start pos) (
        outcome (
          fallback_from-Found r h wf small skip (length r.vnodes) 0 (omega arith)
            (λ m w lt. absurd (omega arith))))
  ]
    where
      h : ℕ
      h = hash_string sha key

      small : h < 2 ^ 32
      small = hash_string_bound sha r key

      outcome :
          {result : Option (Peer F)}
          → ((result ≡ none) × SkippedBelow r h wf small skip (length r.vnodes))
            ⊎ Found r h wf small skip result
          → ((result ≡ none) × ((w : Vnode) → Mem w r.vnodes → w.peer ≡ skip))
            ⊎ ((v : Vnode) × (p : Peer F) × (result ≡ some p)
                × (p.addr ≡ v.peer)
                × Mem v r.vnodes
                × (v.peer ≢ skip)
                × ((w : Vnode) → Mem w r.vnodes → w.peer ≢ skip → gap h v.hash ≤ gap h w.hash))
      outcome (inl (e, all)) = inl (
        e,
        λ w m. ∥∥₁_elim (mem_get_elem? w r.vnodes m) (Text-set _ _) (λ (j, ew).
            let (k, lt, ek) =
              round_of (length r.vnodes) (start r h wf small) j
                (start-Separates r h wf small).within (get_elem?_bound r.vnodes j w ew) in
            all k w lt (rw ek ew)),
      )
      outcome (inr f) = inr (
        f.vnode,
        f.found,
        f.returned,
        f.its_addr,
        get_elem?-mem r.vnodes _ f.vnode f.here,
        f.other,
        nearest_of_Found r h wf small skip f,
      )
