-- ===== src/Routing/Ring/Rounds.antt =====
-- The rounds of the loop of `Fallback` in internal/routing/ring.go, and the distances clockwise from the hash.
use loraplex.Go.Dict
use mathlib.Core.Logic.{∥∥₁_elim}
use loraplex.Go.Members.{mem_get_elem?, get_elem?_bound, get_elem?-mem, mem_All}
use native.Mathlib.Decide.{dec_lt}
use native.Mathlib.Bridge.{le_prop}
use mathlib.Core.List.{Mem}
use native.Mathlib.Nat.{mod-eq_of_lt}
use loraplex.Go.Search.{search, search-Separates, Separates}
use loraplex.Prelude.{
  ◌+◌, length, ◌≡◌, get_elem?, ◌<◌, ◌≤◌, arith, inl, Option, ◌^◌, ◌%◌, inr, ◌-◌, some, ◌⊎◌, ℕ, suc,
  none, Bool-cases, zero, Text, ◌≢◌, str_eq_iff, get_elem?-some, Bool-set, str_eq, refl, false,
  true,
}
use loraplex.Routing.Ring.{Peer, Vnode, Ring, at_least, fallback_from}
use loraplex.Routing.Ring.Placement.{WellFormed}
use loraplex.Routing.Ring.Clockwise.{
  gap, gap_ahead, gap_behind, sorted_get, at_least_get, at_least-Monotone, known_peer,
}

-- The index of round `m`, from a start `idx` that may be the length itself.
abbrev pub round : ℕ → ℕ → ℕ → ℕ
round n idx m = (idx + m) % n

round_cases :
    (n idx m : ℕ)
    → idx ≤ n
    → m < n
    → ((idx + m < n) × (round n idx m ≡ idx + m)) ⊎ ((n ≤ idx + m) × (round n idx m + n ≡ idx + m))
round_cases n idx m le lt = elim (dec_lt (idx + m) n) [
  | yes inside ↦ inl (inside, mod-eq_of_lt inside)
  | no wraps ↦ inr (omega arith, grind (arith))
]

-- The round at which the index `j` is seen.
pub round_of : (n idx j : ℕ) → idx ≤ n → j < n → (m : ℕ) × (m < n) × (round n idx m ≡ j)
round_of n idx j le lt = elim (dec_lt j idx) [
  | yes before ↦ (j + n - idx, omega arith, grind arith)
  | no after ↦ (j - idx, omega arith, grind arith)
]

module _ {F : Type 0} (r : Ring F) (h : ℕ) (wf : WellFormed r) (small : h < 2 ^ 32) where
  unfoldable pub start : ℕ
  start = search (length r.vnodes) (at_least r.vnodes h)

  pub start-Separates : Separates (length r.vnodes) (at_least r.vnodes h) start
  unfolding start
  start-Separates =
      search-Separates (length r.vnodes) (at_least r.vnodes h)
        (at_least-Monotone r.vnodes h wf.sorted)

  start_below : (j : ℕ) (w : Vnode) → j < start → get_elem? r.vnodes j ≡ some w → w.hash < h
  start_below j w lt e = ground (arith, at_least_get r.vnodes h j w e, start-Separates.below j lt)

  start_above : (j : ℕ) (w : Vnode) → start ≤ j → get_elem? r.vnodes j ≡ some w → h ≤ w.hash
  start_above j w le e = ground (
    arith,
    at_least_get r.vnodes h j w e,
    start-Separates.above j le (get_elem?_bound r.vnodes j w e),
  )

  abbrev pub seen_at : ℕ → Option Vnode
  seen_at m = get_elem? r.vnodes (round (length r.vnodes) start m)

  -- The rounds see the vnodes in the order of their distance from the hash.
  gap-round :
      (m m' : ℕ) (v w : Vnode)
      → m ≤ m'
      → m' < length r.vnodes
      → seen_at m ≡ some v
      → seen_at m' ≡ some w
      → gap h v.hash ≤ gap h w.hash
  gap-round m m' v w le lt ev ew =
      let n = length r.vnodes in
      let i = round n start m in
      let i' = round n start m' in
      let inside = start-Separates.within in
      elim (round_cases n start m inside (omega arith)) [
        | inl (a, e) ↦
            let up = start_above i v (omega arith) ev in
            gap_ahead h v.hash w.hash (hash_bound v (get_elem?-mem r.vnodes i v ev))
              (hash_bound w (get_elem?-mem r.vnodes i' w ew)) up (ahead i i' a e)
        | inr (a, e) ↦ elim (round_cases n start m' inside lt) [
          | inl (b, e') ↦ absurd (omega arith)
          | inr (b, e') ↦
              gap_behind h v.hash w.hash small (start_below i' w (omega arith) ew)
                (sorted_get r.vnodes i i' v w wf.sorted (omega arith) ev ew)
        ]
      ]
    where
      hash_bound : (x : Vnode) → Mem x r.vnodes → x.hash < 2 ^ 32
      hash_bound x mx = mem_All (λ y. y.hash < 2 ^ 32) (λ y. le_prop) x r.vnodes wf.bounded mx

      ahead :
          (i i' : ℕ)
          → start + m < length r.vnodes
          → round (length r.vnodes) start m ≡ start + m
          → (w.hash < h) ⊎ (v.hash ≤ w.hash)
      ahead i i' a e = elim (round_cases (length r.vnodes) start m' start-Separates.within lt) [
        | inl (b, e') ↦ inr (sorted_get r.vnodes _ _ v w wf.sorted (omega arith) ev ew)
        | inr (b, e') ↦ inl (start_below _ w (omega arith) ew)
      ]

  module _ (skip : Text) where
    -- The first round, at or after `seen`, whose vnode is not the skipped peer's.
    pub record Found (result : Option (Peer F)) : Type 0 where
      pub at : ℕ
      pub vnode : Vnode
      pub found : Peer F
      pub inside : at < length r.vnodes
      pub here : seen_at at ≡ some vnode
      pub other : vnode.peer ≢ skip
      pub returned : result ≡ some found
      pub its_addr : found.addr ≡ vnode.peer
      pub skipped : (m : ℕ) (w : Vnode) → m < at → seen_at m ≡ some w → w.peer ≡ skip

    abbrev pub SkippedBelow : ℕ → Type 0
    SkippedBelow n = (m : ℕ) (w : Vnode) → m < n → seen_at m ≡ some w → w.peer ≡ skip

    module _ (rounds seen : ℕ) (v : Vnode) (ev : seen_at seen ≡ some v) where
      fallback_from_skip :
          str_eq v.peer skip ≡ true
          → fallback_from (suc rounds) r start seen skip
            ≡ fallback_from rounds r start (seen + 1) skip
      unfolding fallback_from
      fallback_from_skip e = rw (ev, fallback_from) (rw e)

      fallback_from_take :
          str_eq v.peer skip ≡ false
          → fallback_from (suc rounds) r start seen skip ≡ Dict.lookup v.peer r.peers
      unfolding fallback_from
      fallback_from_take e = rw (ev, fallback_from) (rw e)

    pub fallback_from-Found :
        (rounds seen : ℕ)
        → seen + rounds ≡ length r.vnodes
        → SkippedBelow seen
        → ((fallback_from rounds r start seen skip ≡ none) × SkippedBelow (length r.vnodes))
          ⊎ Found (fallback_from rounds r start seen skip)
    fallback_from-Found zero seen e before =
        unfold fallback_from in inl (refl, (λ m w lt. before m w (omega arith)))
    fallback_from-Found (suc rounds) seen e before =
        let i = round (length r.vnodes) start seen in
        let (v, ev) = get_elem?-some r.vnodes i (grind arith) in
        elim (Bool-cases (str_eq v.peer skip)) [
          | inl same ↦ rw (fallback_from_skip rounds seen v ev same) (
              fallback_from-Found rounds (seen + 1) (omega arith) (λ m w lt ew.
                elim (dec_lt m seen) [
                  | yes earlier ↦ before m w earlier ew
                  | no now ↦
                      let em : m ≡ seen = omega arith in
                      let ew' = rw em at ew in
                      let same_vnode : v ≡ w = cc in
                      rw (← same_vnode) ((str_eq_iff v.peer skip).0 same)
                ]))
          | inr differs ↦
              let (p, ep, ea) = known_peer r.peers v (
                mem_All _ (λ y. Bool-set _ _) v r.vnodes wf.known
                  (get_elem?-mem r.vnodes i v ev)) in
              rw (fallback_from_take rounds seen v ev differs) (
                inr (record {
                  at = seen;
                  vnode = v;
                  found = p;
                  inside = omega arith;
                  here = ev;
                  other = λ eq. cc ((str_eq_iff v.peer skip).1 eq);
                  returned = ep;
                  its_addr = ea;
                  skipped = before;
                }))
        ]

    -- A vnode of another peer is seen at some round, no earlier than the first that is not skipped.
    pub nearest_of_Found :
        {result : Option (Peer F)} (f : Found result) (w : Vnode)
        → Mem w r.vnodes
        → w.peer ≢ skip
        → gap h f.vnode.hash ≤ gap h w.hash
    nearest_of_Found f w mw other = ∥∥₁_elim (mem_get_elem? w r.vnodes mw) le_prop (λ (j, ew).
        let (m, lt, em) =
          round_of (length r.vnodes) start j start-Separates.within
            (get_elem?_bound r.vnodes j w ew) in
        let ew' : seen_at m ≡ some w = rw em ew in
        elim (dec_lt m f.at) [
          | yes earlier ↦ absurd (other (f.skipped m w earlier ew'))
          | no later ↦ gap-round f.at m f.vnode w (omega arith) lt f.here ew'
        ])
