-- ===== src/Tests/Routing.antt =====
-- The ring and the forwarder on three peers.
use mathlib.Core.Logic.{∥∥₁_elim}
use mathlib.Core.List.{
  Mem-prop, Mem, mem-cons_self, mem-cons_of_mem, eq-or-mem_of_mem-cons, not-mem-nil,
}
use mathlib.Core.Logic.Or
use loraplex.Go.Dict
use loraplex.Go.Http.{Header, HttpResponse, canonical, values}
use loraplex.Go.Http.Headers.{IsCanonical}
use loraplex.Prelude.{
  ℕ, map, ◌≡◌, [], arith, refl, codes, Text, ◌∷◌, some, ◌<◌, ◌≢◌, inl, none, Text-set, ◌⊎◌, inr,
  ◌≤◌, length, false, err, Bool, if◌then◌else◌, str_eq, has_prefix, ◌++◌, ◌↔◌, ok, true,
}
use loraplex.Routing.Ring.{Peer, Vnode, hash_string, update, owner, fallback, is_self}
use loraplex.Routing.Ring.Placement.{WellFormed, update-WellFormed}
use loraplex.Routing.Ring.Clockwise.{gap, IsNearest, owner-IsNearest}
use loraplex.Routing.Ring.Consistency.{
  CollisionFree, addr_of, owner-update_of_listed, owner-update_agree,
}
use loraplex.Routing.Ring.Fallback.{fallback-nearest_other}
use loraplex.Routing.Forwarder.{
  ForwardError, no_remote_fallback, header_forwarded, decide, forward_request, forward,
  forward_with_fallback,
}
use loraplex.Routing.Forwarder.Decision.{decide_iff, values-forward_request}
use loraplex.Routing.Forwarder.Sending.{
  NoAlternate, targets, IsAlternate, forward_with_fallback_cases,
}
use loraplex.Tests.Nodes.{
  sha, sorter, a, b, c, empty, program, two, other_two, key, peer_a, peer_b, two-owner,
  two-WellFormed, leb_load, at_c, at_c-WellFormed, at_c-owner, get_method, path,
}

two-vnodes : map (λ v. v.peer) two.vnodes ≡ a ∷ b ∷ []
unfolding program
two-vnodes = refl

two-owner_wraps : owner sha two (codes "9999") ≡ some peer_a
unfolding program
two-owner_wraps = refl

two-fallback : fallback sha two key b ≡ some peer_a
unfolding program
two-fallback = refl

two-length : 0 < length two.vnodes
unfolding program
two-length = omega arith

two_vnodes :
    (v : Vnode)
    → Mem v two.vnodes
    → ∥ (v.hash ≡ 825241136 × v.peer ≡ a) ⊎ (v.hash ≡ 842018352 × v.peer ≡ b) ∥₁
unfolding program
two_vnodes v m =
    Or.elim squash₁ (eq-or-mem_of_mem-cons m) (λ e. ∣ inl (ground arith) ∣₁)
      (λ m'.
        Or.elim squash₁ (eq-or-mem_of_mem-cons m') (λ e. ∣ inr (ground arith) ∣₁)
          (λ m''. absurd (not-mem-nil m'')))

two-CollisionFree : CollisionFree two.vnodes
two-CollisionFree v w mv mw e =
    ∥∥₁_elim (two_vnodes v mv) (Text-set _ _)
      (λ cv. ∥∥₁_elim (two_vnodes w mw) (Text-set _ _) (λ cw. ground arith))

owner-IsNearest_example :
    (v : Vnode) × (p : Peer ℕ) × IsNearest (hash_string sha key) two.vnodes v
    × (owner sha two key ≡ some p)
    × (p.addr ≡ v.peer)
owner-IsNearest_example = owner-IsNearest sha two key two-WellFormed two-length

owner-update_of_listed_example :
    (p' : Peer ℕ) × (owner sha (update sha sorter 0 (b ∷ []) empty) key ≡ some p') × (p'.addr ≡ b)
owner-update_of_listed_example =
    owner-update_of_listed sha sorter sorter 0 0 empty empty (a ∷ b ∷ []) (b ∷ []) refl
      (λ x m. mem-cons_of_mem a m) key peer_b two-CollisionFree two-owner mem-cons_self

swapped : (x : Text) → Mem x (a ∷ b ∷ []) → Mem x (b ∷ a ∷ [])
swapped x m =
    Or.elim Mem-prop (eq-or-mem_of_mem-cons m) (λ e. rw e (mem-cons_of_mem b mem-cons_self))
      (λ m'.
        Or.elim Mem-prop (eq-or-mem_of_mem-cons m') (λ e. rw e mem-cons_self)
          (λ m''. absurd (not-mem-nil m'')))

swapped_back : (x : Text) → Mem x (b ∷ a ∷ []) → Mem x (a ∷ b ∷ [])
swapped_back x m =
    Or.elim Mem-prop (eq-or-mem_of_mem-cons m) (λ e. rw e (mem-cons_of_mem a mem-cons_self))
      (λ m'.
        Or.elim Mem-prop (eq-or-mem_of_mem-cons m') (λ e. rw e mem-cons_self)
          (λ m''. absurd (not-mem-nil m'')))

owner-update_agree_example : addr_of (owner sha two key) ≡ addr_of (owner sha other_two key)
owner-update_agree_example =
    owner-update_agree sha sorter sorter 0 0 empty (record empty { self = b }) (a ∷ b ∷ [])
      (b ∷ a ∷ []) refl (λ x. (swapped x, swapped_back x)) two-CollisionFree key

fallback-nearest_other_example :
    ((fallback sha two key b ≡ none) × ((w : Vnode) → Mem w two.vnodes → w.peer ≡ b))
    ⊎ ((v : Vnode) × (p : Peer ℕ) × (fallback sha two key b ≡ some p)
        × (p.addr ≡ v.peer)
        × Mem v two.vnodes
        × (v.peer ≢ b)
        × ((w : Vnode)
            → Mem w two.vnodes
            → w.peer ≢ b
            → gap (hash_string sha key) v.hash ≤ gap (hash_string sha key) w.hash))
fallback-nearest_other_example = fallback-nearest_other sha two key b two-WellFormed

update-WellFormed_example : WellFormed (update sha sorter 0 (b ∷ a ∷ []) empty)
update-WellFormed_example = update-WellFormed sha sorter 0 (b ∷ a ∷ []) empty

abbrev client_headers : Header
client_headers =
    (codes "X-Tenant-Id", codes "acme" ∷ []) ∷ (codes "X-Loraplex-Forwarded", codes "no" ∷ []) ∷ []

-- The second peer answers after the owner failed.
at_c-targets : targets (forward_with_fallback sha at_c key get_method path [] []).1 ≡ b ∷ a ∷ []
unfolding program forward_with_fallback forward forward_request has_prefix
at_c-targets = refl

decide_iff_example :
    let d = decide sha leb_load at_c key false in
    let remote =
      (◌≡◌ {A = Bool} false false)
      × (owner sha at_c.ring key ≡ some peer_b)
      × (is_self at_c.ring (some peer_b) ≡ false) in
    ((d.forward_to ≡ some peer_b) ↔ (remote × (leb_load 0 8 ≡ false)))
    × ((d.handle_locally ≡ false) ↔ (d.forward_to ≢ none))
    × (remote → (d.overflow ≡ leb_load 0 8))
    × ((d.overflow ≡ true)
        → (q : Peer ℕ) × ((◌≡◌ {A = Bool} false false)
            × (owner sha at_c.ring key ≡ some q)
            × (is_self at_c.ring (some q) ≡ false)
            × (leb_load q.load 8 ≡ true)))
decide_iff_example = decide_iff sha leb_load at_c key false peer_b

client_headers-IsCanonical : IsCanonical client_headers
unfolding canonical Dict.lookup str_eq
client_headers-IsCanonical = (refl, refl, (refl, refl, tt))

values-forward_request_example :
    values
      (codes "X-Loraplex-Forwarded")
      (forward_request b get_method path [] client_headers).headers
    ≡ (if str_eq header_forwarded (codes "X-Loraplex-Forwarded")
        then codes "true" ∷ []
        else values (codes "X-Loraplex-Forwarded") client_headers)
values-forward_request_example =
    values-forward_request b get_method path [] client_headers (codes "X-Loraplex-Forwarded")
      client_headers-IsCanonical

forward_with_fallback_cases_example :
    let first = forward at_c peer_b get_method path [] [] in
    let r = forward_with_fallback sha at_c key get_method path [] [] in
    ((resp : HttpResponse) × (first.0 ≡ ok resp) × (r ≡ first))
    ⊎ ((e : ForwardError) × (first.0 ≡ err e)
        × ((NoAlternate at_c sha key peer_b × (r ≡ (err (no_remote_fallback b), first.1)))
            ⊎ ((p : Peer ℕ) × (fallback sha at_c.ring key b ≡ some p)
                × IsAlternate c b p.addr
                × (r ≡ (
                  (forward at_c p get_method path [] []).0,
                  first.1 ++ (forward at_c p get_method path [] []).1,
                )))))
unfolding update
forward_with_fallback_cases_example =
    forward_with_fallback_cases at_c get_method path [] [] sha key at_c-WellFormed peer_b at_c-owner

b-ne-c : b ≢ c
b-ne-c e = ground arith
