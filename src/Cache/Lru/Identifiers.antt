-- ===== src/Cache/Lru/Identifiers.antt =====
-- The identifiers in an LRU, call by call.
use loraplex.Go.Dict
use loraplex.Cache.Lru.{Element, Lru, element, push_front, stamp_and_move, touch, evict, remove}
use loraplex.Cache.Lru.Elements.{id_of, All-unlink, All-element}
use loraplex.Cache.Lru.Eviction.{evict-Trimmed}
use loraplex.Cache.Lru.Invariant.{IsValid}
use loraplex.Prelude.{
  Text, Option-cases, All, subst, [], inl, List, ℕ, All-reverse, map, All-of_append, ◌∷◌, inr,
}

module _ (P : Text → Type 0) where
  abbrev pub Ids : Lru → Type 0
  Ids l = All (λ e. P (id_of e)) l.order

  map-All : (es : List Element) → All (λ e. P (id_of e)) es → All P (map id_of es)
  map-All [] h = tt
  map-All (e ∷ es) (he, h) = (he, map-All es h)

  move-Ids : (a now : ℕ) (l : Lru) → Ids l → Ids (stamp_and_move a now l)
  unfolding stamp_and_move
  move-Ids a now l h = elim (Option-cases (element a l.order)) [
    | inl gone ↦ rw (gone, stamp_and_move) h
    | inr (e, here) ↦
        rw (here, stamp_and_move)
          (
            All-element (λ x. P (id_of x)) a e l.order h here,
            All-unlink (λ x. P (id_of x)) a l.order h,
          )
  ]

  pub touch-Ids : (id : Text) (size now : ℕ) (l : Lru) → P id → Ids l → Ids (touch id size now l)
  unfolding touch push_front
  touch-Ids id size now l p h = elim (Option-cases (Dict.lookup id l.items)) [
    | inl absent ↦ rw (absent, touch) (p, h)
    | inr (a, found) ↦ rw (found, touch) (move-Ids a now l h)
  ]

  pub remove-Ids : (id : Text) (l : Lru) → Ids l → Ids (remove id l).0
  unfolding remove
  remove-Ids id l h = elim (Option-cases (Dict.lookup id l.items)) [
    | inl absent ↦ rw (absent, remove) h
    | inr (a, found) ↦ elim (Option-cases (element a l.order)) [
      | inl gone ↦ rw (found, remove) (rw gone h)
      | inr (e, here) ↦ rw (found, remove) (rw here (All-unlink (λ x. P (id_of x)) a l.order h))
    ]
  ]

  -- What is kept and what is evicted were both there.
  pub evict-Ids :
      (required : ℕ) (l : Lru)
      → IsValid l
      → Ids l
      → let (kept, evicted) = evict required l in Ids kept × All P evicted
  evict-Ids required l valid h =
      let t = evict-Trimmed required l valid in
      let (kept, gone) =
        All-of_append (λ e. P (id_of e)) (evict required l).0.order t.gone
          (subst (λ es. All (λ e. P (id_of e)) es) t.split h) in
      (kept, rw t.names (All-reverse P (map id_of t.gone) (map-All t.gone gone)))
