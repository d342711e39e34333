-- ===== src/Cache/Lru/Refinement.antt =====
-- The LRU against a plain list of identifiers and sizes, most recently used first.
use loraplex.Go.Dict
use loraplex.Cache.Lru.{
  Element, Lru, element, unlink, push_front, stamp_and_move, touch, remove, contains,
}
use loraplex.Cache.Lru.Elements.{id_of, Apart, Distinct, handle_of, element_cases, All-element}
use loraplex.Cache.Lru.Invariant.{IsValid, linked}
use loraplex.Cache.Lru.Plain.{Recency, size_of, drop_id, use_id, has_id}
use loraplex.Prelude.{
  [], ℕ, none, some, List, map, str_eq, if◌then◌else◌, ◌∷◌, Text, Option-cases, ◌≡◌, refl, ◌∙◌,
  str_eq_refl, inl, inr, sym, arith, str_eq_iff, All, true,
}

abbrev pub entry_of : Element → Text × ℕ
entry_of e = (e.value.adapter_id, e.value.size)

-- The abstract view of an LRU: addresses, times and the map are forgotten.
unfoldable pub view : Lru → Recency
view l = map entry_of l.order

drop_id_absent :
    (e : Element) (es : List Element)
    → All (Apart e) es
    → drop_id (id_of e) (map entry_of es) ≡ map entry_of es
unfolding drop_id
drop_id_absent e [] a = refl
drop_id_absent e (x ∷ es) ((_, differs), a) =
    ground (arith, drop_id_absent e es a, str_eq_iff (id_of x) (id_of e))

size_of-handle_of :
    (id : Text) (es : List Element) → handle_of id es ≡ none → size_of id (map entry_of es) ≡ none
unfolding size_of handle_of
size_of-handle_of id [] absent = refl
size_of-handle_of id (x ∷ es) absent = ground (arith, size_of-handle_of id es)

drop_id_missing :
    (id : Text) (es : List Element)
    → handle_of id es ≡ none
    → drop_id id (map entry_of es) ≡ map entry_of es
unfolding drop_id handle_of
drop_id_missing id [] absent = refl
drop_id_missing id (x ∷ es) absent = ground (arith, drop_id_missing id es)

size_of-cons :
    (id : Text) (x : Element) (es : List Element)
    → size_of id (map entry_of (x ∷ es))
      ≡ (if str_eq (id_of x) id then some x.value.size else size_of id (map entry_of es))
unfolding size_of
size_of-cons id x es = refl

drop_id-cons :
    (id : Text) (x : Element) (es : List Element)
    → drop_id id (map entry_of (x ∷ es)) ≡ (
        if str_eq (id_of x) id
        then drop_id id (map entry_of es)
        else entry_of x ∷ drop_id id (map entry_of es))
unfolding drop_id
drop_id-cons id x es = refl

-- Unlinking by address is dropping by identifier, and the element has the recorded size.
element-plain :
    (h : ℕ) (e : Element) (es : List Element)
    → Distinct es
    → element h es ≡ some e
    → (size_of (id_of e) (map entry_of es) ≡ some e.value.size)
      × (map entry_of (unlink h es) ≡ drop_id (id_of e) (map entry_of es))
unfolding element
element-plain h e [] d eq = cc
element-plain h e (x ∷ es) (a, d) eq = elim (element_cases h e x es a eq) [
  | inl (same, left) ↦
      rw (left, ← same)
        (
          ground (arith, size_of-cons (id_of x) x es, str_eq_refl (id_of x)),
          ground (arith, drop_id-cons (id_of x) x es, str_eq_refl (id_of x), drop_id_absent x es a),
        )
  | inr (later, left) ↦
      let (size, dropped) = element-plain h e es d later in
      let differs = (All-element (Apart x) h e es a later).1 in
      rw left (
        ground (arith, size_of-cons (id_of e) x es, str_eq_iff (id_of x) (id_of e), differs, size),
        ground
            (arith, drop_id-cons (id_of e) x es, str_eq_iff (id_of x) (id_of e), differs, dropped),
      )
]

use_id_old :
    (id : Text) (size s : ℕ) (xs : Recency)
    → size_of id xs ≡ some s
    → use_id id size xs ≡ (id, s) ∷ drop_id id xs
unfolding use_id
use_id_old id size s xs e = rw (e, use_id)

has_id_old : (id : Text) (s : ℕ) (xs : Recency) → size_of id xs ≡ some s → has_id id xs ≡ true
unfolding has_id
has_id_old id s xs e = rw (e, has_id)

module _ (l : Lru) (valid : IsValid l) (id : Text) where
  module _ (h : ℕ) (found : Dict.lookup id l.items ≡ some h) where
    -- The element of an identifier that the map has, and what the plain list says of it.
    linked-plain :
        (e : Element) × (element h l.order ≡ some e)
        × (id_of e ≡ id)
        × (size_of id (view l) ≡ some e.value.size)
        × (map entry_of (unlink h l.order) ≡ drop_id id (view l))
    unfolding view
    linked-plain =
        let (e, here, its, ei) = linked l valid id h found in
        let (size, dropped) = element-plain h e l.order valid.distinct here in
        (e, here, ei, rw ei at size, rw ei at dropped)

    view-touch_hit : (size now : ℕ) → view (stamp_and_move h now l) ≡ use_id id size (view l)
    view-touch_hit size now =
        let (e, here, ei, recorded, dropped) = linked-plain in
        rw (use_id_old id size e.value.size (view l) recorded, ← dropped)
          (unfold view stamp_and_move in rw (here, stamp_and_move) (rw ei))

    remove_hit :
        (view (remove id l).0 ≡ drop_id id (view l))
        × ((remove id l).1 ≡ has_id id (view l))
        × (contains id l ≡ has_id id (view l))
    remove_hit =
        let (e, here, ei, recorded, dropped) = linked-plain in
        rw (has_id_old id e.value.size (view l) recorded, ← dropped)
          (
            unfold view remove in rw (found, remove) (rw here),
            unfold remove in rw (found, remove) (rw here),
            unfold contains in rw (found, contains),
          )

  module _ (absent : Dict.lookup id l.items ≡ none) where
    size_absent : size_of id (view l) ≡ none
    unfolding view
    size_absent = size_of-handle_of id l.order (sym (valid.coherent id) ∙ absent)

    drop_absent : drop_id id (view l) ≡ view l
    unfolding view
    drop_absent = drop_id_missing id l.order (sym (valid.coherent id) ∙ absent)

  -- On a valid LRU, `Touch` moves the adapter to the front of the list of uses, with the size that was
  -- recorded when it was first touched, or adds it there with the given size; the time and the
  -- addresses make no difference.
  pub view-touch : (size now : ℕ) → view (touch id size now l) ≡ use_id id size (view l)
  unfolding touch
  view-touch size now = elim (Option-cases (Dict.lookup id l.items)) [
    | inl absent ↦
        rw (absent, touch) (unfold view push_front use_id in rw (size_absent absent, use_id) refl)
    | inr (h, found) ↦ rw (found, touch) (view-touch_hit h found size now)
  ]

  -- On a valid LRU, `Remove` drops the adapter from the list of uses and keeps the order of the rest;
  -- it returns whether the adapter was there, which is also what `Contains` returns before.
  pub view-remove :
      (view (remove id l).0 ≡ drop_id id (view l))
      × ((remove id l).1 ≡ has_id id (view l))
      × (contains id l ≡ has_id id (view l))
  view-remove = elim (Option-cases (Dict.lookup id l.items)) [
    | inr (h, found) ↦ remove_hit h found
    | inl absent ↦ rw (drop_absent absent) (
      unfold remove in rw (absent, remove),
      unfold remove has_id in rw (absent, remove, size_absent absent, has_id),
      unfold contains has_id in rw (absent, contains, size_absent absent, has_id),
    )
  ]
