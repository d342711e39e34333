-- ===== src/Cache/Lru/Invariant.antt =====
-- The invariant of the LRU: the map and the list name the same adapters, each once, and the counter
-- holds the sum of the sizes modulo 2^64.
use loraplex.Go.Dict
use loraplex.Go.Int64.{sub64, add64_mod, sub64_mod}
use loraplex.Cache.Lru.{
  Element, Lru, new_lru, element, unlink, push_front, stamp_and_move, touch, drop_back, remove,
}
use loraplex.Cache.Lru.Elements.{
  All-element, All-element, id_of, Apart, Distinct, handle_of, total, unlink-Distinct,
  element-handle_of, handle_of-unlink, total-unlink, unlink-Apart, unlink-bounded, total-append,
  front-Distinct, handle_of-front, handle_of-cons, total-cons,
}
use loraplex.Prelude.{
  some, List, ℕ, sym, str_eq_iff, [], Text, ◌≡◌, refl, arith, ◌%◌, ◌<◌, All, ◌+◌, ◌∙◌, ◌^◌, ◌∷◌,
  none, subst, ◌≢◌, str_eq_refl, Bool-cases, str_eq, ◌==◌, true, inl, inr, ap, Option-cases, ◌++◌,
  All-of_append,
}

pub record IsValid (l : Lru) : Type 0 where
  pub coherent : (id : Text) → Dict.lookup id l.items ≡ handle_of id l.order
  pub distinct : Distinct l.order
  pub fresh : All (λ e. e.handle < l.next_handle) l.order
  pub counted : l.cur_size ≡ total l.order % 2 ^ 64

pub new_lru-IsValid : (max_size : ℕ) → IsValid (new_lru max_size)
unfolding new_lru Dict.lookup handle_of total
new_lru-IsValid max_size = record {
  coherent = λ id. refl;
  distinct = tt;
  fresh = tt;
  counted = refl;
}

fresh_suc :
    (n : ℕ) (es : List Element) → All (λ e. e.handle < n) es → All (λ e. e.handle < n + 1) es
fresh_suc n [] h = tt
fresh_suc n (e ∷ es) (he, h) = (omega arith, fresh_suc n es h)

-- An element with an unused address and identifier is apart from all others.
Apart-of_absent :
    (e : Element) (es : List Element)
    → All (λ x. x.handle < e.handle) es
    → handle_of (id_of e) es ≡ none
    → All (Apart e) es
Apart-of_absent e [] low absent = tt
Apart-of_absent e (x ∷ es) (lx, low) absent =
    let step = handle_of-cons (id_of e) x es in
    (
      (λ eq. absurd (omega arith), λ eq. ground (arith, str_eq_iff (id_of x) (id_of e))),
      Apart-of_absent e es low (ground arith),
    )

abbrev unlinked : Lru → Text → ℕ → Element → Lru
unlinked l id h e = record l {
  order = unlink h l.order;
  items = Dict.delete id l.items;
  cur_size = sub64 l.cur_size e.value.size;
}

-- An element that is found at an address is the one that its identifier leads to.
handle_of-element :
    (h : ℕ) (e : Element) (es : List Element)
    → Distinct es
    → element h es ≡ some e
    → handle_of (id_of e) es ≡ some e.handle
unfolding element
handle_of-element h e [] d eq = cc
handle_of-element h e (x ∷ es) (a, d) eq = elim (Bool-cases (x.handle == h)) [
  | inl here ↦
      let same : x ≡ e = ground arith in
      rw (handle_of-cons (id_of e) x es, ← same) (rw (str_eq_refl (id_of x)))
  | inr there ↦
      let later : element h es ≡ some e = ground arith in
      let differs = (All-element (Apart x) h e es a later).1 in
      ground (
        arith,
        handle_of-cons (id_of e) x es,
        handle_of-element h e es d later,
        str_eq_iff (id_of x) (id_of e),
        differs,
      )
]

pub total-back :
    (front : List Element) (e : Element) → total (front ++ e ∷ []) ≡ total front + e.value.size
unfolding total
total-back front e = omega (arith, total-append front (e ∷ []))

module _ (l : Lru) (valid : IsValid l) where
  push_front-IsValid :
      (id : Text) (size now : ℕ)
      → Dict.lookup id l.items ≡ none
      → IsValid (push_front id size now l)
  unfolding push_front
  push_front-IsValid id size now absent = record {
    coherent = λ j. ground (
      arith,
      Dict.lookup-insert id j l.next_handle l.items,
      handle_of-cons j new l.order,
      valid.coherent j,
    );
    distinct = (
      Apart-of_absent new l.order valid.fresh (sym (valid.coherent id) ∙ absent),
      valid.distinct,
    );
    fresh = (omega arith, fresh_suc l.next_handle l.order valid.fresh);
    counted =
        rw (valid.counted, add64_mod (total l.order) size) (omega (arith, total-cons new l.order));
  }
    where
      new : Element
      new = record {
        handle = l.next_handle;
        value = record { adapter_id = id; size = size; accessed_at = now };
      }

  -- The element that the map leads to, for an identifier that it has.
  pub linked :
      (id : Text) (h : ℕ)
      → Dict.lookup id l.items ≡ some h
      → (e : Element) × (element h l.order ≡ some e) × (e.handle ≡ h) × (id_of e ≡ id)
  linked id h found =
      element-handle_of id h l.order valid.distinct (sym (valid.coherent id) ∙ found)

  module _ (h : ℕ) (e : Element) (here : element h l.order ≡ some e) (its : e.handle ≡ h) where
    stamp_and_move-IsValid : (now : ℕ) → IsValid (stamp_and_move h now l)
    unfolding stamp_and_move
    stamp_and_move-IsValid now =
        rw (here, stamp_and_move)
          (record {
            coherent = λ j. ground (
              arith,
              valid.coherent j,
              handle_of-cons j moved (unlink h l.order),
              handle_of-unlink j h e l.order valid.distinct here,
              own_handle j,
            );
            distinct = (
              subst (λ k. All (λ x. (x.handle ≢ k) × (id_of x ≢ id_of e)) (unlink h l.order)) its
                  (unlink-Apart h e l.order valid.distinct here),
              unlink-Distinct h l.order valid.distinct,
            );
            fresh = (
              subst (λ k. k < l.next_handle) its
                  (All-element (λ x. x.handle < l.next_handle) h e l.order valid.fresh here),
              unlink-bounded l.next_handle h l.order valid.fresh,
            );
            counted = rw valid.counted (
                ap (λ n. n % 2 ^ 64)
                  (omega (
                    arith,
                    total-unlink h e l.order valid.distinct here,
                    total-cons moved (unlink h l.order),
                  )));
          })
      where
        moved : Element
        moved = record { handle = h; value = record (e.value) { accessed_at = now } }

        own_handle : (j : Text) → str_eq (id_of e) j ≡ true → handle_of j l.order ≡ some h
        own_handle j same =
            subst (λ k. handle_of j l.order ≡ some k) its
              (rw (← (str_eq_iff (id_of e) j).0 same)
                (handle_of-element h e l.order valid.distinct here))

    remove-IsValid_linked : (id : Text) → id_of e ≡ id → IsValid (unlinked l id h e)
    remove-IsValid_linked id ei = record {
      coherent = λ j. ground (
        arith,
        valid.coherent j,
        Dict.lookup-delete id j l.items,
        ei,
        handle_of-unlink j h e l.order valid.distinct here,
      );
      distinct = unlink-Distinct h l.order valid.distinct;
      fresh = unlink-bounded l.next_handle h l.order valid.fresh;
      counted =
          rw (valid.counted, ← total-unlink h e l.order valid.distinct here)
            (sub64_mod _ e.value.size);
    }

  -- `Touch` keeps the invariant.
  pub touch-IsValid : (id : Text) (size now : ℕ) → IsValid (touch id size now l)
  unfolding touch
  touch-IsValid id size now = elim (Option-cases (Dict.lookup id l.items)) [
    | inl absent ↦ rw (absent, touch) (push_front-IsValid id size now absent)
    | inr (h, found) ↦
        let (e, here, its, ei) = linked id h found in
        rw (found, touch) (stamp_and_move-IsValid h e here its now)
  ]

  pub remove-IsValid : (id : Text) → IsValid (remove id l).0
  unfolding remove
  remove-IsValid id = elim (Option-cases (Dict.lookup id l.items)) [
    | inl absent ↦ rw (absent, remove) valid
    | inr (h, found) ↦
        let (e, here, its, ei) = linked id h found in
        rw (found, remove) (rw here (remove-IsValid_linked h e here its id ei))
  ]

  -- What `drop_back` leaves is valid, if `e` is the last element.
  pub drop_back-IsValid :
      (front : List Element) (e : Element)
      → l.order ≡ front ++ e ∷ []
      → IsValid (drop_back l front e)
  unfolding drop_back
  drop_back-IsValid front e eq = record {
    coherent = λ j. ground (
      arith,
      eq,
      valid.coherent j,
      Dict.lookup-delete (id_of e) j l.items,
      handle_of-front j front e (rw eq at valid.distinct),
    );
    distinct = front-Distinct front e (rw eq at valid.distinct);
    fresh = (All-of_append _ front (e ∷ []) (rw eq at valid.fresh)).0;
    counted = rw (valid.counted, eq, total-back front e) (sub64_mod (total front) e.value.size);
  }
