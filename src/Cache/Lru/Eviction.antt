-- ===== src/Cache/Lru/Eviction.antt =====
-- What `Evict` of internal/cache/lru.go removes and keeps.
use mathlib.Core.List.{reverse, reverse-append, map-append}
use loraplex.Go.Int64.{add64, gt64, lt64_small}
use loraplex.Cache.Lru.{Element, Lru, drop_back, evict_loop, evict}
use loraplex.Cache.Lru.Elements.{total-cons, total-append, id_of, total, split_back_cases}
use loraplex.Cache.Lru.Invariant.{IsValid, drop_back-IsValid, total-back}
use loraplex.Prelude.{
  append-nil, ◌+◌, ◌∙◌, true, ℕ, List, ◌≡◌, ◌∷◌, ◌++◌, append_assoc, refl, map, [], false, ◌^◌, ◌%◌,
  Text, sym, ◌⊎◌, inr, ap, length, Bool-cases, length-append, zero, ◌≤◌, arith, suc, inl, ◌<◌,
  subst, ltb→lt, ltb,
}

-- From `l`, `result` was reached by removing `gone` from the back: enough, and no more than needed.
pub record Trimmed (required : ℕ) (l : Lru) (before : List Text) (result : Lru × List Text)
    : Type 0 where
  pub gone : List Element
  pub split : l.order ≡ result.0.order ++ gone
  pub names : result.1 ≡ before ++ reverse (map id_of gone)
  pub valid : IsValid result.0
  pub same_max : result.0.max_size ≡ l.max_size
  pub enough :
      (result.0.order ≡ [])
      ⊎ (gt64 (add64 (total result.0.order % 2 ^ 64) required) l.max_size ≡ false)
  pub needed :
      (g : Element) (gs : List Element)
      → gone ≡ g ∷ gs
      → gt64 (add64 ((total result.0.order + g.value.size) % 2 ^ 64) required) l.max_size ≡ true

-- Below 2^63 the wrap-around test of `Evict` compares the numbers.
over_limit :
    (n required max : ℕ)
    → n + required < 2 ^ 63
    → max < 2 ^ 63
    → gt64 (add64 (n % 2 ^ 64) required) max ≡ ltb max (n + required)
unfolding add64
over_limit n required max h hm =
    let e : (n % 2 ^ 64 + required) % 2 ^ 64 ≡ n + required = omega arith in
    rw e (lt64_small max (n + required) hm h)

module _ (required : ℕ) where
  untouched :
      (l : Lru) (before : List Text)
      → IsValid l
      → (l.order ≡ []) ⊎ (gt64 (add64 (total l.order % 2 ^ 64) required) l.max_size ≡ false)
      → Trimmed required l before (l, before)
  untouched l before valid enough = record {
    gone = [];
    split = sym (append-nil l.order);
    names = sym (append-nil before);
    valid = valid;
    same_max = refl;
    enough = enough;
    needed = λ g gs e. cc;
  }

  one_more :
      (l : Lru) (before : List Text) (front : List Element) (e : Element) (result : Lru × List Text)
      → l.order ≡ front ++ e ∷ []
      → gt64 (add64 (total l.order % 2 ^ 64) required) l.max_size ≡ true
      → Trimmed required (drop_back l front e) (before ++ id_of e ∷ []) result
      → Trimmed required l before result
  unfolding drop_back
  one_more l before front e result eq over t = record {
    gone = t.gone ++ e ∷ [];
    split = eq ∙ rw (t.split) (append_assoc result.0.order t.gone (e ∷ []));
    names = t.names ∙ names_more t.gone;
    valid = t.valid;
    same_max = t.same_max;
    enough = t.enough;
    needed = needs t.gone refl;
  }
    where
      names_more :
          (gone : List Element)
          → (before ++ id_of e ∷ []) ++ reverse (map id_of gone)
            ≡ before ++ reverse (map id_of (gone ++ e ∷ []))
      names_more gone =
          rw (append_assoc, map-append)
            (ap (◌++◌ before) (sym (reverse-append (map id_of gone) (id_of e ∷ []))))

      needs :
          (gone : List Element)
          → t.gone ≡ gone
          → (g : Element) (gs : List Element) → gone ++ e ∷ [] ≡ g ∷ gs
          → gt64 (add64 ((total result.0.order + g.value.size) % 2 ^ 64) required) l.max_size ≡ true
      needs [] none_gone g gs eg =
          let same : e ≡ g = cc in
          let kept : front ≡ result.0.order = t.split ∙ rw none_gone (append-nil result.0.order) in
          let sum : total l.order ≡ total result.0.order + g.value.size =
            ap total eq ∙ total-back front e ∙ rw (kept, same) in
          rw (← sum) over
      needs (x ∷ xs) some_gone g gs eg =
          let same : x ≡ g = cc in rw (← same) (t.needed x xs some_gone)

  evict_loop-Trimmed :
      (k : ℕ) (l : Lru) (before : List Text)
      → IsValid l
      → length l.order ≤ k
      → Trimmed required l before (evict_loop k required l before)
  unfolding evict_loop
  evict_loop-Trimmed zero l before valid short =
      untouched l before valid (inl (empty l.order short))
    where
      empty : (es : List Element) → length es ≤ 0 → es ≡ []
      empty [] h = refl
      empty (e ∷ es) h = absurd (omega arith)
  evict_loop-Trimmed (suc k) l before valid short = elim (split_back_cases l.order) [
    | inl (empty, last) ↦ rw (last, evict_loop) (untouched l before valid (inl empty))
    | inr (front, e, eq, last) ↦
        rw (last, evict_loop)
          (elim (Bool-cases (gt64 (add64 l.cur_size required) l.max_size)) [
            | inl over ↦ rw over (
                one_more l before front e _ eq
                  (subst (λ c. gt64 (add64 c required) l.max_size ≡ true) valid.counted over)
                  (evict_loop-Trimmed k (drop_back l front e) (before ++ id_of e ∷ [])
                    (drop_back-IsValid l valid front e eq) (shorter front e (rw eq at short))))
            | inr fits ↦ rw fits (
                untouched l before valid (
                  inr (subst (λ c. gt64 (add64 c required) l.max_size ≡ false) valid.counted fits)))
          ])
  ]
    where
      shorter :
          (front : List Element) (e : Element) → length (front ++ e ∷ []) ≤ suc k → length front ≤ k
      shorter front e h = omega (arith, length-append {0} front (e ∷ []))

  module _ (l : Lru) (valid : IsValid l) where
    pub evict-Trimmed : Trimmed required l [] (evict required l)
    unfolding evict
    evict-Trimmed = evict_loop-Trimmed (length l.order) l [] valid (omega arith)

    -- If the limit is not negative, and the sizes and the required bytes add up to less than 2^63, `Evict` cuts the list of elements
    -- in two: it returns the identifiers of the second part, the least recently used first, and keeps
    -- the first. What is kept leaves room for the required bytes, unless nothing is kept; and the
    -- last element that was removed had to be: with it the limit would be exceeded.
    pub evict-suffix :
        total l.order + required < 2 ^ 63
        → l.max_size < 2 ^ 63
        → let (kept, evicted) = evict required l in
          (gone : List Element) × (l.order ≡ kept.order ++ gone)
          × (evicted ≡ reverse (map id_of gone))
          × (kept.max_size ≡ l.max_size)
          × ((kept.order ≡ []) ⊎ (total kept.order + required ≤ l.max_size))
          × ((g : Element) (gs : List Element)
              → gone ≡ g ∷ gs
              → l.max_size < total kept.order + g.value.size + required)
    evict-suffix small small_max =
        let t = evict-Trimmed in
        let kept = (evict required l).0 in
        let parts : total l.order ≡ total kept.order + total t.gone =
          ap total t.split ∙ total-append kept.order t.gone in
        (
          t.gone,
          t.split,
          t.names,
          t.same_max,
          enough_room t.enough,
          λ g gs eg. ltb→lt _ _ (
              sym (
                over_limit (total kept.order + g.value.size) required l.max_size
                  (omega (arith, ap total eg, total-cons g gs)) small_max)
              ∙ t.needed g gs eg),
        )
      where
        enough_room :
            let kept = (evict required l).0 in
            (kept.order ≡ [])
              ⊎ (gt64 (add64 (total kept.order % 2 ^ 64) required) l.max_size ≡ false)
            → (kept.order ≡ []) ⊎ (total kept.order + required ≤ l.max_size)
        enough_room (inl empty) = inl empty
        enough_room (inr fits) =
            let kept = (evict required l).0 in
            let t = evict-Trimmed in
            let parts = ap total t.split ∙ total-append kept.order t.gone in
            let e : ltb l.max_size (total kept.order + required) ≡ false =
              sym (over_limit (total kept.order) required l.max_size (omega arith) small_max)
              ∙ fits in
            inr (ground arith)
