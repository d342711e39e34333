-- ===== src/Cache/Store/Rebuild/Inside.antt =====
-- `Rebuild` of internal/cache/store.go, and what is outside of the base directory.
use loraplex.Go.Members.{perm-All}
use loraplex.Cache.Lru
use loraplex.Cache.Lru.{Lru}
use loraplex.Cache.Lru.Identifiers.{Ids, touch-Ids}
use loraplex.Cache.Lru.Invariant.{IsValid, touch-IsValid}
use loraplex.Cache.Manager.Steps.{
  InBase, Inv, Leads, Leads-refl, Leads-trans, Leads-disk, Leads-lru,
}
use loraplex.Cache.Store.{config_name}
use loraplex.Cache.Store.Paths.{at-join}
use loraplex.Cache.Store.Rebuild.{
  AdapterInfo, mod_time, rel_of, adapter_in, walk_names, walk, deepest, touch_each, rebuild,
}
use loraplex.Cache.Store.Rebuild.Listing.{rebuild-after, rebuild-refused}
use loraplex.Cache.World.{World}
use loraplex.Go.Fs.{
  FilePath, Fs, Node, directory, file, at, below, is_below, stat, mkdir_all, mkdir_from,
}
use loraplex.Go.Fs.Dir.{names_in}
use loraplex.Go.Fs.Dir.Names.{AtEntry, All-names_in_cons}
use loraplex.Go.Fs.Laws.{below_sound, is_below-append}
use loraplex.Go.Fs.Outside.{mkdir_all-KeepsOutside, Meets}
use loraplex.Go.Path.{is_rooted, dot, join_slash}
use loraplex.Go.Path.Parts.{
  IsName, clean_parts-names, clean_parts-dot, split_names, clean_parts-All-IsName,
}
use loraplex.Go.Sort.{Sorter}
use loraplex.Prelude.{
  none, str_eq, codes, zero, inr, Option-cases, suc, Text, subst, Option, Bool-cases, [], true,
  append-nil, has_prefix, inl, refl, List, All-append, ◌++◌, ◌∷◌, All-of_append, All, ℕ, some, ◌≡◌,
  Bool-set,
}

-- Every path of the table is made of proper names.
abbrev pub AllProper : List (FilePath × Node) → Type 0
AllProper = All (λ e. All IsName e.0)

names_in-All-IsName :
    (p : FilePath) (es : List (FilePath × Node)) → AllProper es → All IsName (names_in p es)
unfolding names_in
names_in-All-IsName p [] h = tt
names_in-All-IsName p ((q, n) ∷ es) (hq, h) =
    All-names_in_cons IsName p q n es (at_entry (below p q) refl) (names_in-All-IsName p es h)
  where
    at_entry : (o : Option FilePath) → below p q ≡ o → AtEntry IsName o
    at_entry none e = tt
    at_entry (some []) e = tt
    at_entry (some (k ∷ [])) e =
        (All-of_append IsName p (k ∷ []) (subst (All IsName) (below_sound p q (k ∷ []) e) hq)).1.0
    at_entry (some (k ∷ l ∷ ls)) e = tt

mkdir_from-AllProper :
    (made p : FilePath) (fs fs' : Fs)
    → All IsName made
    → All IsName p
    → AllProper fs.entries
    → mkdir_from made p fs ≡ some fs'
    → AllProper fs'.entries
unfolding mkdir_from
mkdir_from-AllProper made [] fs fs' hm hp h e = let same : fs ≡ fs' = cc in rw (← same) h
mkdir_from-AllProper made (a ∷ p) fs fs' hm (ha, hp) h e =
    let next = All-append IsName made (a ∷ []) hm (ha, tt) in
    elim (Option-cases (stat (made ++ a ∷ []) fs)) [
      | inr (directory, there) ↦
          mkdir_from-AllProper (made ++ a ∷ []) p fs fs' next hp h (rw (there, mkdir_from) at e)
      | inr (file s t, there) ↦ cc (rw (there, mkdir_from) at e)
      | inl absent ↦ elim (Bool-cases (fs.denied (made ++ a ∷ []))) [
        | inl refused ↦ cc (rw refused at (rw (absent, mkdir_from) at e))
        | inr allowed ↦
            mkdir_from-AllProper (made ++ a ∷ []) p
              (record fs { entries = (made ++ a ∷ [], directory) ∷ fs.entries }) fs' next hp
              (next, h) (rw allowed at (rw (absent, mkdir_from) at e))
      ]
    ]

module _ (base : Text) (rooted : is_rooted base ≡ true) where
  rel_of-InBase : (rest : FilePath) → All IsName rest → InBase base (rel_of rest)
  unfolding rel_of
  rel_of-InBase [] names =
      rw (at-join base dot rooted, clean_parts-dot base rooted)
        (subst (λ p. is_below (at base) p ≡ true) (append-nil (at base))
          (is_below-append (at base) []))
  rel_of-InBase (a ∷ rest) names =
      rw
        (
          at-join base (join_slash (a ∷ rest)) rooted,
          clean_parts-names base (join_slash (a ∷ rest)) rooted
              (rw (split_names a rest names) names),
        )
        (is_below-append (at base) _)

  abbrev AllInside : List AdapterInfo → Type 0
  AllInside = All (λ a. InBase base a.id)

  walk_names-AllInside :
      (sub : FilePath → List AdapterInfo) (rest : FilePath) (fs : Fs) (names : List Text)
      → ((r : FilePath) → All IsName r → AllInside (sub r))
      → All IsName rest
      → All IsName names
      → AllInside (walk_names sub (at base) rest fs names)
  unfolding walk_names adapter_in
  walk_names-AllInside sub rest fs [] hsub hr hn = tt
  walk_names-AllInside sub rest fs (name ∷ names) hsub hr (hname, hn) =
      by_node (stat (at base ++ (rest ++ name ∷ [])) fs) refl
        (walk_names-AllInside sub rest fs names hsub hr hn)
    where
      by_node :
          (o : Option Node)
          → stat (at base ++ (rest ++ name ∷ [])) fs ≡ o
          → AllInside (walk_names sub (at base) rest fs names)
          → AllInside (walk_names sub (at base) rest fs (name ∷ names))
      by_node none e h = rw (e, walk_names) h
      by_node (some directory) e h =
          rw (e, walk_names)
            (All-append (λ a. InBase base a.id) (sub (rest ++ name ∷ []))
              (walk_names sub (at base) rest fs names)
              (hsub (rest ++ name ∷ []) (All-append IsName rest (name ∷ []) hr (hname, tt))) h)
      by_node (some (file s t)) e h =
          rw (e, walk_names)
            (elim (Bool-cases (str_eq name config_name)) [
              | inl c ↦ rw c (elim (Bool-cases (has_prefix (codes ".tmp") (rel_of rest))) [
                | inl hidden ↦ rw hidden h
                | inr shown ↦ rw shown (rel_of-InBase rest hr, tt)
              ])
              | inr c ↦ rw c h
            ])

  walk-AllInside :
      (depth : ℕ) (rest : FilePath) (fs : Fs)
      → AllProper fs.entries
      → All IsName rest
      → AllInside (walk depth (at base) rest fs)
  unfolding walk
  walk-AllInside zero rest fs proper hr = tt
  walk-AllInside (suc depth) rest fs proper hr =
      walk_names-AllInside (λ sub. walk depth (at base) sub fs) rest fs
        (names_in (at base ++ rest) fs.entries) (λ r h. walk-AllInside depth r fs proper h) hr
        (names_in-All-IsName (at base ++ rest) fs.entries proper)

  touch_each-inside :
      (found : List AdapterInfo) (now : ℕ) (l : Lru)
      → AllInside found
      → IsValid l
      → Ids (InBase base) l
      → IsValid (touch_each found now l) × Ids (InBase base) (touch_each found now l)
  unfolding touch_each
  touch_each-inside [] now l h valid listed = (valid, listed)
  touch_each-inside (a ∷ found) now l (ha, h) valid listed =
      touch_each-inside found now (Lru.touch a.id a.size now l) h
        (touch-IsValid l valid a.id a.size now)
        (touch-Ids (InBase base) a.id a.size now l ha listed)

  module _ (sorter : Sorter mod_time) (now : ℕ) (w : World) (i : Inv base w)
      (proper : AllProper w.fs.entries) where
    after_mkdir :
        (fs' : Fs)
        → mkdir_all (at w.store.base_path) w.fs ≡ some fs'
        → Leads base w (rebuild sorter now w).1
    unfolding mkdir_all
    after_mkdir fs' e =
        let base_met : Meets (at base) (at w.store.base_path) = inl (
          rw i.same_base (
            subst (λ p. is_below (at base) p ≡ true) (append-nil (at base))
              (is_below-append (at base) []))) in
        let first =
          Leads-disk base w fs' i
            (mkdir_all-KeepsOutside (at base) (at w.store.base_path) base_met w.fs fs' e) in
        let proper' : AllProper fs'.entries =
          mkdir_from-AllProper [] (at w.store.base_path) w.fs fs' tt
            (rw i.same_base (clean_parts-All-IsName base rooted)) proper e in
        let found = sorter.sort (walk (suc (deepest fs'.entries)) (at w.store.base_path) [] fs') in
        let inside : AllInside found =
          perm-All (λ a. InBase base a.id) (λ a. Bool-set _ _) (sorter.sort-perm _)
            (rw i.same_base (walk-AllInside (suc (deepest fs'.entries)) [] fs' proper' tt)) in
        let (valid, listed) = touch_each-inside found now w.store.lru inside i.lru_valid i.listed in
        rw (rebuild-after sorter now w fs' e) (
          Leads-trans base w (record w { fs = fs' }) _ first
            (Leads-lru base (record w { fs = fs' }) (touch_each found now w.store.lru) first.inv
              valid listed))

    -- If the base path is absolute and the paths on the disk are made of proper names, then from a state with a
    -- valid LRU that lists no identifier which leads out of the base, `Rebuild` changes nothing outside of the
    -- base directory and makes nothing there, however it ends, but that it may make missing directories that the
    -- base lies in; the LRU is valid afterwards, and lists no identifier which leads out of the base.
    pub rebuild-Leads : Leads base w (rebuild sorter now w).1
    rebuild-Leads = elim (Option-cases (mkdir_all (at w.store.base_path) w.fs)) [
      | inl e ↦ rw (rebuild-refused sorter now w e) (Leads-refl base w i)
      | inr (fs', e) ↦ after_mkdir fs' e
    ]
