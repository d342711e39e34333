-- ===== src/Cache/Store/Paths.antt =====
-- Where the adapters of a store with an absolute base path lie on the disk.
use loraplex.Cache.Store.{adapter_path, validate_adapter_id}
use loraplex.Cache.World.{Store}
use loraplex.Go.Fs.{FilePath, at}
use loraplex.Go.Path.{slash, split_slash, join_slash, is_rooted, clean_parts, clean, join}
use loraplex.Go.Path.Parts.{
  join_slash-append, clean_parts_of_names, IsName, split_names, clean_rooted, is_rooted-slash,
  clean_parts-All-IsName, clean_parts-clean, clean_parts-names,
}
use loraplex.Go.Path.Split.{split_slash_single, split_slash-cons, split_slash-append}
use loraplex.Prelude.{
  All, refl, is_empty, Text, ◌∷◌, ◌++◌, true, [], List, ◌∙◌, ◌≡◌, ap, ◌≢◌, ok, ℕ, All-of_append,
  sym, inl, append-nil, has_prefix-append, has_prefix_sound, append_assoc, subst, str_eq_iff, arith,
  Bool-cases, has_prefix, str_eq, inr,
}

-- A path at or below another, through names only.
pub record IsInside (base p : FilePath) : Type 0 where
  pub rest : FilePath
  pub path : p ≡ base ++ rest
  pub names : All IsName rest

module _ (base id : Text) (rooted : is_rooted base ≡ true) where
  abbrev joined : Text
  joined = base ++ slash ∷ id

  joined_rooted : is_rooted joined ≡ true
  joined_rooted = from_base base rooted
    where
      from_base : (b : Text) → is_rooted b ≡ true → is_rooted (b ++ slash ∷ id) ≡ true
      from_base [] h = unfold is_rooted in refl
      from_base (c ∷ b) h = unfold is_rooted in (unfold is_rooted in h)

  join_rooted : join base id ≡ clean joined
  unfolding join is_empty
  join_rooted = from_base base rooted
    where
      from_base : (b : Text) → is_rooted b ≡ true → join b id ≡ clean (b ++ slash ∷ id)
      from_base [] h = unfold is_rooted in cc
      from_base (c ∷ b) h = refl

  clean_again : clean (join base id) ≡ slash ∷ join_slash (clean_parts joined)
  clean_again = rw join_rooted (
      clean_rooted (clean joined) (rw (clean_rooted joined joined_rooted) (is_rooted-slash _))
      ∙ rw (clean_parts-clean joined joined_rooted))

  pub is_rooted-join : is_rooted (join base id) ≡ true
  is_rooted-join = rw (join_rooted, clean_rooted joined joined_rooted) (is_rooted-slash _)

  pub at-join : at (join base id) ≡ clean_parts (base ++ slash ∷ id)
  at-join = rw join_rooted (clean_parts-clean joined joined_rooted)

  -- The path of an entry of a directory.
  pub at-join_name : IsName id → at (join base id) ≡ at base ++ id ∷ []
  at-join_name name =
      let single = split_slash_single id name.no_slash in
      rw (at-join, clean_parts-names base id rooted (rw single (name, tt)), single) refl

  All-IsName-joined : All IsName (clean_parts joined)
  All-IsName-joined = clean_parts-All-IsName joined joined_rooted

join_slash-nil : join_slash [] ≡ []
unfolding join_slash
join_slash-nil = refl

append_cons_ne_nil : (s : Text) (c : ℕ) (t : Text) → [] ≢ s ++ c ∷ t
append_cons_ne_nil [] c t e = cc
append_cons_ne_nil (d ∷ s) c t e = cc

-- If the text of one absolute path goes on behind that of another and a slash, the path lies inside.
prefix-IsInside :
    (bp ps : List Text) (tail : Text)
    → All IsName bp
    → All IsName ps
    → join_slash ps ≡ join_slash bp ++ slash ∷ tail
    → IsInside bp ps
prefix-IsInside bp [] tail hb hp e =
    absurd (append_cons_ne_nil (join_slash bp) slash tail (sym join_slash-nil ∙ e))
prefix-IsInside [] (p ∷ ps) tail hb (hp, hps) e =
    let parts : p ∷ ps ≡ split_slash [] ++ split_slash tail =
      sym (split_names p ps (hp, hps))
      ∙ ap split_slash e
      ∙ rw join_slash-nil (split_slash-append [] tail) in
    let empty : p ≡ [] = unfold split_slash in cc parts in absurd (hp.not_empty empty)
prefix-IsInside (b ∷ bp) (p ∷ ps) tail hb hp e =
    let parts : p ∷ ps ≡ (b ∷ bp) ++ split_slash tail =
      sym (split_names p ps hp)
      ∙ ap split_slash e
      ∙ split_slash-append (join_slash (b ∷ bp)) tail
      ∙ rw (split_names b bp hb) in
    record {
      rest = split_slash tail;
      path = parts;
      names =
          (All-of_append IsName (b ∷ bp) (split_slash tail) (subst (λ l. All IsName l) parts hp)).1;
    }

behind :
    (bp ys : List Text)
    → bp ≢ []
    → ys ≢ []
    → slash ∷ join_slash (bp ++ ys) ≡ ((slash ∷ join_slash bp) ++ slash ∷ []) ++ join_slash ys
behind [] ys proper some_part = absurd (proper refl)
behind (b ∷ bp) [] proper some_part = absurd (some_part refl)
behind (b ∷ bp) (y ∷ ys) proper some_part =
    ap (◌∷◌ slash) (join_slash-append b bp y ys)
    ∙ sym (append_assoc (slash ∷ join_slash (b ∷ bp)) (slash ∷ []) (join_slash (y ∷ ys)))

split_ne_nil : (s : Text) → split_slash s ≢ []
split_ne_nil s e = let (part, parts, e') = split_slash-cons s in cc

module _ (s : Store) (rooted : is_rooted s.base_path ≡ true) where
  -- With an absolute base path, an accepted identifier never leads out of it: the adapter's path
  -- goes down from the base through proper names, none of them `..`.
  pub adapter_path-IsInside :
      (id : Text)
      → validate_adapter_id s id ≡ ok tt
      → IsInside (at s.base_path) (at (adapter_path s id))
  unfolding validate_adapter_id adapter_path
  adapter_path-IsInside id accepted =
      let base = s.base_path in
      let ps = clean_parts (joined base id rooted) in
      let bp = clean_parts base in
      let hp = All-IsName-joined base id rooted in
      let hb = clean_parts-All-IsName base rooted in
      let resolved = clean_again base id rooted in
      let top = clean_rooted base rooted in
      rw (at-join base id rooted)
        (elim (Bool-cases (has_prefix (clean base ++ slash ∷ []) (clean (join base id)))) [
          | inl goes_on ↦
              let (tail, e) =
                has_prefix_sound (clean base ++ slash ∷ []) (clean (join base id)) goes_on in
              let texts : slash ∷ join_slash ps ≡ slash ∷ (join_slash bp ++ slash ∷ tail) =
                sym resolved ∙ e ∙ append_assoc (clean base) (slash ∷ []) tail ∙ rw top in
              prefix-IsInside bp ps tail hb hp (cc texts)
          | inr other ↦
              let same : str_eq (clean (join base id)) (clean base) ≡ true = ground arith in
              let texts : slash ∷ join_slash ps ≡ slash ∷ join_slash bp =
                sym resolved ∙ (str_eq_iff (clean (join base id)) (clean base)).0 same ∙ top in
              record {
                rest = [];
                path =
                    sym (clean_parts_of_names ps hp)
                    ∙ ap clean_parts texts
                    ∙ clean_parts_of_names bp hb
                    ∙ sym (append-nil bp);
                names = tt;
              }
        ])

  -- Names in the place of an identifier, such as `org/adapter`, are accepted unless the base is the
  -- root, and the adapter's path is the base's with these names behind.
  pub validate-names :
      (id : Text)
      → All IsName (split_slash id)
      → at s.base_path ≢ []
      → (validate_adapter_id s id ≡ ok tt)
        × (at (adapter_path s id) ≡ at s.base_path ++ split_slash id)
  unfolding validate_adapter_id adapter_path
  validate-names id names proper =
      let base = s.base_path in
      let parts = clean_parts-names base id rooted names in
      let (y, ys, ey) = split_slash-cons id in
      let text : clean (join base id) ≡ (clean base ++ slash ∷ []) ++ join_slash (split_slash id) =
        clean_again base id rooted
        ∙ rw (parts, clean_rooted base rooted)
            (behind (clean_parts base) (split_slash id) proper (split_ne_nil id)) in
      (
        rw (text, has_prefix-append (clean base ++ slash ∷ []) (join_slash (split_slash id))),
        rw (at-join base id rooted) parts,
      )
