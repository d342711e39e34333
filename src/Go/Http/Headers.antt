-- ===== src/Go/Http/Headers.antt =====
-- Laws of header maps: reading after `Add`, `Set` and `Del`, and copying a map.
use loraplex.Go.Dict
use loraplex.Go.Dict.{Dict}
use loraplex.Go.Http.{Header, canonical, values, add_value, add, set, del, get, add_values, add_all}
use loraplex.Prelude.{
  List, [], str_eq, ◌≡◌, str_eq_iff, if◌then◌else◌, sym, ◌++◌, append_assoc, Text, arith, ◌∷◌, none,
  append-nil, ◌∙◌, refl, inr, inl, Bool-cases, str_eq_refl,
}

-- A header map as the server hands it over: canonical names, each once.
abbrev pub IsCanonical : Header → Type 0
IsCanonical [] = Unit
IsCanonical ((k, vs) ∷ h) = (canonical k ≡ k) × (Dict.lookup k h ≡ none) × IsCanonical h

values-insert :
    (k j : Text) (vs : List Text) (h : Header)
    → values j (Dict.insert k vs h) ≡ (if str_eq k j then vs else values j h)
unfolding values
values-insert k j vs h = ground (arith, Dict.lookup-insert k j vs h)

values-cons :
    (k j : Text) (vs : List Text) (h : Header)
    → values j ((k, vs) ∷ h) ≡ (if str_eq k j then vs else values j h)
unfolding values Dict.lookup
values-cons k j vs h = ground arith

pub values_absent : (k : Text) (h : Header) → Dict.lookup k h ≡ none → values k h ≡ []
unfolding values
values_absent k h e = ground arith

pub values-add :
    (k j v : Text) (h : Header)
    → values j (add k v h) ≡ (if str_eq (canonical k) j then values j h ++ v ∷ [] else values j h)
unfolding add add_value
values-add k j v h = ground (
  arith,
  values-insert (canonical k) j (values (canonical k) h ++ v ∷ []) h,
  str_eq_iff (canonical k) j,
)

pub values-set :
    (k j v : Text) (h : Header)
    → values j (set k v h) ≡ (if str_eq (canonical k) j then v ∷ [] else values j h)
unfolding set
values-set k j v h = values-insert (canonical k) j (v ∷ []) h

pub values-del :
    (k j : Text) (h : Header)
    → values j (del k h) ≡ (if str_eq (canonical k) j then [] else values j h)
unfolding values del
values-del k j h = ground (arith, Dict.lookup-delete (canonical k) j h)

values-add_values :
    (k j : Text) (vs : List Text) (h : Header)
    → values j (add_values k vs h)
      ≡ (if str_eq (canonical k) j then values j h ++ vs else values j h)
unfolding add_values
values-add_values k j [] h = ground (arith, append-nil (values j h))
values-add_values k j (v ∷ vs) h = ground (
  arith,
  values-add_values k j vs (add k v h),
  values-add k j v h,
  append_assoc (values j h) (v ∷ []) vs,
)

values-add_first :
    (k j : Text) (vs : List Text) (src dst : Header)
    → canonical k ≡ k
    → Dict.lookup k src ≡ none
    → values j (add_values k vs dst) ++ values j src ≡ values j dst ++ values j ((k, vs) ∷ src)
values-add_first k j vs src dst e absent = elim (Bool-cases (str_eq k j)) [
  | inl same ↦
      let here : k ≡ j = (str_eq_iff k j).0 same in
      let gone : values j src ≡ [] = values_absent j src (rw here at absent) in
      rw (values-add_values k j vs dst, values-cons k j vs src, e, same, gone) (append-nil _)
  | inr differs ↦ rw (values-add_values k j vs dst, values-cons k j vs src, e, differs)
]

pub values-nil : (j : Text) → values j [] ≡ []
unfolding values Dict.lookup
values-nil j = refl

-- Copying a map by `Add` appends its values to those that the target has under the same name.
pub values-add_all :
    (src dst : Header) (j : Text)
    → IsCanonical src
    → values j (add_all src dst) ≡ values j dst ++ values j src
unfolding add_all
values-add_all [] dst j c = rw values-nil (sym (append-nil (values j dst)))
values-add_all ((k, vs) ∷ src) dst j (e, absent, c) =
    values-add_all src (add_values k vs dst) j c ∙ values-add_first k j vs src dst e absent

-- What `Set` writes under a name is what `Get` reads under it.
pub get-set : (k v : Text) (h : Header) → get k (set k v h) ≡ v
unfolding get
get-set k v h = ground (arith, values-set k (canonical k) v h, str_eq_refl (canonical k))

pub get-del : (k : Text) (h : Header) → get k (del k h) ≡ []
unfolding get
get-del k h = ground (arith, values-del k (canonical k) h, str_eq_refl (canonical k))
