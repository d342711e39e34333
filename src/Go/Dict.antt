-- ===== src/Go/Dict.antt =====
-- `map[string]V` as an association list. Reading a missing key gives `none`.
use mathlib.Core.List.{Mem, mem-cons_self, mem-cons_of_mem}
use loraplex.Prelude.{
  none, refl, arith, ◌∷◌, str_eq_iff, ◌≡◌, inr, some, if◌then◌else◌, List, str_eq_refl, Bool-cases,
  map, str_eq, inl, Text, [], Option,
}

abbrev pub Dict {ℓ} : Type ℓ → Type ℓ
Dict V = List (Text × V)

module _ {ℓ} {V : Type ℓ} where
  unfoldable pub lookup : Text → Dict V → Option V
  lookup k [] = none
  lookup k ((j, v) ∷ m) = if str_eq j k then some v else lookup k m

  -- `m[k] = v`
  unfoldable pub insert : Text → V → Dict V → Dict V
  insert k v [] = (k, v) ∷ []
  insert k v ((j, w) ∷ m) = if str_eq j k then (k, v) ∷ m else (j, w) ∷ insert k v m

  -- `delete(m, k)`
  unfoldable pub delete : Text → Dict V → Dict V
  delete k [] = []
  delete k ((j, w) ∷ m) = if str_eq j k then delete k m else (j, w) ∷ delete k m

  abbrev pub keys : Dict V → List Text
  keys = map (λ e. e.0)

  pub lookup-insert :
      (k j : Text) (v : V) (m : Dict V)
      → lookup j (insert k v m) ≡ (if str_eq k j then some v else lookup j m)
  unfolding lookup insert
  lookup-insert k j v [] = refl
  lookup-insert k j v ((i, w) ∷ m) =
      ground (arith, str_eq_iff k j, str_eq_iff i k, str_eq_iff i j, lookup-insert k j v m)

  pub lookup-delete :
      (k j : Text) (m : Dict V) → lookup j (delete k m) ≡ (if str_eq k j then none else lookup j m)
  unfolding lookup delete
  lookup-delete k j [] = ground arith
  lookup-delete k j ((i, w) ∷ m) =
      ground (arith, str_eq_iff k j, str_eq_iff i k, str_eq_iff i j, lookup-delete k j m)

  pub lookup-insert_self : (k : Text) (v : V) (m : Dict V) → lookup k (insert k v m) ≡ some v
  lookup-insert_self k v m = rw (lookup-insert k k v m, str_eq_refl k)

  -- A key that is read is among the keys.
  pub mem_of_lookup : (k : Text) (m : Dict V) (v : V) → lookup k m ≡ some v → Mem k (keys m)
  unfolding lookup
  mem_of_lookup k [] v h = cc
  mem_of_lookup k ((j, w) ∷ m) v h = elim (Bool-cases (str_eq j k)) [
    | inl e ↦ rw (← (str_eq_iff j k).0 e) mem-cons_self
    | inr e ↦ mem-cons_of_mem j (mem_of_lookup k m v (ground arith))
  ]
