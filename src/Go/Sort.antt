-- ===== src/Go/Sort.antt =====
-- `sort.Slice` by a numeric key. Its result is some ascending permutation: the order of elements
-- with equal keys is not specified, so it stays a parameter, met here by an insertion sort.
use mathlib.Core.List.{Perm}
use mathlib.Core.List.Perm
use loraplex.Prelude.{
  ℕ, ◌≤◌, List, [], ◌∷◌, arith, leb, if◌then◌else◌, Bool-cases, All, inr, leb→le, inl,
}

module _ {ℓ} {A : Type ℓ} (key : A → ℕ) where
  abbrev pub IsSorted : List A → Type ℓ
  IsSorted [] = Unit
  IsSorted (x ∷ xs) = All (λ y. key x ≤ key y) xs × IsSorted xs

module _ {ℓ} {A : Type ℓ} where
  -- What a caller of `sort.Slice` may rely on.
  pub record Sorter (key : A → ℕ) : Type ℓ where
    pub sort : List A → List A
    pub sort-IsSorted : (xs : List A) → IsSorted key (sort xs)
    pub sort-perm : (xs : List A) → Perm (sort xs) xs

  module _ (key : A → ℕ) where
    unfoldable pub insert : A → List A → List A
    insert a [] = a ∷ []
    insert a (x ∷ xs) =
        let rest = insert a xs in if leb (key a) (key x) then a ∷ x ∷ xs else x ∷ rest

    unfoldable pub insertion_sort : List A → List A
    unfolding insert
    insertion_sort [] = []
    insertion_sort (x ∷ xs) = insert x (insertion_sort xs)

    All-le_trans :
        (a b : ℕ) (xs : List A) → a ≤ b → All (λ y. b ≤ key y) xs → All (λ y. a ≤ key y) xs
    All-le_trans a b [] le h = tt
    All-le_trans a b (x ∷ xs) le (hx, hs) = (omega arith, All-le_trans a b xs le hs)

    All-insert :
        (k : ℕ) (a : A) (xs : List A)
        → k ≤ key a
        → All (λ y. k ≤ key y) xs
        → All (λ y. k ≤ key y) (insert a xs)
    unfolding insert
    All-insert k a [] h hs = (h, tt)
    All-insert k a (x ∷ xs) h (hx, hs) = elim (Bool-cases (leb (key a) (key x))) [
      | inl e ↦ rw e (h, (hx, hs))
      | inr e ↦ rw e (hx, All-insert k a xs h hs)
    ]

    insert-IsSorted : (a : A) (xs : List A) → IsSorted key xs → IsSorted key (insert a xs)
    unfolding insert
    insert-IsSorted a [] s = (tt, tt)
    insert-IsSorted a (x ∷ xs) (hx, s) = elim (Bool-cases (leb (key a) (key x))) [
      | inl e ↦ rw e ((leb→le _ _ e, All-le_trans (key a) (key x) xs (leb→le _ _ e) hx), (hx, s))
      | inr e ↦ rw e (All-insert (key x) a xs (ground arith) hx, insert-IsSorted a xs s)
    ]

    insert-perm : (a : A) (xs : List A) → Perm (insert a xs) (a ∷ xs)
    unfolding insert
    insert-perm a [] = Perm.refl _
    insert-perm a (x ∷ xs) = elim (Bool-cases (leb (key a) (key x))) [
      | inl e ↦ rw e (Perm.refl _)
      | inr e ↦ rw e (Perm.trans (Perm.cons x (insert-perm a xs)) (Perm.swap a x xs))
    ]

    pub insertion_sort-IsSorted : (xs : List A) → IsSorted key (insertion_sort xs)
    unfolding insertion_sort
    insertion_sort-IsSorted [] = tt
    insertion_sort-IsSorted (x ∷ xs) =
        insert-IsSorted x (insertion_sort xs) (insertion_sort-IsSorted xs)

    pub insertion_sort-perm : (xs : List A) → Perm (insertion_sort xs) xs
    unfolding insertion_sort
    insertion_sort-perm [] = Perm.refl _
    insertion_sort-perm (x ∷ xs) =
        Perm.trans (insert-perm x (insertion_sort xs)) (Perm.cons x (insertion_sort-perm xs))

    abbrev pub by_insertion : Sorter key
    by_insertion = record {
      sort = insertion_sort;
      sort-IsSorted = insertion_sort-IsSorted;
      sort-perm = insertion_sort-perm;
    }
