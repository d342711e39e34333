-- ===== src/Go/Members.antt =====
-- Predicates on all members of a list, carried along permutations, and members by their index.
use mathlib.Core.List.{
  Mem, Perm, mem-cons_self, mem-cons_of_mem, eq-or-mem_of_mem-cons, not-mem-nil,
}
use mathlib.Core.List.Perm
use mathlib.Core.Logic.Or
use mathlib.Core.Logic.{∥∥₁_map}
use loraplex.Prelude.{ℕ, zero, [], ◌∷◌, some, ◌≡◌, suc, ◌<◌, get_elem?, All, length, arith, List}

module _ {ℓ κ} {A : Type ℓ} {P : A → Type κ} where
  pub All-of_mem : (xs : List A) → ((x : A) → Mem x xs → P x) → All P xs
  All-of_mem [] h = tt
  All-of_mem (x ∷ xs) h = (h x mem-cons_self, All-of_mem xs (λ y m. h y (mem-cons_of_mem x m)))

module _ {ℓ κ} {A : Type ℓ} (P : A → Type κ) (prop : (a : A) → IsProp (P a)) where
  pub mem_All : (x : A) (xs : List A) → All P xs → Mem x xs → P x
  mem_All x [] h m = absurd (not-mem-nil m)
  mem_All x (y ∷ xs) (hy, hs) m =
      Or.elim (prop x) (eq-or-mem_of_mem-cons m) (λ e. rw e hy) (mem_All x xs hs)

  pub perm-All : {xs ys : List A} → Perm xs ys → All P ys → All P xs
  perm-All {xs} {ys} p h = All-of_mem xs (λ x m. mem_All x ys h ((Perm.mem_iff p).0 m))

module _ {ℓ} {A : Type ℓ} where
  pub mem_get_elem? : (x : A) (xs : List A) → Mem x xs → ∥ ((i : ℕ) × (get_elem? xs i ≡ some x)) ∥₁
  mem_get_elem? x [] m = absurd (not-mem-nil m)
  mem_get_elem? x (y ∷ xs) m =
      Or.elim squash₁ (eq-or-mem_of_mem-cons m) (λ e. ∣ (0, rw e) ∣₁)
        (λ m'. ∥∥₁_map (mem_get_elem? x xs m') (λ (i, e). (suc i, e)))

  pub get_elem?-mem : (xs : List A) (i : ℕ) (x : A) → get_elem? xs i ≡ some x → Mem x xs
  get_elem?-mem [] i x e = cc
  get_elem?-mem (y ∷ xs) zero x e = let e' : y ≡ x = cc in rw e' mem-cons_self
  get_elem?-mem (y ∷ xs) (suc i) x e = mem-cons_of_mem y (get_elem?-mem xs i x e)

  pub get_elem?_bound : (xs : List A) (i : ℕ) (x : A) → get_elem? xs i ≡ some x → i < length xs
  get_elem?_bound [] i x e = cc
  get_elem?_bound (y ∷ xs) zero x e = omega arith
  get_elem?_bound (y ∷ xs) (suc i) x e = omega (arith, get_elem?_bound xs i x e)
