-- ===== src/Cache/Lru/Plain.antt =====
-- What the LRU promises: a list of identifiers and sizes, most recently used first.
use loraplex.Prelude.{
  Bool, [], str_eq, Option, Text, some, ℕ, ◌∷◌, if◌then◌else◌, none, true, false, List,
}

abbrev pub Recency : Type 0
Recency = List (Text × ℕ)

unfoldable pub size_of : Text → Recency → Option ℕ
size_of id [] = none
size_of id ((j, s) ∷ xs) = if str_eq j id then some s else size_of id xs

unfoldable pub drop_id : Text → Recency → Recency
drop_id id [] = []
drop_id id ((j, s) ∷ xs) = if str_eq j id then drop_id id xs else (j, s) ∷ drop_id id xs

-- To the front, with the size that was first recorded.
unfoldable pub use_id : Text → ℕ → Recency → Recency
use_id id size xs = elim (size_of id xs) [
  | none ↦ (id, size) ∷ xs
  | some s ↦ (id, s) ∷ drop_id id xs
]

unfoldable pub has_id : Text → Recency → Bool
has_id id xs = elim (size_of id xs) [ none ↦ false | some s ↦ true ]
