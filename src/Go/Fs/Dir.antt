-- ===== src/Go/Fs/Dir.antt =====
-- `os.ReadDir` and `os.Remove`.
pub mod Names
use mathlib.Core.List.{eq-or-mem_of_mem-cons, mem-cons_of_mem, mem-cons_self, Mem-prop, Mem}
use mathlib.Core.Logic.Or
use loraplex.Go.Fs.Laws.{same_path_iff, below-append}
use loraplex.Go.Fs.{
  is_below, find, same_path, remove_all, FilePath, Node, directory, file, Fs, below, is_dir, stat,
  drop_below,
}
use loraplex.Prelude.{
  Bool, if◌then◌else◌, true, none, false, List, some, ◌==◌, [], ltb, Text, ◌∷◌, Option, str_eq, ◌≡◌,
  Bool-cases, ◌++◌, inr, inl, refl, str_eq_iff, subst, sym, All, if_both,
}

-- Byte by byte, the order in which `os.ReadDir` sorts names.
unfoldable pub text_before : Text → Text → Bool
text_before [] [] = false
text_before [] (d ∷ t) = true
text_before (c ∷ s) [] = false
text_before (c ∷ s) (d ∷ t) = let rest = text_before s t in if c == d then rest else ltb c d

unfoldable pub insert_name : Text → List Text → List Text
insert_name name [] = name ∷ []
insert_name name (n ∷ names) =
    let rest = insert_name name names in
    if str_eq name n then n ∷ names else if text_before name n then name ∷ n ∷ names else n ∷ rest

-- The names of the entries right below a path.
unfoldable pub names_in : FilePath → List (FilePath × Node) → List Text
names_in p [] = []
names_in p ((q, n) ∷ es) = elim (below p q) [
  | none ↦ names_in p es
  | some [] ↦ names_in p es
  | some (name ∷ []) ↦ insert_name name (names_in p es)
  | some (name ∷ part ∷ parts) ↦ names_in p es
]

unfoldable pub read_dir : FilePath → Fs → Option (List Text)
read_dir p fs = if is_dir (stat p fs) then some (names_in p fs.entries) else none

-- A directory must be empty.
unfoldable pub remove : FilePath → Fs → Option Fs
remove p fs = elim (stat p fs) [
  | none ↦ none
  | some directory ↦ elim (names_in p fs.entries) [
    | [] ↦ (if fs.denied p then none else some (record fs { entries = drop_below p fs.entries }))
    | name ∷ names ↦ none
  ]
  | some (file s t) ↦
      (if fs.denied p then none else some (record fs { entries = drop_below p fs.entries }))
]
