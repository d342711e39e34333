-- ===== src/Go/Path.antt =====
-- `path/filepath` on a Unix system: `Clean`, `Join` and `Dir`, which work on the text of a path.
pub mod Split
pub mod Parts
use mathlib.Core.List.{reverse}
use loraplex.Prelude.{
  Bool, str_eq, [], false, ◌∷◌, if◌then◌else◌, Text, codes, ◌==◌, is_empty, true, ◌++◌, List, ◌||◌,
  ℕ,
}

abbrev pub slash : ℕ
slash = b'/'

abbrev pub dot : Text
dot = codes "."

abbrev pub dot_dot : Text
dot_dot = codes ".."

-- The parts between slashes; there is at least one.
unfoldable pub split_slash : Text → List Text
split_slash [] = [] ∷ []
split_slash (c ∷ s) = elim (split_slash s) [
  | [] ↦ (c ∷ []) ∷ []
  | part ∷ parts ↦ if c == slash then [] ∷ part ∷ parts else (c ∷ part) ∷ parts
]

unfoldable pub join_slash : List Text → Text
join_slash [] = []
join_slash (part ∷ []) = part
join_slash (part ∷ part' ∷ parts) = part ++ slash ∷ join_slash (part' ∷ parts)

unfoldable pub is_rooted : Text → Bool
is_rooted [] = false
is_rooted (c ∷ s) = c == slash

-- `Clean` keeps the parts that it has written, the last one first. `..` takes one back, unless there
-- is none to take: at the root it is dropped, and in front of a relative path it stays.
unfoldable pub backtrack : Bool → List Text → List Text
backtrack true [] = []
backtrack false [] = dot_dot ∷ []
backtrack rooted (part ∷ parts) = if str_eq part dot_dot then dot_dot ∷ part ∷ parts else parts

unfoldable pub clean_part : Bool → List Text → Text → List Text
unfolding backtrack
clean_part rooted written part =
    if is_empty part || str_eq part dot
    then written
    else if str_eq part dot_dot
    then backtrack rooted written
    else part ∷ written

unfoldable pub clean_loop : Bool → List Text → List Text → List Text
unfolding clean_part
clean_loop rooted written [] = reverse written
clean_loop rooted written (part ∷ parts) = clean_loop rooted (clean_part rooted written part) parts

-- The parts of the cleaned path.
unfoldable pub clean_parts : Text → List Text
unfolding clean_loop is_rooted split_slash
clean_parts p = clean_loop (is_rooted p) [] (split_slash p)

unfoldable pub clean : Text → Text
unfolding clean_parts join_slash
clean p =
    let parts = clean_parts p in
    if is_rooted p
    then slash ∷ join_slash parts
    else if is_empty (join_slash parts)
    then dot
    else join_slash parts

-- `filepath.Join(a, b)`
unfoldable pub join : Text → Text → Text
join a b = if is_empty a then (if is_empty b then [] else clean b) else clean (a ++ slash ∷ b)
