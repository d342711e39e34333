-- ===== src/Go/Fs.antt =====
-- The file system as the code uses it through `os` and `filepath.WalkDir`: a table of paths. A path is
-- the list of its parts, and there are no symbolic links. `denied` says at which paths the system
-- refuses to change anything; a call that fails changes nothing.
pub mod Laws
pub mod Outside
pub mod Dir
use loraplex.Go.Path.{clean_parts}
use loraplex.Prelude.{
  Bool, ◌&&◌, false, length, [], true, ◌∷◌, if◌then◌else◌, none, ℕ, Option, not, ◌+◌, List, str_eq,
  some, Text, ◌++◌,
}

abbrev pub FilePath : Type 0
FilePath = List Text

-- What the system takes the text of a path for.
abbrev pub at : Text → FilePath
at p = clean_parts p

-- A file has its contents and the time of its last change.
pub data Node : Type 0 where
  directory : Node
  file : Text → ℕ → Node

pub record Fs : Type 0 where
  pub entries : List (FilePath × Node)
  pub denied : FilePath → Bool

-- `q` as a path below `p`, or `p` itself: what follows `p`.
unfoldable pub below : FilePath → FilePath → Option FilePath
below [] q = some q
below (a ∷ p) [] = none
below (a ∷ p) (b ∷ q) = let rest = below p q in if str_eq a b then rest else none

unfoldable pub is_below : FilePath → FilePath → Bool
is_below p q = elim (below p q) [ none ↦ false | some _ ↦ true ]

unfoldable pub same_path : FilePath → FilePath → Bool
same_path [] [] = true
same_path [] (b ∷ q) = false
same_path (a ∷ p) [] = false
same_path (a ∷ p) (b ∷ q) = str_eq a b && same_path p q

unfoldable pub find : FilePath → List (FilePath × Node) → Option Node
find p [] = none
find p ((q, n) ∷ es) = if same_path q p then some n else find p es

-- `os.Stat`; the root is always there.
unfoldable pub stat : FilePath → Fs → Option Node
stat [] fs = some directory
stat (a ∷ p) fs = find (a ∷ p) fs.entries

abbrev pub is_some : Option Node → Bool
is_some none = false
is_some (some n) = true

abbrev pub is_dir : Option Node → Bool
is_dir none = false
is_dir (some directory) = true
is_dir (some (file s t)) = false

unfoldable pub drop_below : FilePath → List (FilePath × Node) → List (FilePath × Node)
drop_below p [] = []
drop_below p ((q, n) ∷ es) = if is_below p q then drop_below p es else (q, n) ∷ drop_below p es

unfoldable pub move_below : FilePath → FilePath → List (FilePath × Node) → List (FilePath × Node)
move_below src dst [] = []
move_below src dst ((q, n) ∷ es) = elim (below src q) [
  | none ↦ (q, n) ∷ move_below src dst es
  | some rest ↦ (dst ++ rest, n) ∷ move_below src dst es
]

-- `os.RemoveAll`: no error if there is nothing at the path.
unfoldable pub remove_all : FilePath → Fs → Option Fs
remove_all p fs =
    if fs.denied p then none else some (record fs { entries = drop_below p fs.entries })

-- `os.MkdirAll`: the parts in `made` are there, those in the list are still to be made.
unfoldable pub mkdir_from : FilePath → FilePath → Fs → Option Fs
mkdir_from made [] fs = some fs
mkdir_from made (a ∷ p) fs = elim (stat (made ++ a ∷ []) fs) [
  | some directory ↦ mkdir_from (made ++ a ∷ []) p fs
  | some (file s t) ↦ none
  | none ↦ elim (fs.denied (made ++ a ∷ [])) [
    | true ↦ none
    | false ↦
        mkdir_from (made ++ a ∷ []) p
          (record fs { entries = (made ++ a ∷ [], directory) ∷ fs.entries })
  ]
]

unfoldable pub mkdir_all : FilePath → Fs → Option Fs
unfolding mkdir_from
mkdir_all p fs = mkdir_from [] p fs

-- `filepath.Dir` of a cleaned path
unfoldable pub parent : FilePath → FilePath
parent [] = []
parent (a ∷ []) = []
parent (a ∷ b ∷ p) = a ∷ parent (b ∷ p)

-- `os.WriteFile`: a file that is there is replaced.
unfoldable pub write_file : FilePath → Text → ℕ → Fs → Option Fs
write_file p contents now fs =
    if is_dir (stat (parent p) fs) && not (is_dir (stat p fs)) && not (fs.denied p)
    then some (record fs { entries = (p, file contents now) ∷ drop_below p fs.entries })
    else none

-- `os.ReadFile`
unfoldable pub read_file : FilePath → Fs → Option Text
read_file p fs = elim (stat p fs) [ none ↦ none | some directory ↦ none | some (file s t) ↦ some s ]

-- `os.Rename` of what is at `src` to a path where nothing is.
unfoldable pub rename : FilePath → FilePath → Fs → Option Fs
rename src dst fs =
    if is_some (stat src fs)
      && not (is_some (stat dst fs))
      && is_dir (stat (parent dst) fs)
      && not (is_below src dst)
      && not (fs.denied dst)
    then some (record fs { entries = move_below src dst fs.entries })
    else none

-- The sum of the sizes of the files at and below a path.
unfoldable pub size_below : FilePath → List (FilePath × Node) → ℕ
size_below p [] = 0
size_below p ((q, directory) ∷ es) = size_below p es
size_below p ((q, file s t) ∷ es) = (if is_below p q then length s else 0) + size_below p es
