-- ===== src/Go/Expand.antt =====
-- `os.ExpandEnv`: `$name` and `${name}` stand for the variables of the environment.
use loraplex.Prelude.{
  Text, suc, ℕ, zero, ◌++◌, if◌then◌else◌, length, some, leb, [], ◌==◌, none, Bool, ◌∷◌, ◌&&◌, ◌||◌,
  Option,
}

-- `isShellSpecialVar` and `isAlphaNum`
unfoldable pub is_digit : ℕ → Bool
is_digit c = leb 48 c && leb c 57

unfoldable pub is_special_var : ℕ → Bool
is_special_var c =
    c == b'*'
    || c == b'#'
    || c == b'$'
    || c == b'@'
    || c == b'!'
    || c == b'?'
    || c == b'-'
    || is_digit c

unfoldable pub is_alpha_num : ℕ → Bool
is_alpha_num c = c == b'_' || is_digit c || (leb 97 c && leb c 122) || (leb 65 c && leb c 90)

unfoldable pub name_part : Text → Text
name_part [] = []
name_part (c ∷ s) = let rest = name_part s in if is_alpha_num c then c ∷ rest else []

unfoldable pub before_brace : Text → Option Text
before_brace [] = none
before_brace (c ∷ s) =
    let rest = before_brace s in
    if c == b'}' then some [] else elim rest [ none ↦ none | some t ↦ some (c ∷ t) ]

-- The name behind a dollar sign, and by how much to go on.
unfoldable pub shell_name : Text → Text × ℕ
shell_name [] = ([], 0)
shell_name (c ∷ s) =
    if c == b'{'
    then elim (before_brace s) [
      | none ↦ ([], 1)
      | some [] ↦ ([], 2)
      | some (d ∷ name) ↦ (d ∷ name, suc (suc (length (d ∷ name))))
    ]
    else if is_special_var c
    then (c ∷ [], 1)
    else let name = name_part (c ∷ s) in (name, length name)

-- What stands for a dollar sign and a name of so many bytes.
unfoldable pub expansion : (Text → Text) → Text → ℕ → Text
expansion env [] zero = b'$' ∷ []
expansion env [] (suc w) = []
expansion env (c ∷ name) w = env (c ∷ name)

-- The first number counts the bytes that an expansion has used.
unfoldable pub expand_from : (Text → Text) → ℕ → Text → Text
expand_from env k [] = []
expand_from env (suc k) (c ∷ s) = expand_from env k s
expand_from env zero (c ∷ []) = c ∷ []
expand_from env zero (c ∷ d ∷ s) =
    let found = shell_name (d ∷ s) in
    let skipped = expand_from env found.1 (d ∷ s) in
    let kept = expand_from env zero (d ∷ s) in
    if c == b'$' then expansion env found.0 found.1 ++ skipped else c ∷ kept

unfoldable pub expand_env : (Text → Text) → Text → Text
expand_env env s = expand_from env 0 s
