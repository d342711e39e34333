-- ===== src/Go/Trim.antt =====
-- `strings.TrimSpace`.
use loraplex.Prelude.{Text, if◌then◌else◌, reverse, ◌==◌, ◌∷◌, Bool, ◌&&◌, [], ℕ, leb, ◌||◌}

-- `strings.TrimSpace` where the spaces are ASCII.
abbrev pub is_space : ℕ → Bool
is_space c = c == 32 || (leb 9 c && leb c 13)

unfoldable pub trim_left : Text → Text
trim_left [] = []
trim_left (c ∷ s) = let rest = trim_left s in if is_space c then rest else c ∷ s

unfoldable pub trim_space : Text → Text
trim_space s = reverse (trim_left (reverse (trim_left s)))
