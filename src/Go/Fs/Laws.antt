-- ===== src/Go/Fs/Laws.antt =====
-- What is read at a path after the file system was changed elsewhere, at or above it.
use loraplex.Go.Fs.{
  parent, file, write_file, FilePath, Node, Fs, below, is_below, same_path, find, stat, drop_below,
  remove_all,
}
use loraplex.Prelude.{
  ◌↔◌, ◌≡◌, [], true, ◌∷◌, if◌then◌else◌, none, arith, List, str_eq_iff, some, ◌≢◌, ◌++◌,
  str_eq_refl, refl, Bool-cases, inr, inl, false, Text, ℕ,
}

pub same_path_iff : (p q : FilePath) → (same_path p q ≡ true) ↔ (p ≡ q)
unfolding same_path
same_path_iff [] [] = (λ _. refl, λ _. refl)
same_path_iff [] (b ∷ q) = (λ h. cc, λ h. cc)
same_path_iff (a ∷ p) [] = (λ h. cc, λ h. cc)
same_path_iff (a ∷ p) (b ∷ q) = (
  λ h. ground (arith, same_path_iff p q, str_eq_iff a b),
  λ h. ground (arith, same_path_iff p q, str_eq_iff a b),
)

pub below-append : (p rest : FilePath) → below p (p ++ rest) ≡ some rest
unfolding below
below-append [] rest = refl
below-append (a ∷ p) rest = ground (arith, below-append p rest, str_eq_refl a)

pub below_sound : (p q rest : FilePath) → below p q ≡ some rest → q ≡ p ++ rest
unfolding below
below_sound [] q rest h = cc
below_sound (a ∷ p) [] rest h = cc
below_sound (a ∷ p) (b ∷ q) rest h = ground (arith, below_sound p q rest, str_eq_iff a b)

pub find-drop_below :
    (p q : FilePath) (es : List (FilePath × Node))
    → find q (drop_below p es) ≡ (if is_below p q then none else find q es)
unfolding find drop_below
find-drop_below p q [] = ground arith
find-drop_below p q ((r, n) ∷ es) = ground (arith, find-drop_below p q es, same_path_iff r q)

-- After `RemoveAll` nothing is at or below the path, and all else is as before.
pub stat-remove_all :
    (p q : FilePath) (fs fs' : Fs)
    → q ≢ []
    → remove_all p fs ≡ some fs'
    → stat q fs' ≡ (if is_below p q then none else stat q fs)
unfolding stat remove_all
stat-remove_all p [] fs fs' proper e = absurd (proper refl)
stat-remove_all p (a ∷ q) fs fs' proper e = ground (arith, find-drop_below p (a ∷ q) fs.entries)

-- After a file is written it is there, nothing is below it, and all else is as before.
pub stat-write_file :
    (p q : FilePath) (contents : Text) (now : ℕ) (fs fs' : Fs)
    → write_file p contents now fs ≡ some fs'
    → stat q fs' ≡ (
        if same_path p q
        then some (file contents now)
        else if is_below p q
        then none
        else stat q fs)
unfolding stat write_file
stat-write_file [] [] contents now fs fs' e = unfold parent in ground arith
stat-write_file (b ∷ p) [] contents now fs fs' e = unfold same_path is_below below in refl
stat-write_file p (a ∷ q) contents now fs fs' e =
    unfold find in ground (arith, find-drop_below p (a ∷ q) fs.entries)

-- Entries of a directory.
pub not_root : (p : FilePath) (a : Text) → p ++ a ∷ [] ≢ []
not_root [] a e = cc
not_root (b ∷ p) a e = cc

pub stat_entry :
    (p : FilePath) (a : Text) (fs : Fs) → stat (p ++ a ∷ []) fs ≡ find (p ++ a ∷ []) fs.entries
unfolding stat
stat_entry [] a fs = refl
stat_entry (b ∷ p) a fs = refl

pub is_below_trans :
    (p q r : FilePath) → is_below p q ≡ true → is_below q r ≡ true → is_below p r ≡ true
unfolding is_below below
is_below_trans [] q r h k = refl
is_below_trans (a ∷ p) [] r h k = cc
is_below_trans (a ∷ p) (b ∷ q) [] h k = cc
is_below_trans (a ∷ p) (b ∷ q) (c ∷ r) h k =
    ground (arith, is_below_trans p q r, str_eq_iff a b, str_eq_iff b c, str_eq_iff a c)

pub differs : (p q : FilePath) → p ≢ q → same_path p q ≡ false
differs p q h = elim (Bool-cases (same_path p q)) [
  | inl same ↦ absurd (h ((same_path_iff p q).0 same))
  | inr e ↦ e
]

pub is_below-append : (p rest : FilePath) → is_below p (p ++ rest) ≡ true
unfolding is_below
is_below-append p rest = ground (arith, below-append p rest)

-- A path is below itself.
pub same_path_below : (p q : FilePath) → is_below p q ≡ false → same_path p q ≡ false
unfolding is_below below same_path
same_path_below [] q h = cc
same_path_below (a ∷ p) [] h = refl
same_path_below (a ∷ p) (b ∷ q) h = ground (arith, same_path_below p q)

-- Of two entries of a directory, neither is below the other.
pub is_below-sibling :
    (p : FilePath) (a b : Text) → a ≢ b → is_below (p ++ a ∷ []) (p ++ b ∷ []) ≡ false
unfolding is_below below
is_below-sibling [] a b differ = ground (arith, str_eq_iff a b)
is_below-sibling (c ∷ p) a b differ = ground (arith, is_below-sibling p a b differ, str_eq_refl c)

module _ (base p : FilePath) (inside : is_below base p ≡ true) where
  -- A path outside of `base` is not below a path inside.
  pub outside_of : (q : FilePath) → is_below base q ≡ false → is_below p q ≡ false
  outside_of q out = elim (Bool-cases (is_below p q)) [
    | inl h ↦ cc (is_below_trans base p q inside h)
    | inr e ↦ e
  ]
