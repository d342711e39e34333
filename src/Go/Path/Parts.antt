-- ===== src/Go/Path/Parts.antt =====
-- The parts of a path that name entries, and what `Clean` leaves of a rooted path.
use mathlib.Core.List.{reverse, reverse-reverse, reverse-cons}
use loraplex.Go.Path.{
  slash, dot, dot_dot, split_slash, join_slash, is_rooted, backtrack, clean_part, clean_loop,
  clean_parts, clean,
}
use loraplex.Prelude.{
  Bool, ◌≡◌, [], Bool-cases, ◌∷◌, Text, refl, ◌≢◌, ◌++◌, inr, List, All, inl, arith, is_empty,
  str_eq_iff, ◌∙◌, ap, append_assoc, true, append-nil, sym, false, str_eq, All-reverse, str_eq_refl,
}
use loraplex.Go.Path.Split.{
  split_slash-append, SlashFree, split_slash-All-SlashFree, split_slash-join_slash,
}

-- A part that names an entry of a directory.
pub record IsName (part : Text) : Type 0 where
  pub not_empty : part ≢ []
  pub not_dot : part ≢ dot
  pub not_dot_dot : part ≢ dot_dot
  pub no_slash : All (λ c. c ≢ slash) part

backtrack-All-IsName :
    (written : List Text) → All IsName written → All IsName (backtrack true written)
unfolding backtrack
backtrack-All-IsName [] names = tt
backtrack-All-IsName (part ∷ written) (name, names) =
    let not_up = name.not_dot_dot in
    let e : str_eq part dot_dot ≡ false = ground (arith, str_eq_iff part dot_dot) in rw e names

clean_part-All-IsName :
    (written : List Text) (part : Text)
    → All IsName written
    → SlashFree part
    → All IsName (clean_part true written part)
unfolding clean_part backtrack
clean_part-All-IsName written [] names free = unfold is_empty in names
clean_part-All-IsName written (c ∷ s) names free = elim (Bool-cases (str_eq (c ∷ s) dot)) [
  | inl is_dot ↦ unfold is_empty in rw is_dot names
  | inr other ↦ elim (Bool-cases (str_eq (c ∷ s) dot_dot)) [
    | inl up ↦ unfold is_empty in rw (other, up) (backtrack-All-IsName written names)
    | inr plain ↦
        unfold is_empty in
        rw (other, plain)
          (
            record {
              not_empty = λ e. cc;
              not_dot = λ e. cc ((str_eq_iff (c ∷ s) dot).1 e);
              not_dot_dot = λ e. cc ((str_eq_iff (c ∷ s) dot_dot).1 e);
              no_slash = free;
            },
            names,
          )
  ]
]

clean_loop-append :
    (rooted : Bool) (written xs ys : List Text)
    → clean_loop rooted written (xs ++ ys)
      ≡ clean_loop rooted (reverse (clean_loop rooted written xs)) ys
unfolding clean_loop
clean_loop-append rooted written [] ys = rw (reverse-reverse written)
clean_loop-append rooted written (x ∷ xs) ys =
    clean_loop-append rooted (clean_part rooted written x) xs ys

-- Names are taken over as they stand.
clean_part_of_IsName :
    (rooted : Bool) (written : List Text) (part : Text)
    → IsName part
    → clean_part rooted written part ≡ part ∷ written
unfolding clean_part is_empty
clean_part_of_IsName rooted written [] name = absurd (name.not_empty refl)
clean_part_of_IsName rooted written (c ∷ s) name =
    ground
      (arith, str_eq_iff (c ∷ s) dot, str_eq_iff (c ∷ s) dot_dot, name.not_dot, name.not_dot_dot)

clean_loop_of_names :
    (rooted : Bool) (written parts : List Text)
    → All IsName parts
    → clean_loop rooted written parts ≡ reverse written ++ parts
unfolding clean_loop
clean_loop_of_names rooted written [] names = sym (append-nil (reverse written))
clean_loop_of_names rooted written (part ∷ parts) (name, names) =
    rw (clean_part_of_IsName rooted written part name) (
      clean_loop_of_names rooted (part ∷ written) parts names
      ∙ rw (reverse-cons part written) (append_assoc (reverse written) (part ∷ []) parts))

clean_loop-All-IsName :
    (written parts : List Text)
    → All IsName written
    → All SlashFree parts
    → All IsName (clean_loop true written parts)
unfolding clean_loop
clean_loop-All-IsName written [] names free = All-reverse IsName written names
clean_loop-All-IsName written (part ∷ parts) names (h, hs) =
    clean_loop-All-IsName (clean_part true written part) parts
      (clean_part-All-IsName written part names h) hs

-- The parts of a cleaned absolute path are names: none is empty, `.` or `..`.
pub clean_parts-All-IsName : (p : Text) → is_rooted p ≡ true → All IsName (clean_parts p)
unfolding clean_parts
clean_parts-All-IsName p rooted =
    rw rooted (clean_loop-All-IsName [] (split_slash p) tt (split_slash-All-SlashFree p))

-- Names below a path are taken over behind its cleaned parts.
pub clean_parts-names :
    (base below : Text)
    → is_rooted base ≡ true
    → All IsName (split_slash below)
    → clean_parts (base ++ slash ∷ below) ≡ clean_parts base ++ split_slash below
unfolding clean_parts is_rooted
clean_parts-names [] below rooted names = cc
clean_parts-names (c ∷ base) below rooted names = rw (
  split_slash-append (c ∷ base) below,
  rooted,
  clean_loop-append true [] (split_slash (c ∷ base)) (split_slash below),
  clean_loop_of_names _ _ (split_slash below) names,
  reverse-reverse,
)

All-SlashFree_of_names : (parts : List Text) → All IsName parts → All SlashFree parts
All-SlashFree_of_names [] h = tt
All-SlashFree_of_names (part ∷ parts) (n, h) = (n.no_slash, All-SlashFree_of_names parts h)

pub split_names :
    (part : Text) (parts : List Text)
    → All IsName (part ∷ parts)
    → split_slash (join_slash (part ∷ parts)) ≡ part ∷ parts
split_names part parts h =
    split_slash-join_slash part parts (All-SlashFree_of_names (part ∷ parts) h)

pub clean_rooted : (p : Text) → is_rooted p ≡ true → clean p ≡ slash ∷ join_slash (clean_parts p)
unfolding clean
clean_rooted p rooted = rw rooted

pub is_rooted-slash : (s : Text) → is_rooted (slash ∷ s) ≡ true
unfolding is_rooted
is_rooted-slash s = refl

clean_loop_past_empty :
    (parts : List Text) → All IsName parts → clean_loop true [] (split_slash [] ++ parts) ≡ parts
unfolding clean_loop split_slash
clean_loop_past_empty parts names =
    let e : clean_part true [] [] ≡ [] = unfold clean_part is_empty in refl in
    rw e (clean_loop_of_names true [] parts names)

pub clean_parts_of_names :
    (parts : List Text) → All IsName parts → clean_parts (slash ∷ join_slash parts) ≡ parts
unfolding clean_parts clean_loop clean_part
clean_parts_of_names [] names = unfold split_slash join_slash is_rooted is_empty in refl
clean_parts_of_names (part ∷ parts) names =
    rw (is_rooted-slash, split_slash-append [] (join_slash (part ∷ parts)))
      (rw (split_names part parts names) (clean_loop_past_empty (part ∷ parts) names))

-- Cleaning a rooted path twice cleans it once.
pub clean_parts-clean : (p : Text) → is_rooted p ≡ true → clean_parts (clean p) ≡ clean_parts p
clean_parts-clean p rooted =
    rw (clean_rooted p rooted)
      (clean_parts_of_names (clean_parts p) (clean_parts-All-IsName p rooted))

pub join_slash-append :
    (x : Text) (xs : List Text) (y : Text) (ys : List Text)
    → join_slash ((x ∷ xs) ++ y ∷ ys) ≡ join_slash (x ∷ xs) ++ slash ∷ join_slash (y ∷ ys)
unfolding join_slash
join_slash-append x [] y ys = refl
join_slash-append x (x' ∷ xs) y ys =
    ap (λ (t : Text). x ++ slash ∷ t) (join_slash-append x' xs y ys)
    ∙ sym (append_assoc x (slash ∷ join_slash (x' ∷ xs)) (slash ∷ join_slash (y ∷ ys)))

-- A dot below a path adds nothing.
pub clean_parts-dot :
    (base : Text) → is_rooted base ≡ true → clean_parts (base ++ slash ∷ dot) ≡ clean_parts base
unfolding clean_parts is_rooted clean_loop clean_part split_slash is_empty
clean_parts-dot [] rooted = cc
clean_parts-dot (c ∷ base) rooted =
    rw
      (
        split_slash-append (c ∷ base) dot,
        rooted,
        clean_loop-append true [] (split_slash (c ∷ base)) (split_slash dot),
      )
      (rw str_eq_refl (reverse-reverse _))

-- A text without a slash.
pub single-IsName : (f : Text) → split_slash f ≡ f ∷ [] → f ≢ [] → f ≢ dot → f ≢ dot_dot → IsName f
single-IsName f single full no_dot no_dots = record {
  not_empty = full;
  not_dot = no_dot;
  not_dot_dot = no_dots;
  no_slash = (rw single at (split_slash-All-SlashFree f)).0;
}
