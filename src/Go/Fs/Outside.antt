-- ===== src/Go/Fs/Outside.antt =====
-- What the calls on the file system leave as it was: all that is outside of a directory.
use loraplex.Go.Fs.{
  parent, mkdir_all, directory, file, mkdir_from, rename, write_file, FilePath, Node, Fs, below,
  is_below, same_path, find, stat, drop_below, move_below, remove_all,
}
use loraplex.Go.Fs.Laws.{
  same_path_iff, find-drop_below, stat-remove_all, is_below_trans, differs, is_below-append,
  outside_of, not_root,
}
use loraplex.Prelude.{
  Text, ◌∙◌, refl, [], inl, ◌≢◌, some, List, ℕ, true, ◌++◌, Option-cases, ◌∷◌, str_eq_iff, sym,
  none, ◌⊎◌, inr, subst, ◌≡◌, Bool-cases, if◌then◌else◌, append_assoc, false, arith, str_eq_refl,
}

-- On the way to `base` a directory was made where nothing was.
pub record MadeAbove (base : FilePath) (fs fs' : Fs) (q : FilePath) : Type 0 where
  pub above : is_below q base ≡ true
  pub was_absent : stat q fs ≡ none
  pub is_made : stat q fs' ≡ some directory

-- Each path outside of `base` has what it had, nothing if there was nothing, but for the directories that `base` lies
-- in: those that were missing may have been made.
abbrev pub KeepsOutside : FilePath → Fs → Fs → Type 0
KeepsOutside base fs fs' =
    (q : FilePath) → is_below base q ≡ false → (stat q fs' ≡ stat q fs) ⊎ MadeAbove base fs fs' q

pub KeepsOutside-refl : (base : FilePath) (fs : Fs) → KeepsOutside base fs fs
KeepsOutside-refl base fs q out = inl refl

pub KeepsOutside-trans :
    (base : FilePath) (fs fs' fs'' : Fs)
    → KeepsOutside base fs fs'
    → KeepsOutside base fs' fs''
    → KeepsOutside base fs fs''
KeepsOutside-trans base fs fs' fs'' k l q out = both (k q out) (l q out)
  where
    both :
        ((stat q fs' ≡ stat q fs) ⊎ MadeAbove base fs fs' q)
        → ((stat q fs'' ≡ stat q fs') ⊎ MadeAbove base fs' fs'' q)
        → (stat q fs'' ≡ stat q fs) ⊎ MadeAbove base fs fs'' q
    both (inl e) (inl e') = inl (e' ∙ e)
    both (inl e) (inr m) =
        inr (record { above = m.above; was_absent = sym e ∙ m.was_absent; is_made = m.is_made })
    both (inr m) (inl e') =
        inr (record { above = m.above; was_absent = m.was_absent; is_made = e' ∙ m.is_made })
    both (inr m) (inr m') = let e = m'.was_absent in let e' = m.is_made in cc

-- Two paths on the way to a third: one of them is at or below the other.
above_or_below :
    (base p q : FilePath)
    → is_below q p ≡ true
    → is_below base p ≡ true
    → is_below base q ≡ false
    → is_below q base ≡ true
unfolding is_below below
above_or_below [] p q hq hb out = cc
above_or_below (a ∷ base) p [] hq hb out = refl
above_or_below (a ∷ base) [] (c ∷ q) hq hb out = cc
above_or_below (a ∷ base) (b ∷ p) (c ∷ q) hq hb out =
    ground (
      arith,
      above_or_below base p q,
      str_eq_iff a b,
      str_eq_iff c b,
      str_eq_iff a c,
      str_eq_iff c a,
    )

-- What is kept outside of a path is kept outside of a directory that it lies in.
pub KeepsOutside-up :
    (base p : FilePath) (fs fs' : Fs)
    → is_below base p ≡ true
    → KeepsOutside p fs fs'
    → KeepsOutside base fs fs'
KeepsOutside-up base p fs fs' inside k q out = elim (k q (outside_of base p inside q out)) [
  | inl e ↦ inl e
  | inr m ↦ inr (record {
    above = above_or_below base p q m.above inside out;
    was_absent = m.was_absent;
    is_made = m.is_made;
  })
]

module _ (base p : FilePath) (inside : is_below base p ≡ true) where
  pub remove_all-KeepsOutside :
      (fs fs' : Fs) → remove_all p fs ≡ some fs' → KeepsOutside base fs fs'
  remove_all-KeepsOutside fs fs' e [] out = inl (unfold stat in refl)
  remove_all-KeepsOutside fs fs' e (a ∷ q) out = inl (
      rw (stat-remove_all p (a ∷ q) fs fs' (λ e'. cc) e, outside_of base p inside (a ∷ q) out) refl)

  find-write :
      (a : Text) (q : FilePath) (n : Node) (es : List (FilePath × Node))
      → is_below base (a ∷ q) ≡ false
      → find (a ∷ q) ((p, n) ∷ drop_below p es) ≡ find (a ∷ q) es
  unfolding find
  find-write a q n es out = ground (
    arith,
    find-drop_below p (a ∷ q) es,
    same_path_iff p (a ∷ q),
    outside_of base p inside (a ∷ q) out,
    inside,
  )

  pub write_file-KeepsOutside :
      (contents : Text) (now : ℕ) (fs fs' : Fs)
      → write_file p contents now fs ≡ some fs'
      → KeepsOutside base fs fs'
  unfolding stat write_file
  write_file-KeepsOutside contents now fs fs' e [] out = inl refl
  write_file-KeepsOutside contents now fs fs' e (a ∷ q) out =
      inl (ground (arith, find-write a q (file contents now) fs.entries out))

  module _ (dst : FilePath) (dst_inside : is_below base dst ≡ true) where
    find-move_below :
        (q : FilePath) (es : List (FilePath × Node))
        → is_below base q ≡ false
        → find q (move_below p dst es) ≡ find q es
    unfolding find move_below is_below
    find-move_below q [] out = refl
    find-move_below q ((r, n) ∷ es) out = elim (Option-cases (below p r)) [
      | inl stays ↦ rw (stays, move_below) (rw (find-move_below q es out))
      | inr (rest, moves) ↦
          let not_here : same_path r q ≡ false =
            differs r q (λ e. ground (arith, outside_of base p inside q out)) in
          let not_there : same_path (dst ++ rest) q ≡ false = differs (dst ++ rest) q (λ e.
            cc (is_below_trans base dst q dst_inside (rw (← e) (is_below-append dst rest)))) in
          rw (moves, move_below) (rw (not_here, not_there) (find-move_below q es out))
    ]

    pub rename-KeepsOutside : (fs fs' : Fs) → rename p dst fs ≡ some fs' → KeepsOutside base fs fs'
    unfolding stat rename
    rename-KeepsOutside fs fs' e [] out = inl refl
    rename-KeepsOutside fs fs' e (a ∷ q) out =
        inl (ground (arith, find-move_below (a ∷ q) fs.entries out))

-- A new entry is read at its own path, and changes nothing elsewhere.
stat_new :
    (p : FilePath) (m : Node) (fs : Fs) (q : FilePath)
    → p ≢ []
    → stat q (record fs { entries = (p, m) ∷ fs.entries })
      ≡ (if same_path p q then some m else stat q fs)
unfolding stat find same_path
stat_new [] m fs q proper = absurd (proper refl)
stat_new (b ∷ p) m fs [] proper = refl
stat_new (b ∷ p) m fs (a ∷ q) proper = refl

-- `MkdirAll` only makes directories where nothing was, on the way to its path.
mkdir_from-makes :
    (made p : FilePath) (fs fs' : Fs) (q : FilePath)
    → mkdir_from made p fs ≡ some fs'
    → (stat q fs' ≡ stat q fs) ⊎ MadeAbove (made ++ p) fs fs' q
unfolding mkdir_from
mkdir_from-makes made [] fs fs' q e = let same : fs ≡ fs' = cc in inl (rw (← same) refl)
mkdir_from-makes made (a ∷ p) fs fs' q e =
    let next = made ++ a ∷ [] in
    let path : next ++ p ≡ made ++ a ∷ p = append_assoc made (a ∷ []) p in
    elim (Option-cases (stat next fs)) [
      | inr (directory, there) ↦
          subst (λ r. (stat q fs' ≡ stat q fs) ⊎ MadeAbove r fs fs' q) path
            (mkdir_from-makes next p fs fs' q (rw (there, mkdir_from) at e))
      | inr (file s t, there) ↦ cc (rw (there, mkdir_from) at e)
      | inl absent ↦ elim (Bool-cases (fs.denied next)) [
        | inl refused ↦ cc (rw refused at (rw (absent, mkdir_from) at e))
        | inr allowed ↦
            let fs1 : Fs = record fs { entries = (next, directory) ∷ fs.entries } in
            let later =
              subst (λ r. (stat q fs' ≡ stat q fs1) ⊎ MadeAbove r fs1 fs' q) path
                (mkdir_from-makes next p fs1 fs' q
                  (rw allowed at (rw (absent, mkdir_from) at e))) in
            let new = stat_new next directory fs q (not_root made a) in
            elim (Bool-cases (same_path next q)) [
              | inr other ↦
                  let same : stat q fs1 ≡ stat q fs = rw other at new in
                  elim later [
                    | inl e' ↦ inl (e' ∙ same)
                    | inr m ↦ inr (record {
                      above = m.above;
                      was_absent = sym same ∙ m.was_absent;
                      is_made = m.is_made;
                    })
                  ]
              | inl here ↦
                  let same = (same_path_iff next q).0 here in
                  let now_there : stat q fs1 ≡ some directory = rw here at new in
                  elim later [
                    | inl e' ↦ inr (record {
                      above =
                          subst (λ r. is_below r (made ++ a ∷ p) ≡ true) same
                            (subst (λ r. is_below next r ≡ true) path (is_below-append next p));
                      was_absent = subst (λ r. stat r fs ≡ none) same absent;
                      is_made = e' ∙ now_there;
                    })
                    | inr m ↦ let e' = m.was_absent in cc
                  ]
            ]
      ]
    ]

-- A path in `base`, or one that `base` lies in.
abbrev pub Meets : FilePath → FilePath → Type 0
Meets base p = (is_below base p ≡ true) ⊎ (is_below p base ≡ true)

pub mkdir_all-KeepsOutside :
    (base p : FilePath)
    → Meets base p
    → (fs fs' : Fs) → mkdir_all p fs ≡ some fs'
    → KeepsOutside base fs fs'
unfolding mkdir_all
mkdir_all-KeepsOutside base p meets fs fs' e q out = elim (mkdir_from-makes [] p fs fs' q e) [
  | inl same ↦ inl same
  | inr m ↦ inr (record {
    above = elim meets [
      | inl inside ↦ above_or_below base p q m.above inside out
      | inr up ↦ is_below_trans q p base m.above up
    ];
    was_absent = m.was_absent;
    is_made = m.is_made;
  })
]

is_below-parent : (p : FilePath) → is_below (parent p) p ≡ true
unfolding is_below below parent
is_below-parent [] = refl
is_below-parent (a ∷ []) = refl
is_below-parent (a ∷ b ∷ p) = ground (arith, is_below-parent (b ∷ p), str_eq_refl a)

-- The directory of a path in `base` is in `base` too, or the one that `base` is in.
pub parent-Meets : (base p : FilePath) → is_below base p ≡ true → Meets base (parent p)
parent-Meets base p inside = elim (Bool-cases (is_below base (parent p))) [
  | inl e ↦ inl e
  | inr out ↦ inr (above_or_below base p (parent p) (is_below-parent p) inside out)
]
