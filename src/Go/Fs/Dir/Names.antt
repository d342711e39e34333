-- ===== src/Go/Fs/Dir/Names.antt =====
-- What `os.ReadDir` lists.
use mathlib.Core.List.{eq-or-mem_of_mem-cons, mem-cons_of_mem, mem-cons_self, Mem-prop, Mem}
use mathlib.Core.Logic.Or
use loraplex.Go.Fs.Laws.{same_path_iff, below-append}
use loraplex.Go.Fs.{
  is_below, find, same_path, remove_all, FilePath, Node, directory, file, Fs, below, stat,
  drop_below,
}
use loraplex.Prelude.{
  none, List, some, [], Text, ◌∷◌, Option, str_eq, ◌≡◌, Bool-cases, ◌++◌, inr, inl, refl,
  str_eq_iff, subst, sym, All, if_both,
}
use loraplex.Go.Fs.Dir.{text_before, insert_name, names_in, remove}

pub mem-insert_name : (n : Text) (ns : List Text) → Mem n (insert_name n ns)
unfolding insert_name
mem-insert_name n [] = mem-cons_self
mem-insert_name n (m ∷ ns) = elim (Bool-cases (str_eq n m)) [
  | inl e ↦ rw (e, insert_name) (rw ((str_eq_iff n m).0 e) mem-cons_self)
  | inr e ↦
      rw (e, insert_name)
        (elim (Bool-cases (text_before n m)) [
          | inl e' ↦ rw e' mem-cons_self
          | inr e' ↦ rw e' (mem-cons_of_mem m (mem-insert_name n ns))
        ])
]

pub mem-insert_name_of : (n k : Text) (ns : List Text) → Mem k ns → Mem k (insert_name n ns)
unfolding insert_name
mem-insert_name_of n k [] h = mem-cons_of_mem n h
mem-insert_name_of n k (m ∷ ns) h = elim (Bool-cases (str_eq n m)) [
  | inl e ↦ rw (e, insert_name) h
  | inr e ↦
      rw (e, insert_name)
        (elim (Bool-cases (text_before n m)) [
          | inl e' ↦ rw e' (mem-cons_of_mem n h)
          | inr e' ↦ rw e' (
              Or.elim Mem-prop (eq-or-mem_of_mem-cons h) (λ same. rw same mem-cons_self)
                (λ h'. mem-cons_of_mem m (mem-insert_name_of n k ns h')))
        ])
]

-- What is right below a path is listed.
pub mem-names_in :
    (p : FilePath) (name : Text) (es : List (FilePath × Node)) (n : Node)
    → find (p ++ name ∷ []) es ≡ some n
    → Mem name (names_in p es)
unfolding names_in find
mem-names_in p name [] n e = cc
mem-names_in p name ((q, m) ∷ es) n e = elim (Bool-cases (same_path q (p ++ name ∷ []))) [
  | inl same ↦
      let here : q ≡ p ++ name ∷ [] = (same_path_iff q (p ++ name ∷ [])).0 same in
      rw (here, below-append p (name ∷ []), names_in) (mem-insert_name name (names_in p es))
  | inr other ↦
      let later = mem-names_in p name es n (rw (other, find) at e) in passes (below p q) refl later
]
  where
    passes :
        (o : Option FilePath)
        → below p q ≡ o
        → Mem name (names_in p es)
        → Mem name (names_in p ((q, m) ∷ es))
    passes none e' h = rw (e', names_in) h
    passes (some []) e' h = rw (e', names_in) h
    passes (some (k ∷ [])) e' h = rw (e', names_in) (mem-insert_name_of k name (names_in p es) h)
    passes (some (k ∷ part ∷ parts)) e' h = rw (e', names_in) h

-- A removal that succeeds is one of `remove_all`.
pub remove-is_all :
    (p : FilePath) (fs fs' : Fs) → remove p fs ≡ some fs' → remove_all p fs ≡ some fs'
unfolding remove remove_all
remove-is_all p fs fs' e = by_node (stat p fs) refl
  where
    by_node : (o : Option Node) → stat p fs ≡ o → remove_all p fs ≡ some fs'
    by_node none e' = cc (rw (e', remove) at e)
    by_node (some (file s t)) e' = rw (e', remove) at e
    by_node (some directory) e' = by_names (names_in p fs.entries) refl
      where
        by_names : (ns : List Text) → names_in p fs.entries ≡ ns → remove_all p fs ≡ some fs'
        by_names [] e'' = rw e'' at (rw (e', remove) at e)
        by_names (n ∷ ns) e'' = cc (rw e'' at (rw (e', remove) at e))

module _ (P : Text → Type 0) where
  pub All-insert_name : (n : Text) (ns : List Text) → P n → All P ns → All P (insert_name n ns)
  unfolding insert_name
  All-insert_name n [] h hs = (h, tt)
  All-insert_name n (m ∷ ns) h (hm, hs) =
      if_both (All P) (str_eq n m) _ _ (hm, hs)
        (if_both (All P) (text_before n m) _ _ (h, (hm, hs)) (hm, All-insert_name n ns h hs))

  All-of_insert_name : (n : Text) (ns : List Text) → All P (insert_name n ns) → P n × All P ns
  unfolding insert_name
  All-of_insert_name n [] h = h
  All-of_insert_name n (m ∷ ns) h = elim (Bool-cases (str_eq n m)) [
    | inl e ↦ let hs = rw (e, insert_name) at h in (subst P (sym ((str_eq_iff n m).0 e)) hs.0, hs)
    | inr e ↦ elim (Bool-cases (text_before n m)) [
      | inl e' ↦ rw e' at (rw (e, insert_name) at h)
      | inr e' ↦
          let hs : All P (m ∷ insert_name n ns) = rw e' at (rw (e, insert_name) at h) in
          let rest = All-of_insert_name n ns hs.1 in (rest.0, (hs.0, rest.1))
    ]
  ]

  abbrev pub AtEntry : Option FilePath → Type 0
  AtEntry none = Unit {0}
  AtEntry (some []) = Unit {0}
  AtEntry (some (k ∷ [])) = P k
  AtEntry (some (k ∷ l ∷ ls)) = Unit {0}

  -- The names of a longer table are those of the shorter one and that of the entry in front.
  pub All-names_in_of :
      (p r : FilePath) (n : Node) (es : List (FilePath × Node))
      → All P (names_in p ((r, n) ∷ es))
      → AtEntry (below p r) × All P (names_in p es)
  unfolding names_in
  All-names_in_of p r n es h = by_name (below p r) refl
    where
      by_name : (o : Option FilePath) → below p r ≡ o → AtEntry (below p r) × All P (names_in p es)
      by_name none e = rw e (tt, (rw (e, names_in) at h))
      by_name (some []) e = rw e (tt, (rw (e, names_in) at h))
      by_name (some (k ∷ [])) e =
          rw e (All-of_insert_name k (names_in p es) (rw (e, names_in) at h))
      by_name (some (k ∷ l ∷ ls)) e = rw e (tt, (rw (e, names_in) at h))

  pub All-names_in_cons :
      (p r : FilePath) (n : Node) (es : List (FilePath × Node))
      → AtEntry (below p r)
      → All P (names_in p es)
      → All P (names_in p ((r, n) ∷ es))
  unfolding names_in
  All-names_in_cons p r n es hk h = by_name (below p r) refl
    where
      by_name : (o : Option FilePath) → below p r ≡ o → All P (names_in p ((r, n) ∷ es))
      by_name none e = rw (e, names_in) h
      by_name (some []) e = rw (e, names_in) h
      by_name (some (k ∷ [])) e =
          rw (e, names_in) (All-insert_name k (names_in p es) (rw e at hk) h)
      by_name (some (k ∷ l ∷ ls)) e = rw (e, names_in) h

  -- What holds of all names of a directory holds of those that are left after a removal.
  pub All-names_in-drop_below :
      (p q : FilePath) (es : List (FilePath × Node))
      → All P (names_in p es)
      → All P (names_in p (drop_below q es))
  unfolding drop_below
  All-names_in-drop_below p q [] h = h
  All-names_in-drop_below p q ((r, n) ∷ es) h =
      let (hk, hs) = All-names_in_of p r n es h in
      let rest = All-names_in-drop_below p q es hs in
      if_both (λ l. All P (names_in p l)) (is_below q r) _ _ rest
        (All-names_in_cons p r n (drop_below q es) hk rest)
