-- ===== src/Cache/Store/Rebuild/Found.antt =====
-- The walk of `Rebuild` in internal/cache/store.go: which adapters it finds.
use mathlib.Core.Logic.Or
use mathlib.Core.List.{
  mem-append_right, mem-append_left, not-mem-nil, eq-or-mem_of_mem-cons, mem-cons_of_mem,
  mem-cons_self, Mem-prop, Mem,
}
use mathlib.Core.Logic.{∥∥₁_map}
use loraplex.Cache.Store.{config_name}
use loraplex.Cache.Store.Rebuild.{AdapterInfo, rel_of, adapter_in, walk_names, walk, deepest}
use loraplex.Go.Fs.{size_below, FilePath, Node, directory, file, Fs, stat, find, same_path}
use loraplex.Go.Fs.Dir.{names_in}
use loraplex.Go.Fs.Laws.{same_path_iff, stat_entry}
use loraplex.Go.Fs.Dir.Names.{mem-names_in}
use loraplex.Prelude.{
  sym, codes, List, ◌∷◌, false, Text, Bool-cases, ℕ, has_prefix, str_eq_iff, inr, ◌≡◌, Option, ◌++◌,
  none, inl, some, str_eq, refl, subst, [], arith, ◌∙◌, length, ◌%◌, suc, ◌<◌, append_assoc, zero,
  ◌^◌, append-nil, ◌≤◌, length-append, ap,
}

abbrev pub HasId : Text → List AdapterInfo → Type 0
HasId id found = ∥ ((a : AdapterInfo) × (Mem a found × (a.id ≡ id))) ∥₁

HasId-cons :
    (id : Text) (a : AdapterInfo) (found : List AdapterInfo) → HasId id found → HasId id (a ∷ found)
HasId-cons id a found h = ∥∥₁_map h (λ (b, (m, e)). (b, (mem-cons_of_mem a m, e)))

mem_here : (a : AdapterInfo) → HasId a.id (a ∷ [])
mem_here a = ∣ (a, (mem-cons_self, refl)) ∣₁

HasId-left : (id : Text) (xs ys : List AdapterInfo) → HasId id xs → HasId id (xs ++ ys)
HasId-left id xs ys h = ∥∥₁_map h (λ (b, (m, e)). (b, (mem-append_left ys m, e)))

HasId-right : (id : Text) (xs ys : List AdapterInfo) → HasId id ys → HasId id (xs ++ ys)
HasId-right id xs ys h = ∥∥₁_map h (λ (b, (m, e)). (b, (mem-append_right xs m, e)))

module _ (base : FilePath) (fs : Fs) where
  -- Whether a directory has a configuration of its own.
  abbrev pub config_at : FilePath → Option Node
  config_at rest = stat (base ++ (rest ++ config_name ∷ [])) fs

  -- The directory itself is an adapter.
  walk_names-here :
      (sub : FilePath → List AdapterInfo) (rest : FilePath) (names : List Text) (s : Text)
      (mtime : ℕ)
      → has_prefix (codes ".tmp") (rel_of rest) ≡ false
      → config_at rest ≡ some (file s mtime)
      → Mem config_name names
      → HasId (rel_of rest) (walk_names sub base rest fs names)
  unfolding walk_names adapter_in
  walk_names-here sub rest [] s mtime shown config m = absurd (not-mem-nil m)
  walk_names-here sub rest (name ∷ names) s mtime shown config m =
      elim (Bool-cases (str_eq name config_name)) [
        | inl e ↦
            let same : name ≡ config_name = (str_eq_iff name config_name).0 e in
            let here : stat (base ++ (rest ++ name ∷ [])) fs ≡ some (file s mtime) =
              rw same config in
            rw (here, walk_names)
              (rw (e, shown)
                (mem_here (record {
                  id = rel_of rest;
                  size = size_below (base ++ rest) fs.entries % 2 ^ 64;
                  modified = mtime;
                })))
        | inr e ↦
            let later = walk_names-here sub rest names s mtime shown config (
              Or.elim Mem-prop (eq-or-mem_of_mem-cons m)
                (λ e'. cc ((str_eq_iff name config_name).1 (sym e'))) (λ m'. m')) in
            by_node (stat (base ++ (rest ++ name ∷ [])) fs) refl e later
      ]
    where
      by_node :
          (o : Option Node)
          → stat (base ++ (rest ++ name ∷ [])) fs ≡ o
          → str_eq name config_name ≡ false
          → HasId (rel_of rest) (walk_names sub base rest fs names)
          → HasId (rel_of rest) (walk_names sub base rest fs (name ∷ names))
      by_node none e' e later = rw (e', walk_names) later
      by_node (some directory) e' e later =
          rw (e', walk_names)
            (HasId-right (rel_of rest) (sub (rest ++ name ∷ [])) (walk_names sub base rest fs names)
              later)
      by_node (some (file t u)) e' e later = rw (e', walk_names) (rw e later)

  -- Where the directory has no configuration, all its subdirectories are walked.
  walk_names-below :
      (sub : FilePath → List AdapterInfo) (rest : FilePath) (part : Text) (names : List Text)
      (id : Text)
      → config_at rest ≡ none
      → stat (base ++ (rest ++ part ∷ [])) fs ≡ some directory
      → Mem part names
      → HasId id (sub (rest ++ part ∷ []))
      → HasId id (walk_names sub base rest fs names)
  unfolding walk_names
  walk_names-below sub rest part [] id plain there m found = absurd (not-mem-nil m)
  walk_names-below sub rest part (name ∷ names) id plain there m found =
      elim (Bool-cases (str_eq name part)) [
        | inl e ↦
            let same : name ≡ part = (str_eq_iff name part).0 e in
            let here : stat (base ++ (rest ++ name ∷ [])) fs ≡ some directory = rw same there in
            rw (here, walk_names)
              (HasId-left id (sub (rest ++ name ∷ [])) (walk_names sub base rest fs names)
                (rw same found))
        | inr e ↦
            let later =
              walk_names-below sub rest part names id plain there
                (Or.elim Mem-prop (eq-or-mem_of_mem-cons m)
                  (λ e'. cc ((str_eq_iff name part).1 (sym e'))) (λ m'. m'))
                found in
            by_node (stat (base ++ (rest ++ name ∷ [])) fs) refl later
      ]
    where
      by_node :
          (o : Option Node)
          → stat (base ++ (rest ++ name ∷ [])) fs ≡ o
          → HasId id (walk_names sub base rest fs names)
          → HasId id (walk_names sub base rest fs (name ∷ names))
      by_node none e' later = rw (e', walk_names) later
      by_node (some directory) e' later =
          rw (e', walk_names)
            (HasId-right id (sub (rest ++ name ∷ [])) (walk_names sub base rest fs names) later)
      by_node (some (file t u)) e' later = elim (Bool-cases (str_eq name config_name)) [
        | inl c ↦ cc (
            subst (λ k. stat (base ++ (rest ++ k ∷ [])) fs ≡ none)
              (sym ((str_eq_iff name config_name).0 c)) plain)
        | inr c ↦ rw (e', walk_names) (rw c later)
      ]

  -- The directories on the way from `rest` along `parts` are there, and but for the last one they have no
  -- configuration of their own.
  abbrev pub Reaches : FilePath → FilePath → Type 0
  Reaches rest [] = Unit {0}
  Reaches rest (part ∷ parts) =
      (config_at rest ≡ none)
      × ((stat (base ++ (rest ++ part ∷ [])) fs ≡ some directory)
          × Reaches (rest ++ part ∷ []) parts)

  entry :
      (rest : FilePath) (name : Text) (n : Node)
      → stat (base ++ (rest ++ name ∷ [])) fs ≡ some n
      → Mem name (names_in (base ++ rest) fs.entries)
  entry rest name n e =
      mem-names_in (base ++ rest) name fs.entries n
        (sym (stat_entry (base ++ rest) name fs) ∙ rw (append_assoc base rest (name ∷ [])) e)

  pub walk-HasId :
      (depth : ℕ) (rest parts : FilePath) (s : Text) (mtime : ℕ)
      → length parts < depth
      → Reaches rest parts
      → has_prefix (codes ".tmp") (rel_of (rest ++ parts)) ≡ false
      → config_at (rest ++ parts) ≡ some (file s mtime)
      → HasId (rel_of (rest ++ parts)) (walk depth base rest fs)
  unfolding walk
  walk-HasId zero rest parts s mtime deep way shown config = absurd (omega arith)
  walk-HasId (suc depth) rest [] s mtime deep way shown config =
      let here : config_at rest ≡ some (file s mtime) = rw append-nil at config in
      rw append-nil (
        walk_names-here (λ sub. walk depth base sub fs) rest (names_in (base ++ rest) fs.entries) s
          mtime (rw append-nil at shown) here (entry rest config_name (file s mtime) here))
  walk-HasId (suc depth) rest (part ∷ parts) s mtime deep (plain, (there, way)) shown config =
      let same : (rest ++ part ∷ []) ++ parts ≡ rest ++ part ∷ parts =
        append_assoc rest (part ∷ []) parts in
      let below =
        walk-HasId depth (rest ++ part ∷ []) parts s mtime (omega arith) way (rw same shown)
          (rw same config) in
      walk_names-below (λ sub. walk depth base sub fs) rest part
        (names_in (base ++ rest) fs.entries) (rel_of (rest ++ part ∷ parts)) plain there
        (entry rest part directory there) (rw same at below)

find_deep :
    (p : FilePath) (es : List (FilePath × Node)) (n : Node)
    → find p es ≡ some n
    → length p ≤ deepest es
unfolding find deepest
find_deep p [] n e = cc
find_deep p ((q, m) ∷ es) n e = elim (Bool-cases (same_path q p)) [
  | inl same ↦ ground (arith, (same_path_iff q p).0 same)
  | inr other ↦ ground (arith, find_deep p es n (rw (other, find) at e))
]

-- The depth that `rebuild` gives the walk is enough.
pub parts_below :
    (base : FilePath) (fs : Fs) (parts : FilePath) (n : Node)
    → config_at base fs parts ≡ some n
    → length parts < suc (deepest fs.entries)
parts_below base fs parts n e =
    let p = base ++ (parts ++ config_name ∷ []) in
    let found : find p fs.entries ≡ some n =
      sym (ap (λ q. find q fs.entries) (append_assoc base parts (config_name ∷ [])))
      ∙ sym (stat_entry (base ++ parts) config_name fs)
      ∙ ap (λ q. stat q fs) (append_assoc base parts (config_name ∷ []))
      ∙ e in
    omega (
      arith,
      find_deep p fs.entries n found,
      length-append base (parts ++ config_name ∷ []),
      length-append parts (config_name ∷ []),
    )
