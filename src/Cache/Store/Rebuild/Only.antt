-- ===== src/Cache/Store/Rebuild/Only.antt =====
-- `Rebuild` of internal/cache/store.go, and what the LRU lists afterwards.
use mathlib.Core.Logic.{∥∥₁_elim}
use mathlib.Core.List.Perm
use mathlib.Core.List.{mem-cons_self, mem-cons_of_mem, Mem}
use loraplex.Cache.Lru
use loraplex.Cache.Lru.{Lru, contains}
use loraplex.Cache.Lru.Listed.{contains-touch_only}
use loraplex.Cache.Store.{config_name}
use loraplex.Cache.Store.Rebuild.{
  AdapterInfo, mod_time, rel_of, adapter_in, walk_names, walk, deepest, touch_each, rebuild,
}
use loraplex.Cache.Store.Rebuild.Found.{config_at, Reaches}
use loraplex.Cache.Store.Rebuild.Listing.{rebuild-after, rebuild-contains, touch_each-keeps}
use loraplex.Cache.World.{World}
use loraplex.Go.Fs.{FilePath, Fs, Node, directory, at, file, stat, mkdir_all}
use loraplex.Go.Fs.Dir.{names_in}
use loraplex.Go.Members.{mem_All}
use loraplex.Go.Sort.{Sorter}
use loraplex.Prelude.{
  Text, zero, All, true, suc, ◌≡◌, inl, Bool-cases, ℕ, has_prefix, subst, codes, ◌⊎◌, str_eq_iff,
  false, none, [], inr, refl, List, All-append, some, ◌++◌, Option, ◌∷◌, str_eq, ◌↔◌, sym, Bool-set,
}

-- The path below the base of a directory that has a configuration; it does not start with `.tmp`.
pub record IsAdapter (base : FilePath) (fs : Fs) (id : Text) : Type 0 where
  pub parts : FilePath
  pub text : Text
  pub modified : ℕ
  pub is_path : id ≡ rel_of parts
  pub shown : has_prefix (codes ".tmp") id ≡ false
  pub config : config_at base fs parts ≡ some (file text modified)

module _ (base : FilePath) (fs : Fs) where
  abbrev AllAdapters : List AdapterInfo → Type 0
  AllAdapters = All (λ a. ∥ IsAdapter base fs a.id ∥₁)

  walk_names-AllAdapters :
      (sub : FilePath → List AdapterInfo) (rest : FilePath) (names : List Text)
      → ((r : FilePath) → AllAdapters (sub r))
      → AllAdapters (walk_names sub base rest fs names)
  unfolding walk_names adapter_in
  walk_names-AllAdapters sub rest [] h = tt
  walk_names-AllAdapters sub rest (name ∷ names) h =
      by_node (stat (base ++ (rest ++ name ∷ [])) fs) refl (walk_names-AllAdapters sub rest names h)
    where
      by_node :
          (o : Option Node)
          → stat (base ++ (rest ++ name ∷ [])) fs ≡ o
          → AllAdapters (walk_names sub base rest fs names)
          → AllAdapters (walk_names sub base rest fs (name ∷ names))
      by_node none e later = rw (e, walk_names) later
      by_node (some directory) e later =
          rw (e, walk_names)
            (All-append (λ (a : AdapterInfo). ∥ IsAdapter base fs a.id ∥₁) (sub (rest ++ name ∷ []))
              (walk_names sub base rest fs names) (h (rest ++ name ∷ [])) later)
      by_node (some (file s mtime)) e later =
          rw (e, walk_names)
            (elim (Bool-cases (str_eq name config_name)) [
              | inr c ↦ rw c later
              | inl c ↦ rw c (elim (Bool-cases (has_prefix (codes ".tmp") (rel_of rest))) [
                | inl hidden ↦ rw hidden later
                | inr shown ↦ rw shown (
                  ∣ record {
                    parts = rest;
                    text = s;
                    modified = mtime;
                    is_path = refl;
                    shown = shown;
                    config = rw (← (str_eq_iff name config_name).0 c) e;
                  } ∣₁,
                  tt,
                )
              ])
            ])

  walk-AllAdapters : (depth : ℕ) (rest : FilePath) → AllAdapters (walk depth base rest fs)
  unfolding walk
  walk-AllAdapters zero rest = tt
  walk-AllAdapters (suc depth) rest =
      walk_names-AllAdapters (λ sub. walk depth base sub fs) rest
        (names_in (base ++ rest) fs.entries) (walk-AllAdapters depth)

touch_each-only :
    (found : List AdapterInfo) (now : ℕ) (j : Text) (l : Lru)
    → contains j (touch_each found now l) ≡ true
    → (contains j l ≡ true) ⊎ ((a : AdapterInfo) × (Mem a found × (a.id ≡ j)))
unfolding touch_each
touch_each-only [] now j l h = inl h
touch_each-only (a ∷ found) now j l h =
    elim (touch_each-only found now j (Lru.touch a.id a.size now l) h) [
      | inr (b, (m, e)) ↦ inr (b, (mem-cons_of_mem a m, e))
      | inl listed ↦ elim (contains-touch_only a.id j a.size now l listed) [
        | inl e ↦ inr (a, (mem-cons_self, e))
        | inr before ↦ inl before
      ]
    ]

-- Nothing else is listed afterwards.
lists_only :
    (sorter : Sorter mod_time) (now : ℕ) (w : World) (fs' : Fs)
    → mkdir_all (at w.store.base_path) w.fs ≡ some fs'
    → (id : Text) → contains id (rebuild sorter now w).1.store.lru ≡ true
    → (contains id w.store.lru ≡ true) ⊎ ∥ IsAdapter (at w.store.base_path) fs' id ∥₁
lists_only sorter now w fs' made id h =
    let base = at w.store.base_path in
    let adapters = walk (suc (deepest fs'.entries)) base [] fs' in
    elim (touch_each-only (sorter.sort adapters) now id w.store.lru
      (rw (rebuild-after sorter now w fs' made) at h)) [
        | inl before ↦ inl before
        | inr (a, (m, e)) ↦ inr (
            subst (λ k. ∥ IsAdapter base fs' k ∥₁) e
              (mem_All (λ (b : AdapterInfo). ∥ IsAdapter base fs' b.id ∥₁) (λ b. squash₁) a adapters
                (walk-AllAdapters base fs' (suc (deepest fs'.entries)) [])
                ((Perm.mem_iff (sorter.sort-perm adapters)).0 m)))
      ]

-- After `Rebuild` has made sure of the base directory, the LRU lists exactly what it listed before and the adapters on
-- the disk: the paths below the base, not starting with `.tmp`, of directories that have a configuration; if no such
-- directory lies in another one that has a configuration, and those on the way to it are there.
pub rebuild-lists_iff :
    (sorter : Sorter mod_time) (now : ℕ) (w : World) (fs' : Fs)
    → mkdir_all (at w.store.base_path) w.fs ≡ some fs'
    → ((parts : FilePath) (s : Text) (mtime : ℕ)
        → config_at (at w.store.base_path) fs' parts ≡ some (file s mtime)
        → Reaches (at w.store.base_path) fs' [] parts)
    → (id : Text)
    → (contains id (rebuild sorter now w).1.store.lru ≡ true)
      ↔ ((contains id w.store.lru ≡ true) ⊎ ∥ IsAdapter (at w.store.base_path) fs' id ∥₁)
rebuild-lists_iff sorter now w fs' made apart id = (lists_only sorter now w fs' made id, back)
  where
    back :
        ((contains id w.store.lru ≡ true) ⊎ ∥ IsAdapter (at w.store.base_path) fs' id ∥₁)
        → contains id (rebuild sorter now w).1.store.lru ≡ true
    back (inl before) =
        rw (rebuild-after sorter now w fs' made) (touch_each-keeps _ now id w.store.lru before)
    back (inr found) = ∥∥₁_elim found (Bool-set _ _) (λ a.
        subst (λ k. contains k (rebuild sorter now w).1.store.lru ≡ true) (sym a.is_path)
          (rebuild-contains sorter now w fs' made a.parts a.text a.modified
            (apart a.parts a.text a.modified a.config)
            (subst (λ k. has_prefix (codes ".tmp") k ≡ false) a.is_path a.shown) a.config))
