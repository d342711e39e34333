-- ===== src/Cache/Store/Rebuild.antt =====
-- `Rebuild` of internal/cache/store.go: after a start, the LRU lists the adapters that the disk has.
pub mod Found
pub mod Listing
pub mod Inside
pub mod Only
use loraplex.Cache.Lru
use loraplex.Cache.Lru.{Lru}
use loraplex.Cache.Store.{config_name, with_lru}
use loraplex.Cache.World.{World, Cached, CacheError, ◌>>=◌, ◌>>◌, on_disk}
use loraplex.Go.Fs.{FilePath, Node, directory, file, Fs, at, below, stat, mkdir_all, size_below}
use loraplex.Go.Fs.Dir.{names_in}
use loraplex.Go.Path.{dot, join_slash}
use loraplex.Go.Sort.{Sorter}
use loraplex.Prelude.{
  Bool, ◌∷◌, zero, ℕ, ltb, has_prefix, ◌%◌, [], none, Text, ◌^◌, ◌++◌, if◌then◌else◌, some, suc,
  str_eq, List, ok, codes, length, Option,
}

pub record AdapterInfo : Type 0 where
  pub id : Text
  pub size : ℕ
  pub modified : ℕ

abbrev pub mod_time : AdapterInfo → ℕ
mod_time a = a.modified

-- `filepath.Rel(base, dir)` of a directory at or below the base
unfoldable pub rel_of : FilePath → Text
rel_of [] = dot
rel_of (a ∷ p) = join_slash (a ∷ p)

-- The adapter in the directory `base ++ rest`, whose configuration was modified at `mtime`; `dirSize`
-- does not fail on a directory that is there.
unfoldable pub adapter_in : FilePath → FilePath → ℕ → Fs → Option AdapterInfo
adapter_in base rest mtime fs =
    let rel = rel_of rest in
    if has_prefix (codes ".tmp") rel
    then none
    else some (record {
      id = rel;
      size = size_below (base ++ rest) fs.entries % 2 ^ 64;
      modified = mtime;
    })

-- `filepath.WalkDir` over the entries of `base ++ rest`, by their names; `sub` walks a subdirectory. After an
-- adapter was found (`fs.SkipDir` at a file), the other entries of the directory are passed over.
unfoldable pub walk_names :
    (FilePath → List AdapterInfo) → FilePath → FilePath → Fs → List Text → List AdapterInfo
walk_names sub base rest fs [] = []
walk_names sub base rest fs (name ∷ names) =
    let others = walk_names sub base rest fs names in
    elim (stat (base ++ (rest ++ name ∷ [])) fs) [
      | none ↦ others
      | some directory ↦ sub (rest ++ name ∷ []) ++ others
      | some (file s mtime) ↦
          if str_eq name config_name
          then elim (adapter_in base rest mtime fs) [ none ↦ others | some a ↦ a ∷ [] ]
          else others
    ]

-- The first argument bounds the depth.
unfoldable pub walk : ℕ → FilePath → FilePath → Fs → List AdapterInfo
walk zero base rest fs = []
walk (suc depth) base rest fs =
    walk_names (λ sub. walk depth base sub fs) base rest fs (names_in (base ++ rest) fs.entries)

-- No path of the disk has more parts.
unfoldable pub deepest : List (FilePath × Node) → ℕ
deepest [] = 0
deepest ((q, n) ∷ es) = let d = deepest es in if ltb d (length q) then length q else d

unfoldable pub touch_each : List AdapterInfo → ℕ → Lru → Lru
touch_each [] now l = l
touch_each (a ∷ rest) now l = touch_each rest now (Lru.touch a.id a.size now l)

unfoldable pub rebuild : Sorter mod_time → ℕ → Cached (Unit {0})
rebuild sorter now w =
    let base = at w.store.base_path in
    (do
      on_disk (mkdir_all base)
      λ w'.
          let adapters = sorter.sort (walk (suc (deepest w'.fs.entries)) base [] w'.fs) in
          (ok tt, with_lru w' (touch_each adapters now w'.store.lru)))
      w
