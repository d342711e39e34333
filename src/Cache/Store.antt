-- ===== src/Cache/Store.antt =====
-- internal/cache/store.go: adapters as directories under the base path, and the LRU over them.
pub mod Paths
pub mod Rebuild
use loraplex.Cache.Lru.{Lru}
use loraplex.Cache.Lru
use loraplex.Cache.World.{
  Store, World, CacheError, path_traversal, io, Cached, ◌>>=◌, ◌>>◌, return, fail, on_disk,
}
use loraplex.Go.Fs.{
  FilePath, Node, directory, file, Fs, at, below, is_below, is_dir, is_some, stat, remove_all,
  mkdir_all, parent, size_below,
}
use loraplex.Go.Path.{join, clean, slash}
use loraplex.Prelude.{
  Bool, [], ok, codes, ◌∷◌, Text, ℕ, ◌&&◌, not, str_eq, ◌%◌, Result, List, none, some, has_prefix,
  if◌then◌else◌, err, ◌^◌, ◌++◌,
}

unfoldable pub new_store : Text → ℕ → Store
new_store base_path max_size = record { base_path = base_path; lru = Lru.new_lru max_size }

unfoldable pub adapter_path : Store → Text → Text
adapter_path s adapter_id = join s.base_path adapter_id

unfoldable pub validate_adapter_id : Store → Text → Result CacheError (Unit {0})
validate_adapter_id s adapter_id =
    let resolved = clean (join s.base_path adapter_id) in
    let base = clean s.base_path ++ slash ∷ [] in
    if not (has_prefix base resolved) && not (str_eq resolved (clean s.base_path))
    then err path_traversal
    else ok tt

abbrev pub config_name : Text
config_name = codes "adapter_config.json"

unfoldable pub has : World → Text → Bool
has w adapter_id =
    let p = adapter_path w.store adapter_id in
    is_dir (stat (at p) w.fs) && is_some (stat (at (join p config_name)) w.fs)

-- The walk fails where there is nothing. The sum is an int64.
unfoldable pub dir_size : Text → Cached ℕ
dir_size path w = elim (stat (at path) w.fs) [
  | none ↦ (err io, w)
  | some n ↦ (ok (size_below (at path) w.fs.entries % 2 ^ 64), w)
]

abbrev pub with_lru : World → Lru → World
with_lru w l = let s : Store = record (w.store) { lru = l } in record w { store = s }

unfoldable pub touch : Text → ℕ → Cached (Unit {0})
unfolding dir_size
touch adapter_id now w =
    (do
      size ← dir_size (adapter_path w.store adapter_id)
      λ w'. (ok tt, with_lru w' (Lru.touch adapter_id size now w'.store.lru)))
      w

-- The loop of `MakeRoom`: the first directory that cannot be removed ends it.
unfoldable pub remove_evicted : List Text → Cached (Unit {0})
remove_evicted [] w = (ok tt, w)
remove_evicted (id ∷ ids) w = elim (remove_all (at (adapter_path w.store id)) w.fs) [
  | none ↦ (err io, w)
  | some fs' ↦ remove_evicted ids (record w { fs = fs' })
]

-- The adapters leave the LRU before their directories are removed, and do not return on an error.
unfoldable pub make_room : ℕ → Cached (List Text)
make_room required w =
    let (lru', evicted) = Lru.evict required w.store.lru in
    (do remove_evicted evicted; return evicted) (with_lru w lru')

unfoldable pub remove : Text → Cached (Unit {0})
remove adapter_id w =
    let w' = with_lru w (Lru.remove adapter_id w.store.lru).0 in
    on_disk (remove_all (at (adapter_path w.store adapter_id))) w'
