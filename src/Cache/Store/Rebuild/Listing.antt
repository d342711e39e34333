-- ===== src/Cache/Store/Rebuild/Listing.antt =====
-- `Rebuild` of internal/cache/store.go: what the LRU lists afterwards.
use mathlib.Core.Logic.Or
use mathlib.Core.List.Perm
use mathlib.Core.List.{not-mem-nil, eq-or-mem_of_mem-cons, Mem}
use mathlib.Core.Logic.{∥∥₁_elim}
use loraplex.Cache.Lru
use loraplex.Cache.Lru.{Lru, contains}
use loraplex.Cache.Lru.Listed.{contains-touch, contains-touch_other}
use loraplex.Cache.Store.{with_lru}
use loraplex.Cache.Store.Rebuild.{AdapterInfo, mod_time, rel_of, walk, deepest, touch_each, rebuild}
use loraplex.Cache.Store.Rebuild.Found.{config_at, Reaches, walk-HasId, parts_below}
use loraplex.Cache.World.{io, Cached, CacheError, World, on_disk}
use loraplex.Go.Fs.{FilePath, Fs, at, file, mkdir_all}
use loraplex.Go.Sort.{Sorter}
use loraplex.Prelude.{
  true, false, sym, Bool-set, [], ℕ, Text, codes, ◌∷◌, subst, ◌≡◌, suc, refl, some, has_prefix,
  List, ok, err, ap, Result, none,
}

pub touch_each-keeps :
    (found : List AdapterInfo) (now : ℕ) (j : Text) (l : Lru)
    → contains j l ≡ true
    → contains j (touch_each found now l) ≡ true
unfolding touch_each
touch_each-keeps [] now j l h = h
touch_each-keeps (a ∷ found) now j l h =
    touch_each-keeps found now j (Lru.touch a.id a.size now l)
      (contains-touch_other a.id j a.size now l h)

touch_each-lists :
    (found : List AdapterInfo) (now : ℕ) (a : AdapterInfo) (l : Lru)
    → Mem a found
    → contains a.id (touch_each found now l) ≡ true
unfolding touch_each
touch_each-lists [] now a l m = absurd (not-mem-nil m)
touch_each-lists (b ∷ found) now a l m =
    Or.elim (Bool-set _ _) (eq-or-mem_of_mem-cons m)
      (λ e. touch_each-keeps found now a.id (Lru.touch b.id b.size now l) (
        subst (λ x. contains x.id (Lru.touch b.id b.size now l) ≡ true) (sym e)
          (contains-touch b.id b.size now l)))
      (touch_each-lists found now a (Lru.touch b.id b.size now l))

module _ (sorter : Sorter mod_time) (now : ℕ) (w : World) where
  abbrev base : FilePath
  base = at w.store.base_path

  abbrev listing : Cached (Unit {0})
  listing w' = (
    ok tt,
    with_lru w' (
        touch_each (sorter.sort (walk (suc (deepest w'.fs.entries)) base [] w'.fs)) now
          w'.store.lru),
  )

  abbrev then_listing : Result CacheError (Unit {0}) × World → Result CacheError (Unit {0}) × World
  then_listing x = elim x.0 [ err e ↦ (err e, x.1) | ok u ↦ listing x.1 ]

  pub rebuild-refused : mkdir_all base w.fs ≡ none → rebuild sorter now w ≡ (err io, w)
  unfolding rebuild
  rebuild-refused e =
      let failed : on_disk (mkdir_all base) w ≡ (err io, w) = rw (e, on_disk) refl in
      ap then_listing failed

  module _ (fs' : Fs) (made : mkdir_all base w.fs ≡ some fs') where
    abbrev found : List AdapterInfo
    found = sorter.sort (walk (suc (deepest fs'.entries)) base [] fs')

    disk_made : on_disk (mkdir_all base) w ≡ (ok tt, record w { fs = fs' })
    disk_made = rw (made, on_disk) refl

    pub rebuild-after :
        rebuild sorter now w
        ≡ (ok tt, with_lru (record w { fs = fs' }) (touch_each found now w.store.lru))
    unfolding rebuild
    rebuild-after = ap then_listing disk_made

    -- After `Rebuild` has made sure of the base directory, the LRU lists every adapter on the disk: every directory
    -- that has a configuration and whose path below the base does not start with `.tmp`, if the directories on the way
    -- to it have no configuration.
    pub rebuild-contains :
        (parts : FilePath) (s : Text) (mtime : ℕ)
        → Reaches base fs' [] parts
        → has_prefix (codes ".tmp") (rel_of parts) ≡ false
        → config_at base fs' parts ≡ some (file s mtime)
        → contains (rel_of parts) (rebuild sorter now w).1.store.lru ≡ true
    rebuild-contains parts s mtime way shown config = rw rebuild-after (
        ∥∥₁_elim
          (walk-HasId base fs' (suc (deepest fs'.entries)) [] parts s mtime
            (parts_below base fs' parts (file s mtime) config) way shown config)
          (Bool-set _ _)
          (λ (a, (m, e)).
            subst (λ id. contains id (touch_each found now w.store.lru) ≡ true) e
              (touch_each-lists found now a w.store.lru ((Perm.mem_iff (sorter.sort-perm _)).1 m))))
