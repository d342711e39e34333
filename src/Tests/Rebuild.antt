-- ===== src/Tests/Rebuild.antt =====
-- A store over a disk that has two adapters, one in a directory of its organisation, and one that is half fetched.
use loraplex.Cache.Lru
use loraplex.Cache.Lru.{new_lru, contains, ids, push_front, stamp_and_move}
use loraplex.Cache.Lru.Runs.{run, run-new_lru-IsValid}
use loraplex.Cache.Manager.Steps.{Inv, Leads}
use loraplex.Cache.Store.Rebuild.{
  mod_time, rel_of, adapter_in, walk_names, walk, deepest, touch_each, rebuild,
}
use loraplex.Cache.Store.Rebuild.Found.{Reaches}
use loraplex.Cache.Store.Rebuild.Only.{IsAdapter, rebuild-lists_iff}
use loraplex.Cache.Store.Rebuild.Inside.{rebuild-Leads, AllProper}
use loraplex.Cache.Store.Rebuild.Listing.{rebuild-contains}
use loraplex.Cache.World.{World}
use loraplex.Go.Dict
use loraplex.Go.Fs
use loraplex.Go.Fs.{
  FilePath, Fs, at, stat, find, file, directory, below, is_below, mkdir_all, mkdir_from, size_below,
}
use loraplex.Go.Fs.Dir.{names_in, insert_name, text_before}
use loraplex.Go.Path.{is_rooted, join, clean, clean_parts, join_slash, split_slash}
use loraplex.Go.Path.Parts.{single-IsName}
use loraplex.Go.Sort
use loraplex.Go.Sort.{Sorter, by_insertion, insertion_sort}
use loraplex.Tests.Confinement.{base, base-is_rooted}
use loraplex.Prelude.{
  true, some, refl, is_empty, has_prefix, str_eq, false, ◌++◌, strip_prefix, [], ◌∷◌, Text, codes,
  ◌≡◌, arith, ◌⊎◌, inl, Bool-cases, inr, ℕ, ◌↔◌,
}

abbrev config : Text
config = codes "adapter_config.json"

abbrev disk : Fs
disk = record {
  entries =
      (codes "s" ∷ [], directory)
      ∷ (codes "s" ∷ codes "o" ∷ [], directory)
      ∷ (codes "s" ∷ codes "o" ∷ codes "a" ∷ [], directory)
      ∷ (codes "s" ∷ codes "o" ∷ codes "a" ∷ config ∷ [], file (codes "xyz") 9)
      ∷ (codes "s" ∷ codes "b" ∷ [], directory)
      ∷ (codes "s" ∷ codes "b" ∷ config ∷ [], file (codes "x") 4)
      ∷ (codes "s" ∷ codes ".tmp-c" ∷ [], directory)
      ∷ (codes "s" ∷ codes ".tmp-c" ∷ config ∷ [], file (codes "x") 4)
      ∷ [];
  denied = λ p. false;
}

abbrev world : World
world = record { store = record { base_path = base; lru = new_lru 100 }; fs = disk }

abbrev sorter : Sorter mod_time
sorter = by_insertion mod_time

unfoldable program : Unit {0}
unfolding rebuild touch_each deepest walk walk_names adapter_in rel_of insertion_sort Sort.insert
    new_lru contains ids Lru.touch push_front stamp_and_move Dict.lookup Dict.insert stat find
    Fs.same_path below is_below mkdir_all mkdir_from size_below names_in insert_name text_before
    is_rooted join clean clean_parts join_slash split_slash str_eq is_empty has_prefix strip_prefix
program = tt

-- The adapter that was modified last is the most recent.
rebuilt : ids (rebuild sorter 20 world).1.store.lru ≡ codes "o/a" ∷ codes "b" ∷ []
unfolding program
rebuilt = refl

kept : mkdir_all (at base) disk ≡ some disk
unfolding program
kept = refl

way_to_a : Reaches (at base) disk [] (codes "o" ∷ codes "a" ∷ [])
unfolding program
way_to_a = (refl, (refl, (refl, (refl, tt))))

not_hidden : has_prefix (codes ".tmp") (rel_of (codes "o" ∷ codes "a" ∷ [])) ≡ false
unfolding program
not_hidden = refl

config_there :
    stat (at base ++ (codes "o" ∷ codes "a" ∷ config ∷ [])) disk ≡ some (file (codes "xyz") 9)
unfolding program
config_there = refl

rebuild-contains_example :
    contains (rel_of (codes "o" ∷ codes "a" ∷ [])) (rebuild sorter 20 world).1.store.lru ≡ true
rebuild-contains_example =
    rebuild-contains sorter 20 world disk kept (codes "o" ∷ codes "a" ∷ []) (codes "xyz") 9 way_to_a
      not_hidden config_there

disk_proper : AllProper disk.entries
unfolding program
disk_proper =
    let s = single-IsName (codes "s") refl (λ e. cc) (λ e. cc) (λ e. cc) in
    let o = single-IsName (codes "o") refl (λ e. cc) (λ e. cc) (λ e. cc) in
    let a = single-IsName (codes "a") refl (λ e. cc) (λ e. cc) (λ e. cc) in
    let b = single-IsName (codes "b") refl (λ e. cc) (λ e. cc) (λ e. cc) in
    let c = single-IsName (codes ".tmp-c") refl (λ e. cc) (λ e. ground arith) (λ e. ground arith) in
    let k = single-IsName config refl (λ e. ground arith) (λ e. ground arith) (λ e. ground arith) in
    (
      (s, tt),
      (
        (s, (o, tt)),
        (
          (s, (o, (a, tt))),
          (
            (s, (o, (a, (k, tt)))),
            ((s, (b, tt)), ((s, (b, (k, tt))), ((s, (c, tt)), ((s, (c, (k, tt))), tt)))),
          ),
        ),
      ),
    )

world-Inv : Inv base world
unfolding new_lru run
world-Inv = record { same_base = refl; lru_valid = run-new_lru-IsValid 100 []; listed = tt }

rebuild-Leads_example : Leads base world (rebuild sorter 20 world).1
rebuild-Leads_example = rebuild-Leads base base-is_rooted sorter 20 world world-Inv disk_proper

abbrev one : Fs
one = record {
  entries =
      (codes "s" ∷ [], directory)
      ∷ (codes "s" ∷ codes "a" ∷ [], directory)
      ∷ (codes "s" ∷ codes "a" ∷ config ∷ [], file (codes "xyz") 9)
      ∷ [];
  denied = λ p. false;
}

abbrev one_world : World
one_world = record { store = record { base_path = base; lru = new_lru 100 }; fs = one }

one-kept : mkdir_all (at base) one ≡ some one
unfolding program
one-kept = refl

one-Reaches :
    (parts : FilePath) (s : Text) (mtime : ℕ)
    → stat (at base ++ (parts ++ config ∷ [])) one ≡ some (file s mtime)
    → Reaches (at base) one [] parts
unfolding program
one-Reaches [] s mtime e = tt
one-Reaches (p ∷ []) s mtime e = elim (Bool-cases (str_eq (codes "a") p)) [
  | inl same ↦ (refl, (rw same refl, tt))
  | inr other ↦ absurd (ground arith)
]
one-Reaches (p ∷ q ∷ []) s mtime e = absurd (ground arith)
one-Reaches (p ∷ q ∷ r ∷ ps) s mtime e = absurd (ground arith)

rebuild-lists_iff_example :
    (contains (codes "a") (rebuild sorter 20 one_world).1.store.lru ≡ true)
    ↔ ((contains (codes "a") one_world.store.lru ≡ true) ⊎ ∥ IsAdapter (at base) one (codes "a") ∥₁)
rebuild-lists_iff_example =
    rebuild-lists_iff sorter 20 one_world one one-kept one-Reaches (codes "a")
