-- ===== src/Tests/Paths.antt =====
-- Adapter identifiers under an absolute base path.
use loraplex.Cache.Lru.{new_lru}
use loraplex.Cache.Store.{adapter_path, validate_adapter_id}
use loraplex.Cache.Store.Paths.{IsInside, adapter_path-IsInside, validate-names}
use loraplex.Cache.World.{Store, path_traversal}
use loraplex.Go.Fs.{at}
use loraplex.Go.Path.{split_slash, join_slash, is_rooted, clean_parts, clean, join}
use loraplex.Go.Path.Parts.{IsName}
use loraplex.Prelude.{
  str_eq, ◌++◌, refl, All, has_prefix, is_empty, ◌≢◌, true, codes, [], arith, ◌≡◌, Text, ok, err,
}

program : Unit {0}
unfolding adapter_path validate_adapter_id split_slash join_slash is_rooted clean_parts clean join
    str_eq is_empty has_prefix new_lru
program = tt

abbrev store : Store
store = record { base_path = codes "/mnt/lora//store/"; lru = new_lru 100 }

abbrev good_id : Text
good_id = codes "org/adapter"

good_path : adapter_path store good_id ≡ codes "/mnt/lora/store/org/adapter"
unfolding program
good_path = refl

-- Going up and down again is accepted, as long as the path ends inside.
winding : validate_adapter_id store (codes "a/../../store/b") ≡ ok tt
unfolding program
winding = refl

traversal : validate_adapter_id store (codes "../../etc") ≡ err path_traversal
unfolding program
traversal = refl

sibling : validate_adapter_id store (codes "../store2/x") ≡ err path_traversal
unfolding program
sibling = refl

-- The base directory itself is accepted.
base_itself :
    (validate_adapter_id store (codes ".") ≡ ok tt) × (validate_adapter_id store [] ≡ ok tt)
unfolding program
base_itself = (refl, refl)

-- Under a relative base of dots, an identifier of dots leads out.
relative_base : validate_adapter_id (record store { base_path = codes ".." }) (codes "..") ≡ ok tt
unfolding program
relative_base = refl

rooted : is_rooted store.base_path ≡ true
unfolding program
rooted = refl

adapter_path-IsInside_example :
    IsInside (at store.base_path) (at (adapter_path store (codes "a/../../store/b")))
adapter_path-IsInside_example = adapter_path-IsInside store rooted (codes "a/../../store/b") winding

good_names : All IsName (split_slash good_id)
unfolding program
good_names = (
  record { not_empty = λ e. cc; not_dot = λ e. cc; not_dot_dot = λ e. cc; no_slash = omega arith },
  (
    record {
      not_empty = λ e. cc;
      not_dot = λ e. ground arith;
      not_dot_dot = λ e. ground arith;
      no_slash = omega arith;
    },
    tt,
  ),
)

base_proper : at store.base_path ≢ []
unfolding program
base_proper e = cc

validate-names_example :
    (validate_adapter_id store good_id ≡ ok tt)
    × (at (adapter_path store good_id) ≡ at store.base_path ++ split_slash good_id)
validate-names_example = validate-names store rooted good_id good_names base_proper
