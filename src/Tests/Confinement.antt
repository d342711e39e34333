-- ===== src/Tests/Confinement.antt =====
-- The manager over a store at `/s`, with an origin that writes one file.
use loraplex.Cache.Lru.{new_lru}
use loraplex.Cache.Lru.Runs.{run, run-new_lru-IsValid}
use loraplex.Cache.Manager.{FetchResult, OriginFetcher, ensure_adapter, evict_adapter}
use loraplex.Cache.Manager.Confinement.{ensure_adapter-Leads, evict_adapter-Leads}
use loraplex.Cache.Manager.Installing.{Confined}
use loraplex.Cache.Manager.Steps.{Inv, Leads, InBase}
use loraplex.Cache.Meta.{MetaJson}
use loraplex.Cache.World.{World}
use loraplex.Go.Fs.{below, at, write_file, is_below, Fs}
use loraplex.Go.Fs.Laws.{is_below-append}
use loraplex.Go.Fs.Outside.{KeepsOutside, KeepsOutside-refl, write_file-KeepsOutside}
use loraplex.Go.Path.{clean, join_slash, split_slash, is_rooted, join, clean_parts}
use loraplex.Cache.Lru.{contains}
use loraplex.Cache.Manager.{ensure_internal}
use loraplex.Cache.Manager.Success.{ensure_adapter_lists}
use loraplex.Cache.Store
use loraplex.Cache.Store.{adapter_path, validate_adapter_id, has, dir_size}
use loraplex.Go.Fs
use loraplex.Go.Fs.{stat, find, is_dir, is_some, file, directory}
use loraplex.Prelude.{
  inl, true, codes, inr, Text, Option-cases, ◌++◌, false, ◌≡◌, ◌∷◌, some, refl, none, [], is_empty,
  Option, str_eq, ok, has_prefix,
}

abbrev config : Text
config = codes "adapter_config.json"

abbrev fetched : FetchResult
fetched = record { origin = codes "http"; etag = codes "1"; revision = [] }

abbrev store_config : Text → Text → Fs → Option FetchResult × Fs
store_config id dest fs = elim (write_file (at dest ++ config ∷ []) id 0 fs) [
  | none ↦ (none, fs)
  | some fs' ↦ (some fetched, fs')
]

abbrev pub origin : OriginFetcher
origin = record { name = codes "http"; fetch = store_config; head = λ id. some fetched }

store_config-KeepsOutside :
    (id dest : Text) (fs : Fs) → KeepsOutside (at dest) fs (store_config id dest fs).1
store_config-KeepsOutside id dest fs =
    elim (Option-cases (write_file (at dest ++ config ∷ []) id 0 fs)) [
      | inl e ↦ rw (e, store_config) (KeepsOutside-refl (at dest) fs)
      | inr (fs', e) ↦
          rw (e, store_config)
            (write_file-KeepsOutside (at dest) (at dest ++ config ∷ [])
              (is_below-append (at dest) (config ∷ [])) id 0 fs fs' e)
    ]

pub origin-Confined : Confined origin
origin-Confined id dest root = store_config-KeepsOutside id dest

abbrev pub base : Text
base = codes "/s"

abbrev pub world : World
world = record {
  store = record { base_path = base; lru = new_lru 100 };
  fs = record { entries = []; denied = λ p. false };
}

pub base-is_rooted : is_rooted base ≡ true
unfolding is_rooted
base-is_rooted = refl

pub world-Inv : Inv base world
unfolding new_lru run
world-Inv = record { same_base = refl; lru_valid = run-new_lru-IsValid 100 []; listed = tt }

evict_adapter-Leads_example : Leads base world (evict_adapter (codes "../etc") world).1
evict_adapter-Leads_example =
    evict_adapter-Leads base base-is_rooted (codes "../etc") world world-Inv

-- A record is kept by its ETag alone.
abbrev pub json : MetaJson
json = record {
  marshal = λ m. m.etag;
  unmarshal =
      λ s. some (record { origin = []; etag = s; revision = []; fetched_at = 0; ttl_seconds = 0 });
}

ensure_adapter-Leads_example :
    Leads base world (ensure_adapter json (origin ∷ []) 60 5 (codes "org/a") world).1
ensure_adapter-Leads_example =
    ensure_adapter-Leads base base-is_rooted json (origin ∷ []) 60 5 (origin-Confined, tt)
      (codes "org/a") world world-Inv

inside : InBase base (codes "org/a")
unfolding is_below below clean_parts join clean join_slash split_slash is_rooted str_eq is_empty
inside = refl

abbrev stored : World
stored = record world {
  fs = record {
    entries =
        ((codes "s" ∷ codes "a" ∷ []), directory)
        ∷ ((codes "s" ∷ codes "a" ∷ config ∷ []), file [] 0)
        ∷ [];
    denied = λ p. false;
  };
}

stored-ensure : ensure_adapter json (origin ∷ []) 60 5 (codes "a") stored ≡ (
  ok (record { path = codes "/s/a"; cached = true }),
  (ensure_adapter json (origin ∷ []) 60 5 (codes "a") stored).1,
)
unfolding ensure_adapter ensure_internal validate_adapter_id has adapter_path Store.touch dir_size
    stat find clean_parts join clean join_slash split_slash is_rooted str_eq is_empty has_prefix
    Fs.same_path
stored-ensure = refl

ensure_adapter_lists_example :
    (contains (codes "a") (ensure_adapter json (origin ∷ []) 60 5 (codes "a") stored).1.store.lru
      ≡ true)
    × (codes "/s/a" ≡ adapter_path stored.store (codes "a"))
ensure_adapter_lists_example =
    ensure_adapter_lists (codes "a") json (origin ∷ []) 60 5 stored
      (ensure_adapter json (origin ∷ []) 60 5 (codes "a") stored).1
      (record { path = codes "/s/a"; cached = true }) stored-ensure
