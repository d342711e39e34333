-- ===== src/Cache/Manager.antt =====
-- internal/cache/manager.go: making sure that an adapter is on the disk, from the store or from the
-- first origin that has it. The sections' parameters `origins`, `ttl` (in seconds) and `now` are the
-- manager's fields and the time of the call. A call is one step: calls for one adapter share a run by
-- `singleflight`, and the interleaving of calls for different adapters is not modelled.
pub mod Steps
pub mod Installing
pub mod Confinement
pub mod Success
use loraplex.Cache.Meta.{AdapterMeta, MetaJson, is_expired, content_id, read_meta, write_meta}
use loraplex.Cache.Store
use loraplex.Cache.Store.{adapter_path, validate_adapter_id, has, dir_size, make_room}
use loraplex.Cache.World.{Store, World, not_found, Cached, ◌>>=◌, ◌>>◌, return, on_disk, ignoring}
use loraplex.Go.Fs.{Fs, at, remove_all, mkdir_all, rename, parent}
use loraplex.Go.Path.{join, slash}
use loraplex.Prelude.{
  Bool, Option, not, true, err, ◌==◌, if◌then◌else◌, ◌∷◌, List, ◌||◌, [], some, codes, false,
  is_empty, str_eq, ◌&&◌, ℕ, ◌++◌, none, Text, ok,
}

pub record FetchResult : Type 0 where
  pub origin : Text
  pub etag : Text
  pub revision : Text

-- The interface `OriginFetcher`. `fetch` writes files and may leave some also when it fails; what it
-- does to the disk is a function of the state that it finds.
pub record OriginFetcher : Type 0 where
  pub name : Text
  pub fetch : Text → Text → Fs → Option FetchResult × Fs
  pub head : Text → Option FetchResult

pub record EnsureResult : Type 0 where
  pub path : Text
  pub cached : Bool

-- `strings.ReplaceAll(adapterID, "/", "__")`
unfoldable pub safe_id : Text → Text
safe_id [] = []
safe_id (c ∷ s) = if c == slash then b'_' ∷ b'_' ∷ safe_id s else c ∷ safe_id s

unfoldable pub tmp_dir : Store → Text → Text
unfolding safe_id
tmp_dir s adapter_id = join s.base_path (codes ".tmp-" ++ safe_id adapter_id)

-- The loop over the origins: the first that succeeds.
unfoldable pub fetch_first : List OriginFetcher → Text → Text → Fs → Option FetchResult × Fs
fetch_first [] adapter_id dest fs = (none, fs)
fetch_first (o ∷ os) adapter_id dest fs =
    let (result, fs') = o.fetch adapter_id dest fs in
    elim result [ none ↦ fetch_first os adapter_id dest fs' | some fr ↦ (some fr, fs') ]

unfoldable pub from_origins : List OriginFetcher → Text → Text → Cached FetchResult
from_origins origins adapter_id dest w =
    let (result, fs') = fetch_first origins adapter_id dest w.fs in
    let w' : World = record w { fs = fs' } in
    elim result [ none ↦ (err (not_found adapter_id), w') | some fr ↦ (ok fr, w') ]

unfoldable pub meta_of : FetchResult → ℕ → ℕ → AdapterMeta
meta_of fr ttl now = record {
  origin = fr.origin;
  etag = fr.etag;
  revision = fr.revision;
  fetched_at = now;
  ttl_seconds = ttl;
}

abbrev pub no_origins : List OriginFetcher → Bool
no_origins [] = true
no_origins (o ∷ os) = false

unfoldable pub elem : Text → List Text → Bool
elem id [] = false
elem id (j ∷ ids) = str_eq j id || elem id ids

module _ (json : MetaJson) (origins : List OriginFetcher) (ttl now : ℕ) where
  -- From the fetched files in the temporary directory to the adapter's place.
  unfoldable pub install : Text → Text → FetchResult → Cached (Unit {0})
  unfolding meta_of
  install adapter_id tmp fr w =
      (do
        on_disk (write_meta json tmp (meta_of fr ttl now) now)
        size ← dir_size tmp
        evicted ← make_room size
        ignoring (remove_all (at (adapter_path w.store adapter_id)))
        on_disk (mkdir_all (parent (at (adapter_path w.store adapter_id))))
        on_disk (rename (at tmp) (at (adapter_path w.store adapter_id)))
        Store.touch adapter_id now)
        w

  -- `defer os.RemoveAll(tmpDir)`
  unfoldable pub cleaning_up : {A : Type 0} → Text → Cached A → Cached A
  cleaning_up tmp m w =
      let (r, w') = m w in
      elim (remove_all (at tmp) w'.fs) [ none ↦ (r, w') | some fs' ↦ (r, record w' { fs = fs' }) ]

  unfoldable pub fetch_from_origin : Text → Cached (Unit {0})
  unfolding install cleaning_up from_origins tmp_dir
  fetch_from_origin adapter_id w =
      let tmp = tmp_dir w.store adapter_id in
      (do
        ignoring (remove_all (at tmp))
        on_disk (mkdir_all (at tmp))
        cleaning_up tmp (do fr ← from_origins origins adapter_id tmp; install adapter_id tmp fr))
        w

  -- The metric counters are left out; `maybeRevalidate` starts a goroutine, whose run is a step of its
  -- own, `revalidate_adapter`.
  unfoldable pub ensure_internal : Text → Cached EnsureResult
  ensure_internal adapter_id w =
      if has w adapter_id
      then (do
        Store.touch adapter_id now
        return (record { path = adapter_path w.store adapter_id; cached = true }))
          w
      else (do
        fetch_from_origin adapter_id
        return (record { path = adapter_path w.store adapter_id; cached = false }))
          w

  unfoldable pub ensure_adapter : Text → Cached EnsureResult
  ensure_adapter adapter_id w = elim (validate_adapter_id w.store adapter_id) [
    | err e ↦ (err e, w)
    | ok _ ↦ ensure_internal adapter_id w
  ]

  unfoldable pub unchanged : AdapterMeta → FetchResult → Bool
  unchanged old head =
      let new_id = if is_empty head.etag then head.revision else head.etag in
      not (is_empty new_id) && not (is_empty (content_id old)) && str_eq new_id (content_id old)

  -- The loop of `revalidateAdapter`: the first origin that answers decides. Errors are logged.
  unfoldable pub revalidate_with : List OriginFetcher → Text → AdapterMeta → World → World
  revalidate_with [] adapter_id old w = w
  revalidate_with (o ∷ os) adapter_id old w = elim (o.head adapter_id) [
    | none ↦ revalidate_with os adapter_id old w
    | some head ↦
        let dir = adapter_path w.store adapter_id in
        let refreshed : AdapterMeta = record old { fetched_at = now } in
        let refetched = fetch_from_origin adapter_id (Store.remove adapter_id w).1 in
        if unchanged old head
        then (ignoring (write_meta json dir refreshed now) w).1
        else refetched.1
  ]

  unfoldable pub revalidate_adapter : Text → AdapterMeta → World → World
  unfolding revalidate_with unchanged
  revalidate_adapter adapter_id old w = revalidate_with origins adapter_id old w

  -- Whether `maybeRevalidate` starts a run, and with which record: the adapter's record has expired,
  -- and no run for it is under way.
  unfoldable pub maybe_revalidate : List Text → Text → World → Option AdapterMeta
  maybe_revalidate revalidating adapter_id w =
      if ttl == 0 || no_origins origins
      then none
      else (elim (read_meta json (adapter_path w.store adapter_id) w.fs) [
        | none ↦ none
        | some meta ↦
            if not (is_expired now meta) || elem adapter_id revalidating then none else some meta
      ])

unfoldable pub evict_adapter : Text → Cached (Unit {0})
evict_adapter adapter_id w = elim (validate_adapter_id w.store adapter_id) [
  | err e ↦ (err e, w)
  | ok _ ↦ Store.remove adapter_id w
]
