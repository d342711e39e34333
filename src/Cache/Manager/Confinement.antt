-- ===== src/Cache/Manager/Confinement.antt =====
-- Whole calls of internal/cache/manager.go, and what is outside of the storage directory.
use loraplex.Cache.Manager.{
  OriginFetcher, EnsureResult, fetch_from_origin, ensure_internal, ensure_adapter, revalidate_with,
  unchanged, revalidate_adapter, evict_adapter,
}
use loraplex.Cache.Manager.Installing.{
  Confined, accepted-InBase, write_meta-KeepsOutside, path_inside, Safe-then,
  Safe-fetch_from_origin,
}
use loraplex.Cache.Manager.Steps.{
  InBase, Inv, Leads, Safe, Leads-refl, Leads-trans, Safe-ignoring, Safe-touch, Safe-remove,
}
use loraplex.Cache.Meta.{AdapterMeta, MetaJson, write_meta}
use loraplex.Cache.Store
use loraplex.Cache.Store.{adapter_path, validate_adapter_id, has}
use loraplex.Cache.Store.Paths.{is_rooted-join}
use loraplex.Cache.World.{World, CacheError, return}
use loraplex.Go.Path.{is_rooted}
use loraplex.Prelude.{
  All, ℕ, [], Result, true, if_both, refl, false, ◌∷◌, ok, List, ◌≡◌, Text, err, Option-cases, inr,
  inl,
}

module _ (base : Text) (rooted : is_rooted base ≡ true) where
  module _ (json : MetaJson) (origins : List OriginFetcher) (ttl now : ℕ)
      (confined : All Confined origins) where
    Safe-ensure_internal :
        (id : Text) → InBase base id → Safe base (ensure_internal json origins ttl now id)
    unfolding ensure_internal
    Safe-ensure_internal id hid w i =
        let found : EnsureResult = record { path = adapter_path w.store id; cached = true } in
        let fetched : EnsureResult = record { path = adapter_path w.store id; cached = false } in
        if_both (λ (x : Result CacheError EnsureResult × World). Leads base w x.1) (has w id) _ _
          (Safe-then base rooted json origins ttl now confined (Store.touch id now) (return found)
            (Safe-touch base id now hid) (Leads-refl base) w i)
          (Safe-then base rooted json origins ttl now confined
            (fetch_from_origin json origins ttl now id) (return fetched)
            (Safe-fetch_from_origin base rooted json origins ttl now confined id hid)
            (Leads-refl base) w i)

    -- If the base path is absolute and each origin, given an absolute target, changes nothing outside of it, but
    -- that it may make missing directories that the target lies in, then from a state with a valid LRU that lists
    -- no identifier which leads out of the base: `EnsureAdapter` changes nothing outside of the base directory and
    -- makes nothing there, whatever identifier it is given and however it ends, but that it may make missing
    -- directories that the base lies in. The LRU is valid afterwards, and lists no identifier which leads out of
    -- the base.
    pub ensure_adapter-Leads :
        (id : Text) (w : World)
        → Inv base w
        → Leads base w (ensure_adapter json origins ttl now id w).1
    unfolding ensure_adapter
    ensure_adapter-Leads id w i = accepted_or (validate_adapter_id w.store id) refl
      where
        accepted_or :
            (x : Result CacheError (Unit {0}))
            → validate_adapter_id w.store id ≡ x
            → Leads base w (ensure_adapter json origins ttl now id w).1
        accepted_or (ok u) e =
            rw (e, ensure_adapter)
              (Safe-ensure_internal id (accepted-InBase base rooted w id i e) w i)
        accepted_or (err e') e = rw (e, ensure_adapter) (Leads-refl base w i)

    is_rooted-path :
        (w : World) (id : Text) → Inv base w → is_rooted (adapter_path w.store id) ≡ true
    unfolding adapter_path
    is_rooted-path w id i = rw i.same_base (is_rooted-join base id rooted)

    Safe-revalidate_with :
        (os : List OriginFetcher) (id : Text) (old : AdapterMeta) (w : World)
        → Inv base w
        → InBase base id
        → Leads base w (revalidate_with json origins ttl now os id old w)
    unfolding revalidate_with
    Safe-revalidate_with [] id old w i hid = Leads-refl base w i
    Safe-revalidate_with (o ∷ os) id old w i hid =
        let dir = adapter_path w.store id in
        let inside = path_inside base rooted json origins ttl now confined w id i hid in
        let removed = Safe-remove base id hid w i in
        elim (Option-cases (o.head id)) [
          | inl e ↦ rw e (Safe-revalidate_with os id old w i hid)
          | inr (head, e) ↦ rw e (
              if_both (Leads base w) (unchanged json origins ttl now old head) _ _
                (Safe-ignoring base (write_meta json dir (record old { fetched_at = now }) now)
                  (write_meta-KeepsOutside base rooted json origins ttl now confined dir
                    (record old { fetched_at = now }) (is_rooted-path w id i) inside)
                  w i)
                (Leads-trans base w _ _ removed (
                  Safe-fetch_from_origin base rooted json origins ttl now confined id hid
                    (Store.remove id w).1 removed.inv)))
        ]

    -- If the base path is absolute and each origin, given an absolute target, changes nothing outside of it, but
    -- that it may make missing directories that the target lies in, then from a state with a valid LRU that lists
    -- no identifier which leads out of the base: a revalidation of an adapter whose identifier does not lead out
    -- of the base changes nothing outside of it and makes nothing there, but that it may make missing directories
    -- that the base lies in, and it leaves the LRU valid.
    pub revalidate_adapter-Leads :
        (id : Text) (old : AdapterMeta) (w : World)
        → Inv base w
        → InBase base id
        → Leads base w (revalidate_adapter json origins ttl now id old w)
    unfolding revalidate_adapter
    revalidate_adapter-Leads id old w i hid = Safe-revalidate_with origins id old w i hid

  -- If the base path is absolute, then from a state with a valid LRU that lists no identifier which leads
  -- out of the base, `EvictAdapter` changes nothing outside of the base directory and makes nothing there,
  -- whatever identifier it is given, but that it may make missing directories that the base lies in; the LRU is
  -- valid afterwards, and lists no identifier which leads out of the base.
  pub evict_adapter-Leads :
      (id : Text) (w : World) → Inv base w → Leads base w (evict_adapter id w).1
  unfolding evict_adapter
  evict_adapter-Leads id w i = accepted_or (validate_adapter_id w.store id) refl
    where
      accepted_or :
          (x : Result CacheError (Unit {0}))
          → validate_adapter_id w.store id ≡ x
          → Leads base w (evict_adapter id w).1
      accepted_or (ok u) e =
          rw (e, evict_adapter) (Safe-remove base id (accepted-InBase base rooted w id i e) w i)
      accepted_or (err e') e = rw (e, evict_adapter) (Leads-refl base w i)
