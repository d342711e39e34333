-- ===== src/Admin/Warmup.antt =====
-- The warm-up of internal/admin/handler.go, and what is outside of the storage directory.
use loraplex.Admin.{Handler, warm_each}
use loraplex.Cache.Manager.{OriginFetcher, ensure_adapter}
use loraplex.Cache.Manager.Confinement.{ensure_adapter-Leads}
use loraplex.Cache.Manager.Installing.{Confined}
use loraplex.Cache.Manager.Steps.{Inv, Leads, Leads-refl, Leads-trans}
use loraplex.Cache.Meta.{MetaJson}
use loraplex.Cache.World.{World}
use loraplex.Go.Path.{is_rooted}
use loraplex.Prelude.{Text, true, ap, All, ◌≡◌, map, [], ◌∷◌, List, ℕ, refl}

module _ (base : Text) (rooted : is_rooted base ≡ true) (json : MetaJson)
    (origins : List OriginFetcher) (ttl now : ℕ) (confined : All Confined origins) {F : Type 0}
    (h : Handler F) where
  warm_each-Leads :
      (adapters : List Text) (w : World)
      → Inv base w
      → Leads base w (warm_each h json origins ttl now adapters w).1
  unfolding warm_each
  warm_each-Leads [] w i = Leads-refl base w i
  warm_each-Leads (adapter ∷ adapters) w i =
      let first = ensure_adapter-Leads base rooted json origins ttl now confined adapter w i in
      Leads-trans base w _ _ first (warm_each-Leads adapters _ first.inv)

  -- If the base path is absolute and each origin, given an absolute target, changes nothing outside of it, but that
  -- it may make missing directories that the target lies in, then from a state with a valid LRU that lists no
  -- identifier which leads out of the base: a warm-up changes nothing outside of the base directory and makes
  -- nothing there, whatever identifiers it is given and whichever of them fail, but that it may make missing
  -- directories that the base lies in; it answers for each identifier, in their order.
  pub warm_each_answers :
      (adapters : List Text) (w : World)
      → Inv base w
      → Leads base w (warm_each h json origins ttl now adapters w).1
        × (map (λ a. a.0) (warm_each h json origins ttl now adapters w).0 ≡ adapters)
  unfolding warm_each
  warm_each_answers adapters w i = (warm_each-Leads adapters w i, names adapters w)
    where
      names :
          (ids : List Text) (v : World)
          → map (λ a. a.0) (warm_each h json origins ttl now ids v).0 ≡ ids
      names [] v = refl
      names (x ∷ ids) v = ap (λ l. x ∷ l) (names ids (ensure_adapter json origins ttl now x v).1)
