-- ===== src/Cache/Manager/Success.antt =====
-- What holds after a call of internal/cache/manager.go has succeeded.
use loraplex.Cache.Lru
use loraplex.Cache.Lru.Listed.{contains-touch}
use loraplex.Cache.Lru.{Lru, contains, push_front, stamp_and_move, element}
use loraplex.Cache.Manager.{
  FetchResult, OriginFetcher, EnsureResult, tmp_dir, from_origins, install, meta_of, cleaning_up,
  fetch_from_origin, ensure_internal, ensure_adapter,
}
use loraplex.Cache.Meta.{MetaJson, write_meta}
use loraplex.Cache.Store
use loraplex.Cache.Store.{adapter_path, validate_adapter_id, has, dir_size, make_room, with_lru}
use loraplex.Cache.World.{Store, World, CacheError, Cached, ◌>>=◌, ◌>>◌, return, on_disk, ignoring}
use loraplex.Go.Fs.{Fs, at, remove_all, mkdir_all, rename, parent}
use loraplex.Prelude.{
  subst, ◌≡◌, refl, Text, ok, true, ℕ, err, Result, ap, some, List, Option, none, sym, if_both,
  false,
}

-- If the call succeeds, its value and the state after it are related by `Q`.
abbrev Ends : {A : Type 0} → Cached A → (A → World → Type 0) → Type 0
Ends {A = A} m Q = (w : World) (a : A) (w' : World) → m w ≡ (ok a, w') → Q a w'

end_of :
    {A B : Type 0} (m : Cached A) (f : A → Cached B) (P : A → World → Type 0)
    (Q : B → World → Type 0) (w : World)
    → Ends m P
    → ((a : A) (v : World) → P a v → (b : B) (w' : World) → f a v ≡ (ok b, w') → Q b w')
    → (r : Result CacheError A) (v : World) → m w ≡ (r, v)
    → (b : B) (w' : World) → ◌>>=◌ {A = A} {B = B} (λ _. (r, v)) f w ≡ (ok b, w')
    → Q b w'
end_of m f P Q w sm sf (ok a) v e b w' h = sf a v (sm w a v e) b w' h
end_of m f P Q w sm sf (err e') v e b w' h = cc (h)

Ends-bind :
    {A B : Type 0} (m : Cached A) (f : A → Cached B) (P : A → World → Type 0)
    (Q : B → World → Type 0)
    → Ends m P
    → ((a : A) (v : World) → P a v → (b : B) (w' : World) → f a v ≡ (ok b, w') → Q b w')
    → Ends (m >>= f) Q
Ends-bind m f P Q sm sf w b w' h = end_of m f P Q w sm sf (m w).0 (m w).1 refl b w' h

-- What the last part of a call brings about.
Ends-last :
    {A B : Type 0} (m : Cached A) (f : A → Cached B) (Q : B → World → Type 0)
    → ((a : A) → Ends (f a) Q)
    → Ends (m >>= f) Q
Ends-last m f Q s = Ends-bind m f (λ a v. Unit) Q (λ w a w' h. tt) (λ a v p. s a v)

Ends-then :
    {B : Type 0} (m : Cached (Unit {0})) (k : Cached B) (Q : B → World → Type 0)
    → Ends k Q
    → Ends (m >> k) Q
Ends-then m k Q s = Ends-last m (λ _. k) Q (λ _. s)

value_of : {A : Type 0} → A → Result CacheError A × World → A
value_of x (ok a, w) = a
value_of x (err e, w) = x

module _ (id : Text) where
  -- The store lists the adapter.
  abbrev Listed : {A : Type 0} → A → World → Type 0
  Listed a w = contains id w.store.lru ≡ true

  touch-Listed : (now : ℕ) → Ends (Store.touch id now) Listed
  unfolding Store.touch
  touch-Listed now w =
      Ends-last (dir_size (adapter_path w.store id))
        (λ size w'. (ok tt, with_lru w' (Lru.touch id size now w'.store.lru))) Listed
        (λ size v a w' h.
          subst (λ x. contains id x.1.store.lru ≡ true) h (contains-touch id size now v.store.lru))
        w

  -- A clean-up of the disk leaves the store as it is.
  of_cleaning :
      (r : Result CacheError (Unit {0})) (v : World) (o : Option Fs) (a : Unit {0}) (w' : World)
      → elim o as (λ _. Result CacheError (Unit {0}) × World) [
        | none ↦ (r, v)
        | some fs' ↦ (r, record v { fs = fs' })
      ]
        ≡ (ok a, w')
      → (r ≡ ok a) × (v.store ≡ w'.store)
  of_cleaning r v none a w' h = (ap (λ x. x.0) h, ap (λ x. x.1.store) h)
  of_cleaning r v (some fs') a w' h = (ap (λ x. x.0) h, ap (λ x. x.1.store) h)

  module _ (json : MetaJson) (origins : List OriginFetcher) (ttl now : ℕ) where
    cleaning_up-Listed :
        (tmp : Text) (m : Cached (Unit {0}))
        → Ends m Listed
        → Ends (cleaning_up json origins ttl now tmp m) Listed
    unfolding cleaning_up
    cleaning_up-Listed tmp m s w a w' h =
        let (ends, same) = of_cleaning (m w).0 (m w).1 (remove_all (at tmp) (m w).1.fs) a w' h in
        subst (λ (st : Store). contains id st.lru ≡ true) same
          (s w a (m w).1 (ap (λ r. (r, (m w).1)) ends))

    install-Listed :
        (tmp : Text) (fr : FetchResult) → Ends (install json origins ttl now id tmp fr) Listed
    unfolding install
    install-Listed tmp fr w =
        let p = at (adapter_path w.store id) in
        let moved : Cached (Unit {0}) = on_disk (rename (at tmp) p) >> Store.touch id now in
        let made : Cached (Unit {0}) = on_disk (mkdir_all (parent p)) >> moved in
        let place : Cached (Unit {0}) = ignoring (remove_all p) >> made in
        Ends-then (on_disk (write_meta json tmp (meta_of fr ttl now) now))
          (dir_size tmp >>= (λ size. make_room size >>= (λ evicted. place))) Listed
          (Ends-last (dir_size tmp) (λ size. make_room size >>= (λ evicted. place)) Listed
            (λ size.
              Ends-last (make_room size) (λ evicted. place) Listed
                (λ evicted. Ends-then (ignoring (remove_all p)) made Listed (
                  Ends-then (on_disk (mkdir_all (parent p))) moved Listed (
                    Ends-then (on_disk (rename (at tmp) p)) (Store.touch id now) Listed
                      (touch-Listed now))))))
          w

    fetch_from_origin-Listed : Ends (fetch_from_origin json origins ttl now id) Listed
    unfolding fetch_from_origin
    fetch_from_origin-Listed w =
        let tmp = tmp_dir w.store id in
        let rest : Cached (Unit {0}) =
          from_origins origins id tmp >>= (λ fr. install json origins ttl now id tmp fr) in
        Ends-then (ignoring (remove_all (at tmp)))
          (on_disk (mkdir_all (at tmp)) >> cleaning_up json origins ttl now tmp rest) Listed
          (Ends-then (on_disk (mkdir_all (at tmp))) (cleaning_up json origins ttl now tmp rest)
            Listed
            (cleaning_up-Listed tmp rest (
              Ends-last (from_origins origins id tmp) (λ fr. install json origins ttl now id tmp fr)
                Listed (λ fr. install-Listed tmp fr))))
          w

    ends_with :
        (m : Cached (Unit {0})) (x : EnsureResult)
        → Ends m Listed
        → Ends (m >> return x) (λ a v. Listed a v × (a ≡ x))
    unfolding value_of
    ends_with m x s =
        Ends-bind m (λ _. return x) Listed (λ a v. Listed a v × (a ≡ x)) s
          (λ u v p b w' h.
            (subst (λ y. contains id y.1.store.lru ≡ true) h p, sym (ap (value_of x) h)))

    ensure_internal_lists :
        (w w' : World) (result : EnsureResult)
        → ensure_internal json origins ttl now id w ≡ (ok result, w')
        → (contains id w'.store.lru ≡ true) × (result.path ≡ adapter_path w.store id)
    unfolding ensure_internal
    ensure_internal_lists w w' result =
        let found : EnsureResult = record { path = adapter_path w.store id; cached = true } in
        let fetched : EnsureResult = record { path = adapter_path w.store id; cached = false } in
        if_both
          (λ (y : Result CacheError EnsureResult × World).
            y ≡ (ok result, w')
            → (contains id w'.store.lru ≡ true) × (result.path ≡ adapter_path w.store id))
          (has w id) _ _
          (λ h.
            let (lists, same) =
              ends_with (Store.touch id now) found (touch-Listed now) w result w' h in
            (lists, ap (λ (x : EnsureResult). x.path) same))
          (λ h.
            let (lists, same) =
              ends_with (fetch_from_origin json origins ttl now id) fetched fetch_from_origin-Listed
                w result w' h in
            (lists, ap (λ (x : EnsureResult). x.path) same))

    -- If `EnsureAdapter` succeeds, whether the adapter was on the disk or was fetched, the store lists it,
    -- and the result has its path.
    pub ensure_adapter_lists :
        (w w' : World) (result : EnsureResult)
        → ensure_adapter json origins ttl now id w ≡ (ok result, w')
        → (contains id w'.store.lru ≡ true) × (result.path ≡ adapter_path w.store id)
    unfolding ensure_adapter
    ensure_adapter_lists w w' result = of_check (validate_adapter_id w.store id)
      where
        of_check :
            (c : Result CacheError (Unit {0}))
            → elim c as (λ _. Result CacheError EnsureResult × World) [
              | err e ↦ (err e, w)
              | ok _ ↦ ensure_internal json origins ttl now id w
            ]
              ≡ (ok result, w')
            → (contains id w'.store.lru ≡ true) × (result.path ≡ adapter_path w.store id)
        of_check (ok u) h = ensure_internal_lists w w' result h
        of_check (err e) h = cc (h)
