-- ===== src/Cache/Manager/Steps.antt =====
-- The steps of internal/cache/store.go, one by one, and what is outside of the base directory.
use loraplex.Cache.Lru
use loraplex.Cache.Lru.{Lru}
use loraplex.Cache.Lru.Identifiers.{Ids, touch-Ids, remove-Ids, evict-Ids}
use loraplex.Cache.Lru.Eviction.{evict-Trimmed}
use loraplex.Cache.Lru.Invariant.{IsValid, touch-IsValid, remove-IsValid}
use loraplex.Cache.Store
use loraplex.Cache.Store.{adapter_path, dir_size, with_lru, remove_evicted, make_room}
use loraplex.Cache.World.{World, CacheError, Cached, ◌>>=◌, return, on_disk, ignoring}
use loraplex.Go.Fs.{Fs, at, is_below, stat, remove_all}
use loraplex.Go.Fs.Outside.{
  KeepsOutside, KeepsOutside-refl, KeepsOutside-trans, remove_all-KeepsOutside,
}
use loraplex.Go.Path.{join}
use loraplex.Prelude.{
  Text, List, true, inl, err, some, ℕ, ok, Option-cases, Option, Result, All, inr, ◌≡◌, ◌∷◌, [],
}

module _ (base : Text) where
  -- The path of an identifier is the base directory or below it.
  abbrev pub InBase : Text → Type 0
  InBase id = is_below (at base) (at (join base id)) ≡ true

  pub record Inv (w : World) : Type 0 where
    pub same_base : w.store.base_path ≡ base
    pub lru_valid : IsValid w.store.lru
    pub listed : Ids InBase w.store.lru

  -- From a state with the invariant: it holds again, and outside nothing was changed, but that missing directories on
  -- the way to the base may have been made.
  pub record Leads (w w' : World) : Type 0 where
    pub inv : Inv w'
    pub keeps : KeepsOutside (at base) w.fs w'.fs

  abbrev pub Safe : {A : Type 0} → Cached A → Type 0
  Safe m = (w : World) → Inv w → Leads w (m w).1

  pub Leads-refl : (w : World) → Inv w → Leads w w
  Leads-refl w i = record { inv = i; keeps = KeepsOutside-refl (at base) w.fs }

  pub Leads-trans : (w w' w'' : World) → Leads w w' → Leads w' w'' → Leads w w''
  Leads-trans w w' w'' l m = record {
    inv = m.inv;
    keeps = KeepsOutside-trans (at base) w.fs w'.fs w''.fs l.keeps m.keeps;
  }

  -- Another disk under the same store.
  pub Leads-disk :
      (w : World) (fs' : Fs)
      → Inv w
      → KeepsOutside (at base) w.fs fs'
      → Leads w (record w { fs = fs' })
  Leads-disk w fs' i k = record {
    inv = record { same_base = i.same_base; lru_valid = i.lru_valid; listed = i.listed };
    keeps = k;
  }

  -- Another LRU over the same disk.
  pub Leads-lru : (w : World) (l : Lru) → Inv w → IsValid l → Ids InBase l → Leads w (with_lru w l)
  Leads-lru w l i valid listed = record {
    inv = record { same_base = i.same_base; lru_valid = valid; listed = listed };
    keeps = KeepsOutside-refl (at base) w.fs;
  }

  bind_of :
      {A B : Type 0} (f : A → Cached B) (w : World) (r : Result CacheError A) (w' : World)
      → Leads w w'
      → ((a : A) → Safe (f a))
      → Leads w (◌>>=◌ {A = A} {B = B} (λ _. (r, w')) f w).1
  bind_of f w (ok a) w' first sf = Leads-trans w w' _ first (sf a w' first.inv)
  bind_of f w (err e) w' first sf = first

  pub Safe-bind :
      {A B : Type 0} (m : Cached A) (f : A → Cached B)
      → Safe m
      → ((a : A) → Safe (f a))
      → Safe (m >>= f)
  Safe-bind m f sm sf w i = bind_of f w (m w).0 (m w).1 (sm w i) sf

  pub Safe-on_disk :
      (f : Fs → Option Fs)
      → ((fs fs' : Fs) → f fs ≡ some fs' → KeepsOutside (at base) fs fs')
      → Safe (on_disk f)
  Safe-on_disk f h w i = elim (Option-cases (f w.fs)) [
    | inl e ↦ rw (e, on_disk) (Leads-refl w i)
    | inr (fs', e) ↦ rw (e, on_disk) (Leads-disk w fs' i (h w.fs fs' e))
  ]

  pub Safe-ignoring :
      (f : Fs → Option Fs)
      → ((fs fs' : Fs) → f fs ≡ some fs' → KeepsOutside (at base) fs fs')
      → Safe (ignoring f)
  Safe-ignoring f h w i = elim (Option-cases (f w.fs)) [
    | inl e ↦ rw (e, ignoring) (Leads-refl w i)
    | inr (fs', e) ↦ rw (e, ignoring) (Leads-disk w fs' i (h w.fs fs' e))
  ]

  pub Safe-dir_size : (path : Text) → Safe (dir_size path)
  unfolding dir_size
  Safe-dir_size path w i = elim (Option-cases (stat (at path) w.fs)) [
    | inl e ↦ rw (e, dir_size) (Leads-refl w i)
    | inr (n, e) ↦ rw (e, dir_size) (Leads-refl w i)
  ]

  pub Safe-touch : (id : Text) (now : ℕ) → InBase id → Safe (Store.touch id now)
  unfolding Store.touch
  Safe-touch id now inside w i =
      Safe-bind (dir_size (adapter_path w.store id))
        (λ size w'. (ok tt, with_lru w' (Lru.touch id size now w'.store.lru)))
        (Safe-dir_size (adapter_path w.store id))
        (λ size w' i'.
          Leads-lru w' (Lru.touch id size now w'.store.lru) i'
            (touch-IsValid w'.store.lru i'.lru_valid id size now)
            (touch-Ids InBase id size now w'.store.lru inside i'.listed))
        w i

  path_inside :
      (id : Text) (w : World)
      → Inv w
      → InBase id
      → is_below (at base) (at (adapter_path w.store id)) ≡ true
  unfolding adapter_path
  path_inside id w i inside = rw i.same_base inside

  pub Safe-remove_evicted : (ids : List Text) → All InBase ids → Safe (remove_evicted ids)
  unfolding remove_evicted
  Safe-remove_evicted [] h w i = Leads-refl w i
  Safe-remove_evicted (id ∷ ids) (inside, h) w i =
      let p = at (adapter_path w.store id) in
      elim (Option-cases (remove_all p w.fs)) [
        | inl e ↦ rw (e, remove_evicted) (Leads-refl w i)
        | inr (fs', e) ↦
            let first =
              Leads-disk w fs' i
                (remove_all-KeepsOutside (at base) p (path_inside id w i inside) w.fs fs' e) in
            rw (e, remove_evicted) (Leads-trans w _ _ first (Safe-remove_evicted ids h _ first.inv))
      ]

  pub Safe-make_room : (required : ℕ) → Safe (make_room required)
  unfolding make_room
  Safe-make_room required w i =
      let l = w.store.lru in
      let evicted = (Lru.evict required l).1 in
      let t = evict-Trimmed required l i.lru_valid in
      let (kept, gone) = evict-Ids InBase required l i.lru_valid i.listed in
      let first = Leads-lru w (Lru.evict required l).0 i t.valid kept in
      Leads-trans w _ _ first (
        Safe-bind (remove_evicted evicted) (λ _. return evicted) (Safe-remove_evicted evicted gone)
          (λ u. Leads-refl) (with_lru w (Lru.evict required l).0) first.inv)

  pub Safe-remove : (id : Text) → InBase id → Safe (Store.remove id)
  unfolding Store.remove
  Safe-remove id inside w i =
      let l = (Lru.remove id w.store.lru).0 in
      let first =
        Leads-lru w l i (remove-IsValid w.store.lru i.lru_valid id)
          (remove-Ids InBase id w.store.lru i.listed) in
      let p = at (adapter_path w.store id) in
      Leads-trans w _ _ first (
        Safe-on_disk (remove_all p)
          (remove_all-KeepsOutside (at base) p (path_inside id w i inside)) _ first.inv)
