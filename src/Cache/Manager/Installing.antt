-- ===== src/Cache/Manager/Installing.antt =====
-- `fetchFromOrigin` of internal/cache/manager.go: an adapter is put together in a new directory, which
-- then takes the place of the old one.
use loraplex.Cache.Manager.{
  FetchResult, OriginFetcher, tmp_dir, safe_id, fetch_first, from_origins, install, meta_of,
  cleaning_up, fetch_from_origin,
}
use loraplex.Cache.Manager.Steps.{
  InBase, Inv, Safe, Leads-trans, Leads-disk, Safe-bind, Safe-on_disk, Safe-ignoring, Safe-dir_size,
  Safe-touch, Safe-make_room,
}
use loraplex.Cache.Meta.{AdapterMeta, MetaJson, write_meta, meta_file_name}
use loraplex.Cache.Store
use loraplex.Cache.Store.{adapter_path, validate_adapter_id, has, dir_size, make_room}
use loraplex.Cache.Store.Paths.{adapter_path-IsInside, at-join, is_rooted-join}
use loraplex.Cache.World.{World, Cached, ◌>>=◌, ◌>>◌, on_disk, ignoring}
use loraplex.Go.Fs.{FilePath, Fs, at, is_below, remove_all, mkdir_all, rename, parent}
use loraplex.Go.Fs.Laws.{is_below-append}
use loraplex.Go.Fs.Outside.{
  KeepsOutside, KeepsOutside-refl, KeepsOutside-trans, KeepsOutside-up, remove_all-KeepsOutside,
  write_file-KeepsOutside, rename-KeepsOutside, mkdir_all-KeepsOutside, parent-Meets,
}
use loraplex.Go.Path.{join, is_rooted, slash, split_slash}
use loraplex.Go.Path.Parts.{IsName, clean_parts-names}
use loraplex.Go.Path.Split.{SlashFree, split_slash-All-SlashFree, split_slash_single}
use loraplex.Prelude.{
  ℕ, ◌++◌, ◌==◌, Text, ok, List, inl, ◌∷◌, true, inr, [], ◌≡◌, codes, Bool-cases, arith, All, subst,
  Option-cases, some,
}

-- An origin writes at its target, if that is an absolute path, and below only; directories on the way to the target
-- that are missing may be made.
abbrev pub Confined : OriginFetcher → Type 0
Confined o =
    (id dest : Text)
    → is_rooted dest ≡ true
    → (fs : Fs) → KeepsOutside (at dest) fs (o.fetch id dest fs).1

safe_id-SlashFree : (id : Text) → SlashFree (safe_id id)
unfolding safe_id
safe_id-SlashFree [] = tt
safe_id-SlashFree (c ∷ s) = elim (Bool-cases (c == slash)) [
  | inl e ↦ rw (e, safe_id) ((λ h. ground arith), ((λ h. ground arith), safe_id-SlashFree s))
  | inr e ↦ rw (e, safe_id) ((λ h. ground arith), safe_id-SlashFree s)
]

tmp_part-IsName : (id : Text) → IsName (codes ".tmp-" ++ safe_id id)
tmp_part-IsName id = record {
  not_empty = λ h. cc;
  not_dot = λ h. ground arith;
  not_dot_dot = λ h. ground arith;
  no_slash = (
    (λ h. ground arith),
    (
      (λ h. ground arith),
      ((λ h. ground arith), ((λ h. ground arith), ((λ h. ground arith), safe_id-SlashFree id))),
    ),
  );
}

meta_parts-IsName : All IsName (split_slash meta_file_name)
unfolding split_slash
meta_parts-IsName = (
  record {
    not_empty = λ h. ground arith;
    not_dot = λ h. ground arith;
    not_dot_dot = λ h. ground arith;
    no_slash = (split_slash-All-SlashFree meta_file_name).0;
  },
  tt,
)

module _ (base : Text) (rooted : is_rooted base ≡ true) where
  name-InBase : (name : Text) → IsName name → InBase base name
  name-InBase name h =
      let single = split_slash_single name h.no_slash in
      rw (at-join base name rooted, clean_parts-names base name rooted (rw single (h, tt)))
        (is_below-append (at base) _)

  pub accepted-InBase :
      (w : World) (id : Text) → Inv base w → validate_adapter_id w.store id ≡ ok tt → InBase base id
  unfolding adapter_path
  accepted-InBase w id i accepted =
      let inside = adapter_path-IsInside w.store (rw i.same_base rooted) id accepted in
      subst (λ b. is_below (at b) (at (join b id)) ≡ true) i.same_base
        (rw inside.path (is_below-append (at w.store.base_path) inside.rest))

  module _ (json : MetaJson) (origins : List OriginFetcher) (ttl now : ℕ)
      (confined : All Confined origins) where
    fetch_first-KeepsOutside :
        (os : List OriginFetcher) (id dest : Text) (fs : Fs)
        → All Confined os
        → is_rooted dest ≡ true
        → KeepsOutside (at dest) fs (fetch_first os id dest fs).1
    unfolding fetch_first
    fetch_first-KeepsOutside [] id dest fs h root = KeepsOutside-refl (at dest) fs
    fetch_first-KeepsOutside (o ∷ os) id dest fs (ho, h) root =
        elim (Option-cases (o.fetch id dest fs).0) [
          | inl e ↦
              rw (e, fetch_first)
                (KeepsOutside-trans (at dest) fs (o.fetch id dest fs).1 _ (ho id dest root fs)
                  (fetch_first-KeepsOutside os id dest (o.fetch id dest fs).1 h root))
          | inr (fr, e) ↦ rw (e, fetch_first) (ho id dest root fs)
        ]

    Safe-from_origins :
        (id dest : Text)
        → is_rooted dest ≡ true
        → is_below (at base) (at dest) ≡ true
        → Safe base (from_origins origins id dest)
    unfolding from_origins
    Safe-from_origins id dest root inside w i =
        let fs' = (fetch_first origins id dest w.fs).1 in
        let after = Leads-disk base w fs' i (
          KeepsOutside-up (at base) (at dest) w.fs fs' inside
            (fetch_first-KeepsOutside origins id dest w.fs confined root)) in
        elim (Option-cases (fetch_first origins id dest w.fs).0) [
          | inl e ↦ rw (e, from_origins) after
          | inr (fr, e) ↦ rw (e, from_origins) after
        ]

    Safe-cleaning_up :
        {A : Type 0} (tmp : Text) (m : Cached A)
        → is_below (at base) (at tmp) ≡ true
        → Safe base m
        → Safe base (cleaning_up json origins ttl now tmp m)
    unfolding cleaning_up
    Safe-cleaning_up tmp m inside sm w i =
        let first = sm w i in
        elim (Option-cases (remove_all (at tmp) (m w).1.fs)) [
          | inl e ↦ rw (e, cleaning_up) first
          | inr (fs', e) ↦
              rw (e, cleaning_up)
                (Leads-trans base w (m w).1 _ first (
                  Leads-disk base (m w).1 fs' first.inv
                    (remove_all-KeepsOutside (at base) (at tmp) inside (m w).1.fs fs' e)))
        ]

    -- The record of an adapter lies in its directory.
    pub write_meta-KeepsOutside :
        (dir : Text) (m : AdapterMeta)
        → is_rooted dir ≡ true
        → is_below (at base) (at dir) ≡ true
        → (fs fs' : Fs) → write_meta json dir m now fs ≡ some fs'
        → KeepsOutside (at base) fs fs'
    unfolding write_meta
    write_meta-KeepsOutside dir m root inside fs fs' e =
        let p = at (join dir meta_file_name) in
        let below : is_below (at dir) p ≡ true =
          rw
            (
              at-join dir meta_file_name root,
              clean_parts-names dir meta_file_name root meta_parts-IsName,
            )
            (is_below-append (at dir) _) in
        KeepsOutside-up (at base) (at dir) fs fs' inside
          (write_file-KeepsOutside (at dir) p below (json.marshal m) now fs fs' e)

    pub Safe-then :
        {B : Type 0} (m : Cached (Unit {0})) (k : Cached B)
        → Safe base m
        → Safe base k
        → Safe base (m >> k)
    Safe-then m k sm sk = Safe-bind base m (λ _. k) sm (λ _. sk)

    -- The end of an installation: the new directory takes the place of the old one.
    Safe-place :
        (id tmp : Text) (p : FilePath)
        → is_below (at base) (at tmp) ≡ true
        → is_below (at base) p ≡ true
        → InBase base id
        → Safe base (
            ignoring (remove_all p)
            >> (on_disk (mkdir_all (parent p))
                >> (on_disk (rename (at tmp) p) >> Store.touch id now)))
    Safe-place id tmp p inside hp hid =
        let moved : Cached (Unit {0}) = on_disk (rename (at tmp) p) >> Store.touch id now in
        let made : Cached (Unit {0}) = on_disk (mkdir_all (parent p)) >> moved in
        Safe-then (ignoring (remove_all p)) made
          (Safe-ignoring base (remove_all p) (remove_all-KeepsOutside (at base) p hp))
          (Safe-then (on_disk (mkdir_all (parent p))) moved
            (Safe-on_disk base (mkdir_all (parent p))
              (mkdir_all-KeepsOutside (at base) (parent p) (parent-Meets (at base) p hp)))
            (Safe-then (on_disk (rename (at tmp) p)) (Store.touch id now)
              (Safe-on_disk base (rename (at tmp) p)
                (rename-KeepsOutside (at base) (at tmp) inside p hp))
              (Safe-touch base id now hid)))

    pub path_inside :
        (w : World) (id : Text)
        → Inv base w
        → InBase base id
        → is_below (at base) (at (adapter_path w.store id)) ≡ true
    unfolding adapter_path
    path_inside w id i hid = rw i.same_base hid

    Safe-install :
        (id tmp : Text) (fr : FetchResult)
        → is_rooted tmp ≡ true
        → is_below (at base) (at tmp) ≡ true
        → InBase base id
        → Safe base (install json origins ttl now id tmp fr)
    unfolding install
    Safe-install id tmp fr root inside hid w i =
        let p = at (adapter_path w.store id) in
        let place : Cached (Unit {0}) =
          ignoring (remove_all p)
          >> (on_disk (mkdir_all (parent p))
              >> (on_disk (rename (at tmp) p) >> Store.touch id now)) in
        Safe-then (on_disk (write_meta json tmp (meta_of fr ttl now) now))
          (dir_size tmp >>= (λ size. make_room size >>= (λ evicted. place)))
          (Safe-on_disk base (write_meta json tmp (meta_of fr ttl now) now)
            (write_meta-KeepsOutside tmp (meta_of fr ttl now) root inside))
          (Safe-bind base (dir_size tmp) (λ size. make_room size >>= (λ evicted. place))
            (Safe-dir_size base tmp)
            (λ size.
              Safe-bind base (make_room size) (λ evicted. place) (Safe-make_room base size)
                (λ evicted. Safe-place id tmp p inside (path_inside w id i hid) hid)))
          w i

    pub Safe-fetch_from_origin :
        (id : Text) → InBase base id → Safe base (fetch_from_origin json origins ttl now id)
    unfolding fetch_from_origin tmp_dir
    Safe-fetch_from_origin id hid w i =
        let tmp = join w.store.base_path (codes ".tmp-" ++ safe_id id) in
        let inside : is_below (at base) (at tmp) ≡ true =
          rw i.same_base (name-InBase (codes ".tmp-" ++ safe_id id) (tmp_part-IsName id)) in
        let root : is_rooted tmp ≡ true =
          rw i.same_base (is_rooted-join base (codes ".tmp-" ++ safe_id id) rooted) in
        let rest : Cached (Unit {0}) =
          from_origins origins id tmp >>= (λ fr. install json origins ttl now id tmp fr) in
        Safe-then (ignoring (remove_all (at tmp)))
          (on_disk (mkdir_all (at tmp)) >> cleaning_up json origins ttl now tmp rest)
          (Safe-ignoring base (remove_all (at tmp))
            (remove_all-KeepsOutside (at base) (at tmp) inside))
          (Safe-then (on_disk (mkdir_all (at tmp))) (cleaning_up json origins ttl now tmp rest)
            (Safe-on_disk base (mkdir_all (at tmp))
              (mkdir_all-KeepsOutside (at base) (at tmp) (inl inside)))
            (Safe-cleaning_up tmp rest inside (
              Safe-bind base (from_origins origins id tmp)
                (λ fr. install json origins ttl now id tmp fr)
                (Safe-from_origins id tmp root inside)
                (λ fr. Safe-install id tmp fr root inside hid))))
          w i
