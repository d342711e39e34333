-- ===== src/Origin/Plain.antt =====
-- internal/origin/s3.go and origin.go: where on the disk a bucket's objects go, and the configured
-- origins together.
use loraplex.Cache.Manager.{OriginFetcher}
use loraplex.Cache.Manager.Installing.{Confined}
use loraplex.Cache.Store.Paths.{at-join}
use loraplex.Config.{OriginConfig}
use loraplex.Go.Fs.{Fs, at, is_below, write_file, parent, mkdir_all}
use loraplex.Go.Fs.Laws.{is_below-append}
use loraplex.Go.Fs.Outside.{
  KeepsOutside, KeepsOutside-refl, KeepsOutside-trans, write_file-KeepsOutside,
  mkdir_all-KeepsOutside, parent-Meets,
}
use loraplex.Go.Path.{is_rooted, join, split_slash}
use loraplex.Go.Path.Parts.{IsName, clean_parts-names}
use loraplex.Origin.{Outside, OriginError, origin_of, from_config}
use loraplex.Origin.Bucket.{
  BucketClient, Object, S3Origin, rel_path, write_object, store_object, object_etag, s3_loop,
  s3_fetch, s3_origin, new_s3,
}
use loraplex.Origin.Web.{http_origin, hugging_face_origin, new_http, new_hugging_face}
use loraplex.Origin.Confinement.{http_origin-Confined, hugging_face_origin-Confined}
use loraplex.Prelude.{
  Option, ok, Text, List, Option-cases, false, has_suffix, is_empty, some, true, [], Bool-cases,
  take, ◌||◌, ◌++◌, inr, str_eq, codes, refl, subst, ◌∷◌, none, inl, ◌≡◌, All, ℕ, ◌>>=◌, err,
  Result,
}

-- What a key has behind the prefix of its adapter: nothing, a directory's path, or proper names only.
abbrev pub IsPlainKey : Text → Text → Type 0
IsPlainKey key_prefix key =
    (is_empty (rel_path key_prefix key) || has_suffix (codes "/") (rel_path key_prefix key)) ≡ false
    → All IsName (split_slash (rel_path key_prefix key))

-- A bucket all of whose keys have no `..`, `.` or empty part behind the prefix that they are listed under.
pub record IsPlain (client : BucketClient) : Type 0 where
  pub plain_keys :
      (key_prefix : Text) (keys : List Text)
      → client.list_objects key_prefix ≡ some keys
      → All (IsPlainKey key_prefix) keys

module _ (dest : Text) (rooted : is_rooted dest ≡ true) where
  names-below :
      (rel : Text) → All IsName (split_slash rel) → is_below (at dest) (at (join dest rel)) ≡ true
  names-below rel names =
      rw (at-join dest rel rooted, clean_parts-names dest rel rooted names)
        (is_below-append (at dest) _)

  write_object-KeepsOutside :
      (rel : Text)
      → All IsName (split_slash rel)
      → (obj : Object) (now : ℕ) (fs : Fs)
      → KeepsOutside (at dest) fs (write_object (at (join dest rel)) obj now fs).1
  unfolding write_object
  write_object-KeepsOutside rel names obj now fs =
      let p = at (join dest rel) in
      let below = names-below rel names in
      elim (Option-cases obj.breaks) [
        | inl whole ↦
            rw (whole, write_object)
              (elim (Option-cases (write_file p obj.body now fs)) [
                | inl e ↦ rw e (KeepsOutside-refl (at dest) fs)
                | inr (fs', e) ↦
                    rw e (write_file-KeepsOutside (at dest) p below obj.body now fs fs' e)
              ])
        | inr (k, cut) ↦
            rw (cut, write_object)
              (elim (Option-cases (write_file p (take k obj.body) now fs)) [
                | inl e ↦ rw e (KeepsOutside-refl (at dest) fs)
                | inr (fs', e) ↦
                    rw e (write_file-KeepsOutside (at dest) p below (take k obj.body) now fs fs' e)
              ])
      ]

  store_object-KeepsOutside :
      (o : S3Origin) (key rel : Text)
      → All IsName (split_slash rel)
      → (now : ℕ) (fs : Fs) → KeepsOutside (at dest) fs (store_object o key rel dest now fs).1
  unfolding store_object
  store_object-KeepsOutside o key rel names now fs =
      elim (Option-cases (mkdir_all (parent (at (join dest rel))) fs)) [
        | inl e ↦ rw (e, store_object) (KeepsOutside-refl (at dest) fs)
        | inr (fs', e) ↦
            rw (e, store_object)
              (let made =
                  mkdir_all-KeepsOutside (at dest) (parent (at (join dest rel)))
                    (parent-Meets (at dest) (at (join dest rel)) (names-below rel names)) fs fs'
                    e in
                elim (Option-cases (o.client.get_object key)) [
                  | inl lost ↦ rw lost made
                  | inr (obj, got) ↦ rw got (
                      KeepsOutside-trans (at dest) fs fs' _ made
                        (write_object-KeepsOutside rel names obj now fs'))
                ])
      ]

  s3_loop-KeepsOutside :
      (o : S3Origin) (key_prefix : Text) (now : ℕ) (keys : List Text) (etag : Text) (fs : Fs)
      → All (IsPlainKey key_prefix) keys
      → KeepsOutside (at dest) fs (s3_loop o key_prefix dest now keys etag fs).1
  unfolding s3_loop
  s3_loop-KeepsOutside o key_prefix now [] etag fs plain = KeepsOutside-refl (at dest) fs
  s3_loop-KeepsOutside o key_prefix now (key ∷ keys) etag fs (hk, plain) =
      let rel = rel_path key_prefix key in
      let r = store_object o key rel dest now fs in
      elim (Bool-cases (is_empty rel || has_suffix (codes "/") rel)) [
        | inl e ↦ rw (e, s3_loop) (s3_loop-KeepsOutside o key_prefix now keys etag fs plain)
        | inr e ↦
            rw (e, s3_loop)
              (let here = store_object-KeepsOutside o key rel (hk e) now fs in
                elim (Bool-cases r.0.0) [
                  | inl done ↦ rw done (
                      KeepsOutside-trans (at dest) fs r.1 _ here (
                        s3_loop-KeepsOutside o key_prefix now keys (object_etag rel r.0.1 etag) r.1
                          plain))
                  | inr broken ↦ rw broken here
                ])
      ]

pub s3_origin-Confined : (o : S3Origin) (now : ℕ) → IsPlain o.client → Confined (s3_origin o now)
unfolding s3_origin s3_fetch
s3_origin-Confined o now plain id dest rooted fs =
    let key_prefix = o.prefix ++ id ++ codes "/" in listed (o.client.list_objects key_prefix) refl
  where
    listed :
        (l : Option (List Text))
        → o.client.list_objects (o.prefix ++ id ++ codes "/") ≡ l
        → KeepsOutside (at dest) fs (s3_fetch o now id dest fs).1
    listed none e = rw (e, s3_fetch) (KeepsOutside-refl (at dest) fs)
    listed (some []) e = rw (e, s3_fetch) (KeepsOutside-refl (at dest) fs)
    listed (some (key ∷ keys)) e =
        let key_prefix = o.prefix ++ id ++ codes "/" in
        let after =
          s3_loop-KeepsOutside dest rooted o key_prefix now (key ∷ keys) [] fs
            (plain.plain_keys key_prefix (key ∷ keys) e) in
        rw (e, s3_fetch)
          (elim (Option-cases (s3_loop o key_prefix dest now (key ∷ keys) [] fs).0) [
            | inl e' ↦ rw e' after
            | inr (etag, e') ↦ rw e' after
          ])

module _ (out : Outside) (now : ℕ)
    (plain : (bucket region : Text) (client : BucketClient)
      → out.aws bucket region ≡ some client
      → IsPlain client) where
  origin_of-Confined :
      (cfg : OriginConfig) (o : OriginFetcher) → origin_of out now cfg ≡ ok o → Confined o
  unfolding origin_of new_s3
  origin_of-Confined cfg o e = elim (Bool-cases (str_eq cfg.origin_type (codes "s3"))) [
    | inl s3 ↦ elim (Option-cases (out.aws cfg.bucket cfg.region)) [
      | inl e' ↦ cc (rw (s3, e') at e)
      | inr (client, e') ↦
          let made : ok (s3_origin (new_s3 client cfg.prefix) now) ≡ ok o =
            rw e' at (rw (s3, origin_of) at e) in
          let same : s3_origin (new_s3 client cfg.prefix) now ≡ o = cc made in
          subst Confined same (
            s3_origin-Confined (new_s3 client cfg.prefix) now
              (plain cfg.bucket cfg.region client e'))
    ]
    | inr not_s3 ↦ elim (Bool-cases (str_eq cfg.origin_type (codes "huggingface"))) [
      | inl hf ↦
          let made : ok (hugging_face_origin out.sha_of (new_hugging_face out.web cfg.token) now)
              ≡ ok o =
            rw (not_s3, hf, origin_of) at e in
          let same : hugging_face_origin out.sha_of (new_hugging_face out.web cfg.token) now ≡ o =
            cc made in
          subst Confined same
            (hugging_face_origin-Confined out.sha_of (new_hugging_face out.web cfg.token) now)
      | inr not_hf ↦ elim (Bool-cases (str_eq cfg.origin_type (codes "http"))) [
        | inl http ↦
            let made : ok (http_origin (new_http out.web cfg.base_url) now) ≡ ok o =
              rw (not_s3, not_hf, http, origin_of) at e in
            let same : http_origin (new_http out.web cfg.base_url) now ≡ o = cc made in
            subst Confined same (http_origin-Confined (new_http out.web cfg.base_url) now)
        | inr unknown ↦ cc (rw (not_s3, not_hf, unknown, origin_of) at e)
      ]
    ]
  ]

  -- Every origin that a configuration gives, when it fetches to an absolute path, changes nothing outside of it
  -- and makes nothing there, but that it may make missing directories that the path lies in, if the buckets that
  -- it reads hold plain keys only. Without S3 there is no condition.
  pub from_config-Confined :
      (cfgs : List OriginConfig) (os : List OriginFetcher)
      → from_config out now cfgs ≡ ok os
      → All Confined os
  unfolding from_config
  from_config-Confined [] os e = let same : [] ≡ os = cc in rw (← same) tt
  from_config-Confined (cfg ∷ cfgs) os e =
      both (from_config-Confined cfgs) (origin_of out now cfg) (from_config out now cfgs) refl refl
        e
    where
      both :
          ((os : List OriginFetcher) → from_config out now cfgs ≡ ok os → All Confined os)
          → (first : Result OriginError OriginFetcher)
            (rest : Result OriginError (List OriginFetcher))
          → origin_of out now cfg ≡ first
          → from_config out now cfgs ≡ rest
          → (first >>= λ o. rest >>= λ os. ok (o ∷ os)) ≡ ok os
          → All Confined os
      both tails (err e') rest e1 e2 h = cc
      both tails (ok o) (err e') e1 e2 h = cc
      both tails (ok o) (ok tail) e1 e2 h =
          let same : o ∷ tail ≡ os = cc in rw (← same) (origin_of-Confined cfg o e1, tails tail e2)
