-- ===== src/Origin/Bucket.antt =====
-- internal/origin/s3.go: adapters as objects under a prefix of a bucket.
use loraplex.Cache.Manager.{FetchResult, OriginFetcher}
use loraplex.Cache.Store.{config_name}
use loraplex.Go.Fs.{Fs, FilePath, at, parent, mkdir_all, write_file}
use loraplex.Go.Path.{join}
use loraplex.Prelude.{
  Bool, ◌++◌, [], Option, take, is_empty, trim_suffix, ◌∷◌, codes, has_suffix, str_eq, true, ℕ,
  some, false, strip_prefix, Text, none, if◌then◌else◌, ◌||◌, List,
}

-- An object's body, after how many bytes it breaks off if it does, and its ETag.
pub record Object : Type 0 where
  pub body : Text
  pub breaks : Option ℕ
  pub etag : Option Text

-- The client of the AWS SDK for one bucket: the keys under a prefix (one page of them), an object by
-- its key, and the ETag of an object; `none` is an error.
pub record BucketClient : Type 0 where
  pub list_objects : Text → Option (List Text)
  pub get_object : Text → Option Object
  pub head_object : Text → Option (Option Text)

pub record S3Origin : Type 0 where
  pub client : BucketClient
  pub prefix : Text

unfoldable pub new_s3 : BucketClient → Text → S3Origin
new_s3 client prefix = record {
  client = client;
  prefix = trim_suffix (codes "/") prefix ++ codes "/";
}

-- `strings.TrimPrefix(key, keyPrefix)`
unfoldable pub rel_path : Text → Text → Text
rel_path key_prefix key = elim (strip_prefix key_prefix key) [ none ↦ key | some rest ↦ rest ]

unfoldable pub or_empty : Option Text → Text
or_empty none = []
or_empty (some s) = s

-- `os.Create` and `io.Copy`
unfoldable pub write_object : FilePath → Object → ℕ → Fs → Bool × Fs
write_object p obj now fs = elim obj.breaks [
  | none ↦ elim (write_file p obj.body now fs) [ none ↦ (false, fs) | some fs' ↦ (true, fs') ]
  | some n ↦ elim (write_file p (take n obj.body) now fs) [
    | none ↦ (false, fs)
    | some fs' ↦ (false, fs')
  ]
]

-- One object, whose path below the target is `rel`; `false` ends the fetch with an error.
unfoldable pub store_object : S3Origin → Text → Text → Text → ℕ → Fs → (Bool × Option Object) × Fs
store_object o key rel dest now fs =
    let p = at (join dest rel) in
    elim (mkdir_all (parent p) fs) [
      | none ↦ ((false, none), fs)
      | some fs' ↦ elim (o.client.get_object key) [
        | none ↦ ((false, none), fs')
        | some obj ↦ let (done, fs'') = write_object p obj now fs' in ((done, some obj), fs'')
      ]
    ]

-- The ETag of the configuration is kept, if it has one.
unfoldable pub object_etag : Text → Option Object → Text → Text
object_etag rel none etag = etag
object_etag rel (some obj) etag =
    if str_eq rel config_name then elim obj.etag [ none ↦ etag | some e ↦ e ] else etag

-- The loop over the keys; keys that stand for directories are passed over.
unfoldable pub s3_loop : S3Origin → Text → Text → ℕ → List Text → Text → Fs → Option Text × Fs
s3_loop o key_prefix dest now [] etag fs = (some etag, fs)
s3_loop o key_prefix dest now (key ∷ keys) etag fs =
    let rel = rel_path key_prefix key in
    let ((done, obj), fs') = store_object o key rel dest now fs in
    let skipped = s3_loop o key_prefix dest now keys etag fs in
    let went_on = s3_loop o key_prefix dest now keys (object_etag rel obj etag) fs' in
    if is_empty rel || has_suffix (codes "/") rel
    then skipped
    else if done
    then went_on
    else (none, fs')

unfoldable pub s3_fetch : S3Origin → ℕ → Text → Text → Fs → Option FetchResult × Fs
s3_fetch o now adapter_id dest fs =
    let key_prefix = o.prefix ++ adapter_id ++ codes "/" in
    elim (o.client.list_objects key_prefix) [
      | none ↦ (none, fs)
      | some [] ↦ (none, fs)
      | some (key ∷ keys) ↦
          let (r, fs') = s3_loop o key_prefix dest now (key ∷ keys) [] fs in
          elim r [
            | none ↦ (none, fs')
            | some etag ↦ (some (record { origin = codes "s3"; etag = etag; revision = [] }), fs')
          ]
    ]

unfoldable pub s3_head : S3Origin → Text → Option FetchResult
s3_head o adapter_id =
    elim (o.client.head_object (o.prefix ++ adapter_id ++ codes "/" ++ config_name)) [
      | none ↦ none
      | some etag ↦ some (record { origin = codes "s3"; etag = or_empty etag; revision = [] })
    ]

unfoldable pub s3_origin : S3Origin → ℕ → OriginFetcher
s3_origin o now = record { name = codes "s3"; fetch = s3_fetch o now; head = s3_head o }
