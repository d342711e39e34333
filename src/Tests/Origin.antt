-- ===== src/Tests/Origin.antt =====
-- Origins over a web server that has one adapter, and over a bucket.
use loraplex.Go.Dict
use loraplex.Cache.Manager.{OriginFetcher, FetchResult}
use loraplex.Cache.Manager.Installing.{Confined}
use loraplex.Config.{OriginConfig}
use loraplex.Go.Fs.{
  parent, parent, mkdir_from, drop_below, mkdir_all, write_file, find, Fs, at, stat, file,
  directory,
}
use loraplex.Go.Http.{values, canonical, recase, HttpResponse, get}
use loraplex.Go.Path.{
  clean, clean_parts, join_slash, split_slash, join_slash, clean_parts, clean, is_rooted, join,
}
use loraplex.Origin.{origin_of, Outside, from_config}
use loraplex.Origin.Bucket.{
  s3_origin, new_s3, s3_fetch, s3_loop, store_object, write_object, rel_path, BucketClient,
}
use loraplex.Cache.Store.{config_name}
use loraplex.Go.Path.Parts.{IsName}
use loraplex.Go.Path.Split.{split_slash_single}
use loraplex.Origin.Confinement.{adapter_files-IsName}
use loraplex.Go.Fs
use loraplex.Go.Dict
use loraplex.Cache.Manager.{OriginFetcher}
use loraplex.Origin.Completeness.{http_fetch-config}
use loraplex.Origin.Plain.{from_config-Confined, IsPlain}
use loraplex.Origin.Web.{
  answered, complete, download, etag_of, http_loop, store_body, hugging_face_origin,
  new_hugging_face, store_body, answered, download, http_loop, WebClient, HttpOrigin, http_fetch,
  http_request, new_http, http_origin,
}
use loraplex.Prelude.{
  none, [], ◌∷◌, some, ◌≡◌, codes, refl, Text, has_suffix, false, if◌then◌else◌, true, All,
  strip_prefix-append, ◌++◌, trim_suffix, str_eq, List, has_prefix, is_empty, strip_prefix, ok,
}

abbrev found : HttpResponse
found = record { status = 200; headers = (codes "Etag", codes "v1" ∷ []) ∷ []; body = codes "cfg" }

-- Whoever asks for a configuration gets it; there are no other files.
abbrev pub web : WebClient
web = record {
  can_request = λ method url. true;
  send = λ req. if has_suffix (codes "adapter_config.json") req.url then some found else none;
  breaks = λ req. none;
}

abbrev pub http : HttpOrigin
http = new_http web (codes "http://o/")

abbrev disk : Fs
disk = record { entries = (codes "t" ∷ [], directory) ∷ []; denied = λ p. false }

abbrev target : Text
target = codes "/t"

target-is_rooted : is_rooted target ≡ true
unfolding is_rooted
target-is_rooted = refl

abbrev got : FetchResult
got = record { origin = codes "http"; etag = codes "v1"; revision = [] }

nothing_yet : stat (at (join target config_name)) disk ≡ none
unfolding stat find join clean clean_parts join_slash split_slash is_rooted is_empty str_eq
    Fs.same_path
nothing_yet = refl

succeeded :
    http_fetch http 3 (codes "a") target disk
    ≡ (some got, (http_fetch http 3 (codes "a") target disk).1)
unfolding http_fetch http_loop download answered store_body complete http_request etag_of new_http
    trim_suffix write_file stat find join clean clean_parts join_slash split_slash is_rooted
    is_empty str_eq Fs.same_path get values Dict.lookup canonical recase has_suffix has_prefix
    drop_below parent
succeeded = refl

http_fetch-config_example :
    (resp : HttpResponse) × ((http.client.send
          (http_request http (codes "GET") (codes "a") config_name)
        ≡ some resp)
      × ((resp.status ≡ 200)
          × ((stat (at (join target config_name)) (http_fetch http 3 (codes "a") target disk).1
                ≡ some (file resp.body 3))
              × (got ≡ record {
                origin = codes "http";
                etag = get (codes "ETag") resp.headers;
                revision = [];
              }))))
http_fetch-config_example =
    http_fetch-config target target-is_rooted http (codes "a") 3 got disk
      (http_fetch http 3 (codes "a") target disk).1 nothing_yet succeeded

-- Under every prefix the bucket has a configuration.
abbrev bucket : BucketClient
bucket = record {
  list_objects = λ key_prefix. some ((key_prefix ++ config_name) ∷ []);
  get_object = λ key. some (record { body = key; breaks = none; etag = none });
  head_object = λ key. some none;
}

bucket-IsPlain : IsPlain bucket
unfolding rel_path
bucket-IsPlain = record {
  plain_keys = λ key_prefix keys e.
      let same : (key_prefix ++ config_name) ∷ [] ≡ keys = cc in
      rw (← same)
        ((λ file. rw (strip_prefix-append key_prefix config_name, rel_path) config_parts), tt);
}
  where
    config_parts : All IsName (split_slash config_name)
    config_parts =
        let (name, rest) = adapter_files-IsName in
        rw (split_slash_single config_name name.no_slash) (name, tt)

abbrev out : Outside
out = record {
  web = web;
  sha_of = λ s. some s;
  aws = λ name region. if is_empty name then none else some bucket;
}

abbrev plain_origin : Text → OriginConfig
plain_origin type = record {
  origin_type = type;
  bucket = codes "b";
  region = [];
  prefix = codes "lora/";
  token = [];
  base_url = codes "http://o/";
}

abbrev configured : List OriginConfig
configured =
    plain_origin (codes "http")
    ∷ plain_origin (codes "s3")
    ∷ plain_origin (codes "huggingface")
    ∷ []

abbrev origins : List OriginFetcher
origins =
    http_origin http 3
    ∷ s3_origin (new_s3 bucket (codes "lora/")) 3
    ∷ hugging_face_origin out.sha_of (new_hugging_face web []) 3
    ∷ []

configured-ok : from_config out 3 configured ≡ ok origins
unfolding from_config origin_of str_eq is_empty
configured-ok = refl

out-IsPlain :
    (name region : Text) (client : BucketClient)
    → out.aws name region ≡ some client
    → IsPlain client
unfolding is_empty
out-IsPlain [] region client e = cc
out-IsPlain (c ∷ name) region client e =
    let same : bucket ≡ client = cc in rw (← same) bucket-IsPlain

from_config-Confined_example : All Confined origins
from_config-Confined_example =
    from_config-Confined out 3 out-IsPlain configured origins configured-ok

-- An object whose key climbs out of the adapter's prefix is written outside of the target.
climbing :
    stat
      (codes "x" ∷ [])
      (s3_fetch
        (new_s3 (record bucket { list_objects = λ p. some ((p ++ codes "../x") ∷ []) }) [])
        3
        (codes "a")
        target
        disk).1
    ≡ some (file (codes "/a/../x") 3)
unfolding s3_fetch s3_loop store_object write_object new_s3 trim_suffix rel_path strip_prefix
    mkdir_all mkdir_from write_file stat find join clean clean_parts join_slash split_slash
    is_rooted is_empty str_eq Fs.same_path has_suffix has_prefix drop_below parent
climbing = refl
