-- ===== src/Proxy/Body.antt =====
-- internal/proxy/body.go: what the handler reads from a request, and the key of the ring.
use loraplex.Go.Dict
use loraplex.Go.Dict.{Dict}
use loraplex.Go.Http.{Header, get}
use loraplex.Prelude.{
  Bool, some, none, strip_prefix, ◌∷◌, Result, err, length, if◌then◌else◌, ◌++◌, ◌*◌, ok, ◌^◌, ◌==◌,
  [], ℕ, codes, Option, ltb, is_empty, str_eq, Text,
}

-- A request of a client: `body` is what arrives of the body and `body_fails` whether an error comes
-- after it; `cancelled` says whether the client has gone when the answer of vLLM fails.
pub record Request : Type 0 where
  pub method : Text
  pub path : Text
  pub raw_query : Text
  pub headers : Header
  pub body : Text
  pub body_fails : Bool
  pub cancelled : Bool

-- `json.Unmarshal` into a map of raw messages, and into a string.
pub record Json : Type 0 where
  pub object_of : Text → Option (Dict Text)
  pub string_of : Text → Option Text

pub record RequestInfo : Type 0 where
  pub model : Text
  pub tenant : Text
  pub hash_key : Text
  pub body : Text

pub data BodyError : Type 0 where
  read_failed : BodyError
  too_large : BodyError

-- 10 MB
abbrev pub max_body_size : ℕ
max_body_size = 10 * 2 ^ 20

-- `strings.SplitN(spec, "/", 2)`: what stands before the first slash, and after it if there is one.
unfoldable pub split_once : Text → Text × Option Text
split_once [] = ([], none)
split_once (c ∷ s) =
    let (before, after) = split_once s in if c == b'/' then ([], some s) else (c ∷ before, after)

-- `v + "/" + model`, or the model alone if there is no value
unfoldable pub with_model : Text → Text → Text
with_model v model = if is_empty v then model else v ++ b'/' ∷ model

-- The rule `header:<name>` or `header:<name>/model`.
unfoldable pub header_key : Text → Text → Header → Text
unfolding split_once with_model
header_key spec model headers =
    let (name, rest) = split_once spec in
    let v = get name headers in
    elim rest [
      | none ↦ v
      | some part ↦ if str_eq part (codes "model") then with_model v model else v
    ]

unfoldable pub build_hash_key : Text → Text → Header → Text → Text
unfolding header_key with_model
build_hash_key model tenant headers hash_on =
    if str_eq hash_on (codes "model")
    then model
    else if str_eq hash_on (codes "tenant")
    then tenant
    else if str_eq hash_on (codes "tenant/model")
    then with_model tenant model
    else elim (strip_prefix (codes "header:") hash_on) [
      | none ↦ model
      | some spec ↦ header_key spec model headers
    ]

-- The model that a body names, or the empty string.
unfoldable pub model_of : Json → Text → Text
model_of json body = if is_empty body then [] else elim (json.object_of body) [
  | none ↦ []
  | some fields ↦ elim (Dict.lookup (codes "model") fields) [
    | none ↦ []
    | some raw ↦ elim (json.string_of raw) [ none ↦ [] | some model ↦ model ]
  ]
]

unfoldable pub extract_request_info : Json → Request → Text → Result BodyError RequestInfo
unfolding model_of build_hash_key
extract_request_info json r hash_on =
    let model = model_of json r.body in
    let tenant = get (codes "X-Tenant-ID") r.headers in
    if ltb max_body_size (length r.body)
    then err too_large
    else if r.body_fails
    then err read_failed
    else ok (record {
      model = model;
      tenant = tenant;
      hash_key = build_hash_key model tenant r.headers hash_on;
      body = r.body;
    })
