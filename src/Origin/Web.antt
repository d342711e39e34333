-- ===== src/Origin/Web.antt =====
-- internal/origin/http.go and huggingface.go: adapters of three fixed file names behind a web server.
use loraplex.Cache.Manager.{FetchResult, OriginFetcher}
use loraplex.Cache.Store.{config_name}
use loraplex.Go.Fs.{Fs, FilePath, at, is_some, stat, write_file}
use loraplex.Go.Http.{HttpRequest, HttpResponse, get, set}
use loraplex.Go.Path.{join}
use loraplex.Prelude.{
  Bool, some, codes, List, ◌==◌, ◌&&◌, none, not, str_eq, ◌++◌, is_empty, [], Text, if◌then◌else◌,
  false, trim_suffix, true, ◌∷◌, take, ℕ, Option,
}

-- The HTTP client of an origin. `breaks` says after how many bytes the body of an answer breaks off,
-- if it does.
pub record WebClient : Type 0 where
  pub can_request : Text → Text → Bool
  pub send : HttpRequest → Option HttpResponse
  pub breaks : HttpRequest → Option ℕ

pub record HttpOrigin : Type 0 where
  pub base_url : Text
  pub client : WebClient

unfoldable pub new_http : WebClient → Text → HttpOrigin
new_http client base_url = record { base_url = trim_suffix (codes "/") base_url; client = client }

pub record HuggingFaceOrigin : Type 0 where
  pub token : Text
  pub client : WebClient
  pub base_url : Text

unfoldable pub new_hugging_face : WebClient → Text → HuggingFaceOrigin
new_hugging_face client token = record {
  token = token;
  client = client;
  base_url = codes "https://huggingface.co";
}

abbrev pub adapter_files : List Text
adapter_files = config_name ∷ codes "adapter_model.safetensors" ∷ codes "adapter_model.bin" ∷ []

-- One round of the loop over the files: the file is passed over, or stored with the answer that it
-- came in, or the fetch fails.
pub data Download : Type 0 where
  passed_over : Download
  stored : HttpResponse → Download
  failed : Download

-- `os.Create` and `io.Copy`: what was read of a body that breaks off stays in the file.
unfoldable pub store_body : FilePath → HttpResponse → Option ℕ → ℕ → Fs → Download × Fs
store_body p resp none now fs = elim (write_file p resp.body now fs) [
  | none ↦ (failed, fs)
  | some fs' ↦ (stored resp, fs')
]
store_body p resp (some n) now fs = elim (write_file p (take n resp.body) now fs) [
  | none ↦ (failed, fs)
  | some fs' ↦ (failed, fs')
]

-- Any status but 200 passes the file over.
unfoldable pub answered : FilePath → Option HttpResponse → Option ℕ → ℕ → Fs → Download × Fs
answered p none cut now fs = (passed_over, fs)
answered p (some resp) cut now fs =
    if resp.status == 200 then store_body p resp cut now fs else (passed_over, fs)

unfoldable pub download : WebClient → HttpRequest → FilePath → ℕ → Fs → Download × Fs
download client req p now fs =
    if client.can_request req.method req.url
    then answered p (client.send req) (client.breaks req) now fs
    else (failed, fs)

unfoldable pub http_request : HttpOrigin → Text → Text → Text → HttpRequest
http_request o method adapter_id f = record {
  method = method;
  url = o.base_url ++ b'/' ∷ adapter_id ++ b'/' ∷ f;
  headers = [];
  body = [];
}

-- The ETag of the configuration is kept, if it has one.
unfoldable pub etag_of : Text → HttpResponse → Text → Text
etag_of f resp etag =
    if str_eq f config_name && not (is_empty (get (codes "ETag") resp.headers))
    then get (codes "ETag") resp.headers
    else etag

-- The state of the loop is `fetched` and `etag`; the result is `none` if the fetch failed.
unfoldable pub http_loop :
    HttpOrigin → Text → Text → ℕ → List Text → Bool → Text → Fs → Option (Bool × Text) × Fs
http_loop o adapter_id dest now [] fetched etag fs = (some (fetched, etag), fs)
http_loop o adapter_id dest now (f ∷ files) fetched etag fs =
    let (d, fs') =
      download o.client (http_request o (codes "GET") adapter_id f) (at (join dest f)) now fs in
    elim d [
      | failed ↦ (none, fs')
      | passed_over ↦ http_loop o adapter_id dest now files fetched etag fs'
      | stored resp ↦ http_loop o adapter_id dest now files true (etag_of f resp etag) fs'
    ]

-- What both origins make of the loop: there must be a file, and the configuration must be there.
unfoldable pub complete : Text → Bool → FetchResult → Fs → Option FetchResult × Fs
complete dest fetched fr fs =
    if not fetched
    then (none, fs)
    else if is_some (stat (at (join dest config_name)) fs)
    then (some fr, fs)
    else (none, fs)

unfoldable pub http_fetch : HttpOrigin → ℕ → Text → Text → Fs → Option FetchResult × Fs
http_fetch o now adapter_id dest fs =
    let (r, fs') = http_loop o adapter_id dest now adapter_files false [] fs in
    elim r [
      | none ↦ (none, fs')
      | some (fetched, etag) ↦
          complete dest fetched (record { origin = codes "http"; etag = etag; revision = [] }) fs'
    ]

unfoldable pub http_head : HttpOrigin → Text → Option FetchResult
http_head o adapter_id =
    let req = http_request o (codes "HEAD") adapter_id config_name in
    if o.client.can_request req.method req.url
    then elim (o.client.send req) [
      | none ↦ none
      | some resp ↦
          if resp.status == 200
          then some (record {
            origin = codes "http";
            etag = get (codes "ETag") resp.headers;
            revision = [];
          })
          else none
    ]
    else none

unfoldable pub http_origin : HttpOrigin → ℕ → OriginFetcher
http_origin o now = record { name = codes "http"; fetch = http_fetch o now; head = http_head o }

unfoldable pub with_token : Text → Text → HttpRequest
with_token token url = record {
  method = codes "GET";
  url = url;
  headers =
      if is_empty token then [] else set (codes "Authorization") (codes "Bearer " ++ token) [];
  body = [];
}

-- `json.NewDecoder(body).Decode(info)` and the field `sha`; a body that breaks off cannot be decoded.
unfoldable pub repo_info : (Text → Option Text) → HuggingFaceOrigin → Text → Option Text
repo_info sha_of o adapter_id =
    let req = with_token o.token (o.base_url ++ codes "/api/models/" ++ adapter_id) in
    if o.client.can_request req.method req.url
    then elim (o.client.send req) [
      | none ↦ none
      | some resp ↦
          if resp.status == 200
          then elim (o.client.breaks req) [ none ↦ sha_of resp.body | some n ↦ none ]
          else none
    ]
    else none

unfoldable pub hf_loop :
    HuggingFaceOrigin → Text → Text → ℕ → List Text → Bool → Fs → Option Bool × Fs
hf_loop o adapter_id dest now [] fetched fs = (some fetched, fs)
hf_loop o adapter_id dest now (f ∷ files) fetched fs =
    let url = o.base_url ++ b'/' ∷ adapter_id ++ codes "/resolve/main/" ++ f in
    let (d, fs') = download o.client (with_token o.token url) (at (join dest f)) now fs in
    elim d [
      | failed ↦ (none, fs')
      | passed_over ↦ hf_loop o adapter_id dest now files fetched fs'
      | stored resp ↦ hf_loop o adapter_id dest now files true fs'
    ]

abbrev pub hf_result : Text → FetchResult
hf_result sha = record { origin = codes "huggingface"; etag = []; revision = sha }

unfoldable pub hf_fetch :
    (Text → Option Text) → HuggingFaceOrigin → ℕ → Text → Text → Fs → Option FetchResult × Fs
hf_fetch sha_of o now adapter_id dest fs = elim (repo_info sha_of o adapter_id) [
  | none ↦ (none, fs)
  | some sha ↦
      let (r, fs') = hf_loop o adapter_id dest now adapter_files false fs in
      elim r [ none ↦ (none, fs') | some fetched ↦ complete dest fetched (hf_result sha) fs' ]
]

unfoldable pub hf_head : (Text → Option Text) → HuggingFaceOrigin → Text → Option FetchResult
hf_head sha_of o adapter_id = elim (repo_info sha_of o adapter_id) [
  | none ↦ none
  | some sha ↦ some (hf_result sha)
]

unfoldable pub hugging_face_origin : (Text → Option Text) → HuggingFaceOrigin → ℕ → OriginFetcher
hugging_face_origin sha_of o now = record {
  name = codes "huggingface";
  fetch = hf_fetch sha_of o now;
  head = hf_head sha_of o;
}
