-- ===== src/Go/Http.antt =====
-- The parts of `net/http` that the code uses: header maps, requests, responses, the client as a
-- parameter, and the response writer of a handler.
pub mod Headers
use loraplex.Go.Dict
use loraplex.Go.Dict.{Dict}
use loraplex.Prelude.{
  Bool, false, ◌∷◌, none, ◌==◌, ℕ, if◌then◌else◌, leb, Text, Option, codes, ◌+◌, ◌-◌, [], true,
  ◌||◌, List, ◌&&◌, ◌++◌, some,
}

abbrev pub Header : Type 0
Header = Dict (List Text)

unfoldable pub values : Text → Header → List Text
values k h = elim (Dict.lookup k h) [ none ↦ [] | some vs ↦ vs ]

unfoldable pub has_byte : ℕ → Text → Bool
has_byte c [] = false
has_byte c (d ∷ s) = c == d || has_byte c s

-- The bytes of a header name (RFC 7230 `token`).
unfoldable pub is_token : ℕ → Bool
is_token c =
    (leb b'a' c && leb c b'z')
    || (leb b'A' c && leb c b'Z')
    || (leb b'0' c && leb c b'9')
    || has_byte c (codes "!#$%&'*+-.^_`|~")

unfoldable pub all_tokens : Text → Bool
unfolding is_token has_byte
all_tokens [] = true
all_tokens (c ∷ s) = is_token c && all_tokens s

unfoldable pub recase_byte : Bool → ℕ → ℕ
recase_byte true c = if leb b'a' c && leb c b'z' then c - 32 else c
recase_byte false c = if leb b'A' c && leb c b'Z' then c + 32 else c

-- Letters become upper case at the start and after a dash, and lower case elsewhere.
unfoldable pub recase : Bool → Text → Text
recase upper [] = []
recase upper (c ∷ s) = recase_byte upper c ∷ recase (c == b'-') s

-- `textproto.CanonicalMIMEHeaderKey`: a name with any other byte is left as it is.
unfoldable pub canonical : Text → Text
unfolding all_tokens recase recase_byte
canonical k = if all_tokens k then recase true k else k

-- `h.Add(k, v)`, `h.Set(k, v)`, `h.Del(k)` and `h.Get(k)`
unfoldable pub add_value : Text → Text → Header → Header
add_value k v h = Dict.insert k (values k h ++ v ∷ []) h

unfoldable pub add : Text → Text → Header → Header
unfolding add_value
add k v h = add_value (canonical k) v h

unfoldable pub set : Text → Text → Header → Header
set k v h = Dict.insert (canonical k) (v ∷ []) h

unfoldable pub del : Text → Header → Header
del k h = Dict.delete (canonical k) h

unfoldable pub get : Text → Header → Text
get k h = elim (values (canonical k) h) [ [] ↦ [] | v ∷ vs ↦ v ]

-- `for k, vals := range src { for _, v := range vals { dst.Add(k, v) } }`
unfoldable pub add_values : Text → List Text → Header → Header
add_values k [] dst = dst
add_values k (v ∷ vs) dst = add_values k vs (add k v dst)

unfoldable pub add_all : Header → Header → Header
add_all [] dst = dst
add_all ((k, vals) ∷ src) dst = add_all src (add_values k vals dst)

pub record HttpRequest : Type 0 where
  pub method : Text
  pub url : Text
  pub headers : Header
  pub body : Text

pub record HttpResponse : Type 0 where
  pub status : ℕ
  pub headers : Header
  pub body : Text

-- `http.NewRequestWithContext` refuses a malformed method or URL; `Client.Do` gives a response or a
-- transport error (`none`). Both are the world's.
pub record HttpClient : Type 0 where
  pub can_request : Text → Text → Bool
  pub send : HttpRequest → Option HttpResponse

-- The response that a handler writes. The first `WriteHeader` counts.
pub record Writer : Type 0 where
  pub status : Option ℕ
  pub headers : Header
  pub body : Text

abbrev pub fresh_writer : Writer
fresh_writer = record { status = none; headers = []; body = [] }

unfoldable pub write_header : ℕ → Writer → Writer
write_header code w = elim w.status [ none ↦ record w { status = some code } | some _ ↦ w ]

-- A body written without a status is a 200.
unfoldable pub write : Text → Writer → Writer
unfolding write_header
write s w = let w' = write_header 200 w in record w' { body = w'.body ++ s }

-- `http.Error`
unfoldable pub http_error : ℕ → Text → Writer → Writer
unfolding write_header write set
http_error code text w = write (text ++ 10 ∷ []) (
    write_header code (record w {
      headers = set (codes "X-Content-Type-Options") (codes "nosniff") (
          set (codes "Content-Type") (codes "text/plain; charset=utf-8")
            (del (codes "Content-Length") w.headers));
    }))
