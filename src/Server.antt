-- ===== src/Server.antt =====
-- internal/server/server.go: which handler of `New`'s mux a request goes to. `http.ServeMux` matches the
-- longest pattern; a path that is not clean, and that of a subtree without its slash, is answered by a
-- redirection. The handlers themselves are called in Node.
use loraplex.Go.Path.{clean, slash}
use loraplex.Prelude.{
  ◌∷◌, [], Text, if◌then◌else◌, ◌++◌, has_suffix, ◌&&◌, not, has_prefix, str_eq, codes, ◌==◌,
}

pub data Route : Type 0 where
  to_health : Route
  to_metrics : Route
  to_admin : Route
  to_proxy : Route
  redirected : Text → Route

-- `cleanPath` of net/http: the path is absolute, clean, and keeps a slash at its end.
unfoldable pub rooted_path : Text → Text
rooted_path [] = slash ∷ []
rooted_path (c ∷ p) = if c == slash then c ∷ p else slash ∷ c ∷ p

unfoldable pub clean_path : Text → Text
clean_path path =
    let p = rooted_path path in
    let np = clean p in
    if has_suffix (slash ∷ []) p && not (str_eq np (slash ∷ [])) then np ++ slash ∷ [] else np

-- The pattern that a clean path matches.
unfoldable pub pattern_of : Text → Route
pattern_of p =
    if str_eq p (codes "/healthz")
    then to_health
    else if str_eq p (codes "/metrics")
    then to_metrics
    else if has_prefix (codes "/admin/") p
    then to_admin
    else to_proxy

-- The path of a CONNECT request is taken as it is.
unfoldable pub route : Text → Text → Route
route method path =
    let p = if str_eq method (codes "CONNECT") then path else clean_path path in
    if str_eq p (codes "/admin")
    then redirected (codes "/admin/")
    else if str_eq p path
    then pattern_of p
    else redirected p
