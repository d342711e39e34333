-- ===== src/Discovery/Kubernetes.antt =====
-- internal/discovery/k8s.go: the peers are the endpoints of a service. The ticker and the goroutine are
-- not modelled: a poll is a `fetch`. The certificates of the client are left out.
use loraplex.Config.{K8sDiscovery}
use loraplex.Discovery.{Base, set_peers}
use loraplex.Go.Decimal.{decimal}
use loraplex.Go.Fs.{FilePath, Fs, at, read_file}
use loraplex.Go.Http.{HttpClient, HttpRequest, set}
use loraplex.Prelude.{
  Bool, ◌||◌, List, some, false, ◌==◌, [], codes, str_eq, map, none, if◌then◌else◌, ◌++◌, is_empty,
  ◌∷◌, true, ℕ, Option, Text,
}

pub record K8s (S : Type 0) : Type 0 where
  pub base : Base S
  pub service : Text
  pub namespace : Text
  pub client : HttpClient
  pub stopped : Bool

-- `k8sEndpoints` and its parts; a port is a number in JSON, here one that is not negative.
pub record K8sPort : Type 0 where
  pub name : Text
  pub port : ℕ

pub record K8sSubset : Type 0 where
  pub addresses : List Text
  pub ports : List K8sPort

abbrev pub account_file : Text → FilePath
account_file name = at (codes "/var/run/secrets/kubernetes.io/serviceaccount/" ++ name)

unfoldable pub new_k8s : {S : Type 0} → HttpClient → K8sDiscovery → Fs → K8s S
new_k8s client cfg fs = record {
  base = record { peers = []; callbacks = [] };
  service = cfg.service;
  namespace =
      if is_empty cfg.namespace
      then elim (read_file (account_file (codes "namespace")) fs) [
        | none ↦ codes "default"
        | some ns ↦ ns
      ]
      else cfg.namespace;
  client = client;
  stopped = false;
}

unfoldable pub stop : {S : Type 0} → K8s S → K8s S
stop k = record k { stopped = true }

-- The loop over the ports, which breaks at the first that serves.
unfoldable pub port_of : List K8sPort → Text
port_of [] = codes "8080"
port_of (p ∷ ps) =
    let rest = port_of ps in
    if str_eq p.name (codes "http") || str_eq p.name (codes "loraplex")
    then decimal p.port
    else rest

unfoldable pub peers_of : List K8sSubset → List Text
peers_of [] = []
peers_of (s ∷ ss) = map (λ ip. ip ++ b':' ∷ port_of s.ports) s.addresses ++ peers_of ss

unfoldable pub endpoints_request : Text → Text → Text → HttpRequest
endpoints_request namespace service token = record {
  method = codes "GET";
  url =
      codes "https://kubernetes.default.svc/api/v1/namespaces/"
      ++ namespace
      ++ codes "/endpoints/"
      ++ service;
  headers = set (codes "Authorization") (codes "Bearer " ++ token) [];
  body = [];
}

-- The endpoints that the API gives, decoded by `decode`; `none` if anything fails.
unfoldable pub endpoints :
    {S : Type 0} → (Text → Option (List K8sSubset)) → K8s S → Fs → Option (List K8sSubset)
endpoints decode k fs = elim (read_file (account_file (codes "token")) fs) [
  | none ↦ none
  | some token ↦
      let req = endpoints_request k.namespace k.service token in
      if k.client.can_request req.method req.url
      then elim (k.client.send req) [
        | none ↦ none
        | some resp ↦ if resp.status == 200 then decode resp.body else none
      ]
      else none
]

-- An error is logged, and the peers stay as they are.
unfoldable pub fetch : {S : Type 0} → (Text → Option (List K8sSubset)) → K8s S → Fs → S → K8s S × S
fetch decode k fs s = elim (endpoints decode k fs) [
  | none ↦ (k, s)
  | some subsets ↦
      let (b, s') = set_peers (peers_of subsets) k.base s in (record k { base = b }, s')
]
