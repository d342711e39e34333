-- ===== src/Routing/Forwarder.antt =====
-- internal/routing/forwarder.go: whether to serve a request here, and sending it to a peer.
pub mod Decision
pub mod Sending
pub mod Relaying
use loraplex.Go.Bytes.{Sha256}
use loraplex.Go.Http.{
  Header, HttpRequest, HttpResponse, HttpClient, Writer, set, add_all, write_header, write,
}
use loraplex.Prelude.{
  Bool, Text, List, Option, [], if◌then◌else◌, ◌∷◌, codes, none, ◌++◌, false, err, ok, Result, true,
  some,
}
use loraplex.Routing.Ring.{Peer, Ring, owner, fallback, is_self}

abbrev pub header_forwarded : Text
header_forwarded = codes "X-Loraplex-Forwarded"

-- The comparison `a >= b` of float64, which the code makes once.
pub record Forwarder (F : Type 0) : Type 0 where
  pub client : HttpClient
  pub ring : Ring F
  pub threshold : F

pub record RouteDecision (F : Type 0) : Type 0 where
  pub handle_locally : Bool
  pub forward_to : Option (Peer F)
  pub overflow : Bool

module _ (sha : Sha256) {F : Type 0} (geb : F → F → Bool) where
  unfoldable pub decide_owner : Forwarder F → Option (Peer F) → RouteDecision F
  decide_owner f none = record { handle_locally = true; forward_to = none; overflow = false }
  decide_owner f (some o) =
      if is_self f.ring (some o)
      then record { handle_locally = true; forward_to = none; overflow = false }
      else if geb o.load f.threshold
      then record { handle_locally = true; forward_to = none; overflow = true }
      else record { handle_locally = false; forward_to = some o; overflow = false }

  unfoldable pub decide : Forwarder F → Text → Bool → RouteDecision F
  unfolding decide_owner
  decide f hash_key is_forwarded =
      if is_forwarded
      then record { handle_locally = true; forward_to = none; overflow = false }
      else decide_owner f (owner sha f.ring hash_key)

pub data ForwardError : Type 0 where
  bad_request : ForwardError
  send_failed : Text → ForwardError
  no_peer : ForwardError
  no_remote_fallback : Text → ForwardError

-- The request that `Forward` builds for a peer.
unfoldable pub forward_request : Text → Text → Text → Text → Header → HttpRequest
forward_request addr method path body headers = record {
  method = method;
  url = codes "http://" ++ addr ++ path;
  headers = set header_forwarded (codes "true") (add_all headers []);
  body = body;
}

-- What is sent to whom, in order, stands beside the result.
abbrev pub Sent : Type 0
Sent = List (Text × HttpRequest)

module _ {F : Type 0} where
  unfoldable pub forward :
      Forwarder F → Peer F → Text → Text → Text → Header → Result ForwardError HttpResponse × Sent
  forward f peer method path body headers =
      let req = forward_request peer.addr method path body headers in
      if f.client.can_request method req.url
      then (
        elim (f.client.send req) [ none ↦ err (send_failed peer.addr) | some resp ↦ ok resp ],
        (peer.addr, req) ∷ [],
      )
      else (err bad_request, [])

  -- The part of `ForwardWithFallback` after the owner's answer.
  unfoldable pub retry :
      Sha256
      → Forwarder F
      → Text
      → Peer F
      → Text
      → Text
      → Text
      → Header
      → Result ForwardError HttpResponse × Sent
      → Result ForwardError HttpResponse × Sent
  retry sha f hash_key o method path body headers (ok resp, sent) = (ok resp, sent)
  retry sha f hash_key o method path body headers (err e, sent) =
      let next = fallback sha f.ring hash_key o.addr in
      elim next [
        | none ↦ (err (no_remote_fallback o.addr), sent)
        | some p ↦
            if is_self f.ring (some p)
            then (err (no_remote_fallback o.addr), sent)
            else (let (result, more) = forward f p method path body headers in
                (result, sent ++ more))
      ]

  unfoldable pub forward_with_fallback :
      Sha256
      → Forwarder F
      → Text
      → Text
      → Text
      → Text
      → Header
      → Result ForwardError HttpResponse × Sent
  unfolding retry
  forward_with_fallback sha f hash_key method path body headers = elim (owner sha f.ring hash_key) [
    | none ↦ (err no_peer, [])
    | some o ↦
        retry sha f hash_key o method path body headers (forward f o method path body headers)
  ]

unfoldable pub copy_response : Writer → HttpResponse → Writer
copy_response w resp =
    write resp.body
      (write_header resp.status (record w { headers = add_all resp.headers w.headers }))
