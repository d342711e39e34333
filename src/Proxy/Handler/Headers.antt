-- ===== src/Proxy/Handler/Headers.antt =====
-- The headers of the request that internal/proxy/proxy.go sends to vLLM.
use loraplex.Go.Http.{canonical, values, del, add_all}
use loraplex.Go.Http.Headers.{IsCanonical, values-set, values-del, values-add_all, values-nil}
use loraplex.Proxy.Body.{Request}
use loraplex.Proxy.Handler.{Proxy, vllm_request}
use loraplex.Routing.Forwarder.{header_forwarded}
use loraplex.Prelude.{arith, [], ◌≡◌, Text, codes, str_eq, if◌then◌else◌, ◌∷◌, refl}

abbrev content_type : Text
content_type = codes "Content-Type"

canonical-content_type : canonical content_type ≡ content_type
unfolding canonical
canonical-content_type = refl

canonical-header_forwarded : canonical header_forwarded ≡ header_forwarded
unfolding canonical
canonical-header_forwarded = refl

-- vLLM gets the client's headers, name by name, but for two: the mark of a forwarded request is taken
-- off, and the content type is JSON, whatever the client sent under these names. The client's header
-- names are canonical.
pub values-vllm_request :
    {F : Type 0} (p : Proxy F) (r : Request) (body name : Text)
    → IsCanonical r.headers
    → values name (vllm_request p r body).headers ≡ (
        if str_eq content_type name
        then codes "application/json" ∷ []
        else if str_eq header_forwarded name
        then []
        else values name r.headers)
unfolding vllm_request
values-vllm_request p r body name c = ground (
  arith,
  values-set content_type name (codes "application/json")
      (del header_forwarded (add_all r.headers [])),
  values-del header_forwarded name (add_all r.headers []),
  values-add_all r.headers [] name c,
  values-nil name,
  canonical-content_type,
  canonical-header_forwarded,
)
