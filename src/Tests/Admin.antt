-- ===== src/Tests/Admin.antt =====
-- An eviction at the node at `c`, which is passed on to its two peers, and a warm-up.
use loraplex.Admin.{AdminJson, AdminRequest, Handler, evict, pass_on, warm_each}
use loraplex.Admin.Eviction.{received, evict_one_hop}
use loraplex.Admin.Warmup.{warm_each_answers}
use loraplex.Cache.Manager.Steps.{Leads}
use loraplex.Go.Http.{HttpRequest}
use loraplex.Tests.Confinement.{
  base, base-is_rooted, json, origin, origin-Confined, world, world-Inv,
}
use loraplex.Routing.Forwarder.{forward}
use loraplex.Routing.Ring.{peers, is_self}
use loraplex.Tests.Nodes.{program, at_c, a, b}
use loraplex.Prelude.{[], ◌≡◌, map, Text, some, All, codes, ℕ, ◌∷◌, refl}

abbrev codec : AdminJson ℕ
codec = record {
  decode_evict = λ s. some s;
  decode_warmup = λ s. some (s ∷ []);
  encode_evict = λ s. s;
  encode_evicted = λ s. s;
  encode_results = λ rs. [];
  encode_stats = λ s. s.dir;
  encode_peers = λ ps self n. self;
}

abbrev handler : Handler ℕ
handler = record { fwd = at_c; codec = codec; error_text = λ e. [] }

abbrev request : AdminRequest
request = record {
  method = codes "POST";
  path = codes "/admin/cache/evict";
  headers = [];
  body = codes "org/a";
}

evict_one_hop_example :
    All
      (λ (s : Text × HttpRequest). (evict handler (received s.1) world).sent ≡ [])
      (evict handler request world).sent
evict_one_hop_example = evict_one_hop handler handler world request world

warm_each_answers_example :
    let ids = codes "org/a" ∷ codes "../b" ∷ [] in
    Leads base world (warm_each handler json (origin ∷ []) 60 5 ids world).1
    × (map (λ x. x.0) (warm_each handler json (origin ∷ []) 60 5 ids world).0 ≡ ids)
warm_each_answers_example =
    warm_each_answers base base-is_rooted json (origin ∷ []) 60 5 (origin-Confined, tt) handler
      (codes "org/a" ∷ codes "../b" ∷ []) world world-Inv

passed_on : map (λ s. s.0) (pass_on handler (codes "org/a") (peers at_c.ring)) ≡ a ∷ b ∷ []
unfolding pass_on peers is_self forward program
passed_on = refl
