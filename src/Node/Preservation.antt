-- ===== src/Node/Preservation.antt =====
-- The steps of a node keep its invariant, one by one.
use loraplex.Cache.Manager.{elem, maybe_revalidate}
use loraplex.Cache.Manager.Confinement.{ensure_adapter-Leads, revalidate_adapter-Leads}
use loraplex.Cache.Manager.Installing.{Confined, accepted-InBase}
use loraplex.Cache.Manager.Steps.{InBase, Inv, Leads}
use loraplex.Cache.Store.{validate_adapter_id}
use loraplex.Cache.Meta.{AdapterMeta}
use loraplex.Discovery.Heartbeat.{TickTimes}
use loraplex.Discovery.Following.{poll-Follows}
use loraplex.Go.Int64.{add64, neg64}
use loraplex.Go.Path.{is_rooted}
use loraplex.Health.{Checker, incr_pending, decr_pending, check_vllm, check_peers}
use loraplex.Health.Peers.{check_each-SamePeers}
use loraplex.Node.{World, Platform, Settings, Node, proxy_of, admin_of}
use loraplex.Node.Handlers.{serve_http-Leads, serve_admin-Leads}
use loraplex.Node.Step.{
  arrive, answer, finish, administer, admin_request, poll, check, expired, revalidate, Step,
  arrives, finishes, administers, polls, checks, expires, revalidates,
}
use loraplex.Proxy.Body.{Request}
use loraplex.Routing.Ring.{peers}
use loraplex.Prelude.{
  ◌∷◌, ◌%◌, map, length, List, Text, [], ◌≡◌, All, false, ◌^◌, some, ap, arith, ℕ, ◌++◌, refl, ok,
  true, suc, ◌∙◌, All-of_append, All-append, subst,
}
use loraplex.Node.Invariant.{AllApart, InStep, renew, renew-InStep, Sound}

elem-without :
    (k : Text) (xs : List (Text × AdapterMeta)) (x : Text × AdapterMeta)
    (ys : List (Text × AdapterMeta))
    → elem k (map (λ e. e.0) (xs ++ x ∷ ys)) ≡ false
    → elem k (map (λ e. e.0) (xs ++ ys)) ≡ false
unfolding elem
elem-without k [] x ys h = ground arith
elem-without k (y ∷ xs) x ys h = ground (arith, elem-without k xs x ys)

apart_without :
    (xs : List (Text × AdapterMeta)) (x : Text × AdapterMeta) (ys : List (Text × AdapterMeta))
    → AllApart (xs ++ x ∷ ys)
    → AllApart (xs ++ ys)
apart_without [] x ys h = h.1
apart_without (y ∷ xs) x ys (hy, h) = (elem-without y.0 xs x ys hy, apart_without xs x ys h)

-- A run starts only if there is none for the adapter.
not_running :
    {F : Type 0} (pf : Platform F) (n : Node F) (id : Text) (old : AdapterMeta) (now : ℕ)
    → expired pf n id now ≡ some old
    → elem id (map (λ e. e.0) n.revalidating) ≡ false
unfolding expired maybe_revalidate
not_running pf n id old now e = ground arith

module _ {F : Type 0} (pf : Platform F) (base : Text) (st : Settings F) where
  abbrev pub Good : Node F → Type 0
  Good = Sound pf base st

  pending_up : (k : ℕ) → add64 (k % 2 ^ 64) 1 ≡ suc k % 2 ^ 64
  unfolding add64
  pending_up k = omega arith

  pending_down : (k : ℕ) → add64 (suc k % 2 ^ 64) (neg64 1) ≡ k % 2 ^ 64
  unfolding add64 neg64
  pending_down k = omega arith

  -- A new state of the cache.
  moved : (n : Node F) (w : World) → Good n → Inv base w → Good (record n { world = w })
  moved n w h i = record {
    settled = h.settled;
    stored = i;
    follows = h.follows;
    pending = h.pending;
    inside = h.inside;
    apart = h.apart;
  }

  arrive-Sound : (n : Node F) (r : Request) → Good n → Good (arrive pf n r)
  unfolding arrive incr_pending
  arrive-Sound n r h = record {
    settled = h.settled;
    stored = h.stored;
    follows = h.follows;
    pending = rw h.pending (pending_up (length n.in_flight));
    inside = h.inside;
    apart = h.apart;
  }

  length-without :
      {A : Type 0} (xs ys : List A) (x : A) → length (xs ++ x ∷ ys) ≡ suc (length (xs ++ ys))
  length-without [] ys x = refl
  length-without (y ∷ xs) ys x = ap suc (length-without xs ys x)

  module _ (rooted : is_rooted base ≡ true)
      (confined : (now : ℕ) → All Confined (st.origins now)) where
    origins-Confined : (n : Node F) → Good n → (now : ℕ) → All Confined (n.settings.origins now)
    origins-Confined n h now = rw h.settled (confined now)

    pub answer-Leads :
        (n : Node F) (r : Request) (now : ℕ) → Good n → Leads base n.world (answer pf n r now).world
    unfolding answer proxy_of
    answer-Leads n r now h =
        serve_http-Leads base (proxy_of pf n now) r
          (λ id w i.
            ensure_adapter-Leads base rooted pf.meta_json (n.settings.origins now) n.settings.ttl
              now (origins-Confined n h now) id w i)
          pf.sha pf.geb pf.body_json n.world h.stored

    finish-Sound :
        (n : Node F) (xs ys : List Request) (r : Request) (now : ℕ)
        → n.in_flight ≡ xs ++ r ∷ ys
        → Good n
        → Good (finish pf n (xs ++ ys) r now)
    unfolding finish decr_pending
    finish-Sound n xs ys r now e h = record {
      settled = h.settled;
      stored = (answer-Leads n r now h).inv;
      follows = h.follows;
      pending = rw (h.pending, e, length-without xs ys r) (pending_down (length (xs ++ ys)));
      inside = h.inside;
      apart = h.apart;
    }

    pub administer-Leads :
        (n : Node F) (r : Request) (now : ℕ)
        → Good n
        → Leads base n.world (administer pf n r now).world
    unfolding administer
    administer-Leads n r now h =
        serve_admin-Leads base rooted (admin_of pf n) pf.meta_json (n.settings.origins now)
          n.settings.ttl now (origins-Confined n h now) (admin_request pf r) n.world h.stored

    administer-Sound : (n : Node F) (r : Request) (now : ℕ) → Good n → Good (administer pf n r now)
    unfolding administer
    administer-Sound n r now h =
        moved n (administer pf n r now).world h (administer-Leads n r now h).inv

    poll-Sound : (n : Node F) (times : TickTimes) → Good n → Good (poll pf n times)
    unfolding poll
    poll-Sound n times h = record {
      settled = h.settled;
      stored = record {
        same_base = h.stored.same_base;
        lru_valid = h.stored.lru_valid;
        listed = h.stored.listed;
      };
      follows =
          poll-Follows (renew pf) InStep (renew-InStep pf) pf.decode_endpoints n.discovery times
            n.world.fs n.ring h.follows;
      pending = h.pending;
      inside = h.inside;
      apart = h.apart;
    }

    check-Sound : (n : Node F) → Good n → Good (check pf n)
    unfolding check check_peers
    check-Sound n h =
        let still =
          check_each-SamePeers pf.loads pf.health_client n.checker.self_addr (peers n.ring) n.ring
            h.follows.agrees.well_formed in
        record {
          settled = h.settled;
          stored = h.stored;
          follows = record {
            only = h.follows.only;
            agrees = record {
              well_formed = still.well_formed;
              same = λ addr. still.same addr ∙ h.follows.agrees.same addr;
            };
          };
          pending = rw (same_pending n.checker) h.pending;
          inside = h.inside;
          apart = h.apart;
        }
      where
        same_pending :
            (c : Checker) → (check_vllm pf.health_client c).pending_count ≡ c.pending_count
        same_pending c = unfold check_vllm in ground arith

    expire-Sound :
        (n : Node F) (id : Text) (old : AdapterMeta) (now : ℕ)
        → validate_adapter_id n.world.store id ≡ ok tt
        → expired pf n id now ≡ some old
        → Good n
        → Good (record n { revalidating = (id, old) ∷ n.revalidating })
    expire-Sound n id old now accepted e h = record {
      settled = h.settled;
      stored = h.stored;
      follows = h.follows;
      pending = h.pending;
      inside = (accepted-InBase base rooted n.world id h.stored accepted, h.inside);
      apart = (not_running pf n id old now e, h.apart);
    }

    pub revalidate-Leads :
        (n : Node F) (others : List (Text × AdapterMeta)) (id : Text) (old : AdapterMeta) (now : ℕ)
        → InBase base id
        → Good n
        → Leads base n.world (revalidate pf n others id old now).world
    unfolding revalidate
    revalidate-Leads n others id old now hid h =
        revalidate_adapter-Leads base rooted pf.meta_json (n.settings.origins now) n.settings.ttl
          now (origins-Confined n h now) id old n.world h.stored hid

    revalidate-Sound :
        (n : Node F) (xs ys : List (Text × AdapterMeta)) (id : Text) (old : AdapterMeta) (now : ℕ)
        → n.revalidating ≡ xs ++ (id, old) ∷ ys
        → Good n
        → Good (revalidate pf n (xs ++ ys) id old now)
    unfolding revalidate
    revalidate-Sound n xs ys id old now e h =
        let runs = subst (All (λ (e : Text × AdapterMeta). InBase base e.0)) e h.inside in
        let (before, (hid, after)) =
          All-of_append (λ (e : Text × AdapterMeta). InBase base e.0) xs ((id, old) ∷ ys) runs in
        record {
          settled = h.settled;
          stored = (revalidate-Leads n (xs ++ ys) id old now hid h).inv;
          follows = h.follows;
          pending = h.pending;
          inside = All-append (λ (e : Text × AdapterMeta). InBase base e.0) xs ys before after;
          apart = apart_without xs (id, old) ys (subst AllApart e h.apart);
        }

    pub Step-Sound : (n m : Node F) → Step pf n m → Good n → Good m
    Step-Sound n m (arrives r e) h = arrive-Sound n r h
    Step-Sound n m (finishes xs ys r now e) h = finish-Sound n xs ys r now e h
    Step-Sound n m (administers r now e) h = administer-Sound n r now h
    Step-Sound n m (polls now) h = poll-Sound n now h
    Step-Sound n m checks h = check-Sound n h
    Step-Sound n m (expires id old now accepted e) h = expire-Sound n id old now accepted e h
    Step-Sound n m (revalidates xs ys id old now e) h = revalidate-Sound n xs ys id old now e h
