-- ===== src/Discovery/Following.antt =====
-- internal/discovery: the subscriber's state and the peers that were discovered last.
use loraplex.Discovery.{Base, call_each, set_peers, new_static, start_static}
use loraplex.Discovery.Heartbeat
use loraplex.Config.{DiscoveryConfig, FileDiscovery}
use loraplex.Go.Duration.{ℤ}
use loraplex.Go.Http.{HttpClient}
use loraplex.Discovery.Heartbeat.{
  TickTimes, new_file, File, scan, scan_entries, tick, write_heartbeat,
}
use loraplex.Discovery.Kubernetes.{new_k8s, K8s, K8sSubset, endpoints, peers_of, fetch}
use loraplex.Discovery.Modes.{
  or_none, new, Discovery, static, by_file, by_k8s, base_of, peers, start, poll,
}
use loraplex.Go.Fs.{Fs, at}
use loraplex.Go.Fs.Dir.{read_dir}
use loraplex.Prelude.{
  Bool, ◌≡◌, List, Option-cases, ◌∷◌, some, inl, inr, Option, [], Text, ℕ, refl, false, true,
  str_eq, codes, Bool-cases, ok,
}

abbrev pub is_static : {S : Type 0} → Discovery S → Bool
is_static (static b) = true
is_static (by_file f) = false
is_static (by_k8s k) = false

-- `P peers s` is what the callback `cb` makes of its state; it is the one subscriber.
module _ {S : Type 0} (cb : List Text → S → S) (P : List Text → S → Type 0)
    (told : (ps : List Text) (s : S) → P ps (cb ps s)) where
  pub record Follows (b : Base S) (s : S) : Type 0 where
    pub only : b.callbacks ≡ cb ∷ []
    pub agrees : P b.peers s

  set_peers-Follows :
      (ps : List Text) (b : Base S) (s : S)
      → b.callbacks ≡ cb ∷ []
      → Follows (set_peers ps b s).0 (set_peers ps b s).1
  unfolding set_peers call_each
  set_peers-Follows ps b s only = record { only = only; agrees = rw only (told ps s) }

  scan-Follows :
      (f : File S) (now : ℕ) (fs : Fs) (s : S)
      → Follows f.base s
      → Follows (scan f now fs s).0.0.base (scan f now fs s).0.1
  unfolding scan
  scan-Follows f now fs s h = elim (Option-cases (read_dir (at f.dir) fs)) [
    | inl e ↦ rw (e, scan) h
    | inr (names, e) ↦
        rw (e, scan) (set_peers-Follows (scan_entries f.dir f.stale now names fs).0 f.base s h.only)
  ]

  fetch-Follows :
      (decode : Text → Option (List K8sSubset)) (k : K8s S) (fs : Fs) (s : S)
      → Follows k.base s
      → Follows (fetch decode k fs s).0.base (fetch decode k fs s).1
  unfolding fetch
  fetch-Follows decode k fs s h = elim (Option-cases (endpoints decode k fs)) [
    | inl e ↦ rw (e, fetch) h
    | inr (subsets, e) ↦ rw (e, fetch) (set_peers-Follows (peers_of subsets) k.base s h.only)
  ]

  pub poll-Follows :
      (decode : Text → Option (List K8sSubset)) (d : Discovery S) (t : TickTimes) (fs : Fs) (s : S)
      → Follows (base_of d) s
      → let r = poll decode d t fs s in Follows (base_of r.0.0) r.0.1
  unfolding poll base_of tick
  poll-Follows decode (static b) t fs s h = h
  poll-Follows decode (by_file f) t fs s h = scan-Follows f t.scanned (write_heartbeat f t fs) s h
  poll-Follows decode (by_k8s k) t fs s h = fetch-Follows decode k fs s h

  -- The static discovery tells its peers when it starts; the others have none then.
  pub start-Follows :
      (d : Discovery S) (fs : Fs) (s : S) (r : (Discovery S × S) × Fs)
      → (base_of d).callbacks ≡ cb ∷ []
      → (is_static d ≡ false → P (peers d) s)
      → start d fs s ≡ some r
      → Follows (base_of r.0.0) r.0.1
  unfolding start base_of peers start_static
  start-Follows (static b) fs s r only fits e =
      let same : ((static (set_peers b.peers b s).0, (set_peers b.peers b s).1), fs) ≡ r = cc in
      rw (← same) (set_peers-Follows b.peers b s only)
  start-Follows (by_file f) fs s r only fits e = elim (Option-cases (Heartbeat.start f fs)) [
    | inl refused ↦ cc (rw (refused, start) at e)
    | inr (fs', made) ↦
        let started : some ((by_file f, s), fs') ≡ some r = rw (made, start) at e in
        let same : ((by_file f, s), fs') ≡ r = cc in
        rw (← same) (record { only = only; agrees = fits refl })
  ]
  start-Follows (by_k8s k) fs s r only fits e =
      let same : ((by_k8s k, s), fs) ≡ r = cc in
      rw (← same) (record { only = only; agrees = fits refl })

module _ {S : Type 0} where
  new_file_fresh :
      (parse_duration : Text → Option ℤ) (hostname : Text) (cfg : FileDiscovery) (self_addr : Text)
      (f : File S)
      → new_file parse_duration hostname cfg self_addr ≡ some f
      → (f.base.callbacks ≡ []) × (f.base.peers ≡ [])
  unfolding new_file
  new_file_fresh parse_duration hostname cfg self_addr f e =
      elim (Option-cases (parse_duration cfg.heartbeat_interval)) [
        | inl bad ↦ cc (rw (bad, new_file) at e)
        | inr (hb, e1) ↦ elim (Option-cases (parse_duration cfg.stale_threshold)) [
          | inl bad ↦ cc (rw bad at (rw (e1, new_file) at e))
          | inr (st, e2) ↦ let made = rw e2 at (rw (e1, new_file) at e) in (cc made, cc made)
        ]
      ]

  -- A new discovery has no subscriber, and no peers unless they are static.
  abbrev pub IsNew : Discovery S → Type 0
  IsNew d = ((base_of d).callbacks ≡ []) × (is_static d ≡ false → peers d ≡ [])

  module _ (parse_duration : Text → Option ℤ) (hostname : Text) (client : HttpClient)
      (cfg : DiscoveryConfig) (self_addr : Text) where
    pub new-IsNew :
        (fs : Fs) (d : Discovery S)
        → new parse_duration hostname client fs cfg self_addr ≡ ok d
        → IsNew d
    unfolding new base_of peers new_static new_file new_k8s
    new-IsNew fs d e = elim (Bool-cases (str_eq cfg.mode (codes "static"))) [
      | inl m ↦
          let made : ok (static (new_static (or_none cfg.static.peers))) ≡ ok d =
            rw (m, new) at e in
          let same : static (new_static (or_none cfg.static.peers)) ≡ d = cc made in
          rw (← same) (refl, λ h. cc h)
      | inr m ↦ elim (Bool-cases (str_eq cfg.mode (codes "file"))) [
        | inl m2 ↦
            elim (Option-cases (new_file {S = S} parse_duration hostname cfg.file self_addr)) [
              | inl bad ↦ cc (rw bad at (rw m2 at (rw (m, new) at e)))
              | inr (f, made_file) ↦
                  let made : ok (by_file f) ≡ ok d =
                    rw made_file at (rw m2 at (rw (m, new) at e)) in
                  let same : by_file f ≡ d = cc made in
                  let (unheard, alone) =
                    new_file_fresh parse_duration hostname cfg.file self_addr f made_file in
                  rw (← same) (unheard, λ h. alone)
            ]
        | inr m2 ↦ elim (Bool-cases (str_eq cfg.mode (codes "k8s"))) [
          | inl m3 ↦
              let k : K8s S = new_k8s client cfg.k8s fs in
              let made : ok (by_k8s k) ≡ ok d = rw m3 at (rw m2 at (rw (m, new) at e)) in
              let same : by_k8s k ≡ d = cc made in rw (← same) (refl, λ h. refl)
          | inr m3 ↦ cc (rw m3 at (rw m2 at (rw (m, new) at e)))
        ]
      ]
    ]
