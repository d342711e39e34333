-- ===== src/Discovery/Modes.antt =====
-- internal/discovery/discovery.go: the interface `Discovery` and its three implementations.
use loraplex.Config.{DiscoveryConfig}
use loraplex.Discovery.{Base, on_change, new_static, start_static}
use loraplex.Discovery.Heartbeat
use loraplex.Discovery.Heartbeat.{TickTimes, File, new_file, tick}
use loraplex.Discovery.Kubernetes.{K8s, K8sSubset, new_k8s, fetch}
use loraplex.Go.Duration.{ℤ}
use loraplex.Go.Fs.{Fs}
use loraplex.Go.Http.{HttpClient}
use loraplex.Prelude.{
  if◌then◌else◌, some, Option, Result, str_eq, List, ok, Text, codes, [], none, err,
}

pub data Discovery (S : Type 0) : Type 0 where
  static : Base S → Discovery S
  by_file : File S → Discovery S
  by_k8s : K8s S → Discovery S

pub data DiscoveryError : Type 0 where
  bad_duration : DiscoveryError
  unknown_mode : Text → DiscoveryError
  io : DiscoveryError

-- A nil slice of peers is an empty one.
abbrev pub or_none : Option (List Text) → List Text
or_none none = []
or_none (some ps) = ps

module _ {S : Type 0} where
  unfoldable pub base_of : Discovery S → Base S
  base_of (static b) = b
  base_of (by_file f) = f.base
  base_of (by_k8s k) = k.base

  unfoldable pub with_base : Discovery S → Base S → Discovery S
  with_base (static b) b' = static b'
  with_base (by_file f) b' = by_file (record f { base = b' })
  with_base (by_k8s k) b' = by_k8s (record k { base = b' })

  unfoldable pub peers : Discovery S → List Text
  peers d = (base_of d).peers

  unfoldable pub subscribe : (List Text → S → S) → Discovery S → Discovery S
  subscribe fn d = with_base d (on_change fn (base_of d))

  -- `New`; what the implementations ask of the outside are parameters.
  unfoldable pub new :
      (Text → Option ℤ)
      → Text
      → HttpClient
      → Fs
      → DiscoveryConfig
      → Text
      → Result DiscoveryError (Discovery S)
  new parse_duration hostname client fs cfg self_addr =
      if str_eq cfg.mode (codes "static")
      then ok (static (new_static (or_none cfg.static.peers)))
      else if str_eq cfg.mode (codes "file")
      then elim (new_file parse_duration hostname cfg.file self_addr) [
        | none ↦ err bad_duration
        | some f ↦ ok (by_file f)
      ]
      else if str_eq cfg.mode (codes "k8s")
      then ok (by_k8s (new_k8s client cfg.k8s fs))
      else err (unknown_mode cfg.mode)

  -- `Start`, without the goroutine that it starts: the rounds of that are `poll`.
  unfoldable pub start : Discovery S → Fs → S → Option ((Discovery S × S) × Fs)
  start (static b) fs s = let (b', s') = start_static b s in some ((static b', s'), fs)
  start (by_file f) fs s = elim (Heartbeat.start f fs) [
    | none ↦ none
    | some fs' ↦ some ((by_file f, s), fs')
  ]
  start (by_k8s k) fs s = some ((by_k8s k, s), fs)

  -- One round of the loop that `Start` has begun; the static peers have none.
  unfoldable pub poll :
      (Text → Option (List K8sSubset)) → Discovery S → TickTimes → Fs → S → (Discovery S × S) × Fs
  poll decode (static b) now fs s = ((static b, s), fs)
  poll decode (by_file f) now fs s =
      let ((f', s'), fs') = tick f now fs s in ((by_file f', s'), fs')
  poll decode (by_k8s k) now fs s = let (k', s') = fetch decode k fs s in ((by_k8s k', s'), fs)
