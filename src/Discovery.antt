-- ===== src/Discovery.antt =====
-- internal/discovery: how a node learns of its peers. `S` is the state that the callbacks change; for
-- the program it is the ring.
pub mod Heartbeat
pub mod Kubernetes
pub mod Modes
pub mod Following
use loraplex.Prelude.{Bool, [], ◌++◌, ◌∷◌, List, Text}

-- `Base`, whose callbacks run in the order in which they were given.
pub record Base (S : Type 0) : Type 0 where
  pub peers : List Text
  pub callbacks : List (List Text → S → S)

unfoldable pub on_change : {S : Type 0} → (List Text → S → S) → Base S → Base S
on_change fn b = record b { callbacks = b.callbacks ++ fn ∷ [] }

unfoldable pub call_each : {S : Type 0} → List (List Text → S → S) → List Text → S → S
call_each [] peers s = s
call_each (cb ∷ cbs) peers s = call_each cbs peers (cb peers s)

unfoldable pub set_peers : {S : Type 0} → List Text → Base S → S → Base S × S
set_peers peers b s = (record b { peers = peers }, call_each b.callbacks peers s)

-- static.go
unfoldable pub new_static : {S : Type 0} → List Text → Base S
new_static peers = record { peers = peers; callbacks = [] }

unfoldable pub start_static : {S : Type 0} → Base S → S → Base S × S
start_static b s = set_peers b.peers b s
