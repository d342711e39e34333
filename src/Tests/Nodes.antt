-- ===== src/Tests/Nodes.antt =====
-- Nodes for the tests: rings of two peers, with a digest that is the text itself, and a forwarder.
use loraplex.Go.Bytes.{put_uint32, be_uint32, Sha256, IsByte}
use loraplex.Go.Dict
use loraplex.Go.Http.{HttpClient}
use loraplex.Go.Search.{search}
use loraplex.Go.Sort
use loraplex.Go.Sort.{Sorter, insertion_sort, by_insertion}
use loraplex.Prelude.{
  ℕ, map, ◌%◌, ◌≡◌, [], arith, refl, codes, All, Text, ◌∷◌, some, none, true, leb, Bool,
  if◌then◌else◌, str_eq, has_prefix,
}
use loraplex.Routing.Ring.{
  Peer, Ring, vnode_hash, hash_string, update, owner, fallback, is_self, add_peers, add_vnodes,
  hash_key, at_least,
}
use loraplex.Routing.Ring.Placement.{WellFormed, update-WellFormed}
use loraplex.Routing.Forwarder.{Forwarder}

pub All-bytes : (s : Text) → All IsByte (map (λ b. b % 256) s)
All-bytes [] = tt
All-bytes (b ∷ s) = (omega arith, All-bytes s)

abbrev pub sha : Sha256
sha = record { sum = map (λ b. b % 256); sum-All_bytes = All-bytes }

abbrev pub sorter : Sorter vnode_hash
sorter = by_insertion vnode_hash

abbrev pub a : Text
a = codes "10.0.0.1:90"

abbrev pub b : Text
b = codes "20.0.0.1:90"

abbrev pub c : Text
c = codes "30.0.0.1:90"

abbrev pub empty : Ring ℕ
empty = record { vnodes = []; peers = []; vnodes_per_peer = 1; self = a }

unfoldable pub program : Unit {0}
unfolding update add_peers add_vnodes hash_key insertion_sort Sort.insert Dict.insert Dict.lookup
    be_uint32 owner fallback is_self search at_least hash_string put_uint32 str_eq
program = tt

abbrev pub two : Ring ℕ
two = update sha sorter 0 (a ∷ b ∷ []) empty

abbrev pub other_two : Ring ℕ
other_two = update sha sorter 0 (b ∷ a ∷ []) (record empty { self = b })

abbrev pub key : Text
key = codes "1zzz"

abbrev pub peer_a : Peer ℕ
peer_a = record { addr = a; load = 0 }

abbrev pub peer_b : Peer ℕ
peer_b = record { addr = b; load = 0 }

pub two-owner : owner sha two key ≡ some peer_b
unfolding program
two-owner = refl

pub two-WellFormed : WellFormed two
two-WellFormed = update-WellFormed sha sorter 0 (a ∷ b ∷ []) empty

abbrev pub leb_load : ℕ → ℕ → Bool
leb_load x y = leb y x

-- The peer at `b` does not answer; any other gives a 200.
abbrev pub client : HttpClient
client = record {
  can_request = λ method url. true;
  send = λ req.
      if has_prefix (codes "http://2") req.url
      then none
      else some (record { status = 200; headers = []; body = req.url });
}

abbrev pub at_c : Forwarder ℕ
at_c = record {
  client = client;
  ring = update sha sorter 0 (a ∷ b ∷ []) (record empty { self = c });
  threshold = 8;
}

pub at_c-WellFormed : WellFormed at_c.ring
at_c-WellFormed = update-WellFormed sha sorter 0 (a ∷ b ∷ []) (record empty { self = c })

pub at_c-owner : owner sha at_c.ring key ≡ some peer_b
unfolding program
at_c-owner = refl

abbrev pub get_method : Text
get_method = codes "POST"

abbrev pub path : Text
path = codes "/v1/chat"
