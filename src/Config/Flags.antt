-- ===== src/Config/Flags.antt =====
-- cmd/loraplex/main.go: the flags that override the configuration, and the list of peers in one.
pub mod Peers
use loraplex.Config.{
  Config, Threshold, StorageConfig, InvalidationConfig, DiscoveryConfig, FileDiscovery,
  StaticDiscovery, RoutingConfig, VllmConfig, or_text, or_number, or_peers, or_threshold,
  ConfigError, validate,
}
use loraplex.Prelude.{
  Bool, codes, Option, some, ◌++◌, is_empty, List, [], none, if◌then◌else◌, Text, ◌∷◌, ◌==◌,
}

-- The loop of `splitPeers`; `p` is `s[start:i]`.
unfoldable pub split_peers_from : Text → List Text → Text → List Text
split_peers_from p result [] = if is_empty p then result else result ++ p ∷ []
split_peers_from p result (c ∷ s) =
    let one = split_peers_from [] (if is_empty p then result else result ++ p ∷ []) s in
    let more = split_peers_from (p ++ c ∷ []) result s in if c == b',' then one else more

unfoldable pub split_peers : Text → List Text
unfolding split_peers_from
split_peers s = split_peers_from [] [] s

-- The slice starts nil, and `append` makes it non-nil.
unfoldable pub nilable : List Text → Option (List Text)
nilable [] = none
nilable (p ∷ ps) = some (p ∷ ps)

pub record Flags : Type 0 where
  pub listen : Text
  pub self_addr : Text
  pub vllm_url : Text
  pub dir : Text
  pub discovery_mode : Text
  pub peers : Text

abbrev pub no_flags : Flags
no_flags = record {
  listen = [];
  self_addr = [];
  vllm_url = [];
  dir = [];
  discovery_mode = [];
  peers = [];
}

-- `if flag != "" { s = flag }`
unfoldable pub override : Text → Text → Text
override [] s = s
override (c ∷ flag) s = c ∷ flag

unfoldable pub override_peers : Text → Option (List Text) → Option (List Text)
unfolding split_peers nilable
override_peers [] ps = ps
override_peers (c ∷ flag) ps = nilable (split_peers (c ∷ flag))

module _ {F : Type 0} (th : Threshold F) where
  unfoldable pub apply_overrides : Config F → Flags → Config F
  unfolding override override_peers or_text or_number or_peers or_threshold
  apply_overrides cfg f =
      let listen = or_text (codes ":8080") (override f.listen cfg.listen) in
      record cfg {
        self_addr = override f.self_addr cfg.self_addr;
        listen = listen;
        vllm_url = or_text (codes "http://localhost:8000") (override f.vllm_url cfg.vllm_url);
        storage = record {
          dir = or_text (codes "/mnt/nvme/loraplex") (override f.dir cfg.storage.dir);
          max_size = or_text (codes "100GB") cfg.storage.max_size;
        };
        discovery = record {
          mode = or_text (codes "static") (override f.discovery_mode cfg.discovery.mode);
          k8s = cfg.discovery.k8s;
          file = record {
            dir = cfg.discovery.file.dir;
            heartbeat_interval = or_text (codes "5s") cfg.discovery.file.heartbeat_interval;
            stale_threshold = or_text (codes "15s") cfg.discovery.file.stale_threshold;
          };
          static = record {
            peers = or_peers (listen ∷ []) (override_peers f.peers cfg.discovery.static.peers);
          };
        };
        routing = record {
          hash_on = or_text (codes "model") cfg.routing.hash_on;
          vnodes_per_peer = or_number 150 cfg.routing.vnodes_per_peer;
          forward_timeout = or_text (codes "5s") cfg.routing.forward_timeout;
          overflow_threshold = or_threshold th cfg.routing.overflow_threshold;
          fallback_to_base_model = cfg.routing.fallback_to_base_model;
        };
        invalidation = record { ttl = or_text (codes "1h") cfg.invalidation.ttl };
        vllm = record {
          model_name = cfg.vllm.model_name;
          max_loras = cfg.vllm.max_loras;
          max_lora_rank = cfg.vllm.max_lora_rank;
          health_check_interval = or_text (codes "10s") cfg.vllm.health_check_interval;
        };
      }
