-- ===== src/Config.antt =====
-- internal/config/config.go and the flags of cmd/loraplex/main.go: the configuration, its defaults and its
-- checks. A nil slice of peers is `none`.
pub mod Size
pub mod Flags
pub mod Defaults
pub mod Load
use loraplex.Config.Size.{parse_size}
use loraplex.Go.Duration.{ℤ, pos, negsuc}
use loraplex.Prelude.{
  Bool, ◌∷◌, [], err, is_empty, reverse, suc, not, Option, if◌then◌else◌, codes, Result, none, some,
  ℕ, List, zero, strip_prefix, str_eq, Text, ok, false, ◌||◌, trim_suffix,
}

-- The float64 operations that the code makes on the threshold, and the literal 0.8.
pub record Threshold (F : Type 0) : Type 0 where
  pub is_zero : F → Bool
  pub below_zero : F → Bool
  pub above_one : F → Bool
  pub default_threshold : F

pub record StorageConfig : Type 0 where
  pub dir : Text
  pub max_size : Text

pub record OriginConfig : Type 0 where
  pub origin_type : Text
  pub bucket : Text
  pub region : Text
  pub prefix : Text
  pub token : Text
  pub base_url : Text

pub record InvalidationConfig : Type 0 where
  pub ttl : Text

pub record K8sDiscovery : Type 0 where
  pub service : Text
  pub namespace : Text

pub record FileDiscovery : Type 0 where
  pub dir : Text
  pub heartbeat_interval : Text
  pub stale_threshold : Text

pub record StaticDiscovery : Type 0 where
  pub peers : Option (List Text)

pub record DiscoveryConfig : Type 0 where
  pub mode : Text
  pub k8s : K8sDiscovery
  pub file : FileDiscovery
  pub static : StaticDiscovery

pub record RoutingConfig (F : Type 0) : Type 0 where
  pub hash_on : Text
  pub vnodes_per_peer : ℤ
  pub forward_timeout : Text
  pub overflow_threshold : F
  pub fallback_to_base_model : Bool

pub record VllmConfig : Type 0 where
  pub model_name : Text
  pub max_loras : ℤ
  pub max_lora_rank : ℤ
  pub health_check_interval : Text

pub record Config (F : Type 0) : Type 0 where
  pub listen : Text
  pub self_addr : Text
  pub vllm_url : Text
  pub storage : StorageConfig
  pub origins : List OriginConfig
  pub invalidation : InvalidationConfig
  pub discovery : DiscoveryConfig
  pub routing : RoutingConfig F
  pub vllm : VllmConfig

-- `if s == "" { s = d }`, `if n == 0 { n = d }` and `if ps == nil { ps = d }`
unfoldable pub or_text : Text → Text → Text
or_text d [] = d
or_text d (c ∷ s) = c ∷ s

unfoldable pub or_number : ℕ → ℤ → ℤ
or_number d (pos zero) = pos d
or_number d (pos (suc n)) = pos (suc n)
or_number d (negsuc n) = negsuc n

unfoldable pub or_peers : List Text → Option (List Text) → Option (List Text)
or_peers d none = some d
or_peers d (some ps) = some ps

module _ {F : Type 0} (th : Threshold F) where
  unfoldable pub or_threshold : F → F
  or_threshold x = if th.is_zero x then th.default_threshold else x

  unfoldable pub apply_defaults : Config F → Config F
  unfolding or_text or_number or_peers or_threshold
  apply_defaults cfg = record cfg {
    listen = or_text (codes ":8080") cfg.listen;
    vllm_url = or_text (codes "http://localhost:8000") cfg.vllm_url;
    storage = record {
      dir = or_text (codes "/mnt/nvme/loraplex") cfg.storage.dir;
      max_size = or_text (codes "100GB") cfg.storage.max_size;
    };
    invalidation = record { ttl = or_text (codes "1h") cfg.invalidation.ttl };
    discovery = record {
      mode = or_text (codes "static") cfg.discovery.mode;
      k8s = cfg.discovery.k8s;
      file = record {
        dir = cfg.discovery.file.dir;
        heartbeat_interval = or_text (codes "5s") cfg.discovery.file.heartbeat_interval;
        stale_threshold = or_text (codes "15s") cfg.discovery.file.stale_threshold;
      };
      static = record { peers = or_peers (codes "localhost:8080" ∷ []) cfg.discovery.static.peers };
    };
    routing = record {
      hash_on = or_text (codes "model") cfg.routing.hash_on;
      vnodes_per_peer = or_number 150 cfg.routing.vnodes_per_peer;
      forward_timeout = or_text (codes "5s") cfg.routing.forward_timeout;
      overflow_threshold = or_threshold cfg.routing.overflow_threshold;
      fallback_to_base_model = cfg.routing.fallback_to_base_model;
    };
    vllm = record {
      model_name = cfg.vllm.model_name;
      max_loras = or_number 200 cfg.vllm.max_loras;
      max_lora_rank = or_number 64 cfg.vllm.max_lora_rank;
      health_check_interval = or_text (codes "10s") cfg.vllm.health_check_interval;
    };
  }

pub data ConfigError : Type 0 where
  invalid_max_size : ConfigError
  invalid_ttl : ConfigError
  invalid_forward_timeout : ConfigError
  unknown_discovery_mode : ConfigError
  threshold_out_of_range : ConfigError
  empty_header_name : ConfigError
  invalid_hash_on : ConfigError

unfoldable pub validate_hash_on : Text → Result ConfigError (Unit {0})
unfolding trim_suffix
validate_hash_on hash_on =
    if str_eq hash_on (codes "model")
      || str_eq hash_on (codes "tenant")
      || str_eq hash_on (codes "tenant/model")
    then ok tt
    else elim (strip_prefix (codes "header:") hash_on) [
      | none ↦ err invalid_hash_on
      | some name ↦
          if is_empty (trim_suffix (codes "/model") name) then err empty_header_name else ok tt
    ]

-- `time.ParseDuration(s)` gives no error
module _ (is_duration : Text → Bool) {F : Type 0} (th : Threshold F) where
  unfoldable pub validate : Config F → Result ConfigError (Unit {0})
  unfolding validate_hash_on
  validate cfg = elim (parse_size cfg.storage.max_size) [
    | none ↦ err invalid_max_size
    | some _ ↦
        if not (is_duration cfg.invalidation.ttl)
        then err invalid_ttl
        else if not (is_duration cfg.routing.forward_timeout)
        then err invalid_forward_timeout
        else if not (
            str_eq cfg.discovery.mode (codes "static")
            || str_eq cfg.discovery.mode (codes "file")
            || str_eq cfg.discovery.mode (codes "k8s"))
        then err unknown_discovery_mode
        else if th.below_zero cfg.routing.overflow_threshold
            || th.above_one cfg.routing.overflow_threshold
        then err threshold_out_of_range
        else validate_hash_on cfg.routing.hash_on
  ]

-- The zero value of the struct, with a zero threshold.
unfoldable pub zero_config : {F : Type 0} → F → Config F
zero_config z = record {
  listen = [];
  self_addr = [];
  vllm_url = [];
  storage = record { dir = []; max_size = [] };
  origins = [];
  invalidation = record { ttl = [] };
  discovery = record {
    mode = [];
    k8s = record { service = []; namespace = [] };
    file = record { dir = []; heartbeat_interval = []; stale_threshold = [] };
    static = record { peers = none };
  };
  routing = record {
    hash_on = [];
    vnodes_per_peer = pos 0;
    forward_timeout = [];
    overflow_threshold = z;
    fallback_to_base_model = false;
  };
  vllm = record {
    model_name = [];
    max_loras = pos 0;
    max_lora_rank = pos 0;
    health_check_interval = [];
  };
}

unfoldable pub default_config : {F : Type 0} → Threshold F → F → Config F
unfolding apply_defaults zero_config
default_config th z = apply_defaults th (zero_config z)
