-- ===== src/Config/Load.antt =====
-- `Load` of internal/config/config.go, and how `main` of cmd/loraplex/main.go comes to its configuration.
pub mod Flagged
use loraplex.Config.{Config, Threshold, ConfigError, apply_defaults, validate, default_config}
use loraplex.Config.Flags.{Flags, apply_overrides}
use loraplex.Go.Expand.{expand_env}
use loraplex.Go.Fs.{Fs, at, read_file}
use loraplex.Prelude.{Text, ok, Result, ◌>>=◌, [], ◌>>◌, Bool, ◌∷◌, or_fail, relabel, Option}

pub data LoadError : Type 0 where
  unreadable : LoadError
  unparsable : LoadError
  invalid : ConfigError → LoadError

-- What the program takes from the YAML library, from package `time` and from the environment, and the zero threshold.
pub record Sources (F : Type 0) : Type 0 where
  pub unmarshal : Text → Option (Config F)
  pub is_duration : Text → Bool
  pub env : Text → Text
  pub th : Threshold F
  pub zero_threshold : F

module _ {F : Type 0} (src : Sources F) where
  -- `validate`, and what it has accepted.
  unfoldable pub checked : Config F → Result LoadError (Config F)
  checked cfg = do accepted ← relabel invalid (validate src.is_duration src.th cfg); ok cfg

  unfoldable pub load : Text → Fs → Result LoadError (Config F)
  load path fs = do
    content ← or_fail unreadable (read_file (at path) fs)
    cfg ← or_fail unparsable (src.unmarshal (expand_env src.env content))
    checked (apply_defaults src.th cfg)

  unfoldable pub load_config : Text → Fs → Result LoadError (Config F)
  load_config [] fs = ok (default_config src.th src.zero_threshold)
  load_config (c ∷ path) fs = load (c ∷ path) fs

  -- The configuration with which `main` calls `run`.
  unfoldable pub configure : Text → Flags → Fs → Result LoadError (Config F)
  configure path flags fs = do cfg ← load_config path fs; checked (apply_overrides src.th cfg flags)
