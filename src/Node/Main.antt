-- ===== src/Node/Main.antt =====
-- `main` of cmd/loraplex/main.go: the configuration, the flags, and then `run`.
pub mod Refusals
use loraplex.Config.{Config, Threshold}
use loraplex.Config.Flags.{Flags}
use loraplex.Config.Load.{LoadError, Sources, configure}
use loraplex.Go.Fs.{Fs}
use loraplex.Node.{ℤ, Platform, Node}
use loraplex.Node.Boot.{BootError, boot}
use loraplex.Prelude.{Text, ◌>>◌, some, ◌>>=◌, Option, true, Result, relabel, false, none, ℕ, Bool}

pub data MainError : Type 0 where
  not_configured : LoadError → MainError
  not_running : BootError → MainError

-- `time.ParseDuration` with its error only
abbrev pub parses : (Text → Option ℤ) → Text → Bool
parses parse_duration s = elim (parse_duration s) [ none ↦ false | some d ↦ true ]

module _ {F : Type 0} (pf : Platform F) (unmarshal : Text → Option (Config F)) (env : Text → Text)
    (th : Threshold F) (zero_threshold : F) where
  abbrev pub sources : Sources F
  sources = record {
    unmarshal = unmarshal;
    is_duration = parses pf.parse_duration;
    env = env;
    th = th;
    zero_threshold = zero_threshold;
  }

  -- After the flags are read, and without the one that asks for the version.
  unfoldable pub main : Text → Flags → ℕ → Fs → Result MainError (Node F)
  main path flags now fs = do
    cfg ← relabel not_configured (configure sources path flags fs)
    relabel not_running (boot pf cfg now fs)
