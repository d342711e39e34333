-- ===== src/Tests/Main.antt =====
-- The configuration of `main`, with a file that is expanded and with flags only, and a start that fails.
use loraplex.Config.{
  Config, zero_config, validate, validate_hash_on, apply_defaults, or_text, or_number, or_peers,
  or_threshold,
}
use loraplex.Config.Flags.{
  Flags, no_flags, apply_overrides, override, override_peers, nilable, split_peers,
  split_peers_from,
}
use loraplex.Config.Load.{load_config, Sources, load, configure, checked, unreadable}
use loraplex.Config.Load.Flagged.{configure-no_flags}
use loraplex.Config.Size.{
  scan_digits, skip_blanks, starts_with_digit, scan_unsigned, scan_sign, scan_int, unit_of,
  parse_size,
}
use loraplex.Go.Int64.{mul64, neg64}
use loraplex.Go.Path.{clean_parts, split_slash}
use loraplex.Discovery.{new_static}
use loraplex.Discovery.Modes
use loraplex.Go.Duration.{negsuc}
use loraplex.Node.Boot.{launch, start_discovery, vnodes_for, negative_vnodes, boot, with_origins}
use loraplex.Origin.{from_config}
use loraplex.Go.Expand.{
  expand_env, expand_from, shell_name, expansion, before_brace, name_part, is_alpha_num,
  is_special_var, is_digit,
}
use loraplex.Go.Fs.{Fs, directory, file, read_file, stat, find, same_path}
use loraplex.Node.Main.{main, not_running}
use loraplex.Tests.Config.{tenths, is_duration}
use loraplex.Tests.Node.{pf}
use loraplex.Prelude.{
  Text, refl, ◌≡◌, codes, str_eq, if◌then◌else◌, [], err, strip_prefix, false, ok, Option, is_empty,
  ℕ, some, ◌∷◌,
}

unfoldable texts : Unit {0}
unfolding expand_env expand_from shell_name expansion before_brace name_part is_alpha_num
    is_special_var is_digit
texts = tt

abbrev env : Text → Text
env name = if str_eq name (codes "PORT") then codes "9090" else []

expanded : expand_env env (codes "a: :${PORT} $PORT. $UNSET_1|$.${}${") ≡ codes "a: :9090 9090. |$."
unfolding texts str_eq
expanded = refl

-- The file has the address to listen at and nothing else.
abbrev source : Sources ℕ
source = record {
  unmarshal = λ s. some (record (zero_config 3) { listen = s });
  is_duration = is_duration;
  env = env;
  th = tenths;
  zero_threshold = 0;
}

abbrev disk : Fs
disk = record {
  entries =
      (codes "etc" ∷ [], directory)
      ∷ (codes "etc" ∷ codes "l.yaml" ∷ [], file (codes ":$PORT") 1)
      ∷ [];
  denied = λ p. false;
}

abbrev path : Text
path = codes "/etc/l.yaml"

unfoldable program : Unit {0}
unfolding texts load load_config configure checked validate validate_hash_on apply_defaults
    apply_overrides or_text or_number or_peers or_threshold override override_peers nilable
    split_peers split_peers_from zero_config parse_size unit_of scan_int scan_sign scan_unsigned
    scan_digits starts_with_digit skip_blanks mul64 neg64 str_eq is_empty strip_prefix read_file
    stat find same_path clean_parts split_slash
program = tt

loaded :
    load source path disk
    ≡ ok (apply_defaults tenths (record (zero_config 3) { listen = codes ":9090" }))
unfolding program
loaded = refl

missing : load source (codes "/etc/m.yaml") disk ≡ err unreadable
unfolding program
missing = refl

configure-no_flags_example : configure source path no_flags disk ≡ load source path disk
configure-no_flags_example = configure-no_flags source b'/' (codes "etc/l.yaml") disk

abbrev flags : Flags
flags = record no_flags { discovery_mode = codes "k8s"; peers = codes "a,b" }

-- A file with an origin of a type that the checks let pass.
abbrev with_ftp : Text → Option (Config ℕ)
with_ftp s = some (record (zero_config 3) {
  origins =
      record {
        origin_type = codes "ftp";
        bucket = [];
        region = [];
        prefix = [];
        token = [];
        base_url = [];
      }
      ∷ [];
})

-- A negative number of vnodes passes the checks, and is the end at the first peer.
abbrev with_negative : Text → Option (Config ℕ)
with_negative s = some (record (zero_config 3) {
  routing = record {
    hash_on = [];
    vnodes_per_peer = negsuc 0;
    forward_timeout = [];
    overflow_threshold = 3;
    fallback_to_base_model = false;
  };
})

panics :
    main pf with_negative env tenths 0 path no_flags 20 disk ≡ err (not_running negative_vnodes)
unfolding program main boot with_origins from_config launch start_discovery vnodes_for Modes.new
    new_static
panics = refl
