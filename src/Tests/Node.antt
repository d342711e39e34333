-- ===== src/Tests/Node.antt =====
-- A node with a static list of two peers, and some of its steps.
use loraplex.Cache.Lru.{new_lru}
use loraplex.Cache.Store.{new_store}
use loraplex.Cache.Store.Rebuild.{mod_time, rebuild, walk, walk_names, deepest, touch_each}
use loraplex.Cache.Store.Rebuild.Inside.{AllProper}
use loraplex.Config.{Config, zero_config}
use loraplex.Config.Size.{
  parse_size, unit_of, scan_int, scan_sign, scan_unsigned, scan_digits, starts_with_digit,
  skip_blanks,
}
use loraplex.Discovery.{on_change, set_peers, call_each, new_static, start_static}
use loraplex.Discovery.Modes
use loraplex.Discovery.Modes.{Discovery, static, base_of, with_base, subscribe, new, start}
use loraplex.Go.Duration.{pos}
use loraplex.Go.Fs
use loraplex.Go.Fs.{Fs, at, directory, mkdir_all, mkdir_from, stat, find}
use loraplex.Go.Fs.Outside.{KeepsOutside}
use loraplex.Go.Fs.Dir.{names_in}
use loraplex.Go.Int64.{mul64}
use loraplex.Go.Path.{clean, join_slash, is_rooted, clean_parts, split_slash}
use loraplex.Go.Path.Parts.{single-IsName}
use loraplex.Go.Sort.{by_insertion, insertion_sort}
use loraplex.Health.{new_checker}
use loraplex.Node.{Platform, Node}
use loraplex.Node.Boot.{
  boot, with_origins, open_store, launch, start_discovery, vnodes_for, assemble, settings_of,
  ring_addr,
}
use loraplex.Node.Invariant.{Sound}
use loraplex.Node.Reach.{Reach-Sound, Reach-KeepsOutside}
use loraplex.Node.Step.{Reach, here, then_step, arrive, finish, check, arrives, finishes, checks}
use loraplex.Origin.{from_config}
use loraplex.Origin.Bucket.{BucketClient}
use loraplex.Origin.Plain.{IsPlain}
use loraplex.Proxy.Body.{Request}
use loraplex.Routing.Ring.{new_ring, update}
use loraplex.Server.{route, to_proxy, clean_path, rooted_path, pattern_of}
use loraplex.Tests.Confinement
use loraplex.Tests.Nodes.{sha, sorter, client, a, b, leb_load}
use loraplex.Tests.Origin.{web}
use loraplex.Prelude.{
  ◌∷◌, none, false, is_empty, [], ◌^◌, refl, ltb, codes, some, ◌≡◌, ℕ, str_eq, ok, has_suffix, Text,
  ◌++◌, arith, true, has_prefix,
}

abbrev pub pf : Platform ℕ
pf = record {
  sha = sha;
  vnode_sorter = sorter;
  mod_sorter = by_insertion mod_time;
  no_load = 0;
  geb = leb_load;
  loads = record {
    one = 10;
    ratio = λ x y. x;
    above = λ x y. ltb y x;
    encode = λ h. [];
    load_of = λ s. some 3;
  };
  parse_duration = λ s. some (pos 5_000_000_000);
  hostname = codes "h";
  outside = record { web = web; sha_of = λ s. some s; aws = λ bucket region. none };
  k8s_client = client;
  decode_endpoints = λ s. none;
  peer_client = client;
  vllm_client = client;
  health_client = client;
  body_json = record { object_of = λ s. none; string_of = λ s. none };
  meta_json = Confinement.json;
  admin_json = record {
    decode_evict = λ s. some s;
    decode_warmup = λ s. some (s ∷ []);
    encode_evict = λ s. s;
    encode_evicted = λ s. s;
    encode_results = λ rs. [];
    encode_stats = λ s. s.dir;
    encode_peers = λ ps self n. self;
  };
  error_text = record {
    of_body = λ e. [];
    of_request = λ m u. [];
    of_transport = λ r. [];
    of_cache = λ e. [];
  };
}

abbrev pub cfg : Config ℕ
cfg = record (zero_config 8) {
  listen = a;
  storage = record { dir = codes "/s"; max_size = codes "1GB" };
  discovery = record {
    mode = codes "static";
    k8s = record { service = []; namespace = [] };
    file = record { dir = []; heartbeat_interval = []; stale_threshold = [] };
    static = record { peers = some (a ∷ b ∷ []) };
  };
}

abbrev pub disk : Fs
disk = record { entries = (codes "etc" ∷ [], directory) ∷ []; denied = λ p. false }

unfoldable program : Unit {0}
unfolding boot with_origins open_store launch start_discovery vnodes_for assemble ring_addr
    from_config Modes.new Modes.start subscribe with_base base_of on_change set_peers call_each
    new_static start_static parse_size unit_of scan_int scan_sign scan_unsigned scan_digits
    starts_with_digit skip_blanks str_eq is_empty rebuild walk walk_names deepest touch_each
    new_store new_lru mkdir_all mkdir_from stat find Fs.same_path names_in is_rooted clean_parts
    split_slash insertion_sort zero_config
program = tt

abbrev started : Node ℕ
started = record {
  settings = settings_of pf cfg (pos 5_000_000_000);
  world = record {
    store = new_store (codes "/s") (2 ^ 30);
    fs = record disk { entries = (codes "s" ∷ [], directory) ∷ (codes "etc" ∷ [], directory) ∷ [] };
  };
  ring = update sha sorter 0 (a ∷ b ∷ []) (new_ring 0 a);
  discovery = static (record { peers = a ∷ b ∷ []; callbacks = update sha sorter 0 ∷ [] });
  checker = new_checker a [];
  in_flight = [];
  revalidating = [];
}

booted : boot pf cfg 3 disk ≡ ok started
unfolding program Fs.below mul64
booted = refl

abbrev request : Request
request = record {
  method = codes "POST";
  path = codes "/v1/chat";
  raw_query = [];
  headers = [];
  body = codes "{}";
  body_fails = false;
  cancelled = false;
}

proxied : route request.method request.path ≡ to_proxy
unfolding route clean_path rooted_path pattern_of clean clean_parts join_slash split_slash is_rooted
    has_suffix has_prefix str_eq is_empty
proxied = refl

-- A request arrives, the peers are after_check, and then the request is answered.
abbrev waiting : Node ℕ
waiting = arrive pf started request

abbrev after_check : Node ℕ
after_check = check pf waiting

abbrev answered : Node ℕ
answered = finish pf after_check [] request 7

one_left : after_check.in_flight ≡ [] ++ request ∷ []
unfolding check arrive
one_left = refl

ran : Reach pf started answered
ran =
    then_step after_check answered
      (then_step waiting after_check (then_step started waiting here (arrives request proxied))
        checks)
      (finishes [] [] request 7 one_left)

no_buckets :
    (bucket region : Text) (client : BucketClient)
    → pf.outside.aws bucket region ≡ some client
    → IsPlain client
no_buckets bucket region client e = cc

dir-is_rooted : is_rooted cfg.storage.dir ≡ true
unfolding is_rooted
dir-is_rooted = refl

disk_proper : AllProper disk.entries
unfolding split_slash
disk_proper =
    ((single-IsName (codes "etc") refl (λ e. cc) (λ e. ground arith) (λ e. ground arith), tt), tt)

Reach-Sound_example : Sound pf cfg.storage.dir started.settings answered
Reach-Sound_example =
    Reach-Sound pf cfg no_buckets dir-is_rooted 3 disk disk_proper started booted answered ran

Reach-KeepsOutside_example : KeepsOutside (at cfg.storage.dir) started.world.fs answered.world.fs
Reach-KeepsOutside_example =
    Reach-KeepsOutside pf cfg no_buckets dir-is_rooted 3 disk disk_proper started booted answered
      refl ran
