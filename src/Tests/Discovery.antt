-- ===== src/Tests/Discovery.antt =====
-- A node that keeps its heartbeat in a shared directory, next to the file of another node and an old one.
use mathlib.Core.List.{Mem}
use loraplex.Discovery.{set_peers, call_each}
use loraplex.Discovery.Heartbeat.{
  File, TickTimes, tick, scan, scan_entries, scan_entry, write_heartbeat, heartbeat_data, peer_in,
  first_line,
}
use loraplex.Go.Trim.{trim_left, trim_space}
use loraplex.Discovery.Heartbeat.Fresh.{scan-peers_iff}
use loraplex.Discovery.Heartbeat.Own.{NoSpace, tick-mem_self}
use loraplex.Discovery.Heartbeat.Rounds.{Announces}
use loraplex.Go.Duration.{pos, is_older}
use loraplex.Go.Fs
use loraplex.Go.Fs.{
  Fs, at, stat, find, file, directory, is_dir, write_file, drop_below, parent, below, is_below,
}
use loraplex.Go.Fs.Dir.{names_in, insert_name, text_before, read_dir, remove}
use loraplex.Go.Path.{slash, is_rooted, join, clean, clean_parts, join_slash, split_slash}
use loraplex.Go.Path.Parts.{IsName}
use loraplex.Prelude.{
  List, ◌≡◌, true, ◌↔◌, str_eq, ◌≢◌, has_prefix, is_empty, All, Text, codes, ℕ, none, refl, ◌∷◌, [],
  strip_prefix, arith, false,
}

abbrev node : File (List Text)
node = record {
  base = record { peers = []; callbacks = (λ peers s. peers) ∷ [] };
  dir = codes "/p";
  heartbeat = pos 5;
  stale = pos 15;
  self_addr = codes "a:1";
  stopped = false;
}

abbrev disk : Fs
disk = record {
  entries =
      (codes "p" ∷ codes "b:1" ∷ [], file (codes "b:1\n80") 80)
      ∷ (codes "p" ∷ codes "c:1" ∷ [], file (codes "c:1\n70") 70)
      ∷ (codes "p" ∷ [], directory)
      ∷ [];
  denied = λ p. false;
}

unfoldable program : Unit {0}
unfolding tick scan scan_entries scan_entry write_heartbeat heartbeat_data peer_in first_line
    trim_space trim_left set_peers call_each is_older stat find Fs.same_path write_file drop_below
    parent below is_below names_in insert_name text_before read_dir remove is_rooted join clean
    clean_parts join_slash split_slash str_eq is_empty has_prefix strip_prefix
program = tt

-- The clock goes on during a tick.
abbrev times : TickTimes
times = record { stamp = 88; mtime = 89; scanned = 90 }

-- The file of `c` is too old; it is removed.
ticked : (tick node times disk []).0.1 ≡ codes "a:1" ∷ codes "b:1" ∷ []
unfolding program
ticked = refl

c_removed : stat (codes "p" ∷ codes "c:1" ∷ []) (tick node times disk []).1 ≡ none
unfolding program
c_removed = refl

rooted : is_rooted node.dir ≡ true
unfolding program
rooted = refl

there : is_dir (stat (at node.dir) disk) ≡ true
unfolding program
there = refl

is_name : (c : ℕ) → c ≢ slash → IsName (c ∷ codes ":1")
is_name c h = record {
  not_empty = λ e. cc;
  not_dot = λ e. cc;
  not_dot_dot = λ e. cc;
  no_slash = (h, ((λ e. ground arith), ((λ e. ground arith), tt)));
}

proper : All IsName (names_in (at node.dir) disk.entries)
unfolding program
proper = (is_name b'b' (λ e. ground arith), (is_name b'c' (λ e. ground arith), tt))

scan-peers_iff_example :
    Mem (codes "b:1") (scan node 90 disk []).0.0.base.peers
    ↔ ∥ (
        (name : Text) × (IsName name × Announces node.dir node.stale 90 disk name (codes "b:1"))) ∥₁
scan-peers_iff_example = scan-peers_iff node 90 disk [] rooted there proper (codes "b:1")

visible : has_prefix (codes ".") node.self_addr ≡ false
unfolding program
visible = refl

free : is_dir (stat (at (join node.dir node.self_addr)) disk) ≡ false
unfolding program
free = refl

young : is_older node.stale times.scanned times.mtime ≡ false
unfolding is_older
young = refl

no_space : NoSpace node.self_addr
no_space = (refl, (refl, (refl, tt)))

tick-mem_self_example : Mem node.self_addr (tick node times disk []).0.0.base.peers
tick-mem_self_example =
    tick-mem_self node times disk [] rooted there proper (is_name b'a' (λ e. ground arith)) young
      visible no_space free refl
