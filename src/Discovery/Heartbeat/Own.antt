-- ===== src/Discovery/Heartbeat/Own.antt =====
-- A tick of internal/discovery/file.go: the node's own file.
use mathlib.Core.List.{reverse-reverse, Mem}
use loraplex.Cache.Store.Paths.{at-join_name}
use loraplex.Discovery.Heartbeat.{File, TickTimes, heartbeat_data, write_heartbeat, tick, or_same}
use loraplex.Go.Trim.{is_space, trim_left, trim_space}
use loraplex.Discovery.Heartbeat.Rounds.{Announces}
use loraplex.Discovery.Heartbeat.Fresh.{scan-peers_iff}
use loraplex.Go.Duration.{is_older}
use loraplex.Go.Decimal.{decimal}
use loraplex.Go.Fs.{
  is_below, below, FilePath, Fs, at, file, is_dir, stat, parent, drop_below, write_file,
}
use loraplex.Go.Fs.Laws.{
  same_path_below, same_path_iff, same_path_iff, stat-write_file, below-append,
}
use loraplex.Go.Fs.Dir.{names_in}
use loraplex.Go.Fs.Dir.Names.{All-names_in-drop_below, All-names_in_cons}
use loraplex.Go.Path.{is_rooted, join}
use loraplex.Go.Path.Parts.{IsName}
use loraplex.Prelude.{
  arith, some, ◌≢◌, refl, All-reverse, false, [], reverse, Text, ◌≡◌, ◌∷◌, ◌++◌, true, All,
  has_prefix, codes, All_weaken, inr, sym,
}

abbrev pub NoSpace : Text → Type 0
NoSpace = All (λ c. is_space c ≡ false)

NoSpace-no_newline : (s : Text) → NoSpace s → All (λ c. c ≢ b'\n') s
NoSpace-no_newline s = All_weaken (λ c h e. ground arith) s

trim_left_same : (s : Text) → NoSpace s → trim_left s ≡ s
unfolding trim_left
trim_left_same [] h = refl
trim_left_same (c ∷ s) (hc, h) = rw hc refl

trim_space_same : (s : Text) → NoSpace s → trim_space s ≡ s
unfolding trim_space
trim_space_same s h =
    rw (trim_left_same s h, trim_left_same (reverse s) (All-reverse (λ c. is_space c ≡ false) s h))
      (reverse-reverse s)

parent_entry : (p : FilePath) (a : Text) → parent (p ++ a ∷ []) ≡ p
unfolding parent
parent_entry [] a = refl
parent_entry (b ∷ []) a = refl
parent_entry (b ∷ c ∷ p) a = rw (parent_entry (c ∷ p) a) refl

not_below_entry : (p : FilePath) (a : Text) → is_below (p ++ a ∷ []) p ≡ false
unfolding is_below below
not_below_entry [] a = refl
not_below_entry (b ∷ p) a = ground (arith, not_below_entry p a)

module _ {S : Type 0} (f : File S) (t : TickTimes) (fs : Fs) (s : S)
    (rooted : is_rooted f.dir ≡ true) (there : is_dir (stat (at f.dir) fs) ≡ true)
    (proper : All IsName (names_in (at f.dir) fs.entries)) (name : IsName f.self_addr) where
  abbrev own : FilePath
  own = at (join f.dir f.self_addr)

  abbrev written : Fs
  written = record fs {
    entries = (own, file (heartbeat_data f.self_addr t.stamp) t.mtime) ∷ drop_below own fs.entries;
  }

  written-file :
      is_dir (stat own fs) ≡ false
      → fs.denied own ≡ false
      → write_file own (heartbeat_data f.self_addr t.stamp) t.mtime fs ≡ some written
  unfolding write_file
  written-file free allowed =
      let above : is_dir (stat (parent own) fs) ≡ true =
        rw (at-join_name f.dir f.self_addr rooted name, parent_entry (at f.dir) f.self_addr)
          there in
      rw (above, free, allowed) refl

  written-there :
      is_dir (stat own fs) ≡ false → fs.denied own ≡ false → is_dir (stat (at f.dir) written) ≡ true
  written-there free allowed =
      let outside : is_below own (at f.dir) ≡ false =
        rw (at-join_name f.dir f.self_addr rooted name) (not_below_entry (at f.dir) f.self_addr) in
      rw
        (
          stat-write_file own (at f.dir) (heartbeat_data f.self_addr t.stamp) t.mtime fs written
              (written-file free allowed),
          same_path_below own (at f.dir) outside,
          outside,
        )
        there

  written-proper : All IsName (names_in (at f.dir) written.entries)
  written-proper =
      All-names_in_cons IsName (at f.dir) own (file (heartbeat_data f.self_addr t.stamp) t.mtime)
        (drop_below own fs.entries)
        (rw (at-join_name f.dir f.self_addr rooted name, below-append (at f.dir) (f.self_addr ∷ []))
          name)
        (All-names_in-drop_below IsName (at f.dir) own fs.entries proper)

  own-Announces :
      is_older f.stale t.scanned t.mtime ≡ false
      → has_prefix (codes ".") f.self_addr ≡ false
      → NoSpace f.self_addr
      → is_dir (stat own fs) ≡ false
      → fs.denied own ≡ false
      → Announces f.dir f.stale t.scanned written f.self_addr f.self_addr
  unfolding heartbeat_data
  own-Announces young visible plain free allowed = record {
    text = heartbeat_data f.self_addr t.stamp;
    mtime = t.mtime;
    at_name =
        rw
          (stat-write_file own own (heartbeat_data f.self_addr t.stamp) t.mtime fs written
            (written-file free allowed))
          (rw ((same_path_iff own own).1 refl) refl);
    visible = visible;
    young = young;
    line = f.self_addr;
    is_first = (NoSpace-no_newline f.self_addr plain, inr (decimal t.stamp, refl));
    not_empty = name.not_empty;
    peer = sym (trim_space_same f.self_addr plain);
  }

  -- After a tick a node is among its own peers, if the directory has an absolute path and is there, its
  -- entries have proper names, the node's address is a proper name that does not start with a dot and has
  -- no space, the node may write its file, and that file is not older than the stale threshold yet when the
  -- files are looked at, by the time that the system gave it.
  pub tick-mem_self :
      is_older f.stale t.scanned t.mtime ≡ false
      → has_prefix (codes ".") f.self_addr ≡ false
      → NoSpace f.self_addr
      → is_dir (stat own fs) ≡ false
      → fs.denied own ≡ false
      → Mem f.self_addr (tick f t fs s).0.0.base.peers
  unfolding tick write_heartbeat
  tick-mem_self young visible plain free allowed =
      rw (written-file free allowed, or_same)
        ((scan-peers_iff f t.scanned written s rooted (written-there free allowed) written-proper
            f.self_addr).1
          ∣ (f.self_addr, (name, own-Announces young visible plain free allowed)) ∣₁)
