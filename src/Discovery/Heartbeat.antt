-- ===== src/Discovery/Heartbeat.antt =====
-- internal/discovery/file.go: each node keeps a file with its address in a shared directory. A tick of
-- the loop is `write_heartbeat` and then `scan`; the ticker and the goroutine are not modelled.
pub mod Rounds
pub mod Fresh
pub mod Own
use loraplex.Discovery.{Base, set_peers}
use loraplex.Config.{FileDiscovery}
use loraplex.Go.Decimal.{decimal}
use loraplex.Go.Duration.{ℤ, is_older}
use loraplex.Go.Fs.{Fs, at, directory, file, stat, mkdir_all, write_file}
use loraplex.Go.Fs.Dir.{read_dir, remove}
use loraplex.Go.Trim.{trim_space}
use loraplex.Go.Path.{join}
use loraplex.Prelude.{
  Bool, ◌∷◌, ◌==◌, some, false, true, is_empty, Option, codes, reverse, has_prefix, ◌&&◌,
  if◌then◌else◌, Text, ℕ, List, ◌||◌, [], leb, ◌++◌, none,
}

pub record File (S : Type 0) : Type 0 where
  pub base : Base S
  pub dir : Text
  pub heartbeat : ℤ
  pub stale : ℤ
  pub self_addr : Text
  pub stopped : Bool

-- `time.ParseDuration` and the name of the host are parameters; `none` is an error.
unfoldable pub new_file :
    {S : Type 0} → (Text → Option ℤ) → Text → FileDiscovery → Text → Option (File S)
new_file parse_duration hostname cfg self_addr = elim (parse_duration cfg.heartbeat_interval) [
  | none ↦ none
  | some hb ↦ elim (parse_duration cfg.stale_threshold) [
    | none ↦ none
    | some st ↦ some (record {
      base = record { peers = []; callbacks = [] };
      dir = cfg.dir;
      heartbeat = hb;
      stale = st;
      self_addr = if is_empty self_addr then hostname else self_addr;
      stopped = false;
    })
  ]
]

-- `Start` up to the goroutine; `none` is an error, which `MkdirAll` gives of an empty path.
unfoldable pub start : {S : Type 0} → File S → Fs → Option Fs
start f fs = if is_empty f.dir then none else mkdir_all (at f.dir) fs

-- An error of the file system is logged or ignored.
abbrev pub or_same : Option Fs → Fs → Fs
or_same none fs = fs
or_same (some fs') fs = fs'

unfoldable pub stop : {S : Type 0} → File S → Fs → File S × Fs
stop f fs =
    if f.stopped
    then (f, fs)
    else (record f { stopped = true }, or_same (remove (at (join f.dir f.self_addr)) fs) fs)

unfoldable pub heartbeat_data : Text → ℕ → Text
heartbeat_data addr now = addr ++ b'\n' ∷ decimal now

-- The times of one tick: what the clock says when the heartbeat is made, the time that the system gives the file, and
-- what the clock says when the files are looked at.
pub record TickTimes : Type 0 where
  pub stamp : ℕ
  pub mtime : ℕ
  pub scanned : ℕ

unfoldable pub write_heartbeat : {S : Type 0} → File S → TickTimes → Fs → Fs
write_heartbeat f t fs =
    or_same
      (write_file (at (join f.dir f.self_addr)) (heartbeat_data f.self_addr t.stamp) t.mtime fs) fs

-- `strings.SplitN(s, "\n", 2)[0]`
unfoldable pub first_line : Text → Text
first_line [] = []
first_line (c ∷ s) = let rest = first_line s in if c == b'\n' then [] else c ∷ rest

-- The peer that a file stands for.
unfoldable pub peer_in : Text → Option Text
peer_in text = let line = first_line text in if is_empty line then none else some (trim_space line)

-- One round of the loop of `scan`: the peer, if the entry gives one.
unfoldable pub scan_entry : Text → ℤ → ℕ → Text → Fs → Option Text × Fs
scan_entry dir stale now name fs =
    let p = at (join dir name) in
    elim (stat p fs) [
      | none ↦ (none, fs)
      | some directory ↦ (none, fs)
      | some (file text mtime) ↦
          if has_prefix (codes ".") name
          then (none, fs)
          else if is_older stale now mtime
          then (none, or_same (remove p fs) fs)
          else (peer_in text, fs)
    ]

abbrev pub cons_some : Option Text → List Text → List Text
cons_some none peers = peers
cons_some (some p) peers = p ∷ peers

unfoldable pub scan_entries : Text → ℤ → ℕ → List Text → Fs → List Text × Fs
scan_entries dir stale now [] fs = ([], fs)
scan_entries dir stale now (name ∷ names) fs =
    let (peer, fs') = scan_entry dir stale now name fs in
    let (peers, fs'') = scan_entries dir stale now names fs' in (cons_some peer peers, fs'')

-- If the directory cannot be read, the peers stay as they are.
unfoldable pub scan : {S : Type 0} → File S → ℕ → Fs → S → (File S × S) × Fs
scan f now fs s = elim (read_dir (at f.dir) fs) [
  | none ↦ ((f, s), fs)
  | some names ↦
      let (peers, fs') = scan_entries f.dir f.stale now names fs in
      let (b, s') = set_peers peers f.base s in ((record f { base = b }, s'), fs')
]

-- What `loop` does at its start and at every tick.
unfoldable pub tick : {S : Type 0} → File S → TickTimes → Fs → S → (File S × S) × Fs
tick f t fs s = scan f t.scanned (write_heartbeat f t fs) s
