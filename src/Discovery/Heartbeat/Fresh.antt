-- ===== src/Discovery/Heartbeat/Fresh.antt =====
-- `scan` of internal/discovery/file.go: which files of the directory count.
use loraplex.Go.Members.{mem_All}
use mathlib.Core.Logic.Or
use mathlib.Core.List.{
  not-mem-nil, eq-or-mem_of_mem-cons, mem-cons_of_mem, mem-cons_self, Mem-prop, Mem,
}
use mathlib.Core.Logic.{∥∥₁_elim, ∥∥₁_map}
use loraplex.Cache.Store.Paths.{at-join_name}
use loraplex.Discovery.Heartbeat.{set_peers, File, scan_entry, scan_entries, scan}
use loraplex.Go.Duration.{ℤ}
use loraplex.Go.Fs.{Fs, at, file, is_below, is_dir, stat}
use loraplex.Go.Fs.Laws.{not_root, stat_entry, stat-remove_all, is_below-sibling}
use loraplex.Go.Fs.Dir.{names_in, read_dir}
use loraplex.Go.Fs.Dir.Names.{mem-names_in, remove-is_all}
use loraplex.Go.Path.{is_rooted, join}
use loraplex.Go.Path.Parts.{IsName}
use loraplex.Go.Path.Split.{SlashFree}
use loraplex.Prelude.{
  Option-cases, [], Bool-cases, refl, inr, ℕ, false, inl, ◌≡◌, ◌∷◌, Text, some, subst, ap, ◌↔◌,
  List, sym, ◌∙◌, All, ◌≢◌, str_eq_iff, true, str_eq,
}
use loraplex.Discovery.Heartbeat.Rounds.{
  Shrinks, Announces, entry-Announces, Announces-entry, Round, same, removed, entry-Round,
  Round-Shrinks,
}

no_slash-prop : (s : Text) → IsProp (SlashFree s)
no_slash-prop [] = hlevel
no_slash-prop (c ∷ s) = hlevel (no_slash-prop s)

IsName-prop : (name : Text) → IsProp (IsName name)
IsName-prop name = hlevel (no_slash-prop name)

module _ (dir : Text) (stale : ℤ) (now : ℕ) where
  Announces-Shrinks :
      (name p : Text) (fs fs' : Fs)
      → Shrinks fs fs'
      → Announces dir stale now fs' name p
      → Announces dir stale now fs name p
  Announces-Shrinks name p fs fs' less a = record {
    text = a.text;
    mtime = a.mtime;
    at_name = less (at (join dir name)) (file a.text a.mtime) a.at_name;
    visible = a.visible;
    young = a.young;
    line = a.line;
    is_first = a.is_first;
    not_empty = a.not_empty;
    peer = a.peer;
  }

  abbrev Announced : Fs → Text → List Text → Type 0
  Announced fs p names = ∥ ((name : Text) × (Mem name names × Announces dir stale now fs name p)) ∥₁

  widen :
      (fs fs' : Fs) (p name : Text) (names : List Text)
      → Shrinks fs fs'
      → Announced fs' p names
      → Announced fs p (name ∷ names)
  widen fs fs' p name names less h =
      ∥∥₁_map h (λ (k, (m, a)). (k, (mem-cons_of_mem name m, Announces-Shrinks k p fs fs' less a)))

  -- Every peer that the loop gives is announced by one of the files.
  entries-Announced :
      (names : List Text) (fs : Fs) (p : Text)
      → Mem p (scan_entries dir stale now names fs).0
      → Announced fs p names
  unfolding scan_entries
  entries-Announced [] fs p m = absurd (not-mem-nil m)
  entries-Announced (name ∷ names) fs p m =
      let fs' = (scan_entry dir stale now name fs).1 in
      let less = Round-Shrinks dir stale now name fs fs' (entry-Round dir stale now name fs) in
      let later : Mem p (scan_entries dir stale now names fs').0 → Announced fs p (name ∷ names) =
        λ m'. widen fs fs' p name names less (entries-Announced names fs' p m') in
      elim (Option-cases (scan_entry dir stale now name fs).0) [
        | inl e ↦ later (rw (e, scan_entries) at m)
        | inr (p', e) ↦
            Or.elim squash₁ (eq-or-mem_of_mem-cons (rw (e, scan_entries) at m))
              (λ same_peer. ∣ (
                name,
                (
                  mem-cons_self,
                  entry-Announces dir stale now name p fs (e ∙ ap some (sym same_peer)),
                ),
              ) ∣₁)
              later
      ]

  module _ (rooted : is_rooted dir ≡ true) where
    -- The file of another name stays.
    Round-keeps :
        (name other : Text)
        → IsName name
        → IsName other
        → name ≢ other
        → (fs fs' : Fs) → Round dir stale now name fs fs'
        → stat (at (join dir other)) fs' ≡ stat (at (join dir other)) fs
    Round-keeps name other hn ho differ fs fs' same = refl
    Round-keeps name other hn ho differ fs fs' (removed fs'' gone) =
        let apart : is_below (at (join dir name)) (at (join dir other)) ≡ false =
          rw (at-join_name dir name rooted hn, at-join_name dir other rooted ho)
            (is_below-sibling (at dir) name other differ) in
        let proper : at (join dir other) ≢ [] =
          λ e. not_root (at dir) other (sym (at-join_name dir other rooted ho) ∙ e) in
        rw
          (stat-remove_all (at (join dir name)) (at (join dir other)) fs fs' proper
            (remove-is_all (at (join dir name)) fs fs' gone))
          (rw apart refl)

    -- The loop gives every peer that one of the files announces.
    Announced-entries :
        (names : List Text) (fs : Fs) (name p : Text)
        → All IsName names
        → IsName name
        → Mem name names
        → Announces dir stale now fs name p
        → Mem p (scan_entries dir stale now names fs).0
    unfolding scan_entries
    Announced-entries [] fs name p proper hn m a = absurd (not-mem-nil m)
    Announced-entries (n ∷ names) fs name p (h, proper) hn m a =
        let fs' = (scan_entry dir stale now n fs).1 in
        elim (Bool-cases (str_eq n name)) [
          | inl e ↦
              let found =
                subst (λ k. (scan_entry dir stale now k fs).0 ≡ some p)
                  (sym ((str_eq_iff n name).0 e)) (Announces-entry dir stale now name p fs a) in
              rw (found, scan_entries) mem-cons_self
          | inr e ↦
              let differ : n ≢ name = λ same_name. cc ((str_eq_iff n name).1 same_name) in
              let kept = Round-keeps n name h hn differ fs fs' (entry-Round dir stale now n fs) in
              let there : Announces dir stale now fs' name p = record {
                text = a.text;
                mtime = a.mtime;
                at_name = kept ∙ a.at_name;
                visible = a.visible;
                young = a.young;
                line = a.line;
                is_first = a.is_first;
                not_empty = a.not_empty;
                peer = a.peer;
              } in
              let later =
                Announced-entries names fs' name p proper hn (mem_behind n name names differ m)
                  there in
              elim (Option-cases (scan_entry dir stale now n fs).0) [
                | inl e' ↦ rw (e', scan_entries) later
                | inr (p', e') ↦ rw (e', scan_entries) (mem-cons_of_mem p' later)
              ]
        ]
      where
        mem_behind :
            (n name : Text) (names : List Text) → n ≢ name → Mem name (n ∷ names) → Mem name names
        mem_behind n name names differ m =
            Or.elim Mem-prop (eq-or-mem_of_mem-cons m) (λ e. absurd (differ (sym e))) (λ m'. m')

module _ {S : Type 0} (f : File S) (now : ℕ) (fs : Fs) (s : S) (rooted : is_rooted f.dir ≡ true)
    (there : is_dir (stat (at f.dir) fs) ≡ true)
    (proper : All IsName (names_in (at f.dir) fs.entries)) where
  abbrev scanned : File S
  scanned = (scan f now fs s).0.0

  names_read : read_dir (at f.dir) fs ≡ some (names_in (at f.dir) fs.entries)
  unfolding read_dir
  names_read = rw there refl

  abbrev after : List Text × Fs → (File S × S) × Fs
  after (peers, fs') =
      ((record f { base = (set_peers peers f.base s).0 }, (set_peers peers f.base s).1), fs')

  scan-read :
      scan f now fs s ≡ after (scan_entries f.dir f.stale now (names_in (at f.dir) fs.entries) fs)
  unfolding scan
  scan-read = rw (names_read, scan) refl

  scanned-peers :
      scanned.base.peers ≡ (scan_entries f.dir f.stale now (names_in (at f.dir) fs.entries) fs).0
  unfolding set_peers
  scanned-peers = ap (λ r. r.0.0.base.peers) scan-read

  -- If the directory has an absolute path and is there, and its entries have proper names, then the peers
  -- after a scan are exactly those that a file in it announces: a file whose name does not start with a dot,
  -- which is not older than the stale threshold, and whose first line is not empty; the peer is that line
  -- without the spaces around it.
  pub scan-peers_iff :
      (p : Text)
      → Mem p scanned.base.peers
        ↔ ∥ ((name : Text) × (IsName name × Announces f.dir f.stale now fs name p)) ∥₁
  scan-peers_iff p = (
    λ m.
        ∥∥₁_map
          (entries-Announced f.dir f.stale now (names_in (at f.dir) fs.entries) fs p
            (rw scanned-peers at m))
          (λ (name, (m', a)). (
            name,
            (mem_All IsName IsName-prop name (names_in (at f.dir) fs.entries) proper m', a),
          )),
    λ h. ∥∥₁_elim h Mem-prop (λ (name, (hn, a)).
        let listed = mem-names_in (at f.dir) name fs.entries (file a.text a.mtime) (
          sym (stat_entry (at f.dir) name fs)
          ∙ ap (λ q. stat q fs) (sym (at-join_name f.dir name rooted hn))
          ∙ a.at_name) in
        rw scanned-peers (
          Announced-entries f.dir f.stale now rooted (names_in (at f.dir) fs.entries) fs name p
            proper hn listed a)),
  )
