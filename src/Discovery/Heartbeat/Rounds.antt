-- ===== src/Discovery/Heartbeat/Rounds.antt =====
-- One round of the loop of `scan` in internal/discovery/file.go.
use loraplex.Discovery.Heartbeat.{peer_in, first_line, scan_entry}
use loraplex.Go.Trim.{trim_space}
use loraplex.Go.Duration.{ℤ, is_older}
use loraplex.Go.Fs.{FilePath, Node, directory, Fs, at, file, stat}
use loraplex.Go.Fs.Laws.{stat-remove_all}
use loraplex.Go.Fs.Dir.{remove}
use loraplex.Go.Fs.Dir.Names.{remove-is_all}
use loraplex.Go.Path.{join}
use loraplex.Prelude.{
  Option-cases, has_prefix, Option, none, [], Bool-cases, refl, inr, ℕ, false, inl, ◌≡◌, ◌∷◌, Text,
  codes, some, arith, ◌≢◌, ap, sym, ◌⊎◌, is_empty, All, ◌++◌, ◌==◌,
}

-- Nothing new on the disk.
abbrev pub Shrinks : Fs → Fs → Type 0
Shrinks fs fs' = (q : FilePath) (n : Node) → stat q fs' ≡ some n → stat q fs ≡ some n

-- The line that a text begins with: there is no line feed in it, and one behind it if the text goes on.
abbrev pub IsFirstLine : Text → Text → Type 0
IsFirstLine line text =
    All (λ c. c ≢ b'\n') line × ((text ≡ line) ⊎ ((rest : Text) × (text ≡ line ++ b'\n' ∷ rest)))

-- A file under a name that does not start with a dot, young enough, whose first line is not empty: the peer is that
-- line without the spaces around it.
pub record Announces (dir : Text) (stale : ℤ) (now : ℕ) (fs : Fs) (name p : Text) : Type 0 where
  pub text : Text
  pub mtime : ℕ
  pub at_name : stat (at (join dir name)) fs ≡ some (file text mtime)
  pub visible : has_prefix (codes ".") name ≡ false
  pub young : is_older stale now mtime ≡ false
  pub line : Text
  pub is_first : IsFirstLine line text
  pub not_empty : line ≢ []
  pub peer : p ≡ trim_space line

first_line-IsFirstLine : (text : Text) → IsFirstLine (first_line text) text
unfolding first_line
first_line-IsFirstLine [] = (tt, inl refl)
first_line-IsFirstLine (c ∷ text) = elim (Bool-cases (c == b'\n')) [
  | inl e ↦ rw e (tt, inr (text, ap (λ k. k ∷ text) (ground arith)))
  | inr e ↦
      let (none_in, ends) = first_line-IsFirstLine text in
      rw e (
        ((λ h. ground arith), none_in),
        elim ends [
          | inl whole ↦ inl (ap (λ t. c ∷ t) whole)
          | inr (rest, more) ↦ inr (rest, ap (λ t. c ∷ t) more)
        ],
      )
]

first_line-whole : (line : Text) → All (λ c. c ≢ b'\n') line → first_line line ≡ line
unfolding first_line
first_line-whole [] h = refl
first_line-whole (c ∷ line) (hc, h) = rw (first_line-whole line h) (ground arith)

pub first_line-append :
    (line rest : Text) → All (λ c. c ≢ b'\n') line → first_line (line ++ b'\n' ∷ rest) ≡ line
unfolding first_line
first_line-append [] rest h = refl
first_line-append (c ∷ line) rest (hc, h) = rw (first_line-append line rest h) (ground arith)

IsFirstLine-first_line : (line text : Text) → IsFirstLine line text → first_line text ≡ line
IsFirstLine-first_line line text (none_in, inl whole) = rw whole (first_line-whole line none_in)
IsFirstLine-first_line line text (none_in, inr (rest, more)) =
    rw more (first_line-append line rest none_in)

peer_in-line :
    (text p : Text)
    → peer_in text ≡ some p
    → (first_line text ≢ []) × (p ≡ trim_space (first_line text))
unfolding peer_in
peer_in-line text p e = elim (Bool-cases (is_empty (first_line text))) [
  | inl empty ↦ cc (rw (empty, peer_in) at e)
  | inr full ↦
      let same : some (trim_space (first_line text)) ≡ some p = rw (full, peer_in) at e in
      ((λ h. unfold is_empty in cc (rw h at full)), cc)
]

line-peer_in :
    (text p : Text)
    → first_line text ≢ []
    → p ≡ trim_space (first_line text)
    → peer_in text ≡ some p
unfolding peer_in is_empty
line-peer_in text p full same = by_line (first_line text) refl
  where
    by_line : (line : Text) → first_line text ≡ line → peer_in text ≡ some p
    by_line [] e = absurd (full e)
    by_line (c ∷ line) e = rw (e, peer_in) (ap some (sym (rw e at same)))

module _ (dir : Text) (stale : ℤ) (now : ℕ) where
  -- A round gives a peer exactly where a file announces one.
  pub entry-Announces :
      (name p : Text) (fs : Fs)
      → (scan_entry dir stale now name fs).0 ≡ some p
      → Announces dir stale now fs name p
  unfolding scan_entry
  entry-Announces name p fs e = by_node (stat (at (join dir name)) fs) refl
    where
      by_node :
          (o : Option Node) → stat (at (join dir name)) fs ≡ o → Announces dir stale now fs name p
      by_node none e' = cc (rw (e', scan_entry) at e)
      by_node (some directory) e' = cc (rw (e', scan_entry) at e)
      by_node (some (file text mtime)) e' = elim (Bool-cases (has_prefix (codes ".") name)) [
        | inl hidden ↦ cc (rw hidden at (rw (e', scan_entry) at e))
        | inr shown ↦ elim (Bool-cases (is_older stale now mtime)) [
          | inl old ↦ cc (rw (shown, old) at (rw (e', scan_entry) at e))
          | inr fresh ↦ record {
            text = text;
            mtime = mtime;
            at_name = e';
            visible = shown;
            young = fresh;
            line = first_line text;
            is_first = first_line-IsFirstLine text;
            not_empty = (peer_in-line text p (rw (shown, fresh) at (rw (e', scan_entry) at e))).0;
            peer = (peer_in-line text p (rw (shown, fresh) at (rw (e', scan_entry) at e))).1;
          }
        ]
      ]

  pub Announces-entry :
      (name p : Text) (fs : Fs)
      → Announces dir stale now fs name p
      → (scan_entry dir stale now name fs).0 ≡ some p
  unfolding scan_entry
  Announces-entry name p fs a =
      let same = IsFirstLine-first_line a.line a.text a.is_first in
      rw (a.at_name, scan_entry)
        (rw (a.visible, a.young) (line-peer_in a.text p (rw same a.not_empty) (rw same a.peer)))

  -- A round changes nothing, or removes the entry.
  pub data Round (name : Text) (fs : Fs) : Fs → Type 0 where
    same : Round name fs fs
    removed : (fs' : Fs) → remove (at (join dir name)) fs ≡ some fs' → Round name fs fs'

  pub entry-Round : (name : Text) (fs : Fs) → Round name fs (scan_entry dir stale now name fs).1
  unfolding scan_entry
  entry-Round name fs = by_node (stat (at (join dir name)) fs) refl
    where
      by_node :
          (o : Option Node)
          → stat (at (join dir name)) fs ≡ o
          → Round name fs (scan_entry dir stale now name fs).1
      by_node none e' = rw (e', scan_entry) same
      by_node (some directory) e' = rw (e', scan_entry) same
      by_node (some (file text mtime)) e' = elim (Bool-cases (has_prefix (codes ".") name)) [
        | inl hidden ↦ rw (e', scan_entry) (rw hidden same)
        | inr shown ↦ elim (Bool-cases (is_older stale now mtime)) [
          | inr fresh ↦ rw (e', scan_entry) (rw (shown, fresh) same)
          | inl old ↦
              rw (e', scan_entry)
                (rw (shown, old)
                  (elim (Option-cases (remove (at (join dir name)) fs)) [
                    | inl kept ↦ rw kept same
                    | inr (fs', gone) ↦ rw gone (removed fs' gone)
                  ]))
        ]
      ]

  pub Round-Shrinks : (name : Text) (fs fs' : Fs) → Round name fs fs' → Shrinks fs fs'
  Round-Shrinks name fs fs' same q n e = e
  Round-Shrinks name fs fs' (removed fs'' gone) [] n e = unfold stat in e
  Round-Shrinks name fs fs' (removed fs'' gone) (a ∷ q) n e =
      let stat_is =
        stat-remove_all (at (join dir name)) (a ∷ q) fs fs' (λ e. cc)
          (remove-is_all (at (join dir name)) fs fs' gone) in
      ground (arith, e, stat_is)
