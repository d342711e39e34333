-- ===== src/Config/Flags/Peers.antt =====
-- What `splitPeers` of cmd/loraplex/main.go makes of a list of peers.
use loraplex.Config.{
  Text, Text, [], Text, List, Text, Text, Text, Text, [], Text, List, Text, Text, Text, Text, [],
  Text, List, Text, Text, Text, Text, [], Text, List, Text, Text,
}
use loraplex.Config.Flags.{split_peers, split_peers_from}
use loraplex.Prelude.{
  Bool, false, ◌||◌, All, List, ◌==◌, ◌++◌, append_assoc, ◌≡◌, Text, inl, append-nil, arith, inr,
  sym, ◌∷◌, Bool-cases, [], is_empty, refl, ap, ◌∙◌,
}

unfoldable pub has_comma : Text → Bool
has_comma [] = false
has_comma (c ∷ s) = c == b',' || has_comma s

-- A peer that the flag can hold: it is not empty and has no comma.
abbrev pub IsPeer : Text → Type 0
IsPeer p = (is_empty p ≡ false) × (has_comma p ≡ false)

unfoldable pub join_commas : List Text → Text
join_commas [] = []
join_commas (p ∷ []) = p
join_commas (p ∷ q ∷ ps) = p ++ b',' ∷ join_commas (q ∷ ps)

-- What is left after the bytes of a peer.
split_peers_from-append :
    (q p s : Text) (result : List Text)
    → has_comma p ≡ false
    → split_peers_from q result (p ++ s) ≡ split_peers_from (q ++ p) result s
unfolding split_peers_from has_comma
split_peers_from-append q [] s result h = rw (append-nil q) refl
split_peers_from-append q (c ∷ p) s result h = elim (Bool-cases (c == b',')) [
  | inl e ↦ ground arith
  | inr e ↦
      rw
        (
          e,
          split_peers_from-append (q ++ c ∷ []) p s result (ground arith),
          append_assoc q (c ∷ []) p,
        )
        refl
]

-- A peer with nothing after it is added, and so is one before a comma.
split_peers_from_last :
    (p : Text) (result : List Text) → IsPeer p → split_peers_from [] result p ≡ result ++ p ∷ []
unfolding split_peers_from
split_peers_from_last p result (full, plain) =
    ap (split_peers_from [] result) (sym (append-nil p))
    ∙ (split_peers_from-append [] p [] result plain ∙ rw full refl)

split_peers_from_next :
    (p s : Text) (result : List Text)
    → IsPeer p
    → split_peers_from [] result (p ++ b',' ∷ s) ≡ split_peers_from [] (result ++ p ∷ []) s
unfolding split_peers_from
split_peers_from_next p s result (full, plain) =
    split_peers_from-append [] p (b',' ∷ s) result plain ∙ rw full refl

split_peers_from-join :
    (ps : List Text) (result : List Text)
    → All IsPeer ps
    → split_peers_from [] result (join_commas ps) ≡ result ++ ps
unfolding split_peers_from join_commas is_empty
split_peers_from-join [] result h = sym (append-nil result)
split_peers_from-join (p ∷ []) result (h, _) = split_peers_from_last p result h
split_peers_from-join (p ∷ q ∷ ps) result (h, hs) =
    split_peers_from_next p (join_commas (q ∷ ps)) result h
    ∙ (split_peers_from-join (q ∷ ps) (result ++ p ∷ []) hs ∙ append_assoc result (p ∷ []) (q ∷ ps))

-- The peers of a comma-separated list are read back as they stand, whatever comes between the commas,
-- if none of them is empty or has a comma.
pub split_peers-join_commas : (ps : List Text) → All IsPeer ps → split_peers (join_commas ps) ≡ ps
unfolding split_peers
split_peers-join_commas ps h = split_peers_from-join ps [] h
