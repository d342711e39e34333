-- ===== src/Go/Path/Split.antt =====
-- Splitting at slashes, and joining again.
use loraplex.Go.Path.{slash, split_slash, join_slash}
use loraplex.Prelude.{
  ◌≡◌, [], Bool-cases, ◌∷◌, Text, ◌==◌, refl, ◌≢◌, ◌++◌, inr, List, All, inl, arith, ◌∙◌, ap, subst,
}

pub split_slash-cons :
    (s : Text) → (part : Text) × (parts : List Text) × (split_slash s ≡ part ∷ parts)
unfolding split_slash
split_slash-cons [] = ([], [], refl)
split_slash-cons (c ∷ s) =
    let (part, parts, e) = split_slash-cons s in
    elim (Bool-cases (c == slash)) [
      | inl here ↦ ([], part ∷ parts, rw e (rw here))
      | inr other ↦ (c ∷ part, parts, rw e (rw other))
    ]

pub split_slash-append :
    (a b : Text) → split_slash (a ++ slash ∷ b) ≡ split_slash a ++ split_slash b
unfolding split_slash
split_slash-append [] b = let (part, parts, e) = split_slash-cons b in rw e
split_slash-append (c ∷ a) b =
    let (part, parts, e) = split_slash-cons a in
    let ih : split_slash (a ++ slash ∷ b) ≡ part ∷ (parts ++ split_slash b) =
      split_slash-append a b ∙ ap (λ l. l ++ split_slash b) e in
    elim (Bool-cases (c == slash)) [
      | inl here ↦ rw (ih, e) (rw here)
      | inr other ↦ rw (ih, e) (rw other)
    ]

abbrev pub SlashFree : Text → Type 0
SlashFree = All (λ c. c ≢ slash)

pub split_slash_single : (s : Text) → SlashFree s → split_slash s ≡ s ∷ []
unfolding split_slash
split_slash_single [] h = refl
split_slash_single (c ∷ s) (hc, h) = rw (split_slash_single s h) (ground arith)

pub split_slash-All-SlashFree : (s : Text) → All SlashFree (split_slash s)
unfolding split_slash
split_slash-All-SlashFree [] = (tt, tt)
split_slash-All-SlashFree (c ∷ s) =
    let (part, parts, e) = split_slash-cons s in
    let (first, others) = subst (λ l. All SlashFree l) e (split_slash-All-SlashFree s) in
    elim (Bool-cases (c == slash)) [
      | inl here ↦ rw e (rw here (tt, (first, others)))
      | inr other ↦ rw e (rw other ((λ eq. ground arith, first), others))
    ]

-- Parts that hold no slash are read back from their join.
pub split_slash-join_slash :
    (part : Text) (parts : List Text)
    → All SlashFree (part ∷ parts)
    → split_slash (join_slash (part ∷ parts)) ≡ part ∷ parts
unfolding join_slash
split_slash-join_slash part [] (h, _) = split_slash_single part h
split_slash-join_slash part (part' ∷ parts) (h, hs) =
    split_slash-append part (join_slash (part' ∷ parts))
    ∙ rw (split_slash_single part h, split_slash-join_slash part' parts hs)
