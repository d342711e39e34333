-- ===== src/Go/Search.antt =====
-- `sort.Search`: the smallest index at which a monotone test holds, by bisection.
use loraplex.Prelude.{
  ℕ, zero, suc, ◌+◌, ◌/◌, ◌≤◌, ◌<◌, ◌≡◌, Bool, true, false, arith, ltb, if◌then◌else◌, Bool-cases,
  inr, inl,
}

-- The loop over `[i, j)`. Each round shortens the range, so its length bounds the rounds.
search_loop : ℕ → (ℕ → Bool) → ℕ → ℕ → ℕ
search_loop zero f i j = i
search_loop (suc k) f i j =
    let h = (i + j) / 2 in
    let rest = search_loop k f (if f h then i else h + 1) (if f h then h else j) in
    if ltb i j then rest else i

unfoldable pub search : ℕ → (ℕ → Bool) → ℕ
unfolding search_loop
search n f = search_loop n f 0 n

abbrev pub Monotone : ℕ → (ℕ → Bool) → Type 0
Monotone n f = (a b : ℕ) → a ≤ b → b < n → f a ≡ true → f b ≡ true

-- `r` separates the indices below `n` where the test fails from those where it holds.
pub record Separates (n : ℕ) (f : ℕ → Bool) (r : ℕ) : Type 0 where
  pub within : r ≤ n
  pub below : (m : ℕ) → m < r → f m ≡ false
  pub above : (m : ℕ) → r ≤ m → m < n → f m ≡ true

module _ (n : ℕ) (f : ℕ → Bool) (mono : Monotone n f) where
  false_below : (h m : ℕ) → h < n → f h ≡ false → m ≤ h → f m ≡ false
  false_below h m inside fails le = elim (Bool-cases (f m)) [
    | inl t ↦ ground (arith, mono m h le inside t)
    | inr e ↦ e
  ]

  search_loop-Separates :
      (k i j : ℕ)
      → j ≤ i + k
      → i ≤ j
      → j ≤ n
      → ((m : ℕ) → m < i → f m ≡ false)
      → ((m : ℕ) → j ≤ m → m < n → f m ≡ true)
      → Separates n f (search_loop k f i j)
  unfolding search_loop
  search_loop-Separates zero i j fuel le top low high = record {
    within = omega arith;
    below = low;
    above = λ m p q. high m (omega arith) q;
  }
  search_loop-Separates (suc k) i j fuel le top low high = elim (Bool-cases (ltb i j)) [
    | inr done ↦
        rw done
          (record { within = omega arith; below = low; above = λ m p q. high m (ground arith) q })
    | inl more ↦ elim (Bool-cases (f ((i + j) / 2))) [
      | inl holds ↦
          rw (more, holds)
            (search_loop-Separates k i ((i + j) / 2) (ground arith) (ground arith) (ground arith)
              low (λ m p q. mono ((i + j) / 2) m p q holds))
      | inr fails ↦
          rw (more, fails)
            (search_loop-Separates k ((i + j) / 2 + 1) j (ground arith) (ground arith) top
              (λ m p. false_below ((i + j) / 2) m (ground arith) fails (omega arith)) high)
    ]
  ]

  -- On a monotone test the bisection ends, at the index that separates.
  pub search-Separates : Separates n f (search n f)
  unfolding search
  search-Separates =
      search_loop-Separates n 0 n (omega arith) (omega arith) (omega arith)
        (λ m p. absurd (omega arith)) (λ m p q. absurd (omega arith))
