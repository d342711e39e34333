-- ===== src/Loadgen/Totals.antt =====
-- The counters of `printReport` in cmd/loadgen/main.go against the results that they count.
use loraplex.Go.Dict
use loraplex.Go.Dict.{lookup-insert}
use loraplex.Loadgen.{
  LoadResult, AdapterStats, Tally, key_of, or_new, count_in, add_result, add_results, tally,
  latencies_of,
}
use loraplex.Prelude.{
  Text, ◌≡◌, ◌+◌, some, ◌++◌, if◌then◌else◌, refl, ◌≤◌, suc, List, ap, length, ◌∷◌, str_eq,
  is_empty, Option, [], ℕ, ◌-◌, arith, none, append-nil, append_assoc, sym, length-append,
  Bool-cases, str_eq_iff, inr, inl,
}

-- The results that are counted under a key, in order.
abbrev pub matching : Text → List LoadResult → List LoadResult
matching k [] = []
matching k (r ∷ rs) = if str_eq (key_of r) k then r ∷ matching k rs else matching k rs

-- How many of them have no error.
abbrev pub ok_count : List LoadResult → ℕ
ok_count [] = 0
ok_count (r ∷ rs) = if is_empty r.failure then suc (ok_count rs) else ok_count rs

-- The row that the results of one adapter make.
abbrev pub row_of : List LoadResult → Option AdapterStats
row_of [] = none
row_of (r ∷ rs) = some (record {
  count = length (r ∷ rs);
  successes = ok_count (r ∷ rs);
  errors = length (r ∷ rs) - ok_count (r ∷ rs);
  latencies = latencies_of (r ∷ rs);
})

ok_count_bound : (rs : List LoadResult) → ok_count rs ≤ length rs
ok_count_bound [] = omega arith
ok_count_bound (r ∷ rs) = ground (arith, ok_count_bound rs)

ok_count-snoc :
    (rs : List LoadResult) (r : LoadResult)
    → ok_count (rs ++ r ∷ []) ≡ (if is_empty r.failure then suc (ok_count rs) else ok_count rs)
ok_count-snoc [] r = refl
ok_count-snoc (q ∷ rs) r = ground (arith, ok_count-snoc rs r)

latencies_of-snoc :
    (rs : List LoadResult) (r : LoadResult)
    → latencies_of (rs ++ r ∷ []) ≡ latencies_of rs ++ r.latency ∷ []
unfolding latencies_of
latencies_of-snoc [] r = refl
latencies_of-snoc (q ∷ rs) r = ap (λ ls. q.latency ∷ ls) (latencies_of-snoc rs r)

matching-snoc :
    (k : Text) (rs : List LoadResult) (r : LoadResult)
    → matching k (rs ++ r ∷ [])
      ≡ (if str_eq (key_of r) k then matching k rs ++ r ∷ [] else matching k rs)
matching-snoc k [] r = refl
matching-snoc k (q ∷ rs) r = ground (arith, matching-snoc k rs r)

stats_eq :
    (a b : AdapterStats)
    → a.count ≡ b.count
    → a.successes ≡ b.successes
    → a.errors ≡ b.errors
    → a.latencies ≡ b.latencies
    → a ≡ b
stats_eq a b ec es ee el =
    λ i. record { count = ec i; successes = es i; errors = ee i; latencies = el i }

row_of-snoc :
    (rs : List LoadResult) (r : LoadResult)
    → row_of (rs ++ r ∷ []) ≡ some (count_in r (or_new (row_of rs)))
unfolding count_in or_new latencies_of
row_of-snoc [] r = ap some (stats_eq _ (count_in r (or_new none)) refl refl (ground arith) refl)
row_of-snoc (q ∷ rs) r =
    let ks = ok_count-snoc (q ∷ rs) r in
    let ls = length-append (q ∷ rs) (r ∷ []) in
    ap some (
      stats_eq _ (count_in r (or_new (row_of (q ∷ rs)))) (omega (arith, ls)) ks
        (ground (arith, ks, ls, ok_count_bound (q ∷ rs))) (latencies_of-snoc (q ∷ rs) r))

-- What the counters say of the results that were counted.
pub record Counts (t : Tally) (rs : List LoadResult) : Type 0 where
  pub successes-ok_count : t.successes ≡ ok_count rs
  pub total : t.successes + t.errors ≡ length rs
  pub lookup-row_of : (k : Text) → Dict.lookup k t.by_adapter ≡ row_of (matching k rs)

add_result-Counts :
    (t : Tally) (seen : List LoadResult) (r : LoadResult)
    → Counts t seen
    → Counts (add_result t r) (seen ++ r ∷ [])
unfolding add_result
add_result-Counts t seen r c = record {
  successes-ok_count = ground (arith, c.successes-ok_count, ok_count-snoc seen r);
  total = ground (arith, c.total, length-append seen (r ∷ []));
  lookup-row_of = λ k.
      rw (lookup-insert (key_of r) k, matching-snoc k seen r)
        (elim (Bool-cases (str_eq (key_of r) k)) [
          | inl e ↦ rw e (
              rw (c.lookup-row_of (key_of r), (str_eq_iff (key_of r) k).0 e)
                (sym (row_of-snoc (matching k seen) r)))
          | inr e ↦ rw e (c.lookup-row_of k)
        ]);
}

add_results-Counts :
    (t : Tally) (seen rs : List LoadResult) → Counts t seen → Counts (add_results t rs) (seen ++ rs)
unfolding add_results
add_results-Counts t seen [] c = rw append-nil c
add_results-Counts t seen (r ∷ rs) c =
    rw (← append_assoc seen (r ∷ []) rs)
      (add_results-Counts (add_result t r) (seen ++ r ∷ []) rs (add_result-Counts t seen r c))

-- The report counts each result once: successes and errors add up to the number of results, and the row of an adapter
-- is there exactly if it has results, and has their number, successes, errors and latencies, in the order of arrival.
pub tally-Counts : (rs : List LoadResult) → Counts (tally rs) rs
unfolding tally Dict.lookup
tally-Counts rs =
    add_results-Counts _ [] rs
      (record { successes-ok_count = refl; total = refl; lookup-row_of = λ k. refl })
