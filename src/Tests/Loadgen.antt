-- ===== src/Tests/Loadgen.antt =====
-- The load generator: its list of adapters, one request, and a report on three.
use loraplex.Go.Decimal.{decimal, digits_before}
use loraplex.Go.Dict
use loraplex.Go.Sort
use loraplex.Go.Sort.{by_insertion, insertion_sort}
use loraplex.Go.Trim.{trim_space, trim_left}
use loraplex.Loadgen.{
  LoadResult, percentiles, split_non_empty, split_trimmed, trunc_list, join_with, report, tally,
  add_results, add_result, count_in, or_new, key_of, latencies_of, fast_count, printed, short_name,
  percentile, itself, missing_to,
}
use loraplex.Loadgen.Totals.{Counts, tally-Counts}
use loraplex.Prelude.{
  Text, ℕ, ◌/◌, false, some, codes, ◌∷◌, str_eq, ◌*◌, List, is_empty, ◌≡◌, refl, [],
}

listed : split_non_empty (codes " a, ,b ,") ≡ codes "a" ∷ codes "b" ∷ []
unfolding split_non_empty split_trimmed trim_space trim_left is_empty
listed = refl

cut : trunc_list (codes "a" ∷ codes "b" ∷ codes "c" ∷ []) 2 ≡ codes "a, b, ... +1 more"
unfolding trunc_list join_with decimal digits_before
cut = refl

abbrev good : Text → ℕ → LoadResult
good adapter latency = record {
  adapter = adapter;
  latency = latency;
  status_code = 200;
  failure = [];
  passthrough = false;
}

abbrev bad : LoadResult
bad = record (good (codes "a") 300_000_000) { status_code = 503; failure = codes "http 503" }

abbrev results : List LoadResult
results = good (codes "b") 20 ∷ bad ∷ good (codes "a") 10 ∷ []

reported :
    report (λ n p. n * p / 100) (by_insertion itself) (λ n. by_insertion (missing_to n)) results
    ≡ some (record {
      total = 3;
      successes = 2;
      errors = 1;
      overall = record { p50 = 20; p95 = 300_000_000; p99 = 300_000_000 };
      min = 10;
      max = 300_000_000;
      fast = 2;
      rows =
          (
            (
              codes "a",
              record { count = 2; successes = 1; errors = 1; latencies = 10 ∷ 300_000_000 ∷ [] },
            ),
            record { p50 = 300_000_000; p95 = 300_000_000; p99 = 300_000_000 },
          )
          ∷ (
            (codes "b", record { count = 1; successes = 1; errors = 0; latencies = 20 ∷ [] }),
            record { p50 = 20; p95 = 20; p99 = 20 },
          )
          ∷ [];
    })
unfolding report tally add_results add_result count_in or_new key_of latencies_of fast_count printed
    short_name percentiles percentile insertion_sort Sort.insert Dict.insert Dict.lookup str_eq
    is_empty
reported = refl

-- The 95th percentile of three.
high : percentile (λ n. n * 95 / 100) (10 ∷ 20 ∷ 300 ∷ []) ≡ 300
unfolding percentile
high = refl

tally-Counts_example : Counts (tally results) results
tally-Counts_example = tally-Counts results
