-- ===== src/Loadgen.antt =====
-- cmd/loadgen/main.go: one request of the load generator, and the report on what was measured. Latencies are
-- nanoseconds; what depends on float64 is a parameter, and the layout of the printed lines is left out.
pub mod Totals
use loraplex.Go.Decimal.{decimal}
use loraplex.Go.Dict
use loraplex.Go.Dict.{Dict}
use loraplex.Go.Http.{HttpClient, HttpRequest}
use loraplex.Go.Sort.{Sorter}
use loraplex.Go.Trim.{trim_space}
use loraplex.Prelude.{
  Text, ◌∷◌, get_elem?, some, ◌==◌, ltb, ◌-◌, List, ℕ, suc, none, if◌then◌else◌, [], leb, take,
  Option, is_empty, codes, drop, length, Bool, ◌++◌, false,
}

pub record LoadResult : Type 0 where
  pub adapter : Text
  pub latency : ℕ
  pub status_code : ℕ
  pub failure : Text
  pub passthrough : Bool

pub record AdapterStats : Type 0 where
  pub count : ℕ
  pub successes : ℕ
  pub errors : ℕ
  pub latencies : List ℕ

-- `splitNonEmpty(s, ",")`: `p` is the part that is being read.
unfoldable pub split_trimmed : Text → Text → List Text
split_trimmed p [] = let t = trim_space p in if is_empty t then [] else t ∷ []
split_trimmed p (c ∷ s) =
    let t = trim_space p in
    let next = split_trimmed [] s in
    let more = split_trimmed (p ++ c ∷ []) s in
    if c == b',' then (if is_empty t then next else t ∷ next) else more

unfoldable pub split_non_empty : Text → List Text
split_non_empty s = split_trimmed [] s

unfoldable pub join_with : Text → List Text → Text
join_with sep [] = []
join_with sep (x ∷ []) = x
join_with sep (x ∷ y ∷ xs) = x ++ sep ++ join_with sep (y ∷ xs)

unfoldable pub trunc_list : List Text → ℕ → Text
trunc_list items max =
    if leb (length items) max
    then join_with (codes ", ") items
    else join_with (codes ", ") (take max items)
      ++ codes ", ... +"
      ++ decimal (length items - max)
      ++ codes " more"

-- `sendRequest`: `marshal` gives the JSON of the body for a model and a number of tokens, `why` the text of an error of
-- the transport, and `latency` is what has passed on the clock.
unfoldable pub send_request :
    HttpClient → (Text → ℕ → Text) → (HttpRequest → Text) → Text → Text → ℕ → ℕ → LoadResult
send_request client marshal why target model max_tokens latency =
    let req : HttpRequest = record {
      method = codes "POST";
      url = target ++ codes "/v1/chat/completions";
      headers = (codes "Content-Type", codes "application/json" ∷ []) ∷ [];
      body = marshal model max_tokens;
    } in
    let sent = if client.can_request req.method req.url then client.send req else none in
    elim sent [
      | none ↦ record {
        adapter = model;
        latency = latency;
        status_code = 0;
        failure = why req;
        passthrough = false;
      }
      | some resp ↦ record {
        adapter = model;
        latency = latency;
        status_code = resp.status;
        failure = if leb 400 resp.status then codes "http " ++ decimal resp.status else [];
        passthrough = false;
      }
    ]

-- The counters of `printReport`.
pub record Tally : Type 0 where
  pub successes : ℕ
  pub errors : ℕ
  pub by_adapter : Dict AdapterStats

unfoldable pub key_of : LoadResult → Text
key_of r = if r.passthrough then codes "(passthrough)" else r.adapter

unfoldable pub or_new : Option AdapterStats → AdapterStats
or_new none = record { count = 0; successes = 0; errors = 0; latencies = [] }
or_new (some s) = s

unfoldable pub count_in : LoadResult → AdapterStats → AdapterStats
count_in r s = record {
  count = suc s.count;
  successes = if is_empty r.failure then suc s.successes else s.successes;
  errors = if is_empty r.failure then s.errors else suc s.errors;
  latencies = s.latencies ++ r.latency ∷ [];
}

-- One round of the loop; the stats are reached by a pointer, so that the map has what was counted.
unfoldable pub add_result : Tally → LoadResult → Tally
add_result t r =
    let key = key_of r in
    record {
      successes = if is_empty r.failure then suc t.successes else t.successes;
      errors = if is_empty r.failure then t.errors else suc t.errors;
      by_adapter =
          Dict.insert key (count_in r (or_new (Dict.lookup key t.by_adapter))) t.by_adapter;
    }

unfoldable pub add_results : Tally → List LoadResult → Tally
add_results t [] = t
add_results t (r ∷ rs) = add_results (add_result t r) rs

unfoldable pub tally : List LoadResult → Tally
tally rs = add_results (record { successes = 0; errors = 0; by_adapter = [] }) rs

unfoldable pub latencies_of : List LoadResult → List ℕ
latencies_of [] = []
latencies_of (r ∷ rs) = r.latency ∷ latencies_of rs

-- `index n` is `int(float64(n) * p)`.
unfoldable pub percentile : (ℕ → ℕ) → List ℕ → ℕ
percentile index sorted =
    let n = length sorted in
    let idx = index n in
    elim (get_elem? sorted (if leb n idx then n - 1 else idx)) [ none ↦ 0 | some l ↦ l ]

-- Below 100 milliseconds
unfoldable pub fast_count : List ℕ → ℕ
fast_count [] = 0
fast_count (l ∷ ls) = let rest = fast_count ls in if ltb l 100_000_000 then suc rest else rest

-- A name of more than 55 bytes is cut at the front.
unfoldable pub short_name : Text → Text
short_name name = if ltb 55 (length name) then codes "..." ++ drop (length name - 52) name else name

abbrev pub Row : Type 0
Row = Text × AdapterStats

-- Ascending in this key is descending in the count, if no count is above `n`.
abbrev pub missing_to : ℕ → Row → ℕ
missing_to n row = n - row.1.count

abbrev pub itself : ℕ → ℕ
itself l = l

-- The percentiles that are printed; `index n p` is `int(float64(n) * p)` for `p` in hundredths.
pub record Percentiles : Type 0 where
  pub p50 : ℕ
  pub p95 : ℕ
  pub p99 : ℕ

-- What `printReport` prints, but for the shares and the throughput, which are float64: the totals, the latencies, and a
-- row for each adapter.
pub record Report : Type 0 where
  pub total : ℕ
  pub successes : ℕ
  pub errors : ℕ
  pub overall : Percentiles
  pub min : ℕ
  pub max : ℕ
  pub fast : ℕ
  pub rows : List (Row × Percentiles)

module _ (index : ℕ → ℕ → ℕ) (sorter : Sorter itself) where
  unfoldable pub percentiles : List ℕ → Percentiles
  percentiles sorted = record {
    p50 = percentile (λ n. index n 50) sorted;
    p95 = percentile (λ n. index n 95) sorted;
    p99 = percentile (λ n. index n 99) sorted;
  }

  unfoldable pub printed : List Row → List (Row × Percentiles)
  printed [] = []
  printed ((k, s) ∷ rows) =
      let sorted = sorter.sort s.latencies in
      ((short_name k, record s { latencies = sorted }), percentiles sorted) ∷ printed rows

  unfoldable pub report : ((n : ℕ) → Sorter (missing_to n)) → List LoadResult → Option Report
  report row_sorter [] = none
  report row_sorter (r ∷ rs) =
      let t = tally (r ∷ rs) in
      let all = sorter.sort (latencies_of (r ∷ rs)) in
      some (record {
        total = length (r ∷ rs);
        successes = t.successes;
        errors = t.errors;
        overall = percentiles all;
        min = elim (get_elem? all 0) [ none ↦ 0 | some l ↦ l ];
        max = elim (get_elem? all (length all - 1)) [ none ↦ 0 | some l ↦ l ];
        fast = fast_count all;
        rows = printed ((row_sorter (length (r ∷ rs))).sort t.by_adapter);
      })
