-- ===== src/Fleet/Samples.antt =====
-- apps/fleet-monitor/src/store.ts: the table of samples, its readers, rates and retention. A value is
-- of any type, since the readers only pass it on; rates are taken of whole counters.
use wizteros.Common.{
  ltb, leb, nat_eq, if◌then◌else◌, or_else, to_list, length, keep, contains, lookup, insert,
  from_entries, sort_by, str_le, ℕ, ◌-◌, ◌*◌, String, Bool, false, not, ◌&&◌, ◌||◌, Option, none,
  some, List, [], ◌∷◌, ◌++◌, map, ◌==◌,
}

-- A row of `samples`.
pub record Sample (V : Type 0) : Type 0 where
  pub target : String
  pub metric : String
  pub at : ℕ
  pub value : V

-- `SAMPLE_RETENTION_SECONDS`, in milliseconds
abbrev pub retention : ℕ
retention = 7 * 86_400 * 1_000

abbrev pub larger_of : ℕ → Option ℕ → ℕ
larger_of n none = n
larger_of n (some m) = if ltb n m then m else n

module _ {V : Type 0} where
  -- `writeSamples`: the readings of one tick, and how many there are.
  unfoldable pub write_samples :
      (target : String) → (at : ℕ) → List (String × V) → List (Sample V) → List (Sample V) × ℕ
  write_samples target at samples rows = (
    rows ++ map (λ s. record { target = target; metric = s.0; at = at; value = s.1 }) samples,
    length samples,
  )

  -- `SELECT MAX(at)` of a metric
  unfoldable pub newest_at : (target metric : String) → List (Sample V) → Option ℕ
  newest_at target metric [] = none
  newest_at target metric (r ∷ rows) =
      let rest = newest_at target metric rows in
      if r.target == target && r.metric == metric then some (larger_of r.at rest) else rest

  abbrev pub is_seen : (target : String) → (since : ℕ) → Sample V → Bool
  is_seen target since r = r.target == target && leb since r.at

  -- `at = (SELECT MAX(at) …)`
  unfoldable pub is_newest : List (Sample V) → Sample V → Bool
  unfolding newest_at
  is_newest rows r = elim (newest_at r.target r.metric rows) [
    | none ↦ false
    | some n ↦ nat_eq r.at n
  ]

  -- `latest`
  unfoldable pub latest : (target : String) → (since : ℕ) → List (Sample V) → List (String × V)
  unfolding is_newest from_entries
  latest target since rows =
      from_entries (
        map (λ r. (r.metric, r.value))
          (keep (λ r. is_seen target since r && is_newest rows r) rows))

  -- `MAX(at) … GROUP BY metric`
  unfoldable pub group_newest : List (String × ℕ) → List (Sample V) → List (String × ℕ)
  unfolding insert lookup
  group_newest ages [] = ages
  group_newest ages (r ∷ rows) =
      group_newest (insert r.metric (larger_of r.at (lookup r.metric ages)) ages) rows

  -- `metricAges`
  unfoldable pub metric_ages : (target : String) → (since : ℕ) → List (Sample V) → List (String × ℕ)
  unfolding group_newest
  metric_ages target since rows = group_newest [] (keep (is_seen target since) rows)

  -- `ORDER BY at`, and `ORDER BY metric, at`
  abbrev pub by_instant : Sample V → Sample V → Bool
  by_instant a b = ltb a.at b.at

  abbrev pub by_metric : Sample V → Sample V → Bool
  by_metric a b = not (str_le b.metric a.metric) || (a.metric == b.metric && ltb a.at b.at)

  -- `series`
  unfoldable pub series : (target metric : String) → (since : ℕ) → List (Sample V) → List (ℕ × V)
  unfolding sort_by
  series target metric since rows =
      map (λ r. (r.at, r.value))
        (sort_by by_instant (keep (λ r. is_seen target since r && r.metric == metric) rows))

  -- `grouped`
  unfoldable pub grouped_from :
      List (String × List (ℕ × V)) → List (Sample V) → List (String × List (ℕ × V))
  unfolding insert lookup
  grouped_from points [] = points
  grouped_from points (r ∷ rows) =
      let before = or_else (lookup r.metric points) [] in
      grouped_from (insert r.metric (before ++ (r.at, r.value) ∷ []) points) rows

  -- `metricSeries`
  unfoldable pub metric_series :
      (target : String)
      → (metrics : List String) → (since : ℕ) → List (Sample V)
      → List (String × List (ℕ × V))
  unfolding sort_by grouped_from
  metric_series target [] since rows = []
  metric_series target (m ∷ metrics) since rows = grouped_from [] (
      sort_by by_metric
        (keep (λ r. is_seen target since r && contains (m ∷ metrics) r.metric) rows))

  -- `prune`: what is left, and how many rows went.
  unfoldable pub prune : (at : ℕ) → List (Sample V) → List (Sample V) × ℕ
  prune at rows =
      let kept = keep (λ r. leb (at - retention) r.at) rows in (kept, length rows - length kept)

-- What a counter gained over how many milliseconds, so that a rate is exact.
pub record Rate : Type 0 where
  pub gained : ℕ
  pub elapsed : ℕ

-- `rate`
unfoldable pub rate : (previous current : ℕ × ℕ) → Option Rate
rate previous current =
    if leb current.0 previous.0 || ltb current.1 previous.1
    then none
    else some (record { gained = current.1 - previous.1; elapsed = current.0 - previous.0 })

-- `rateSeries`
unfoldable pub rate_series : List (ℕ × ℕ) → List (ℕ × Rate)
unfolding rate
rate_series [] = []
rate_series (p ∷ []) = []
rate_series (p ∷ q ∷ points) = map (λ r. (q.0, r)) (to_list (rate p q)) ++ rate_series (q ∷ points)
