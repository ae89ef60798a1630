-- ===== src/Fleet/Pruned.antt =====
-- What the retention drops, no reader within its window misses.
use wizteros.Common.{
  leb, if◌then◌else◌, keep, contains, from_entries, sort_by, ℕ, ◌-◌, ◌≤◌, String, ◌≡◌, refl, ap,
  Bool, ◌&&◌, none, some, List, [], ◌∷◌, map, arith, ◌==◌,
}
use wizteros.Fleet.Samples.{
  Sample, retention, newest_at, is_seen, is_newest, latest, group_newest, metric_ages, by_instant,
  by_metric, series, grouped_from, metric_series, prune,
}

module _ {V : Type 0} where
  keep_both :
      (p q both : Sample V → Bool) (rows : List (Sample V))
      → ((r : Sample V) → (q r && p r) ≡ both r)
      → keep p (keep q rows) ≡ keep both rows
  keep_both p q both [] h = refl
  keep_both p q both (r ∷ rows) h = ground (arith, keep_both p q both rows h, h r)

  abbrev is_kept : (at : ℕ) → Sample V → Bool
  is_kept at r = leb (at - retention) r.at

  seen_kept :
      (target : String) (since at : ℕ) (r : Sample V)
      → at - retention ≤ since
      → (is_kept at r && is_seen target since r) ≡ is_seen target since r
  seen_kept target since at r h = ground arith

  newest_at-prune :
      (target metric : String) (at : ℕ) (rows : List (Sample V))
      → newest_at target metric (keep (is_kept at) rows) ≡ elim (newest_at target metric rows) [
        | none ↦ none
        | some n ↦ if leb (at - retention) n then some n else none
      ]
  unfolding newest_at
  newest_at-prune target metric at [] = refl
  newest_at-prune target metric at (r ∷ rows) =
      ground (arith, newest_at-prune target metric at rows)

  is_newest-prune :
      (target : String) (since at : ℕ) (rows : List (Sample V)) (r : Sample V)
      → at - retention ≤ since
      → (is_kept at r && (is_seen target since r && is_newest (keep (is_kept at) rows) r))
        ≡ (is_seen target since r && is_newest rows r)
  unfolding is_newest
  is_newest-prune target since at rows r h =
      ground (arith, newest_at-prune r.target r.metric at rows)

  keep-prune :
      (target : String) (p : Sample V → Bool) (since at : ℕ) (rows : List (Sample V))
      → at - retention ≤ since
      → keep (λ r. is_seen target since r && p r) (keep (is_kept at) rows)
        ≡ keep (λ r. is_seen target since r && p r) rows
  keep-prune target p since at rows h =
      keep_both (λ r. is_seen target since r && p r) (is_kept at)
        (λ r. is_seen target since r && p r) rows
        (λ r. ground (arith, seen_kept target since at r h))

  metric_series-prune :
      (target : String) (metrics : List String) (since at : ℕ) (rows : List (Sample V))
      → at - retention ≤ since
      → metric_series target metrics since (keep (is_kept at) rows)
        ≡ metric_series target metrics since rows
  unfolding metric_series
  metric_series-prune target [] since at rows h = refl
  metric_series-prune target (m ∷ metrics) since at rows h =
      ap (λ kept. grouped_from [] (sort_by by_metric kept))
        (keep-prune target (λ r. contains (m ∷ metrics) r.metric) since at rows h)

  -- Pruning changes no answer: for a window within the retention, the latest values, their ages, one
  -- metric's series and a family's series are read the same before and after.
  pub prune-reads :
      (target metric : String) (metrics : List String) (since at : ℕ) (rows : List (Sample V))
      → at - retention ≤ since
      → (latest target since (prune at rows).0 ≡ latest target since rows)
        × (metric_ages target since (prune at rows).0 ≡ metric_ages target since rows)
        × (series target metric since (prune at rows).0 ≡ series target metric since rows)
        × (metric_series target metrics since (prune at rows).0
            ≡ metric_series target metrics since rows)
  unfolding latest metric_ages series metric_series prune
  prune-reads target metric metrics since at rows h = (
    ap (λ kept. from_entries (map (λ r. (r.metric, r.value)) kept))
        (keep_both _ (is_kept at) _ rows (λ r. is_newest-prune target since at rows r h)),
    ap (group_newest []) (
        keep_both (is_seen target since) (is_kept at) (is_seen target since) rows
          (λ r. seen_kept target since at r h)),
    ap (λ kept. map (λ r. (r.at, r.value)) (sort_by by_instant kept))
        (keep-prune target (λ r. r.metric == metric) since at rows h),
    metric_series-prune target metrics since at rows h,
  )
