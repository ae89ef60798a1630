-- ===== src/Fleet/Families.antt =====
-- One query for a family of metrics reads what a query for each metric reads.
use wizteros.Common.{
  if◌then◌else◌, or_else, Bool-cases, is_empty, keep, All, contains, All-keep_self, lookup, insert,
  lookup-insert, insert_by, sort_by, All-sort_by, keep-sort_by, str_le_trans, str_le_total,
  str_le_antisym, ℕ, String, ◌≡◌, refl, ap, ◌∙◌, inl, inr, Bool, true, false, not, ◌&&◌, none, some,
  List, [], ◌∷◌, ◌++◌, map, append_assoc, arith, ◌==◌, eq_iff,
}
use wizteros.Fleet.Samples.{
  Sample, is_seen, by_instant, by_metric, series, grouped_from, metric_series,
}

module _ {V : Type 0} where
  by_metric_asymmetric : (a b : Sample V) → by_metric a b ≡ true → by_metric b a ≡ false
  by_metric_asymmetric a b h = ground (
    arith,
    str_le_total a.metric b.metric,
    str_le_total b.metric a.metric,
    eq_iff a.metric b.metric,
    eq_iff b.metric a.metric,
  )

  by_metric_steady :
      (a b c : Sample V) → by_metric b a ≡ false → by_metric c b ≡ false → by_metric c a ≡ false
  by_metric_steady a b c h k = ground (
    arith,
    str_le_trans a.metric b.metric c.metric,
    str_le_antisym a.metric b.metric,
    str_le_antisym b.metric c.metric,
    eq_iff b.metric a.metric,
    eq_iff c.metric b.metric,
    eq_iff c.metric a.metric,
  )

  abbrev is_of : String → Sample V → Bool
  is_of metric r = r.metric == metric

  points_of : List (Sample V) → List (ℕ × V)
  points_of rows = map (λ r. (r.at, r.value)) rows

  by_metric-by_instant :
      (metric : String) (a b : Sample V)
      → is_of metric a ≡ true
      → is_of metric b ≡ true
      → by_metric a b ≡ by_instant a b
  by_metric-by_instant metric a b h k = ground (
    arith,
    eq_iff a.metric metric,
    eq_iff b.metric metric,
    eq_iff a.metric b.metric,
    str_le_total b.metric a.metric,
  )

  insert_by-by_instant :
      (metric : String) (r : Sample V) (rows : List (Sample V))
      → is_of metric r ≡ true
      → All (λ q. is_of metric q ≡ true) rows
      → insert_by by_metric r rows ≡ insert_by by_instant r rows
  unfolding insert_by
  insert_by-by_instant metric r [] h hs = refl
  insert_by-by_instant metric r (q ∷ rows) h (k, hs) =
      rw (by_metric-by_instant metric q r k h, insert_by-by_instant metric r rows h hs) refl

  sort_by-by_instant :
      (metric : String) (rows : List (Sample V))
      → All (λ q. is_of metric q ≡ true) rows
      → sort_by by_metric rows ≡ sort_by by_instant rows
  unfolding sort_by
  sort_by-by_instant metric [] h = refl
  sort_by-by_instant metric (r ∷ rows) (h, hs) =
      ap (insert_by by_metric r) (sort_by-by_instant metric rows hs)
      ∙ insert_by-by_instant metric r (sort_by by_instant rows) h
          (All-sort_by by_instant (λ q. is_of metric q ≡ true) rows hs)

  extended :
      (held : List (ℕ × V)) (r : Sample V) (rows : List (Sample V))
      → (if is_empty rows
          then some (held ++ (r.at, r.value) ∷ [])
          else some ((held ++ (r.at, r.value) ∷ []) ++ points_of rows))
        ≡ some (held ++ (r.at, r.value) ∷ points_of rows)
  unfolding points_of
  extended held r [] = refl
  extended held r (q ∷ rows) =
      ap some (append_assoc held ((r.at, r.value) ∷ []) (points_of (q ∷ rows)))

  lookup-grouped :
      (metric : String) (points : List (String × List (ℕ × V))) (rows : List (Sample V))
      → lookup metric (grouped_from points rows) ≡ (
          if is_empty (keep (is_of metric) rows)
          then lookup metric points
          else some (or_else (lookup metric points) [] ++ points_of (keep (is_of metric) rows)))
  unfolding grouped_from points_of
  lookup-grouped metric points [] = refl
  lookup-grouped metric points (r ∷ rows) =
      let held = or_else (lookup r.metric points) [] ++ (r.at, r.value) ∷ [] in
      lookup-grouped metric (insert r.metric held points) rows
      ∙ rw (lookup-insert r.metric metric held points) (elim (Bool-cases (is_of metric r)) [
        | inl same ↦
            let name : r.metric ≡ metric = (eq_iff r.metric metric).0 same in
            rw (same, ap (λ k. lookup k points) name)
              (extended (or_else (lookup metric points) []) r (keep (is_of metric) rows))
        | inr other ↦ rw other refl
      ])

  family_own :
      (target metric : String) (metrics : List String) (since : ℕ) (rows : List (Sample V))
      → keep (is_of metric) (keep (λ r. is_seen target since r && contains metrics r.metric) rows)
        ≡ (if contains metrics metric
            then keep (λ r. is_seen target since r && is_of metric r) rows
            else [])
  family_own target metric metrics since [] = ground arith
  family_own target metric metrics since (r ∷ rows) =
      let rest = family_own target metric metrics since rows in
      elim (Bool-cases (is_of metric r)) [
        | inl same ↦
            let name : contains metrics r.metric ≡ contains metrics metric =
              ap (contains metrics) ((eq_iff r.metric metric).0 same) in
            rw name (ground (arith, rest, same))
        | inr other ↦ ground (arith, rest, other)
      ]

  read_points :
      (rows : List (Sample V))
      → (if is_empty rows then none else some ([] ++ points_of rows))
        ≡ (if not (is_empty (points_of rows)) then some (points_of rows) else none)
  unfolding points_of
  read_points [] = refl
  read_points (r ∷ rows) = refl

  asked_points :
      (asked : Bool) (rows own : List (Sample V))
      → own ≡ (if asked then rows else [])
      → (if is_empty (sort_by by_instant own)
          then none
          else some ([] ++ points_of (sort_by by_instant own)))
        ≡ (if asked && not (is_empty (points_of (sort_by by_instant rows)))
            then some (points_of (sort_by by_instant rows))
            else none)
  unfolding sort_by
  asked_points true rows own e = rw e (read_points (sort_by by_instant rows))
  asked_points false rows own e = rw e refl

  -- A family's query gives each metric it asks for, if the window holds any of it, the series that the
  -- query for that metric alone gives, and nothing of other metrics.
  pub metric_series-series :
      (target metric : String) (metrics : List String) (since : ℕ) (rows : List (Sample V))
      → lookup metric (metric_series target metrics since rows) ≡ (
          if contains metrics metric && not (is_empty (series target metric since rows))
          then some (series target metric since rows)
          else none)
  unfolding metric_series series points_of lookup sort_by
  metric_series-series target metric [] since rows = refl
  metric_series-series target metric (m ∷ metrics) since rows =
      let family = keep (λ r. is_seen target since r && contains (m ∷ metrics) r.metric) rows in
      let own = keep (is_of metric) family in
      let read : keep (is_of metric) (sort_by by_metric family) ≡ sort_by by_instant own =
        keep-sort_by by_metric by_metric_asymmetric by_metric_steady (is_of metric) family
        ∙ sort_by-by_instant metric own (All-keep_self (is_of metric) family) in
      lookup-grouped metric [] (sort_by by_metric family)
      ∙ rw read (
          asked_points (contains (m ∷ metrics) metric)
            (keep (λ r. is_seen target since r && is_of metric r) rows) own
            (family_own target metric (m ∷ metrics) since rows))
