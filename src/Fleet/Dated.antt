-- ===== src/Fleet/Dated.antt =====
-- The two readers of the newest samples describe the same metrics.
use wizteros.Common.{
  leb, nat_eq, if◌then◌else◌, is_some, keep, any, lookup, insert, lookup-insert, last_of,
  lookup-from_entries, ℕ, String, ◌≡◌, refl, sym, ap, ◌∙◌, Bool, true, false, ◌&&◌, Option, none,
  some, List, [], ◌∷◌, map, arith, ◌==◌, eq_iff,
}
use wizteros.Fleet.Samples.{
  Sample, larger_of, newest_at, is_seen, is_newest, latest, group_newest, metric_ages,
}

abbrev floored : (since : ℕ) → Option ℕ → Option ℕ
floored since none = none
floored since (some n) = if leb since n then some n else none

abbrev later_of : Option ℕ → Option ℕ → Option ℕ
later_of none n = n
later_of (some m) n = some (larger_of m n)

module _ {V : Type 0} where
  abbrev is_own : (target metric : String) → Sample V → Bool
  is_own target metric r = r.target == target && r.metric == metric

  newest_at-seen :
      (target metric : String) (since : ℕ) (rows : List (Sample V))
      → newest_at target metric (keep (is_seen target since) rows)
        ≡ floored since (newest_at target metric rows)
  unfolding newest_at
  newest_at-seen target metric since [] = refl
  newest_at-seen target metric since (r ∷ rows) =
      ground (arith, newest_at-seen target metric since rows)

  lookup-group_newest :
      (target metric : String) (since : ℕ) (ages : List (String × ℕ)) (rows : List (Sample V))
      → lookup metric (group_newest ages (keep (is_seen target since) rows))
        ≡ later_of (lookup metric ages) (newest_at target metric (keep (is_seen target since) rows))
  unfolding group_newest newest_at
  lookup-group_newest target metric since ages [] = ground arith
  lookup-group_newest target metric since ages (r ∷ rows) =
      let ages' = insert r.metric (larger_of r.at (lookup r.metric ages)) ages in
      ground (
        arith,
        lookup-group_newest target metric since ages rows,
        lookup-group_newest target metric since ages' rows,
        lookup-insert r.metric metric (larger_of r.at (lookup r.metric ages)) ages,
        eq_iff r.metric metric,
      )

  -- The age of a metric is the instant of its newest sample, if that is not before the floor.
  pub metric_ages_lem :
      (target metric : String) (since : ℕ) (rows : List (Sample V))
      → lookup metric (metric_ages target since rows) ≡ floored since (newest_at target metric rows)
  unfolding metric_ages lookup
  metric_ages_lem target metric since rows =
      rw (lookup-group_newest target metric since [] rows, newest_at-seen target metric since rows)
        refl

  last_of-value :
      (metric : String) (p : Sample V → Bool) (rows : List (Sample V))
      → is_some (last_of metric (map (λ r. (r.metric, r.value)) (keep p rows)))
        ≡ any (λ r. p r && r.metric == metric) rows
  unfolding last_of
  last_of-value metric p [] = refl
  last_of-value metric p (r ∷ rows) = ground (arith, last_of-value metric p rows)

  newest_at-any :
      (target metric : String) (n : ℕ) (rows : List (Sample V))
      → newest_at target metric rows ≡ some n
      → any (λ r. is_own target metric r && nat_eq r.at n) rows ≡ true
  unfolding newest_at
  newest_at-any target metric n [] e = absurd (cc e)
  newest_at-any target metric n (r ∷ rows) e = ground (arith, newest_at-any target metric n rows)

  -- The newest sample of its metric, seen since the floor, by what the newest instant is.
  is_newest_own :
      (target metric : String) (since : ℕ) (rows : List (Sample V)) (r : Sample V)
      → ((is_seen target since r && is_newest rows r) && r.metric == metric) ≡ (
          is_own target metric r && elim (newest_at target metric rows) [
            | none ↦ false
            | some n ↦ nat_eq r.at n && leb since n
          ])
  unfolding is_newest
  is_newest_own target metric since rows r =
      ground (arith, eq_iff r.target target, eq_iff r.metric metric)

  any-newest :
      (target metric : String) (since : ℕ) (whole rows : List (Sample V))
      → any (λ r. (is_seen target since r && is_newest whole r) && r.metric == metric) rows
        ≡ elim (newest_at target metric whole) [
          | none ↦ false
          | some n ↦ any (λ r. is_own target metric r && nat_eq r.at n) rows && leb since n
        ]
  any-newest target metric since whole [] = ground arith
  any-newest target metric since whole (r ∷ rows) =
      ground (
        arith,
        any-newest target metric since whole rows,
        is_newest_own target metric since whole r,
      )

  -- A target's latest values and their ages are given of the same metrics: whatever the table holds, no
  -- value is shown that cannot be dated, and no age without a value.
  pub latest-metric_ages :
      (target metric : String) (since : ℕ) (rows : List (Sample V))
      → is_some (lookup metric (latest target since rows))
        ≡ is_some (lookup metric (metric_ages target since rows))
  unfolding latest
  latest-metric_ages target metric since rows =
      let shown = keep (λ r. is_seen target since r && is_newest rows r) rows in
      ap is_some (lookup-from_entries metric (map (λ r. (r.metric, r.value)) shown))
      ∙ last_of-value metric (λ r. is_seen target since r && is_newest rows r) rows
      ∙ any-newest target metric since rows rows
      ∙ newest_cases (newest_at target metric rows) refl
      ∙ sym (ap is_some (metric_ages_lem target metric since rows))
    where
      newest_cases :
          (o : Option ℕ)
          → newest_at target metric rows ≡ o
          → elim o [
            | none ↦ false
            | some n ↦ any (λ r. is_own target metric r && nat_eq r.at n) rows && leb since n
          ]
            ≡ is_some (floored since o)
      newest_cases none e = refl
      newest_cases (some n) e = ground (arith, newest_at-any target metric n rows e)
