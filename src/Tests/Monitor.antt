-- ===== src/Tests/Monitor.antt =====
-- Rounds of checks on two hosts.
use wizteros.Common.{
  if◌then◌else◌, is_some, length, is_empty, any, reduce, contains, lookup, insert, from_entries, ℕ,
  ◌+◌, ◌≤◌, String, ◌≡◌, refl, true, false, not, ◌&&◌, none, some, List, [], ◌∷◌, arith,
}
use wizteros.Json.{null}
use wizteros.Fleet.{
  CheckResult, Incident, FleetDb, empty_db, is_open_for, record_check, run_checks, ObservedRun,
  observed_run, uptime, payload, collect_containers, Sample, newest_at, is_newest, latest,
  metric_ages, series, metric_series, prune,
}
use wizteros.Fleet.Dated.{latest-metric_ages}
use wizteros.Fleet.Pruned.{prune-reads}
use wizteros.Fleet.Families.{metric_series-series}
use wizteros.Fleet.Sound.{IsSound, checked, fresh, after, IsSound-IsReachable}
use wizteros.Fleet.Automaton.{step, health, outcomes_of, run_checks-health}
use wizteros.Fleet.Liveness.{run_checks-settles}
use wizteros.Fleet.Observed.{IsUnbroken, instants_of, observed_run-IsUnbroken}
use wizteros.Fleet.Instants.{standing_at, up_instants, uptime-up_instants}
use wizteros.Fleet.Others.{incidents_of}
use wizteros.Fleet.Unseen.{lists_none, collect_containers-unseen}

abbrev syrax_fails : CheckResult
syrax_fails = record { target = "host:syrax"; ok = false; reason = "timeout" }

abbrev meleys_passes : CheckResult
meleys_passes = record { target = "host:meleys"; ok = true; reason = "" }

-- Two failures of one host, and a check of another between them.
abbrev round_of_checks : List (CheckResult × ℕ)
round_of_checks = (syrax_fails, 1_000) ∷ (meleys_passes, 1_000) ∷ (syrax_fails, 31_000) ∷ []

empty_db-IsSound : IsSound empty_db
empty_db-IsSound = IsSound-IsReachable fresh

run_checks-health_example :
    health "host:syrax" (run_checks 2 90 round_of_checks empty_db)
    ≡ reduce (step 2) (health "host:syrax" empty_db) (outcomes_of "host:syrax" round_of_checks)
run_checks-health_example =
    run_checks-health 2 90 "host:syrax" round_of_checks empty_db empty_db-IsSound

run_checks-settles_example :
    any (is_open_for "host:syrax") (run_checks 2 90 round_of_checks empty_db).incidents ≡ not false
run_checks-settles_example =
    run_checks-settles 2 90 "host:syrax" round_of_checks empty_db [] (omega arith) empty_db-IsSound
      false refl

one_down : FleetDb
unfolding run_checks
one_down = run_checks 2 90 round_of_checks empty_db

IsSound-IsReachable_example : IsSound (record_check 2 90 syrax_fails 1_000 empty_db).1
IsSound-IsReachable_example = IsSound-IsReachable (after fresh (checked 2 90 syrax_fails 1_000))

observed_run-IsUnbroken_example :
    IsUnbroken 90 1_000 31_000 (instants_of "host:syrax" round_of_checks [])
unfolding observed_run run_checks
observed_run-IsUnbroken_example =
    observed_run-IsUnbroken 2 90 "host:syrax" round_of_checks
      (record { since = 1_000; until = 31_000 }) refl

-- An outage that closed before the window's end.
abbrev short_outage : FleetDb
short_outage = record empty_db {
  incidents =
      record {
        id = 1;
        target = "host:syrax";
        reason = "timeout";
        opened_at = 10_000;
        closed_at = some 20_000;
      }
      ∷ [];
}

abbrev watched : ObservedRun
watched = record { since = 0; until = 60_000 }

short_outage-alone : (k : ℕ) → length (standing_at "host:syrax" short_outage.incidents k) ≤ 1
short_outage-alone k = ground arith

uptime-up_instants_example :
    (15_000 + 45_000 ≡ 60_000)
    × (40_000 ≡ up_instants "host:syrax" short_outage.incidents 15_000 45_000)
unfolding uptime
uptime-up_instants_example =
    uptime-up_instants "host:syrax" 15_000 60_000 90 40_000 45_000 watched short_outage
      short_outage-alone refl

abbrev long_outage : Incident
long_outage = record {
  id = 1;
  target = "host:syrax";
  reason = "timeout";
  opened_at = 10_000;
  closed_at = none;
}

collect_containers-unseen_example :
    (health "container:meleys/sonarr" (collect_containers 90 "meleys" (payload null) 5 empty_db).1
      ≡ health "container:meleys/sonarr" empty_db)
    × (incidents_of "container:meleys/sonarr"
          (collect_containers 90 "meleys" (payload null) 5 empty_db).1.incidents
        ≡ incidents_of "container:meleys/sonarr" empty_db.incidents)
    × (observed_run "container:meleys/sonarr"
          (collect_containers 90 "meleys" (payload null) 5 empty_db).1
        ≡ observed_run "container:meleys/sonarr" empty_db)
unfolding lists_none
collect_containers-unseen_example =
    collect_containers-unseen 90 "meleys" (payload null) 5 empty_db "container:meleys/sonarr"
      empty_db-IsSound refl refl

abbrev reading_of : (target metric : String) → (at value : ℕ) → Sample ℕ
reading_of target metric at value = record {
  target = target;
  metric = metric;
  at = at;
  value = value;
}

-- Two metrics of one host, one of them long silent, and a reading of another host.
abbrev readings : List (Sample ℕ)
readings =
    reading_of "syrax" "disk" 100 7
    ∷ reading_of "syrax" "cpu" 900 3
    ∷ reading_of "meleys" "cpu" 950 8
    ∷ reading_of "syrax" "cpu" 800 2
    ∷ []

latest_example : latest "syrax" 500 readings ≡ ("cpu", 3) ∷ []
unfolding latest is_newest newest_at from_entries insert
latest_example = refl

latest-metric_ages_example :
    is_some (lookup "disk" (latest "syrax" 500 readings))
    ≡ is_some (lookup "disk" (metric_ages "syrax" 500 readings))
latest-metric_ages_example = latest-metric_ages "syrax" "disk" 500 readings

abbrev a_week : ℕ
a_week = 604_800_000

prune-reads_example :
    (latest "syrax" 500 (prune (a_week + 300) readings).0 ≡ latest "syrax" 500 readings)
    × (metric_ages "syrax" 500 (prune (a_week + 300) readings).0 ≡ metric_ages "syrax" 500 readings)
    × (series "syrax" "cpu" 500 (prune (a_week + 300) readings).0
        ≡ series "syrax" "cpu" 500 readings)
    × (metric_series "syrax" ("cpu" ∷ []) 500 (prune (a_week + 300) readings).0
        ≡ metric_series "syrax" ("cpu" ∷ []) 500 readings)
prune-reads_example =
    prune-reads "syrax" "cpu" ("cpu" ∷ []) 500 (a_week + 300) readings (omega arith)

-- The silent metric goes, and the three others stay.
prune_example : (prune (a_week + 300) readings).1 ≡ 1
unfolding prune
prune_example = refl

series_example : series "syrax" "cpu" 500 readings ≡ (800, 2) ∷ (900, 3) ∷ []
unfolding series
series_example = refl

metric_series-series_example :
    lookup "cpu" (metric_series "syrax" ("disk" ∷ "cpu" ∷ []) 500 readings) ≡ (
      if contains ("disk" ∷ "cpu" ∷ []) "cpu" && not (is_empty (series "syrax" "cpu" 500 readings))
      then some (series "syrax" "cpu" 500 readings)
      else none)
metric_series-series_example = metric_series-series "syrax" "cpu" ("disk" ∷ "cpu" ∷ []) 500 readings
