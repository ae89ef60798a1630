-- ===== src/Fleet/Unseen.antt =====
-- What a round says of containers that it did not see.
use wizteros.Common.{ℕ, String, ◌≡◌, refl, ap, ◌∙◌, Bool, true, false, ◌==◌}
use wizteros.Json.{null, flag, number, text, array, object}
use wizteros.Fleet.Tables.{CheckResult, FleetDb}
use wizteros.Fleet.Incidents.{run_checks, run_of, observed_run}
use wizteros.Fleet.Collect.{
  default_threshold, record_all, Answer, unanswered, payload, docker_target, endpoint_only,
  collect_containers,
}
use wizteros.Fleet.Others.{incidents_of, record_check-incidents_of}
use wizteros.Fleet.Sound.{IsSound}
use wizteros.Fleet.Observed.{record_check-streak}
use wizteros.Fleet.Automaton.{health, record_check-health}

-- An endpoint's answer that is no list of containers: none at all, or what is no array. An empty array is
-- a list, of no containers.
unfoldable pub lists_none : Answer → Bool
lists_none (payload (array items)) = false
lists_none _ = true

endpoint_only-unseen :
    (gap : ℕ) (host reason : String) (at : ℕ) (db : FleetDb) (t : String)
    → IsSound db
    → (docker_target host == t) ≡ false
    → (health t (endpoint_only gap host reason at db).1 ≡ health t db)
      × (incidents_of t (endpoint_only gap host reason at db).1.incidents
          ≡ incidents_of t db.incidents)
      × (observed_run t (endpoint_only gap host reason at db).1 ≡ observed_run t db)
unfolding endpoint_only record_all run_checks observed_run
endpoint_only-unseen gap host reason at db t sound other =
    let result : CheckResult = record {
      target = docker_target host;
      ok = false;
      reason = reason;
    } in
    (
      record_check-health default_threshold gap result at t db sound ∙ rw other refl,
      record_check-incidents_of default_threshold gap result at t db sound other,
      ap run_of (record_check-streak default_threshold gap t result at db ∙ rw other refl),
    )

-- When the docker endpoint does not answer with an array, the round is one failed check of the endpoint:
-- of every other target, and so of every container, the runs, all incidents and the observed run stay
-- as they were.
pub collect_containers-unseen :
    (gap : ℕ) (host : String) (answer : Answer) (at : ℕ) (db : FleetDb) (t : String)
    → IsSound db
    → lists_none answer ≡ true
    → (docker_target host == t) ≡ false
    → (health t (collect_containers gap host answer at db).1 ≡ health t db)
      × (incidents_of t (collect_containers gap host answer at db).1.incidents
          ≡ incidents_of t db.incidents)
      × (observed_run t (collect_containers gap host answer at db).1 ≡ observed_run t db)
unfolding collect_containers lists_none
collect_containers-unseen gap host (unanswered reason) at db t sound h other =
    endpoint_only-unseen gap host reason at db t sound other
collect_containers-unseen gap host (payload (array items)) at db t sound h other = absurd (cc h)
collect_containers-unseen gap host (payload null) at db t sound h other =
    endpoint_only-unseen gap host "bad_json" at db t sound other
collect_containers-unseen gap host (payload (flag b)) at db t sound h other =
    endpoint_only-unseen gap host "bad_json" at db t sound other
collect_containers-unseen gap host (payload (number n)) at db t sound h other =
    endpoint_only-unseen gap host "bad_json" at db t sound other
collect_containers-unseen gap host (payload (text s)) at db t sound h other =
    endpoint_only-unseen gap host "bad_json" at db t sound other
collect_containers-unseen gap host (payload (object o)) at db t sound h other =
    endpoint_only-unseen gap host "bad_json" at db t sound other
