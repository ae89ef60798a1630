-- ===== src/Fleet/Collect.antt =====
-- apps/fleet-monitor/src/collector.ts: which checks a round records. The answers of a host and of a
-- docker endpoint are arguments; the samples that are written beside the checks are left out.
use Prim.Native.String.{◌++◌ as append_text}
use wizteros.Common.{
  ltb, if◌then◌else◌, to_list, contains, ℕ, String, true, false, not, Option, none, some, List, [],
  ◌∷◌, map, ◌==◌,
}
use wizteros.Json.{Json, array}
use wizteros.Fleet.Tables.{CheckResult, FleetDb}
use wizteros.Fleet.Incidents.{run_checks, retire_absent}
use wizteros.Fleet.Docker.{unhealthy, ContainerState, parse_containers}

-- An ssh capture: how many samples its output held, or why it failed.
pub data Capture : Type 0 where
  captured : (written : ℕ) → Capture
  refused : (reason : String) → Capture

-- `NOT_OBSERVED`
abbrev pub not_observed : List String
not_observed = "spawn_error" ∷ []

-- The check that a capture comes to; none when the host was not observed.
unfoldable pub host_check : (host : String) → Capture → Option CheckResult
host_check host (captured written) = some (record {
  target = append_text "host:" host;
  ok = ltb 0 written;
  reason = if ltb 0 written then "" else "empty_payload";
})
host_check host (refused reason) =
    if contains not_observed reason
    then none
    else some (record { target = append_text "host:" host; ok = false; reason = reason })

abbrev pub default_threshold : ℕ
default_threshold = 2

-- A list of checks, recorded one after the other at one instant.
unfoldable pub record_all : (gap at : ℕ) → List CheckResult → FleetDb → FleetDb
unfolding run_checks
record_all gap at results db = run_checks default_threshold gap (map (λ r. (r, at)) results) db

-- `collectHost`: the checks returned, and the tables
unfoldable pub collect_host :
    (gap : ℕ) → (host : String) → Capture → (at : ℕ) → FleetDb → List CheckResult × FleetDb
unfolding host_check record_all
collect_host gap host capture at db =
    let results = to_list (host_check host capture) in (results, record_all gap at results db)

abbrev pub container_target : (host name : String) → String
container_target host name = append_text "container:" (append_text host (append_text "/" name))

-- `containerCheck`
unfoldable pub container_check : (host : String) → ContainerState → CheckResult
container_check host state =
    let reason =
      if not state.running
      then "not_running"
      else elim state.health [ unhealthy ↦ "unhealthy" | _ ↦ "" ] in
    record { target = container_target host state.name; ok = reason == ""; reason = reason }

-- What the endpoint's GET came to.
pub data Answer : Type 0 where
  unanswered : (reason : String) → Answer
  payload : Json → Answer

abbrev pub docker_target : (host : String) → String
docker_target host = append_text "docker:" host

-- `endpointOnly`
unfoldable pub endpoint_only :
    (gap : ℕ) → (host reason : String) → (at : ℕ) → FleetDb → List CheckResult × FleetDb
unfolding record_all
endpoint_only gap host reason at db =
    let result : CheckResult = record {
      target = docker_target host;
      ok = false;
      reason = reason;
    } in
    (result ∷ [], record_all gap at (result ∷ []) db)

-- The checks of an endpoint that listed its containers, and the retiring of those that are gone.
unfoldable pub collect_states :
    (gap : ℕ)
    → (host : String) → List ContainerState
    → (at : ℕ) → FleetDb
    → List CheckResult × FleetDb
unfolding record_all container_check retire_absent
collect_states gap host states at db =
    let endpoint : CheckResult = record { target = docker_target host; ok = true; reason = "" } in
    let results = endpoint ∷ map (container_check host) states in
    (
      results,
      (retire_absent (container_target host "") (map (λ s. s.name) states) at
          (record_all gap at results db)).1,
    )

-- `collectContainers`, of a host that has a docker endpoint
unfoldable pub collect_containers :
    (gap : ℕ) → (host : String) → Answer → (at : ℕ) → FleetDb → List CheckResult × FleetDb
unfolding endpoint_only collect_states parse_containers
collect_containers gap host (unanswered reason) at db = endpoint_only gap host reason at db
collect_containers gap host (payload (array items)) at db =
    collect_states gap host (parse_containers items) at db
collect_containers gap host (payload _) at db = endpoint_only gap host "bad_json" at db
