-- ===== src/Fleet/Incidents.antt =====
-- apps/fleet-monitor/src/incidents.ts: checks folded into streaks, and incidents with hysteresis.
-- Instants are in milliseconds; a `gap` is in seconds.
use wizteros.Common.{
  ltb, leb, nat_eq, if◌then◌else◌, or_else, is_some, length, keep, find, reduce, contains, erase,
  lookup, insert, ℕ, suc, ◌+◌, ◌-◌, ◌*◌, String, Bool, true, not, ◌&&◌, ◌||◌, Option, none, some,
  List, [], ◌∷◌, map, ◌==◌,
}
use wizteros.Fleet.Tables.{CheckResult, Streak, Incident, FleetDb, Transition, opened, closed}
use wizteros.Fleet.Like.{like_start, remove_prefix}

-- `withinGap`
unfoldable pub within_gap : (earlier later gap : ℕ) → Bool
within_gap earlier later gap = leb earlier later && leb later (earlier + gap * 1_000)

abbrev pub ok_run_of : Option Streak → ℕ
ok_run_of none = 0
ok_run_of (some streak) = streak.ok_run

abbrev pub fail_run_of : Option Streak → ℕ
fail_run_of none = 0
fail_run_of (some streak) = streak.fail_run

-- The start of the run of checks that a check at `at` belongs to.
unfoldable pub observed_from : (gap at : ℕ) → Option Streak → ℕ
unfolding within_gap
observed_from gap at none = at
observed_from gap at (some streak) =
    if within_gap streak.last_at at gap then streak.observed_since else at

-- The row that a check leaves.
unfoldable pub next_streak : (gap : ℕ) → CheckResult → (at : ℕ) → Option Streak → Streak
unfolding observed_from
next_streak gap result at streak = record {
  ok_run = if result.ok then ok_run_of streak + 1 else 0;
  fail_run = if result.ok then 0 else fail_run_of streak + 1;
  last_at = at;
  observed_since = observed_from gap at streak;
}

abbrev pub is_open : Incident → Bool
is_open incident = not (is_some incident.closed_at)

-- `target = ? AND closed_at IS NULL`
abbrev pub is_open_for : (target : String) → Incident → Bool
is_open_for target incident = is_open incident && incident.target == target

unfoldable pub update_incident : (id : ℕ) → (Incident → Incident) → List Incident → List Incident
update_incident id f incidents = map (λ i. if nat_eq i.id id then f i else i) incidents

-- The failing check's reason, unless it names none.
abbrev pub named : (reason : String) → Incident → Incident
named reason incident = if reason == "" then incident else record incident { reason = reason }

abbrev pub closed_at_instant : (at : ℕ) → Incident → Incident
closed_at_instant at incident = record incident { closed_at = some at }

abbrev pub new_incident : (id : ℕ) → CheckResult → (at : ℕ) → Incident
new_incident id result at = record {
  id = id;
  target = result.target;
  reason = result.reason;
  opened_at = at;
  closed_at = none;
}

-- A check of a target that has no incident open.
unfoldable pub open_or_wait :
    (threshold : ℕ) → CheckResult → (at fail_run : ℕ) → FleetDb → Option Transition × FleetDb
open_or_wait threshold result at fail_run db =
    if leb threshold fail_run
    then (
      some opened,
      record db {
        incidents = new_incident db.next_id result at ∷ db.incidents;
        next_id = suc db.next_id;
      },
    )
    else (none, db)

-- A check of a target whose open incident has the id.
unfoldable pub close_or_wait :
    (threshold : ℕ) → CheckResult → (at ok_run id : ℕ) → FleetDb → Option Transition × FleetDb
unfolding update_incident
close_or_wait threshold result at ok_run id db =
    let renamed =
      if result.ok then db.incidents else update_incident id (named result.reason) db.incidents in
    if leb threshold ok_run
    then (some closed, record db { incidents = update_incident id (closed_at_instant at) renamed })
    else (none, record db { incidents = renamed })

unfoldable pub settle :
    (threshold : ℕ)
    → CheckResult
    → (at : ℕ) → Streak
    → Option Incident
    → FleetDb
    → Option Transition × FleetDb
unfolding open_or_wait close_or_wait
settle threshold result at streak none db = open_or_wait threshold result at streak.fail_run db
settle threshold result at streak (some incident) db =
    close_or_wait threshold result at streak.ok_run incident.id db

-- `record`
unfoldable pub record_check :
    (threshold gap : ℕ) → CheckResult → (at : ℕ) → FleetDb → Option Transition × FleetDb
unfolding lookup insert next_streak settle
record_check threshold gap result at db =
    let streak = next_streak gap result at (lookup result.target db.streaks) in
    settle threshold result at streak (find (is_open_for result.target) db.incidents)
      (record db { streaks = insert result.target streak db.streaks })

-- The checks in their order, each at its instant.
unfoldable pub run_checks : (threshold gap : ℕ) → List (CheckResult × ℕ) → FleetDb → FleetDb
unfolding record_check
run_checks threshold gap [] db = db
run_checks threshold gap (c ∷ checks) db =
    run_checks threshold gap checks (record_check threshold gap c.0 c.1 db).1

-- `openIncidents`, as a set: the order by `opened_at` is left out.
unfoldable pub open_incidents : FleetDb → List Incident
open_incidents db = keep is_open db.incidents

-- `history`, as a set
unfoldable pub incident_history : (since : ℕ) → FleetDb → List Incident
incident_history since db = keep (λ i. leb since i.opened_at) db.incidents

-- An open incident under the prefix, of a target that is no longer present.
unfoldable pub is_stale : (prefix : String) → (seen : List String) → Incident → Bool
unfolding like_start remove_prefix
is_stale prefix seen i =
    is_open i && like_start prefix i.target && not (contains seen (remove_prefix prefix i.target))

abbrev pub removed_at : (at : ℕ) → Incident → Incident
removed_at at incident = record incident { closed_at = some at; reason = "removed" }

unfoldable pub close_removed : (at : ℕ) → List Incident → List Incident → List Incident
unfolding update_incident
close_removed at [] incidents = incidents
close_removed at (gone ∷ stale) incidents =
    close_removed at stale (update_incident gone.id (removed_at at) incidents)

unfoldable pub forget_streaks : List Incident → List (String × Streak) → List (String × Streak)
unfolding erase
forget_streaks [] streaks = streaks
forget_streaks (gone ∷ stale) streaks = forget_streaks stale (erase gone.target streaks)

-- `retireAbsent`: how many incidents were closed
unfoldable pub retire_absent :
    (prefix : String) → (seen : List String) → (at : ℕ) → FleetDb → ℕ × FleetDb
unfolding is_stale close_removed forget_streaks
retire_absent prefix seen at db =
    let stale = keep (is_stale prefix seen) db.incidents in
    (
      length stale,
      record db {
        incidents = close_removed at stale db.incidents;
        streaks = forget_streaks stale db.streaks;
      },
    )

-- `ObservedRun`
pub record ObservedRun : Type 0 where
  pub since : ℕ
  pub until : ℕ

abbrev pub run_of : Option Streak → Option ObservedRun
run_of none = none
run_of (some streak) = some (record { since = streak.observed_since; until = streak.last_at })

-- `observedRun`
unfoldable pub observed_run : (target : String) → FleetDb → Option ObservedRun
unfolding lookup
observed_run target db = run_of (lookup target db.streaks)

-- An outage's part of the window, in milliseconds.
unfoldable pub down_within : (since now : ℕ) → Incident → ℕ
down_within since now outage =
    let closed = or_else outage.closed_at now in
    let end = if ltb closed now then closed else now in
    let start = if ltb since outage.opened_at then outage.opened_at else since in end - start

abbrev pub reaches : (since : ℕ) → Incident → Bool
reaches since outage = elim outage.closed_at [ none ↦ true | some at ↦ leb since at ]

unfoldable pub down_time : (target : String) → (since now : ℕ) → List Incident → ℕ
unfolding down_within
down_time target since now incidents =
    reduce (λ total outage. total + down_within since now outage) 0
      (keep (λ i. i.target == target && reaches since i) incidents)

-- `uptimePercent`: the time up and the window, in milliseconds. The percentage is their quotient,
-- rounded to three places.
unfoldable pub uptime :
    (target : String) → (since now : ℕ) → ObservedRun → (gap : ℕ) → FleetDb → Option (ℕ × ℕ)
unfolding within_gap down_time
uptime target since now observed gap db =
    if leb now since || ltb since observed.since || not (within_gap observed.until now gap)
    then none
    else some (now - since - down_time target since now db.incidents, now - since)
