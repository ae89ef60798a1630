-- ===== src/Fleet/Automaton.antt =====
-- Each target on its own: an automaton over the outcomes of its checks, which `record` implements.
use mathlib.Core.Path.{subst}
use wizteros.Common.{
  leb, if◌then◌else◌, is_some, Bool-cases, Option-cases, keep, any, find, reduce, All, lookup,
  insert, lookup-insert, ℕ, ◌+◌, String, ◌≡◌, refl, ◌∙◌, inl, inr, Bool, true, false, not, Option,
  none, some, List, [], ◌∷◌, map, arith, ◌==◌, eq_iff,
}
use wizteros.Fleet.Tables.{CheckResult, Streak, Incident, FleetDb, Transition, opened, closed}
use wizteros.Fleet.Incidents.{
  ok_run_of, fail_run_of, next_streak, is_open, is_open_for, update_incident, named,
  closed_at_instant, open_or_wait, close_or_wait, settle, record_check, run_checks,
}
use wizteros.Fleet.Sound.{apart, AllApart, IsSound, record_check-IsSound}

-- What a target's own checks have come to.
pub record Health : Type 0 where
  pub ok_run : ℕ
  pub fail_run : ℕ
  pub down : Bool

-- A check: one run grows, the other ends, and the target changes sides when its run is long enough.
unfoldable pub step : (threshold : ℕ) → Health → (ok : Bool) → Health
step threshold h ok =
    let ok_run = if ok then h.ok_run + 1 else 0 in
    let fail_run = if ok then 0 else h.fail_run + 1 in
    record {
      ok_run = ok_run;
      fail_run = fail_run;
      down = if h.down then not (leb threshold ok_run) else leb threshold fail_run;
    }

-- What is told of a change of sides.
unfoldable pub transition : (before after : Bool) → Option Transition
transition false true = some opened
transition true false = some closed
transition _ _ = none

-- A target as the tables have it.
unfoldable pub health : (target : String) → FleetDb → Health
unfolding lookup
health target db = record {
  ok_run = ok_run_of (lookup target db.streaks);
  fail_run = fail_run_of (lookup target db.streaks);
  down = any (is_open_for target) db.incidents;
}

any-find {ℓ} : {A : Type ℓ} (p : A → Bool) (xs : List A) → any p xs ≡ is_some (find p xs)
any-find p [] = refl
any-find p (x ∷ xs) = elim (Bool-cases (p x)) [ inl e ↦ rw e refl | inr e ↦ rw e (any-find p xs) ]

module _ (t : String) where
  any-named :
      (id : ℕ) (reason : String) (incidents : List Incident)
      → any (is_open_for t) (update_incident id (named reason) incidents)
        ≡ any (is_open_for t) incidents
  unfolding update_incident
  any-named id reason [] = refl
  any-named id reason (i ∷ is) = ground (arith, any-named id reason is)

  any-closed_named :
      (id at : ℕ) (reason : String) (incidents : List Incident)
      → any
          (is_open_for t)
          (update_incident id (closed_at_instant at) (update_incident id (named reason) incidents))
        ≡ any (is_open_for t) (update_incident id (closed_at_instant at) incidents)
  unfolding update_incident
  any-closed_named id at reason [] = refl
  any-closed_named id at reason (i ∷ is) = ground (arith, any-closed_named id at reason is)

  any-others :
      (f : Incident → Incident) (i : Incident) (incidents : List Incident)
      → All (λ j. apart i j ≡ true) incidents
      → any (is_open_for t) (update_incident i.id f incidents) ≡ any (is_open_for t) incidents
  unfolding update_incident
  any-others f i [] h = refl
  any-others f i (j ∷ js) (a, h) = ground (arith, any-others f i js h)

-- An incident that is open is the only one of its target.
none-others :
    (i : Incident) (incidents : List Incident)
    → is_open i ≡ true
    → All (λ j. apart i j ≡ true) incidents
    → any (is_open_for i.target) incidents ≡ false
none-others i [] o h = refl
none-others i (j ∷ js) o (a, h) = ground (arith, none-others i js o h)

pub apart-find :
    (u : String) (i c : Incident) (incidents : List Incident)
    → All (λ j. apart i j ≡ true) incidents
    → find (is_open_for u) incidents ≡ some c
    → apart i c ≡ true
apart-find u i c [] h e = absurd (cc e)
apart-find u i c (j ∷ js) (a, h) e = elim (Bool-cases (is_open_for u j)) [
  | inl found ↦ let same : j ≡ c = cc (rw found at e) in rw (← same) a
  | inr other ↦ apart-find u i c js h (rw other at e)
]

closed-head :
    (t : String) (at : ℕ) (i : Incident) (incidents : List Incident)
    → is_open i ≡ true
    → All (λ j. apart i j ≡ true) incidents
    → any (is_open_for t) (update_incident i.id (closed_at_instant at) (i ∷ incidents))
      ≡ (if i.target == t then false else any (is_open_for t) (i ∷ incidents))
unfolding update_incident
closed-head t at i is o a = elim (Bool-cases (i.target == t)) [
  | inr other ↦ ground (arith, any-others t (closed_at_instant at) i is a)
  | inl same ↦
      let alone : any (is_open_for t) is ≡ false =
        rw (← (eq_iff i.target t).0 same) (none-others i is o a) in
      ground (arith, any-others t (closed_at_instant at) i is a)
]

-- Closing the open incident of one target leaves it none, and every other target as it was.
any-closed :
    (t u : String) (c : Incident) (at : ℕ) (incidents : List Incident)
    → AllApart incidents
    → find (is_open_for u) incidents ≡ some c
    → any (is_open_for t) (update_incident c.id (closed_at_instant at) incidents)
      ≡ (if u == t then false else any (is_open_for t) incidents)
unfolding update_incident
any-closed t u c at [] h e = absurd (cc e)
any-closed t u c at (i ∷ is) (a, h) e = elim (Bool-cases (is_open_for u i)) [
  | inl found ↦
      let same : i ≡ c = cc (rw found at e) in
      let target : i.target ≡ u = ground (arith, eq_iff i.target u) in
      subst
        (λ (x : Incident).
          any (is_open_for t) (update_incident x.id (closed_at_instant at) (i ∷ is))
          ≡ (if u == t then false else any (is_open_for t) (i ∷ is)))
        same (rw (← target) (closed-head t at i is (ground arith) a))
  | inr other ↦
      let rest : find (is_open_for u) is ≡ some c = rw other at e in
      ground (arith, any-closed t u c at is h rest, apart-find u i c is a rest, eq_iff u t)
]

module _ (threshold : ℕ) (result : CheckResult) (at : ℕ) (t : String) where
  -- Whether a check leaves the target with an incident open.
  abbrev down_after : Streak → Bool → Bool
  down_after streak down =
      if result.target == t
      then (if down then not (leb threshold streak.ok_run) else leb threshold streak.fail_run)
      else down

  open_or_wait-down :
      (streak : Streak) (db : FleetDb)
      → find (is_open_for result.target) db.incidents ≡ none
      → any (is_open_for t) (open_or_wait threshold result at streak.fail_run db).1.incidents
        ≡ down_after streak (any (is_open_for t) db.incidents)
  unfolding open_or_wait
  open_or_wait-down streak db e = elim (Bool-cases (result.target == t)) [
    | inr other ↦ ground arith
    | inl same ↦
        let closed_before : any (is_open_for t) db.incidents ≡ false =
          rw
            (
              ← (eq_iff result.target t).0 same,
              any-find (is_open_for result.target) db.incidents,
              e,
            )
            refl in
        ground arith
  ]

  close_or_wait-down :
      (streak : Streak) (c : Incident) (db : FleetDb)
      → AllApart db.incidents
      → find (is_open_for result.target) db.incidents ≡ some c
      → any (is_open_for t) (close_or_wait threshold result at streak.ok_run c.id db).1.incidents
        ≡ down_after streak (any (is_open_for t) db.incidents)
  unfolding close_or_wait
  close_or_wait-down streak c db h e =
      let closes = any-closed t result.target c at db.incidents h e in
      let renamed = any-named t c.id result.reason db.incidents in
      let both = any-closed_named t c.id at result.reason db.incidents in
      elim (Bool-cases (result.target == t)) [
        | inr other ↦ ground arith
        | inl same ↦
            let open_before : any (is_open_for t) db.incidents ≡ true =
              rw
                (
                  ← (eq_iff result.target t).0 same,
                  any-find (is_open_for result.target) db.incidents,
                  e,
                )
                refl in
            ground arith
      ]

  pub settle-streaks :
      (streak : Streak) (o : Option Incident) (db : FleetDb)
      → (settle threshold result at streak o db).1.streaks ≡ db.streaks
  unfolding settle open_or_wait close_or_wait
  settle-streaks streak none db = ground arith
  settle-streaks streak (some c) db = ground arith

  settle-down :
      (streak : Streak) (db : FleetDb)
      → AllApart db.incidents
      → any
          (is_open_for t)
          (settle threshold result at streak
            (find (is_open_for result.target) db.incidents)
            db).1.incidents
        ≡ down_after streak (any (is_open_for t) db.incidents)
  unfolding settle
  settle-down streak db h = elim (Option-cases (find (is_open_for result.target) db.incidents)) [
    | inl e ↦ rw e (open_or_wait-down streak db e)
    | inr (c, e) ↦ rw e (close_or_wait-down streak c db h e)
  ]

-- A check of a target is a step of its automaton, and leaves every other target as it was.
pub record_check-health :
    (threshold gap : ℕ) (result : CheckResult) (at : ℕ) (t : String) (db : FleetDb)
    → IsSound db
    → health t (record_check threshold gap result at db).1
      ≡ (if result.target == t then step threshold (health t db) result.ok else health t db)
unfolding record_check health step next_streak
record_check-health threshold gap result at t db h =
    let streak = next_streak gap result at (lookup result.target db.streaks) in
    let db' = record db { streaks = insert result.target streak db.streaks } in
    rw
      (
        settle-streaks threshold result at t streak (find (is_open_for result.target) db.incidents)
            db',
        settle-down threshold result at t streak db' h.separate,
        lookup-insert result.target t streak db.streaks,
      )
      (elim (Bool-cases (result.target == t)) [
        | inr other ↦ rw other refl
        | inl same ↦ rw (same, (eq_iff result.target t).0 same) refl
      ])

abbrev pub outcomes_of : (target : String) → List (CheckResult × ℕ) → List Bool
outcomes_of target checks = map (λ c. c.0.ok) (keep (λ c. c.0.target == target) checks)

-- However the checks of the targets interleave, a target stands afterwards where its automaton stands
-- after the outcomes of its own checks in their order: no check of another target has a part in it.
pub run_checks-health :
    (threshold gap : ℕ) (t : String) (checks : List (CheckResult × ℕ)) (db : FleetDb)
    → IsSound db
    → health t (run_checks threshold gap checks db)
      ≡ reduce (step threshold) (health t db) (outcomes_of t checks)
unfolding run_checks
run_checks-health threshold gap t [] db h = refl
run_checks-health threshold gap t (c ∷ checks) db h =
    let db' = (record_check threshold gap c.0 c.1 db).1 in
    let rest =
      run_checks-health threshold gap t checks db'
        (record_check-IsSound threshold gap c.0 c.1 db h) in
    let here = record_check-health threshold gap c.0 c.1 t db h in
    elim (Bool-cases (c.0.target == t)) [
      | inl same ↦ rw same (rest ∙ rw (here, same) refl)
      | inr other ↦ rw other (rest ∙ rw (here, other) refl)
    ]
