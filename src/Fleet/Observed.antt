-- ===== src/Fleet/Observed.antt =====
-- What an observed run is evidence of.
use mathlib.Core.Path.{subst}
use wizteros.Common.{
  if◌then◌else◌, Bool-cases, Option-cases, keep, find, reduce, lookup, insert, lookup-insert, ℕ,
  String, ◌≡◌, refl, inl, inr, true, Option, none, some, List, [], ◌∷◌, ◌==◌, eq_iff,
}
use wizteros.Fleet.Tables.{CheckResult, Streak, FleetDb, empty_db}
use wizteros.Fleet.Incidents.{
  within_gap, observed_from, next_streak, is_open_for, record_check, run_checks, ObservedRun,
  observed_run,
}
use wizteros.Fleet.Automaton.{settle-streaks}

-- The instants, the newest first, reach back from `until` to `since` without a silence longer than the
-- gap and without the clock stepping back.
pub data IsUnbroken (gap : ℕ) : (since until : ℕ) → List ℕ → Type 0 where
  starts : {at : ℕ} {instants : List ℕ} → IsUnbroken gap at at (at ∷ instants)
  goes_on :
      {since until at : ℕ} {instants : List ℕ}
      → IsUnbroken gap since until instants
      → within_gap until at gap ≡ true
      → IsUnbroken gap since at (at ∷ instants)

-- The instants of a target's checks, the newest first.
abbrev pub instants_of : (target : String) → List (CheckResult × ℕ) → (before : List ℕ) → List ℕ
instants_of target checks before =
    reduce (λ instants c. c.1 ∷ instants) before (keep (λ c. c.0.target == target) checks)

module _ (threshold gap : ℕ) (t : String) where
  -- The row of the target, if it has one, is such evidence.
  Evident : List ℕ → Option Streak → Type 0
  Evident instants none = Unit
  Evident instants (some streak) = IsUnbroken gap streak.observed_since streak.last_at instants

  Evident-next :
      (result : CheckResult) (at : ℕ) (instants : List ℕ) (o : Option Streak)
      → Evident instants o
      → Evident (at ∷ instants) (some (next_streak gap result at o))
  unfolding Evident next_streak observed_from
  Evident-next result at instants none h = starts
  Evident-next result at instants (some streak) h =
      elim (Bool-cases (within_gap streak.last_at at gap)) [
        | inl near ↦ rw near (goes_on h near)
        | inr far ↦ rw far starts
      ]

  pub record_check-streak :
      (result : CheckResult) (at : ℕ) (db : FleetDb)
      → lookup t (record_check threshold gap result at db).1.streaks ≡ (
          if result.target == t
          then some (next_streak gap result at (lookup t db.streaks))
          else lookup t db.streaks)
  unfolding record_check
  record_check-streak result at db =
      let streak = next_streak gap result at (lookup result.target db.streaks) in
      let db' = record db { streaks = insert result.target streak db.streaks } in
      rw
        (
          settle-streaks threshold result at t streak
              (find (is_open_for result.target) db.incidents) db',
          lookup-insert result.target t streak db.streaks,
        )
        (elim (Bool-cases (result.target == t)) [
          | inr other ↦ rw other refl
          | inl same ↦ rw (same, (eq_iff result.target t).0 same) refl
        ])

  run_checks-Evident :
      (done : List (CheckResult × ℕ)) (before : List ℕ) (db : FleetDb)
      → Evident before (lookup t db.streaks)
      → Evident (instants_of t done before) (lookup t (run_checks threshold gap done db).streaks)
  unfolding run_checks
  run_checks-Evident [] before db h = h
  run_checks-Evident (c ∷ done) before db h =
      let db' = (record_check threshold gap c.0 c.1 db).1 in
      let here = record_check-streak c.0 c.1 db in
      elim (Bool-cases (c.0.target == t)) [
        | inl same ↦ rw same (
            run_checks-Evident done (c.1 ∷ before) db'
              (rw (here, same) (Evident-next c.0 c.1 before (lookup t db.streaks) h)))
        | inr other ↦ rw other (run_checks-Evident done before db' (rw (here, other) h))
      ]

-- The observed run of a target is one of checks that were recorded for it: its end is the last of them,
-- its start is one of them, and from one to the next no silence is longer than the gap.
pub observed_run-IsUnbroken :
    (threshold gap : ℕ) (t : String) (done : List (CheckResult × ℕ)) (run : ObservedRun)
    → observed_run t (run_checks threshold gap done empty_db) ≡ some run
    → IsUnbroken gap run.since run.until (instants_of t done [])
unfolding observed_run Evident
observed_run-IsUnbroken threshold gap t done run e =
    let evident = run_checks-Evident threshold gap t done [] empty_db tt in
    elim (Option-cases (lookup t (run_checks threshold gap done empty_db).streaks)) [
      | inl missing ↦ absurd (cc (rw (missing, observed_run) at e))
      | inr (streak, found) ↦
          let same : record { since = streak.observed_since; until = streak.last_at } ≡ run =
            cc (rw (found, observed_run) at e) in
          subst (λ (r : ObservedRun). IsUnbroken gap r.since r.until (instants_of t done [])) same
            (rw found at evident)
    ]
