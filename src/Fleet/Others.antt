-- ===== src/Fleet/Others.antt =====
-- A check leaves the incidents of every other target as they are.
use mathlib.Core.Path.{subst}
use wizteros.Common.{
  nat_eq, Bool-cases, Option-cases, keep, find, All, lookup, insert, ℕ, String, ◌≡◌, refl, inl, inr,
  true, false, not, ◌&&◌, some, List, [], ◌∷◌, arith, ◌==◌, eq_iff, eq_refl,
}
use wizteros.Fleet.Tables.{CheckResult, Streak, Incident, FleetDb}
use wizteros.Fleet.Incidents.{
  next_streak, is_open_for, update_incident, named, closed_at_instant, open_or_wait, close_or_wait,
  settle, record_check,
}
use wizteros.Fleet.Sound.{apart, AllApart, IsSound}
use wizteros.Fleet.Automaton.{apart-find}

abbrev pub incidents_of : (target : String) → List Incident → List Incident
incidents_of t = keep (λ i. i.target == t)

-- Only incidents of the target have the id.
abbrev IsIdOf : (target : String) → (id : ℕ) → List Incident → Type 0
IsIdOf u id = All (λ i. (nat_eq i.id id && not (i.target == u)) ≡ false)

others-IsIdOf :
    (c : Incident) (incidents : List Incident)
    → All (λ j. apart c j ≡ true) incidents
    → IsIdOf c.target c.id incidents
others-IsIdOf c [] h = tt
others-IsIdOf c (j ∷ js) (a, h) = (ground arith, others-IsIdOf c js h)

found-IsIdOf :
    (u : String) (c : Incident) (incidents : List Incident)
    → AllApart incidents
    → find (is_open_for u) incidents ≡ some c
    → IsIdOf u c.id incidents
found-IsIdOf u c [] h e = tt
found-IsIdOf u c (i ∷ is) (a, h) e = elim (Bool-cases (is_open_for u i)) [
  | inl found ↦
      let same : i ≡ c = cc (rw found at e) in
      let target : i.target ≡ u = ground (arith, eq_iff i.target u) in
      let alone : IsIdOf i.target i.id (i ∷ is) =
        (ground (arith, eq_refl i.target), others-IsIdOf i is a) in
      subst (λ (x : Incident). IsIdOf u x.id (i ∷ is)) same
        (subst (λ v. IsIdOf v i.id (i ∷ is)) target alone)
  | inr other ↦
      let rest : find (is_open_for u) is ≡ some c = rw other at e in
      let distinct_ids = apart-find u i c is a rest in (ground arith, found-IsIdOf u c is h rest)
]

module _ (f : Incident → Incident) (same_id : (i : Incident) → (f i).id ≡ i.id)
    (same_target : (i : Incident) → (f i).target ≡ i.target) where
  update-IsIdOf :
      (u : String) (id : ℕ) (incidents : List Incident)
      → IsIdOf u id incidents
      → IsIdOf u id (update_incident id f incidents)
  unfolding update_incident
  update-IsIdOf u id [] h = tt
  update-IsIdOf u id (i ∷ is) (a, h) =
      (ground (arith, same_id i, same_target i), update-IsIdOf u id is h)

  update-incidents_of :
      (t u : String) (id : ℕ) (incidents : List Incident)
      → (u == t) ≡ false
      → IsIdOf u id incidents
      → incidents_of t (update_incident id f incidents) ≡ incidents_of t incidents
  unfolding update_incident
  update-incidents_of t u id [] other h = refl
  update-incidents_of t u id (i ∷ is) other (a, h) =
      ground (arith, update-incidents_of t u id is other h, same_target i, eq_iff i.target u)

module _ (threshold : ℕ) (result : CheckResult) (at : ℕ) (t : String) where
  close_or_wait-incidents_of :
      (ok_run id : ℕ) (db : FleetDb)
      → (result.target == t) ≡ false
      → IsIdOf result.target id db.incidents
      → incidents_of t (close_or_wait threshold result at ok_run id db).1.incidents
        ≡ incidents_of t db.incidents
  unfolding close_or_wait
  close_or_wait-incidents_of ok_run id db other h =
      let rename = named result.reason in
      let close = closed_at_instant at in
      let renamed =
        update-incidents_of rename (λ i. ground arith) (λ i. ground arith) t result.target id
          db.incidents other h in
      let closed_now =
        update-incidents_of close (λ i. refl) (λ i. refl) t result.target id db.incidents other h in
      let both =
        update-incidents_of close (λ i. refl) (λ i. refl) t result.target id
          (update_incident id rename db.incidents) other
          (update-IsIdOf rename (λ i. ground arith) (λ i. ground arith) result.target id
            db.incidents h) in
      ground arith

  settle-incidents_of :
      (streak : Streak) (db : FleetDb)
      → (result.target == t) ≡ false
      → AllApart db.incidents
      → incidents_of t
          (settle threshold result at streak
            (find (is_open_for result.target) db.incidents)
            db).1.incidents
        ≡ incidents_of t db.incidents
  unfolding settle open_or_wait
  settle-incidents_of streak db other h =
      elim (Option-cases (find (is_open_for result.target) db.incidents)) [
        | inl e ↦ rw e (ground arith)
        | inr (c, e) ↦ rw e (
            close_or_wait-incidents_of streak.ok_run c.id db other
              (found-IsIdOf result.target c db.incidents h e))
      ]

pub record_check-incidents_of :
    (threshold gap : ℕ) (result : CheckResult) (at : ℕ) (t : String) (db : FleetDb)
    → IsSound db
    → (result.target == t) ≡ false
    → incidents_of t (record_check threshold gap result at db).1.incidents
      ≡ incidents_of t db.incidents
unfolding record_check
record_check-incidents_of threshold gap result at t db h other =
    let streak = next_streak gap result at (lookup result.target db.streaks) in
    settle-incidents_of threshold result at t streak
      (record db { streaks = insert result.target streak db.streaks }) other h.separate
