-- ===== src/Fleet/Sound.antt =====
-- What every operation keeps of the incidents: ids are unique, and a target has one open at most.
use wizteros.Common.{
  leb, nat_eq, if◌then◌else◌, Bool-cases, Option-cases, keep, find, All, lookup, insert, ℕ, suc,
  ◌<◌, String, ◌≡◌, refl, inl, inr, Bool, true, false, not, ◌&&◌, none, List, [], ◌∷◌, map, arith,
}
use wizteros.Fleet.Tables.{CheckResult, Incident, FleetDb, empty_db}
use wizteros.Fleet.Incidents.{
  next_streak, is_open, is_open_for, update_incident, named, closed_at_instant, new_incident,
  open_or_wait, close_or_wait, settle, record_check, is_stale, removed_at, close_removed,
  retire_absent,
}

-- Two incidents that may stand in one table.
abbrev pub apart : Incident → Incident → Bool
apart i j = not (nat_eq i.id j.id) && not (is_open i && is_open_for i.target j)

abbrev pub AllApart : List Incident → Type 0
AllApart [] = Unit
AllApart (i ∷ incidents) = All (λ j. apart i j ≡ true) incidents × AllApart incidents

-- No id stands twice or is still to be given, and no target has two incidents open.
pub record IsSound (db : FleetDb) : Type 0 where
  pub issued : All (λ i. i.id < db.next_id) db.incidents
  pub separate : AllApart db.incidents

-- An update that leaves the id and the target, and opens nothing.
pub record IsTame (f : Incident → Incident) : Type 0 where
  pub same_id : (i : Incident) → (f i).id ≡ i.id
  pub same_target : (i : Incident) → (f i).target ≡ i.target
  pub opens_none : (i : Incident) → is_open i ≡ false → is_open (f i) ≡ false

apart-tame :
    (f : Incident → Incident) (i j : Incident)
    → IsTame f
    → apart i j ≡ true
    → apart (f i) (f j) ≡ true
apart-tame f i j t h =
    rw (t.same_id i, t.same_id j, t.same_target i, t.same_target j)
      (ground (arith, t.opens_none i, t.opens_none j))

All-apart_tame :
    (f : Incident → Incident) (i : Incident) (incidents : List Incident)
    → IsTame f
    → All (λ j. apart i j ≡ true) incidents
    → All (λ j. apart (f i) j ≡ true) (map f incidents)
All-apart_tame f i [] t h = tt
All-apart_tame f i (j ∷ js) t (a, h) = (apart-tame f i j t a, All-apart_tame f i js t h)

pub AllApart-map :
    (f : Incident → Incident) (incidents : List Incident)
    → IsTame f
    → AllApart incidents
    → AllApart (map f incidents)
AllApart-map f [] t h = tt
AllApart-map f (i ∷ is) t (a, h) = (All-apart_tame f i is t a, AllApart-map f is t h)

issued-map :
    (n : ℕ) (f : Incident → Incident) (incidents : List Incident)
    → IsTame f
    → All (λ i. i.id < n) incidents
    → All (λ i. i.id < n) (map f incidents)
issued-map n f [] t h = tt
issued-map n f (i ∷ is) t (a, h) = (rw (t.same_id i) a, issued-map n f is t h)

pub IsTame-at :
    (id : ℕ) (f : Incident → Incident) → IsTame f → IsTame (λ i. if nat_eq i.id id then f i else i)
IsTame-at id f t = record {
  same_id = λ i. ground (arith, t.same_id i);
  same_target = λ i. ground (arith, t.same_target i);
  opens_none = λ i. ground (arith, t.opens_none i);
}

pub IsTame-named : (reason : String) → IsTame (named reason)
IsTame-named reason = record {
  same_id = λ i. ground arith;
  same_target = λ i. ground arith;
  opens_none = λ i. ground arith;
}

pub IsTame-closed : (at : ℕ) → IsTame (closed_at_instant at)
IsTame-closed at = record { same_id = λ i. refl; same_target = λ i. refl; opens_none = λ i h. refl }

pub IsTame-removed : (at : ℕ) → IsTame (removed_at at)
IsTame-removed at = record {
  same_id = λ i. refl;
  same_target = λ i. refl;
  opens_none = λ i h. refl;
}

IsSound-update :
    (id : ℕ) (f : Incident → Incident) (db : FleetDb)
    → IsTame f
    → IsSound db
    → IsSound (record db { incidents = update_incident id f db.incidents })
unfolding update_incident
IsSound-update id f db t h = record {
  issued = issued-map db.next_id _ db.incidents (IsTame-at id f t) h.issued;
  separate = AllApart-map _ db.incidents (IsTame-at id f t) h.separate;
}

-- A target with no incident open takes a new one.
new-apart :
    (n : ℕ) (i : Incident) (incidents : List Incident)
    → i.id ≡ n
    → find (is_open_for i.target) incidents ≡ none
    → All (λ j. j.id < n) incidents
    → All (λ j. apart i j ≡ true) incidents
new-apart n i [] e none_open h = tt
new-apart n i (j ∷ js) e none_open (a, h) = elim (Bool-cases (is_open_for i.target j)) [
  | inl found ↦ absurd (cc (rw found at none_open))
  | inr other ↦ (rw other (ground arith), new-apart n i js e (rw other at none_open) h)
]

later :
    (n : ℕ) (incidents : List Incident)
    → All (λ i. i.id < n) incidents
    → All (λ i. i.id < suc n) incidents
later n [] h = tt
later n (i ∷ is) (a, h) = (omega arith, later n is h)

open_or_wait-IsSound :
    (threshold : ℕ) (result : CheckResult) (at fail_run : ℕ) (db : FleetDb)
    → find (is_open_for result.target) db.incidents ≡ none
    → IsSound db
    → IsSound (open_or_wait threshold result at fail_run db).1
unfolding open_or_wait
open_or_wait-IsSound threshold result at fail_run db e h =
    elim (Bool-cases (leb threshold fail_run)) [
      | inr waits ↦ rw waits h
      | inl opens ↦ rw opens (record {
        issued = (omega arith, later db.next_id db.incidents h.issued);
        separate = (
          new-apart db.next_id (new_incident db.next_id result at) db.incidents refl e h.issued,
          h.separate,
        );
      })
    ]

renamed-IsSound :
    (result : CheckResult) (id : ℕ) (db : FleetDb)
    → IsSound db
    → IsSound (record db {
      incidents =
          if result.ok then db.incidents else update_incident id (named result.reason) db.incidents;
    })
renamed-IsSound result id db h = elim (Bool-cases result.ok) [
  | inl e ↦ rw e h
  | inr e ↦ rw e (IsSound-update id (named result.reason) db (IsTame-named result.reason) h)
]

close_or_wait-IsSound :
    (threshold : ℕ) (result : CheckResult) (at ok_run id : ℕ) (db : FleetDb)
    → IsSound db
    → IsSound (close_or_wait threshold result at ok_run id db).1
unfolding close_or_wait
close_or_wait-IsSound threshold result at ok_run id db h =
    elim (Bool-cases (leb threshold ok_run)) [
      | inr waits ↦ rw waits (renamed-IsSound result id db h)
      | inl closes ↦ rw closes (
          IsSound-update id (closed_at_instant at) _ (IsTame-closed at)
            (renamed-IsSound result id db h))
    ]

-- A check keeps the incidents sound.
pub record_check-IsSound :
    (threshold gap : ℕ) (result : CheckResult) (at : ℕ) (db : FleetDb)
    → IsSound db
    → IsSound (record_check threshold gap result at db).1
unfolding record_check settle
record_check-IsSound threshold gap result at db h =
    let streak = next_streak gap result at (lookup result.target db.streaks) in
    let db' = record db { streaks = insert result.target streak db.streaks } in
    let h' : IsSound db' = record { issued = h.issued; separate = h.separate } in
    elim (Option-cases (find (is_open_for result.target) db.incidents)) [
      | inl e ↦ rw e (open_or_wait-IsSound threshold result at streak.fail_run db' e h')
      | inr (i, e) ↦ rw e (close_or_wait-IsSound threshold result at streak.ok_run i.id db' h')
    ]

close_removed-IsSound :
    (at : ℕ) (stale : List Incident) (db : FleetDb)
    → IsSound db
    → IsSound (record db { incidents = close_removed at stale db.incidents })
unfolding close_removed
close_removed-IsSound at [] db h = h
close_removed-IsSound at (gone ∷ stale) db h =
    close_removed-IsSound at stale
      (record db { incidents = update_incident gone.id (removed_at at) db.incidents })
      (IsSound-update gone.id (removed_at at) db (IsTame-removed at) h)

-- Closing the incidents of absent targets keeps them sound.
pub retire_absent-IsSound :
    (prefix : String) (seen : List String) (at : ℕ) (db : FleetDb)
    → IsSound db
    → IsSound (retire_absent prefix seen at db).1
unfolding retire_absent
retire_absent-IsSound prefix seen at db h =
    let done = close_removed-IsSound at (keep (is_stale prefix seen) db.incidents) db h in
    record { issued = done.issued; separate = done.separate }

-- What the collector does to the tables, in any order.
infix 40 ◌⟶◌
pub data ◌⟶◌ : FleetDb → FleetDb → Type 0 where
  checked :
      {db : FleetDb} (threshold gap : ℕ) (result : CheckResult) (at : ℕ)
      → db ⟶ (record_check threshold gap result at db).1
  pruned :
      {db : FleetDb} (prefix : String) (seen : List String) (at : ℕ)
      → db ⟶ (retire_absent prefix seen at db).1

pub data IsReachable : FleetDb → Type 0 where
  fresh : IsReachable empty_db
  after : {db db' : FleetDb} → IsReachable db → db ⟶ db' → IsReachable db'

step-IsSound : {db db' : FleetDb} → db ⟶ db' → IsSound db → IsSound db'
step-IsSound (checked threshold gap result at) h = record_check-IsSound threshold gap result at _ h
step-IsSound (pruned prefix seen at) h = retire_absent-IsSound prefix seen at _ h

-- In every file that checks and retirements can lead to from an empty one, each incident has an id
-- of its own, and no target has two incidents open.
pub IsSound-IsReachable : {db : FleetDb} → IsReachable db → IsSound db
IsSound-IsReachable fresh = record { issued = tt; separate = tt }
IsSound-IsReachable (after r s) = step-IsSound s (IsSound-IsReachable r)
