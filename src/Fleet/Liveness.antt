-- ===== src/Fleet/Liveness.antt =====
-- Hysteresis: how many checks in a row open an incident, and how many close it.
use wizteros.Common.{
  ltb, leb, any, reduce, ℕ, zero, suc, ◌+◌, ◌<◌, String, ◌≡◌, refl, ap, ◌∙◌, Bool, true, false, not,
  ◌&&◌, ◌||◌, List, [], ◌∷◌, ◌++◌, arith,
}
use wizteros.Fleet.Tables.{CheckResult, FleetDb}
use wizteros.Fleet.Incidents.{is_open_for, run_checks}
use wizteros.Fleet.Sound.{IsSound}
use wizteros.Fleet.Automaton.{Health, step, health, outcomes_of, run_checks-health}

-- The same outcome, a number of times.
abbrev pub repeated : ℕ → Bool → List Bool
repeated zero ok = []
repeated (suc n) ok = ok ∷ repeated n ok

-- An incident stands after failing checks alone exactly when one stood before or the run of failures
-- has reached the threshold.
pub failing-down :
    (threshold n : ℕ) (h : Health)
    → 0 < threshold
    → (reduce (step threshold) h (repeated n false)).down
      ≡ (h.down || (ltb 0 n && leb threshold (h.fail_run + n)))
unfolding step
failing-down threshold zero h p = ground arith
failing-down threshold (suc n) h p =
    ground (arith, failing-down threshold n (step threshold h false) p)

-- After passing checks alone none stands exactly when none stood before or the run has reached it.
pub passing-down :
    (threshold n : ℕ) (h : Health)
    → 0 < threshold
    → (reduce (step threshold) h (repeated n true)).down
      ≡ (h.down && not (ltb 0 n && leb threshold (h.ok_run + n)))
unfolding step
passing-down threshold zero h p = ground arith
passing-down threshold (suc n) h p =
    ground (arith, passing-down threshold n (step threshold h true) p)

reduce-append :
    {A B : Type 0} (f : B → A → B) (b : B) (xs ys : List A)
    → reduce f b (xs ++ ys) ≡ reduce f (reduce f b xs) ys
reduce-append f b [] ys = refl
reduce-append f b (x ∷ xs) ys = reduce-append f (f b x) xs ys

module _ (threshold gap : ℕ) (t : String) (checks : List (CheckResult × ℕ)) (db : FleetDb)
    (earlier : List Bool) (positive : 0 < threshold) (sound : IsSound db) where
  ends_with :
      (ok : Bool)
      → outcomes_of t checks ≡ earlier ++ repeated threshold ok
      → health t (run_checks threshold gap checks db)
        ≡ reduce
            (step threshold)
            (reduce (step threshold) (health t db) earlier)
            (repeated threshold ok)
  ends_with ok e =
      run_checks-health threshold gap t checks db sound
      ∙ rw (e, reduce-append (step threshold) (health t db) earlier (repeated threshold ok)) refl

  settled :
      (h : Health) (ok : Bool) → (reduce (step threshold) h (repeated threshold ok)).down ≡ not ok
  settled h true = passing-down threshold threshold h positive ∙ ground arith
  settled h false = failing-down threshold threshold h positive ∙ ground arith

  -- Once the last `threshold` checks of a target have failed, the target has an incident open; once
  -- they have passed, it has none. What came before them, and the checks of other targets between
  -- them, do not matter.
  pub run_checks-settles :
      (ok : Bool)
      → outcomes_of t checks ≡ earlier ++ repeated threshold ok
      → any (is_open_for t) (run_checks threshold gap checks db).incidents ≡ not ok
  unfolding health
  run_checks-settles ok e =
      ap (λ (h : Health). h.down) (ends_with ok e)
      ∙ settled (reduce (step threshold) (health t db) earlier) ok
