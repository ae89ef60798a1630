-- ===== src/Fleet/Tables.antt =====
-- apps/fleet-monitor/src/incidents.ts: the two tables and their rows.
use wizteros.Common.{ℕ, String, Bool, Option, List, []}

-- `CheckResult`
pub record CheckResult : Type 0 where
  pub target : String
  pub ok : Bool
  pub reason : String

-- A row of `check_streak`, its target aside.
pub record Streak : Type 0 where
  pub ok_run : ℕ
  pub fail_run : ℕ
  pub last_at : ℕ
  pub observed_since : ℕ

-- `Incident`, a row of `incidents`
pub record Incident : Type 0 where
  pub id : ℕ
  pub target : String
  pub reason : String
  pub opened_at : ℕ
  pub closed_at : Option ℕ

-- The tables of the file. The incidents stand with the newest first; `next_id` is the id that
-- AUTOINCREMENT gives to the next one.
pub record FleetDb : Type 0 where
  pub streaks : List (String × Streak)
  pub incidents : List Incident
  pub next_id : ℕ

-- Both tables as `initDb` makes them.
abbrev pub empty_db : FleetDb
empty_db = record { streaks = []; incidents = []; next_id = 1 }

-- What `record` answers, when it does not answer null.
pub data Transition : Type 0 where
  opened closed : Transition
