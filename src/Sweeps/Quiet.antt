-- ===== src/Sweeps/Quiet.antt =====
-- A standing problem is mailed once.
use wizteros.Common.{if◌then◌else◌, Bool-cases, ◌≡◌, refl, inl, inr, Bool, Option, some, List, ◌∷◌}
use wizteros.Bridge.{
  Alert, lists_libraries, reads_live_sections, Trace, Bridge, World, ok, pure, answered, perform,
  continue, ◌>>=◌, send_alert,
}
use wizteros.Sweeps.{ChangeAlert, is_outstanding, fire}
use wizteros.Tiers.{WizarrLibrary, LiveSections}

module _ {K : Type 0} (same : K → K → Bool) (b : Bridge) (k : K) (alert : Alert) where
  -- The alarm after a set was found.
  abbrev next : ChangeAlert K → ChangeAlert K
  next alarm = if is_outstanding same alarm k then alarm else some k

  fire-next :
      (alarm : ChangeAlert K) (w : World) → (fire same b alarm k alert w).0 ≡ ok (next alarm)
  unfolding fire pure send_alert perform answered ◌>>=◌ continue
  fire-next alarm w = elim (Bool-cases (is_outstanding same alarm k)) [
    | inl e ↦ rw (e, fire) refl
    | inr e ↦ rw (e, fire) refl
  ]

module _ (b : Bridge) (libraries : List WizarrLibrary) (live : Option LiveSections)
    (same_libraries : (t : Trace) → b.libraries t ≡ some libraries)
    (same_live : (t : Trace) → b.live_sections t ≡ live) where
  -- The world after the two lists were read.
  abbrev read_world : World → World
  read_world w = record w { calls = reads_live_sections ∷ lists_libraries ∷ w.calls }
