-- ===== src/Sweeps/Alarm.antt =====
-- apps/stripe-bridge/src/changeAlert.ts: an alarm that mails once per distinct problem set. A set is
-- its canonical key; `same` compares two of them.
use wizteros.Common.{if◌then◌else◌, last, Bool, false, Option, none, some}
use wizteros.Bridge.{Alert, Bridge, M, pure, ◌>>=◌, ◌>>◌, send_alert}

-- The set last alerted on, none when nothing is outstanding.
abbrev pub ChangeAlert : Type 0 → Type 0
ChangeAlert K = Option K

module _ {K : Type 0} (same : K → K → Bool) where
  unfoldable pub is_outstanding : ChangeAlert K → K → Bool
  is_outstanding none current = false
  is_outstanding (some last) current = same current last

  -- `clear`
  abbrev pub clear : ChangeAlert K
  clear = none

  -- `fire`: the alarm afterwards
  unfoldable pub fire : (b : Bridge) → ChangeAlert K → (current : K) → Alert → M (ChangeAlert K)
  unfolding is_outstanding pure send_alert ◌>>=◌
  fire b alarm current alert =
      if is_outstanding alarm current
      then pure alarm
      else (send_alert b alert >> pure (some current))
