-- ===== src/Webhook/Bounds.antt =====
-- The calls that each handler is bounded by.
use wizteros.Common.{◌≡◌, Bool, true, false, arith}
use wizteros.Bridge.{
  Call, creates_invite, deletes_invitation, sets_expiry, disables_user, cancels_at_period_end,
  cancels_now, voids_invoice, sends_invite, sends_alert, sends_payment_failed,
}
use wizteros.Members.Frame.{is_read}

-- Reads, and what a renewal does: stamps an expiry, mints and mails an invite, alerts.
unfoldable pub may_renew : Call → Bool
unfolding is_read
may_renew (sets_expiry id expires) = true
may_renew (creates_invite request) = true
may_renew (sends_invite to url) = true
may_renew (sends_alert alert) = true
may_renew call = is_read call

-- Reads, and what dunning does: mails, and cancels a duplicate subscription.
unfoldable pub may_dun : Call → Bool
unfolding is_read
may_dun (cancels_now id) = true
may_dun (voids_invoice id) = true
may_dun (sends_alert alert) = true
may_dun (sends_payment_failed to url) = true
may_dun call = is_read call

-- Reads, and disabling a record.
unfoldable pub may_disable : Call → Bool
unfolding is_read
may_disable (disables_user id) = true
may_disable call = is_read call

-- Everything but deleting an invitation, a cancellation at the period's end and a dunning mail.
unfoldable pub may_check_out : Call → Bool
unfolding is_read
may_check_out (deletes_invitation id) = false
may_check_out (cancels_at_period_end id) = false
may_check_out (sends_payment_failed to url) = false
may_check_out call = true

-- By cases on the call.
pub reads_renew : (c : Call) → is_read c ≡ true → may_renew c ≡ true
unfolding may_renew
reads_renew c h = ground arith

pub reads_dun : (c : Call) → is_read c ≡ true → may_dun c ≡ true
unfolding may_dun
reads_dun c h = ground arith

pub reads_disable : (c : Call) → is_read c ≡ true → may_disable c ≡ true
unfolding may_disable
reads_disable c h = ground arith

pub reads_check_out : (c : Call) → is_read c ≡ true → may_check_out c ≡ true
unfolding may_check_out
reads_check_out c h = ground arith
