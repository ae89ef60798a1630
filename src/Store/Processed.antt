-- ===== src/Store/Processed.antt =====
-- No write of a handler touches the table of processed events.
use wizteros.Common.{ℕ, String, ◌≡◌, refl, Bool, Option, List, arith}
use wizteros.Status.{PaymentState}
use wizteros.Tiers.{Tier}
use wizteros.Store.Tables.{CustomerMap, Entry, Store}
use wizteros.Store.Customers.{
  set_by_email_or_placeholder, upsert_pending, upsert_pending_by_email, set_subscribed,
  set_payment_state,
}
use wizteros.Store.Records.{
  record_event, InviteOperation, record_invite_issuance, mark_invite_emailed,
}

abbrev pub processed_of : Store → List String
processed_of s = s.processed

pub record_event-processed :
    (at : ℕ) (email : String) (entry : Entry) (s : Store)
    → processed_of (record_event at email entry s) ≡ processed_of s
unfolding record_event
record_event-processed at email entry s = refl

pub set_by_email_or_placeholder-processed :
    (f : CustomerMap → CustomerMap) (email : String) (s : Store)
    → processed_of (set_by_email_or_placeholder f email s) ≡ processed_of s
unfolding set_by_email_or_placeholder
set_by_email_or_placeholder-processed f email s = ground arith

pub upsert_pending-processed :
    (id email code : String) (tier : Option Tier) (at : ℕ) (s : Store)
    → processed_of (upsert_pending id email code tier at s) ≡ processed_of s
unfolding upsert_pending
upsert_pending-processed id email code tier at s = refl

pub upsert_pending_by_email-processed :
    (email code : String) (tier : Option Tier) (at : ℕ) (s : Store)
    → processed_of (upsert_pending_by_email email code tier at s) ≡ processed_of s
unfolding upsert_pending_by_email
upsert_pending_by_email-processed email code tier at s =
    set_by_email_or_placeholder-processed _ email s

pub set_payment_state-processed :
    (email : String) (state : Option PaymentState) (s : Store)
    → processed_of (set_payment_state email state s) ≡ processed_of s
unfolding set_payment_state
set_payment_state-processed email state s = refl

pub set_subscribed-processed :
    (email : String) (value : Bool) (s : Store)
    → processed_of (set_subscribed email value s) ≡ processed_of s
unfolding set_subscribed
set_subscribed-processed email value s = refl

pub record_invite_issuance-processed :
    (op : InviteOperation) (code : String) (s : Store)
    → processed_of (record_invite_issuance op code s) ≡ processed_of s
unfolding record_invite_issuance
record_invite_issuance-processed op code s = ground arith

pub mark_invite_emailed-processed :
    (op : InviteOperation) (s : Store) → processed_of (mark_invite_emailed op s) ≡ processed_of s
unfolding mark_invite_emailed
mark_invite_emailed-processed op s = refl

pub ruleset processed_rules =
    (record_event-processed, set_payment_state-processed, set_subscribed-processed)
