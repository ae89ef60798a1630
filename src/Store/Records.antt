-- ===== src/Store/Records.antt =====
-- events.ts and invites.ts of the store: the Stripe events acted on, the action history, the invite
-- bound to each operation, and the baseline invites that the bridge owns.
use Prim.Native.String.{◌++◌ as append_text}
use wizteros.Common.{
  leb, if◌then◌else◌, keep, any, find, contains, to_lower, ℕ, zero, suc, String, Bool, true, false,
  not, Option, List, [], ◌∷◌, ◌++◌, ◌==◌,
}
use wizteros.Store.Tables.{Entry, EventRow, SessionInvite, BaselineInvite, Store}

unfoldable pub is_event_processed : String → Store → Bool
is_event_processed event_id s = contains s.processed event_id

-- `INSERT OR IGNORE`; true if the event is newly recorded
unfoldable pub mark_event_processed : String → Store → Store × Bool
mark_event_processed event_id s =
    if contains s.processed event_id
    then (s, false)
    else (record s { processed = s.processed ++ event_id ∷ [] }, true)

next_id : List EventRow → ℕ
next_id [] = 1
next_id (e ∷ events) = suc e.id

-- The history is held newest first; ids grow by one.
unfoldable pub record_event : (at : ℕ) → (email : String) → Entry → Store → Store
unfolding next_id to_lower
record_event at email entry s = record s {
  events =
      record { id = next_id s.events; at = at; email = to_lower email; entry = entry } ∷ s.events;
}

unfoldable pub take_events : ℕ → List EventRow → List EventRow
take_events zero es = []
take_events (suc n) [] = []
take_events (suc n) (e ∷ es) = e ∷ take_events n es

unfoldable pub events_for_email : String → (limit : ℕ) → Store → List EventRow
unfolding take_events to_lower
events_for_email email limit s = take_events limit (keep (λ e. e.email == to_lower email) s.events)

unfoldable pub all_events : (limit : ℕ) → Store → List EventRow
unfolding take_events
all_events limit s = take_events limit s.events

pub data InviteOperation : Type 0 where
  checkout : String → InviteOperation
  recovery : String → InviteOperation

unfoldable pub operation_key : InviteOperation → String
operation_key (checkout id) = id
operation_key (recovery id) = append_text "invoice:" id

unfoldable pub get_invite_issuance : InviteOperation → Store → Option SessionInvite
unfolding operation_key
get_invite_issuance operation s =
    find (λ r. r.session_id == operation_key operation) s.session_invites

-- `ON CONFLICT DO NOTHING`
unfoldable pub record_invite_issuance : InviteOperation → (invite_code : String) → Store → Store
unfolding operation_key
record_invite_issuance operation invite_code s =
    let key = operation_key operation in
    if any (λ r. r.session_id == key) s.session_invites then s else record s {
      session_invites =
          s.session_invites
          ++ record { session_id = key; invite_code = invite_code; emailed = false } ∷ [];
    }

unfoldable pub mark_emailed : String → List SessionInvite → List SessionInvite
mark_emailed key [] = []
mark_emailed key (r ∷ rows) =
    (if r.session_id == key then record r { emailed = true } else r) ∷ mark_emailed key rows

unfoldable pub mark_invite_emailed : InviteOperation → Store → Store
unfolding mark_emailed operation_key
mark_invite_emailed operation s = record s {
  session_invites = mark_emailed (operation_key operation) s.session_invites;
}

-- `INSERT OR REPLACE`
unfoldable pub record_baseline_invite : BaselineInvite → Store → Store
record_baseline_invite invite s = record s {
  baselines = keep (λ r. not (r.code == invite.code)) s.baselines ++ invite ∷ [];
}

insert_newest : BaselineInvite → List BaselineInvite → List BaselineInvite
insert_newest b [] = b ∷ []
insert_newest b (c ∷ cs) =
    if leb c.created_at b.created_at then b ∷ c ∷ cs else c ∷ insert_newest b cs

newest_first : List BaselineInvite → List BaselineInvite
unfolding insert_newest
newest_first [] = []
newest_first (b ∷ bs) = insert_newest b (newest_first bs)

-- `ORDER BY created_at DESC`
unfoldable pub all_baseline_invites : Store → List BaselineInvite
unfolding newest_first
all_baseline_invites s = newest_first s.baselines

unfoldable pub forget_baseline_invite : (code : String) → Store → Store
forget_baseline_invite code s = record s {
  baselines = keep (λ r. not (r.code == code)) s.baselines;
}
