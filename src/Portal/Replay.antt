-- ===== src/Portal/Replay.antt =====
-- The list of events is enough to know who pays.
use wizteros.Common.{
  to_list, ◌≡◌, refl, Bool, true, not, ◌&&◌, ◌||◌, Option, none, some, List, [], ◌∷◌, ◌++◌, arith,
}
use wizteros.Tiers.{Tier}
use wizteros.Portal.Walk.{
  MemberEvent, tier_from_detail, IncomeEvent, PayingState, member_event, tier_change, step_grant,
  step_tier, step_end, step_renewal, Action, action_of, step_action, step_member, walk,
  replay_event, replay,
}

-- A replayed standing pays if the walked one is known to, and only if the walked one does.
abbrev pub follows : PayingState → PayingState → Bool
follows walked replayed =
    (not (walked.paying && not walked.inferred) || replayed.paying)
    && (not replayed.paying || walked.paying)

abbrev replay_option : PayingState → Option IncomeEvent → PayingState
replay_option state none = state
replay_option state (some event) = replay_event state event

step-follows :
    (action : Action) (s r : PayingState) (source : MemberEvent) (named : Option Tier)
    → follows s r ≡ true
    → follows
        (step_action action s source named).0
        (replay_option r (step_action action s source named).1)
      ≡ true
unfolding step_action step_grant step_tier step_end step_renewal replay_event tier_change
    member_event
step-follows action s r source named h = ground arith

replay-append :
    (state : PayingState) (events more : List IncomeEvent)
    → replay state (events ++ more) ≡ replay (replay state events) more
unfolding replay
replay-append state [] more = refl
replay-append state (e ∷ events) more = replay-append (replay_event state e) events more

replay-listed :
    (state : PayingState) (event : Option IncomeEvent) (events : List IncomeEvent)
    → replay state (to_list event ++ events) ≡ replay (replay_option state event) events
unfolding replay
replay-listed state none events = refl
replay-listed state (some event) events = refl

-- Replaying the events that a walk over a member's rows listed tells who pays: whoever the log has seen
-- sign up and not leave stands as paying, and whoever stands as paying pays by the walk. Only for those
-- that the walk infers from a renewal may the two differ.
pub walk-replay :
    (walked replayed : PayingState) (rows : List MemberEvent)
    → follows walked replayed ≡ true
    → follows (walk walked rows).0 (replay replayed (walk walked rows).1) ≡ true
unfolding walk replay step_member
walk-replay walked replayed [] h = h
walk-replay walked replayed (row ∷ rows) h =
    let next = step_member walked row in
    rw (replay-listed replayed next.1 (walk next.0 rows).1) (
      walk-replay next.0 (replay_option replayed next.1) rows
        (step-follows (action_of row.action) walked replayed row (tier_from_detail row.detail) h))
