-- ===== src/Portal/Walk.antt =====
-- apps/admin-portal/src/lib/income.ts: the member log walked into income events.
use Prim.Native.Char.{code}
use Prim.Native.String.{◌++◌ as append_text}
use wizteros.Common.{
  ltb, leb, nat_eq, if◌then◌else◌, first_some, and_then, to_list, last, to_lower, ℕ, ◌-◌, String,
  Bool, true, false, not, ◌&&◌, ◌||◌, Option, none, some, List, [], ◌∷◌, ◌++◌, ◌==◌,
}
use wizteros.Tiers.{Tier, youth, parse_tier}
use wizteros.Portal.Income.{same_tier, tier_price}

-- `MemberEvent`
pub record MemberEvent : Type 0 where
  pub id : ℕ
  pub at : ℕ
  pub email : String
  pub action : String
  pub detail : String

abbrev is_word_char : ℕ → Bool
is_word_char n =
    (leb 48 n && leb n 57) || (leb 65 n && leb n 90) || (leb 97 n && leb n 122) || nat_eq n 95

-- The words of a text after the part of a word that was read.
unfoldable pub words_from : (word : String) → (rest : String) → List String
words_from word String.[] = word ∷ []
words_from word (String.◌∷◌ c s) =
    let longer = words_from (append_text word (String.◌∷◌ c "")) s in
    let next = words_from "" s in if is_word_char (code c) then longer else word ∷ next

-- The tier that a word names, in any case; kids is an old name of youth.
unfoldable pub tier_of_word : String → Option Tier
unfolding to_lower parse_tier
tier_of_word word =
    let lowered = to_lower word in if lowered == "kids" then some youth else parse_tier lowered

unfoldable pub first_tier : List String → Option Tier
unfolding tier_of_word
first_tier [] = none
first_tier (w ∷ ws) = first_some (tier_of_word w) (first_tier ws)

-- `tierFromDetail`: the first whole word that names a tier
unfoldable pub tier_from_detail : String → Option Tier
unfolding words_from first_tier
tier_from_detail detail = first_tier (words_from "" detail)

pub data IncomeKind : Type 0 where
  signup upgrade downgrade cancel cancel_scheduled payment_failure outage : IncomeKind

-- A signed amount.
pub data Delta : Type 0 where
  gain loss : ℕ → Delta

-- `IncomeEvent`, its wording aside
pub record IncomeEvent : Type 0 where
  pub source : ℕ
  pub at : ℕ
  pub kind : IncomeKind
  pub email : Option String
  pub tier : Option Tier
  pub from_tier : Option Tier
  pub delta : Delta

-- `PayingState`
pub record PayingState : Type 0 where
  pub paying : Bool
  pub tier : Option Tier
  pub inferred : Bool

abbrev pub empty_state : PayingState
empty_state = record { paying = false; tier = none; inferred = false }

abbrev pub price_of : Option Tier → ℕ
price_of none = 0
price_of (some t) = tier_price t

-- `memberEvent`
unfoldable pub member_event :
    MemberEvent → IncomeKind → Option Tier → (from_tier : Option Tier) → Delta → IncomeEvent
member_event source kind tier from_tier delta = record {
  source = source.id;
  at = source.at;
  kind = kind;
  email = some source.email;
  tier = tier;
  from_tier = from_tier;
  delta = delta;
}

-- `tierChange`
unfoldable pub tier_change : MemberEvent → (from to : Tier) → IncomeEvent
unfolding tier_price member_event
tier_change source from to =
    if ltb (tier_price from) (tier_price to)
    then member_event source upgrade (some to) (some from) (gain (tier_price to - tier_price from))
    else member_event source downgrade (some to) (some from)
        (loss (tier_price from - tier_price to))

-- The tier to move from, when a named tier is another than the one that is known.
unfoldable pub moved_from : Option Tier → Tier → Option Tier
moved_from none named = none
moved_from (some from) named = if same_tier named from then none else some from

-- A row that grants access, with the tier it names.
unfoldable pub step_grant :
    (restored : Bool) → PayingState → MemberEvent → Option Tier → PayingState × Option IncomeEvent
unfolding moved_from tier_change member_event tier_price
step_grant restored state source named =
    let tier = first_some named state.tier in
    let after : PayingState = record { paying = true; tier = tier; inferred = false } in
    if state.paying && not state.inferred
    then elim (and_then named (moved_from state.tier)) [
      | some from ↦ (after, map_to (λ to. tier_change source from to) named)
      | none ↦
          (after, (if restored then some (member_event source signup tier none (gain 0)) else none))
    ]
    else (after, some (member_event source signup tier none (gain (price_of tier))))
  where
    map_to : (Tier → IncomeEvent) → Option Tier → Option IncomeEvent
    map_to f none = none
    map_to f (some t) = some (f t)

-- A row that sets the tier.
unfoldable pub step_tier :
    PayingState → MemberEvent → Option Tier → PayingState × Option IncomeEvent
unfolding moved_from tier_change
step_tier state source none = (state, none)
step_tier state source (some named) =
    let after = record state { tier = some named } in
    if state.paying
    then elim (moved_from state.tier named) [
      | some from ↦ (after, some (tier_change source from named))
      | none ↦ (after, none)
    ]
    else (after, none)

-- A row that ends the paying.
unfoldable pub step_end : PayingState → MemberEvent → PayingState × Option IncomeEvent
unfolding member_event tier_price
step_end state source =
    if state.paying
    then (
      record { paying = false; tier = state.tier; inferred = false },
      some (member_event source cancel state.tier none (loss (price_of state.tier))),
    )
    else (state, none)

-- A renewal: somebody unknown to the log is taken to pay.
unfoldable pub step_renewal : PayingState → PayingState × Option IncomeEvent
step_renewal state =
    if state.paying then (state, none) else (record state { paying = true; inferred = true }, none)

pub data Action : Type 0 where
  grants : (restored : Bool) → Action
  sets_tier ends schedules_end fails_payment renews other_action : Action

-- The cases of the switch on `source.action`.
unfoldable pub action_of : String → Action
action_of a =
    if a == "Signed up"
    then grants false
    else if a == "Access restored"
    then grants true
    else if a == "Tier reset" || a == "Invite issued"
    then sets_tier
    else if a == "Canceled" || a == "Banned"
    then ends
    else if a == "Cancellation scheduled"
    then schedules_end
    else if a == "Payment failed"
    then fails_payment
    else if a == "Payment received"
    then renews
    else other_action

unfoldable pub step_action :
    Action → PayingState → MemberEvent → Option Tier → PayingState × Option IncomeEvent
unfolding step_grant step_tier step_end step_renewal member_event
step_action (grants restored) state source named = step_grant restored state source named
step_action sets_tier state source named = step_tier state source named
step_action ends state source named = step_end state source
step_action schedules_end state source named =
    (state, some (member_event source cancel_scheduled state.tier none (gain 0)))
step_action fails_payment state source named =
    (state, some (member_event source payment_failure state.tier none (gain 0)))
step_action renews state source named = step_renewal state
step_action other_action state source named = (state, none)

-- `stepMember`
unfoldable pub step_member : PayingState → MemberEvent → PayingState × Option IncomeEvent
unfolding action_of tier_from_detail step_action
step_member state source =
    step_action (action_of source.action) state source (tier_from_detail source.detail)

-- The rows of one member, walked in their order: where the member stands, and the events listed.
unfoldable pub walk : PayingState → List MemberEvent → PayingState × List IncomeEvent
unfolding step_member
walk state [] = (state, [])
walk state (row ∷ rows) =
    let (after, event) = step_member state row in
    let (last, events) = walk after rows in (last, to_list event ++ events)

-- One event of the list, replayed (`statesBefore`).
unfoldable pub replay_event : PayingState → IncomeEvent → PayingState
replay_event state event = elim event.kind [
  | signup ↦ record { paying = true; tier = first_some event.tier state.tier; inferred = false }
  | upgrade ↦ record { paying = true; tier = event.tier; inferred = false }
  | downgrade ↦ record { paying = true; tier = event.tier; inferred = false }
  | cancel ↦ record { paying = false; tier = state.tier; inferred = false }
  | _ ↦ state
]

unfoldable pub replay : PayingState → List IncomeEvent → PayingState
unfolding replay_event
replay state [] = state
replay state (event ∷ events) = replay (replay_event state event) events
