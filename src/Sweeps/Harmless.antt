-- ===== src/Sweeps/Harmless.antt =====
-- The checks never throw, and leave a member's access alone.
use wizteros.Common.{String, ◌≡◌, refl, Bool, true, Option, none, some, List, [], ◌∷◌, map, arith}
use wizteros.Status.{PaymentState}
use wizteros.Standing.{MemberTag}
use wizteros.Tiers.{Tier, ScopeProblem, StaleLibrary}
use wizteros.Store.{
  CustomerMap, CustomerRow, Entry, Store, update_rows, set_payment_state, same, record_event,
}
use wizteros.Bridge.{
  DunningFinding, Alert, Call, Bridge, M, modify, live_sections_or_none, list_subscriptions,
  send_alert, now, log_event,
}
use wizteros.Bridge.Frame.{
  Stays, Stays-pure, Stays-catch, Stays-modify, Stays-bind, frame_rules, Stays-log_event,
}
use wizteros.Bridge.Succeeds.{Succeeds, succeeds_rules}
use wizteros.Members.{access_line}
use wizteros.Members.Frame.{is_read, access_line-Stays}
use wizteros.Webhook.Tags.{may_tell}
use wizteros.Sweeps.{
  ChangeAlert, fire, or_none, mirror_state, check_row, report_findings, check_rows,
  check_payment_states, report_found, report_stranded, check_vips, check_vip_access,
  report_problems, check_tier_scopes,
}

or_none-Succeeds : {A : Type 0} (m : M A) → Succeeds (or_none m)
unfolding or_none
or_none-Succeeds m = search succeeds_rules

or_none-Stays :
    {V A : Type 0} {may : Call → Bool} {view : Store → V} (m : M A)
    → Stays may view m
    → Stays may view (or_none m)
unfolding or_none
or_none-Stays m h =
    Stays-catch _ _ (Stays-bind m _ h (λ a. Stays-pure (some a))) (λ e. Stays-pure none)

abbrev stateless : CustomerMap → CustomerMap
stateless r = record r { payment_state = none }

-- The store less its history and the payment states.
unfoldable pub but_states : Store → Store
but_states s = record s { customers = map stateless s.customers; events = [] }

update_rows-states :
    (state : Option PaymentState) (email : String) (rows : List CustomerMap)
    → map stateless (update_rows (λ r. record r { payment_state = state }) email rows)
      ≡ map stateless rows
unfolding update_rows
update_rows-states state email [] = refl
update_rows-states state email (r ∷ rows) = ground (arith, update_rows-states state email rows)

set_payment_state-states :
    (email : String) (state : Option PaymentState) (s : Store)
    → but_states (set_payment_state email state s) ≡ but_states s
unfolding set_payment_state but_states
set_payment_state-states email state s = rw (update_rows-states state email s.customers) refl

reads_tell : (c : Call) → is_read c ≡ true → may_tell c ≡ true
unfolding may_tell
reads_tell c h = ground arith

module _ (b : Bridge) where
  log_event-Succeeds : (email : String) (entry : Entry) → Succeeds (log_event b email entry)
  unfolding log_event now
  log_event-Succeeds email entry = search succeeds_rules

  access_line-Succeeds :
      (customer_id : Option String) (email : String) → Succeeds (access_line b customer_id email)
  unfolding access_line
  access_line-Succeeds customer_id email = search succeeds_rules

  mirror_state-Succeeds :
      (email : String) (row : CustomerRow) (status : String) (state : Option PaymentState)
      → Succeeds (mirror_state b email row status state)
  unfolding mirror_state
  mirror_state-Succeeds email row status none = search (succeeds_rules, log_event-Succeeds)
  mirror_state-Succeeds email row status (some state) =
      search (succeeds_rules, log_event-Succeeds, access_line-Succeeds)

  check_row-Succeeds :
      (by_customer : List (String × String)) (entry : String × CustomerRow)
      → Succeeds (check_row b by_customer entry)
  unfolding check_row
  check_row-Succeeds by_customer entry = search (succeeds_rules, mirror_state-Succeeds)

  report_findings-Succeeds : (fs : List DunningFinding) → Succeeds (report_findings b fs)
  unfolding report_findings send_alert
  report_findings-Succeeds [] = search succeeds_rules
  report_findings-Succeeds (f ∷ fs) = search succeeds_rules

  check_rows-Succeeds : (by_customer : List (String × String)) → Succeeds (check_rows b by_customer)
  unfolding check_rows
  check_rows-Succeeds by_customer =
      search (succeeds_rules, check_row-Succeeds, report_findings-Succeeds)

  fire-Succeeds :
      {K : Type 0} (same : K → K → Bool) (alarm : ChangeAlert K) (current : K) (alert : Alert)
      → Succeeds (fire same b alarm current alert)
  unfolding fire send_alert
  fire-Succeeds same alarm current alert = search succeeds_rules

  report_found-Succeeds :
      {A K : Type 0} (same : K → K → Bool) (key : List A → K) (alarm : ChangeAlert K) (xs : List A)
      (alert : Alert)
      → Succeeds (report_found b same key alarm xs alert)
  unfolding report_found
  report_found-Succeeds same key alarm [] alert = search succeeds_rules
  report_found-Succeeds same key alarm (x ∷ xs) alert = search (succeeds_rules, fire-Succeeds)

  check_vips-Succeeds :
      (alarm : ChangeAlert (List String)) (tags : List (String × MemberTag)) (vs : List String)
      → Succeeds (check_vips b alarm tags vs)
  unfolding check_vips report_stranded
  check_vips-Succeeds alarm tags [] = search succeeds_rules
  check_vips-Succeeds alarm tags (v ∷ vs) =
      search (succeeds_rules, or_none-Succeeds, report_found-Succeeds)

  report_problems-Succeeds :
      (alarm : ChangeAlert (List (String × String))) (scopes : List (Tier × ScopeProblem))
      (caches : List (String × List StaleLibrary))
      → Succeeds (report_problems b alarm scopes caches)
  unfolding report_problems
  report_problems-Succeeds alarm scopes caches = search report_found-Succeeds

-- Whatever the services answer, and whichever of them is down, none of the three checks throws.
pub checks-Succeed :
    (b : Bridge) (scopes : ChangeAlert (List (String × String))) (vips : ChangeAlert (List String))
    → Succeeds (check_payment_states b)
      × Succeeds (check_vip_access b vips)
      × Succeeds (check_tier_scopes b scopes)
unfolding check_payment_states check_vip_access check_tier_scopes live_sections_or_none
checks-Succeed b scopes vips = (
  search (succeeds_rules, or_none-Succeeds, check_rows-Succeeds),
  search (succeeds_rules, check_vips-Succeeds),
  search (succeeds_rules, or_none-Succeeds, report_problems-Succeeds),
)

module _ (b : Bridge) where
  log_event-Stays :
      (email : String) (entry : Entry) → Stays may_tell but_states (log_event b email entry)
  unfolding but_states record_event may_tell
  log_event-Stays email entry =
      Stays-log_event may_tell but_states b email entry refl (λ at s. refl)

  sets-Stays :
      (email : String) (state : Option PaymentState)
      → Stays may_tell but_states (modify (set_payment_state email state))
  sets-Stays email state = Stays-modify _ (λ s. set_payment_state-states email state s)

  mirror_state-Stays :
      (email : String) (row : CustomerRow) (status : String) (state : Option PaymentState)
      → Stays may_tell but_states (mirror_state b email row status state)
  unfolding mirror_state
  mirror_state-Stays email row status none = search (frame_rules, sets-Stays, log_event-Stays)
  mirror_state-Stays email row status (some state) =
      search
        (frame_rules, sets-Stays, log_event-Stays, access_line-Stays {may = may_tell} b reads_tell)

  check_row-Stays :
      (by_customer : List (String × String)) (entry : String × CustomerRow)
      → Stays may_tell but_states (check_row b by_customer entry)
  unfolding check_row
  check_row-Stays by_customer entry = search (frame_rules, mirror_state-Stays)

  report_findings-Stays :
      (fs : List DunningFinding) → Stays may_tell but_states (report_findings b fs)
  unfolding report_findings send_alert may_tell
  report_findings-Stays [] = search frame_rules
  report_findings-Stays (f ∷ fs) = search frame_rules

  check_rows-Stays :
      (by_customer : List (String × String)) → Stays may_tell but_states (check_rows b by_customer)
  unfolding check_rows
  check_rows-Stays by_customer = search (frame_rules, check_row-Stays, report_findings-Stays)

-- The dunning sweep reads and alerts, and does nothing else outside; in the store it writes payment
-- states and history alone. No member's access is touched.
pub check_payment_states-Stays : (b : Bridge) → Stays may_tell but_states (check_payment_states b)
unfolding check_payment_states list_subscriptions may_tell
check_payment_states-Stays b = search (frame_rules, or_none-Stays, check_rows-Stays)
