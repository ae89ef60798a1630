-- ===== src/Webhook/Dispatch.antt =====
-- Lines 582 to 641 of webhook/handlers.ts: the table of handlers, and `handleEvent`.
use wizteros.Common.{
  if◌then◌else◌, and_then, lookup, String, Bool, false, Option, none, some, List, [], ◌∷◌,
}
use wizteros.Json.{Json, Fields, row_of, as_text, truthy_text, envelope_field}
use wizteros.Store.{Store, is_event_processed, mark_event_processed}
use wizteros.Bridge.{Bridge, missing_field, M, pure, raise, gets, modify, ◌>>=◌, ◌>>◌, given}
use wizteros.Webhook.Handlers.{on_checkout_completed, on_invoice_paid}
use wizteros.Webhook.Dunning.{on_payment_failed, on_subscription_updated, on_subscription_deleted}

-- The id of an event, none when it has none or is no object.
unfoldable pub event_id_of : Json → Option String
unfolding truthy_text row_of
event_id_of event = and_then (row_of (some event)) (truthy_text "id")

-- The type, and then the object, none when the envelope carries one of them not.
unfoldable pub envelope_of : Json → Option (Json × Json)
unfolding envelope_field
envelope_of event = and_then (envelope_field "type" (some event)) (λ type.
    and_then (envelope_field "object" (envelope_field "data" (some event)))
      (λ obj. some (type, obj)))

unfoldable pub was_processed : Option String → Store → Bool
unfolding is_event_processed
was_processed none s = false
was_processed (some id) s = is_event_processed id s

unfoldable pub mark_processed : Option String → Store → Store
unfolding mark_event_processed
mark_processed none s = s
mark_processed (some id) s = (mark_event_processed id s).0

module _ (b : Bridge) where
  -- `HANDLERS`
  unfoldable pub handlers : List (String × (Fields → M (Unit {0})))
  unfolding on_checkout_completed on_invoice_paid on_payment_failed on_subscription_updated
      on_subscription_deleted
  handlers =
      ("checkout.session.completed", on_checkout_completed b)
      ∷ ("invoice.paid", on_invoice_paid b)
      ∷ ("invoice.payment_failed", on_payment_failed b)
      ∷ ("customer.subscription.updated", on_subscription_updated b)
      ∷ ("customer.subscription.deleted", on_subscription_deleted b)
      ∷ []

  -- Runs the handler of a type, if it has one.
  unfoldable pub dispatch : Json × Json → M (Unit {0})
  unfolding as_text row_of handlers lookup pure raise
  dispatch (type, obj) =
      given (and_then (as_text (some type)) (λ name. lookup name handlers)) (pure tt)
        (λ handler. given (row_of (some obj)) (raise missing_field) handler)

  -- An event that was not processed: it is marked when its handler did not throw.
  unfoldable pub process : (event_id : Option String) → Json → M (Unit {0})
  unfolding envelope_of raise dispatch modify mark_processed ◌>>=◌
  process event_id event = do
    given (envelope_of event) (raise missing_field) dispatch
    modify (mark_processed event_id)

  -- `handleEvent`
  unfoldable pub handle_event : Json → M (Unit {0})
  unfolding event_id_of gets was_processed pure process ◌>>=◌
  handle_event event = do
    seen ← gets (was_processed (event_id_of event))
    if seen then pure tt else process (event_id_of event) event
