-- ===== src/Webhook/Delivery.antt =====
-- Deliveries of one event: it is marked exactly when its handling did not throw, and a delivery of
-- it after that does nothing.
use mathlib.Core.Path.{subst}
use wizteros.Common.{
  or_else, and_then, Bool-cases, All, All-everywhere, contains, lookup, String, ◌≡◌, refl, ap, ◌∙◌,
  inl, inr, Bool, true, false, ◌&&◌, ◌||◌, Option, none, some, List, [], ◌∷◌, arith, ◌==◌, eq_refl,
}
use wizteros.Json.{Json, Fields, row_of, as_text}
use wizteros.Store.{Store, is_event_processed}
use wizteros.Bridge.{
  Call, Bridge, World, missing_field, Result, ok, err, M, pure, raise, gets, modify, continue,
  ◌>>=◌, given,
}
use wizteros.Bridge.Frame.{Stays, Stays-pure, Stays-raise, Stays-given, frame_rules}
use wizteros.Store.Processed.{processed_of}
use wizteros.Store.Bindings.{mark_event_processed_lem}
use wizteros.Webhook.Dispatch.{
  event_id_of, envelope_of, was_processed, mark_processed, handlers, dispatch, process,
  handle_event,
}
use wizteros.Webhook.Powers.{on_checkout_completed-Stays, on_invoice_paid-Stays}
use wizteros.Webhook.Revocations.{
  on_payment_failed-Stays, on_subscription_updated-Stays, on_subscription_deleted-Stays,
}

abbrev any_call : Call → Bool
any_call call = true

anyhow :
    {A : Type 0} {may : Call → Bool} (m : M A)
    → Stays may processed_of m
    → Stays any_call processed_of m
anyhow {may = may} m h = record {
  at = λ w.
      let f = h.at w in
      record {
        kept = f.kept;
        made = f.made;
        trace = f.trace;
        allowed = All-everywhere (λ c. any_call c ≡ true) (λ c. refl) f.made;
      };
}

some_injective : {B : Type 0} (v w : B) → some v ≡ some w → v ≡ w
some_injective v w e = ap (λ o. or_else o v) e

lookup-All :
    {B : Type 0} (P : B → Type 0) (key : String) (m : List (String × B)) (v : B)
    → All (λ e. P e.1) m
    → lookup key m ≡ some v
    → P v
unfolding lookup
lookup-All P key [] v h e = absurd (cc e)
lookup-All P key ((k, w) ∷ m) v (p, h) e = elim (Bool-cases (k == key)) [
  | inl t ↦ subst P (some_injective w v (rw t at e)) p
  | inr f ↦ lookup-All P key m v h (rw f at e)
]

module _ (b : Bridge) where
  handlers-All : All (λ e. (obj : Fields) → Stays any_call processed_of (e.1 obj)) (handlers b)
  unfolding handlers
  handlers-All = (
    (λ obj. anyhow _ (on_checkout_completed-Stays b obj)),
    (
      (λ obj. anyhow _ (on_invoice_paid-Stays b obj)),
      (
        (λ obj. anyhow _ (on_payment_failed-Stays b obj)),
        (
          (λ obj. anyhow _ (on_subscription_updated-Stays b obj)),
          ((λ obj. anyhow _ (on_subscription_deleted-Stays b obj)), tt),
        ),
      ),
    ),
  )

  -- The handler of the type, if it has one, leaves the processed events alone.
  dispatch-Stays : (envelope : Json × Json) → Stays any_call processed_of (dispatch b envelope)
  unfolding dispatch
  dispatch-Stays (type, obj) =
      named (and_then (as_text (some type)) (λ name. lookup name (handlers b)))
        (and_then-handler (as_text (some type)))
    where
      IsHandler : (Fields → M (Unit {0})) → Type 0
      IsHandler handler = (o : Fields) → Stays any_call processed_of (handler o)

      and_then-handler :
          (name : Option String) (handler : Fields → M (Unit {0}))
          → and_then name (λ name. lookup name (handlers b)) ≡ some handler
          → IsHandler handler
      and_then-handler none handler e = absurd (cc e)
      and_then-handler (some name) handler e =
          lookup-All IsHandler name (handlers b) handler handlers-All e

      named :
          (o : Option (Fields → M (Unit {0})))
          → ((handler : Fields → M (Unit {0})) → o ≡ some handler → IsHandler handler)
          → Stays any_call processed_of (
              given o
                (pure tt)
                (λ handler. given (row_of (some obj)) (raise missing_field) handler))
      named none h = Stays-pure tt
      named (some handler) h =
          Stays-given (row_of (some obj)) _ _ (Stays-raise missing_field) (h handler refl)

abbrev pub is_ok : {A : Type 0} → Result A → Bool
is_ok (ok a) = true
is_ok (err e) = false

-- Marks the event, if what came before did not throw.
abbrev mark_after : (id : String) → Result (Unit {0}) → World → Result (Unit {0}) × World
mark_after id r w = continue r (λ _. modify (mark_processed (some id))) w

mark_after_lem :
    (id other : String) (r : Result (Unit {0})) (w : World)
    → is_event_processed other (mark_after id r w).1.store
      ≡ (is_event_processed other w.store || (is_ok (mark_after id r w).0 && (id == other)))
unfolding continue modify mark_processed
mark_after_lem id other (ok a) w = (mark_event_processed_lem id other w.store).0
mark_after_lem id other (err e) w = ground arith

is_event_processed-of :
    (other : String) (s s' : Store)
    → processed_of s' ≡ processed_of s
    → is_event_processed other s' ≡ is_event_processed other s
unfolding is_event_processed
is_event_processed-of other s s' h = ap (λ p. contains p other) h

module _ (b : Bridge) where
  body : Json → M (Unit {0})
  unfolding envelope_of
  body event = given (envelope_of event) (raise missing_field) (dispatch b)

  body-Stays : (event : Json) → Stays any_call processed_of (body event)
  unfolding body
  body-Stays event = search (frame_rules, dispatch-Stays b)

  process_lem :
      (event : Json) (id other : String) (w : World)
      → is_event_processed other (process b (some id) event w).1.store ≡ (
          is_event_processed other w.store
          || (is_ok (process b (some id) event w).0 && (id == other)))
  unfolding process ◌>>=◌ body
  process_lem event id other w =
      let (r, w') = body event w in
      rw (← is_event_processed-of other w.store w'.store ((body-Stays event).at w).kept)
        (mark_after_lem id other r w')

  fresh-handle_event :
      (event : Json) (id : String) (w : World)
      → event_id_of event ≡ some id
      → is_event_processed id w.store ≡ false
      → handle_event b event w ≡ process b (some id) event w
  unfolding handle_event gets ◌>>=◌ continue was_processed
  fresh-handle_event event id w e n = rw (e, n) refl

  seen-handle_event :
      (event : Json) (id : String) (w : World)
      → event_id_of event ≡ some id
      → is_event_processed id w.store ≡ true
      → handle_event b event w ≡ (ok tt, w)
  unfolding handle_event gets ◌>>=◌ continue was_processed pure
  seen-handle_event event id w e n = rw (e, n) refl

-- Handling an event with an id that was not processed marks it exactly when the handling does not
-- throw, whatever its type and whatever the services answer; no other event is marked by it.
pub handle_event-marks :
    (b : Bridge) (event : Json) (id other : String) (w : World)
    → event_id_of event ≡ some id
    → is_event_processed id w.store ≡ false
    → is_event_processed other (handle_event b event w).1.store
      ≡ (is_event_processed other w.store || (is_ok (handle_event b event w).0 && (id == other)))
handle_event-marks b event id other w e n =
    rw (fresh-handle_event b event id w e n) (process_lem b event id other w)

ok_of_is_ok : (r : Result (Unit {0})) → r ≡ ok tt → is_ok r ≡ true
ok_of_is_ok r h = rw h refl

-- After an event with an id was handled without a throw, a second delivery of it makes no call,
-- changes nothing and does not throw.
pub handle_event-twice :
    (b : Bridge) (event : Json) (id : String) (w : World)
    → event_id_of event ≡ some id
    → (handle_event b event w).0 ≡ ok tt
    → handle_event b event (handle_event b event w).1 ≡ (ok tt, (handle_event b event w).1)
handle_event-twice b event id w e h =
    seen-handle_event b event id (handle_event b event w).1 e
      (elim (Bool-cases (is_event_processed id w.store)) [
        | inl seen ↦ rw (seen-handle_event b event id w e seen) seen
        | inr new ↦
            handle_event-marks b event id id w e new
            ∙ rw (ok_of_is_ok (handle_event b event w).0 h, eq_refl id) (or_true _)
      ])
  where
    or_true : (c : Bool) → (c || true) ≡ true
    or_true c = ground arith
