-- ===== src/Tests/Deliveries.antt =====
-- Runs of the webhook's handlers, with services that answer.
use wizteros.Common.{
  insert, from_entries, ℕ, ◌≡◌, refl, ap, ◌⊎◌, inl, inr, Bool, true, false, ◌&&◌, ◌||◌, some, List,
  [], ◌∷◌, ◌++◌, ◌==◌,
}
use wizteros.Standing.{banned, is_banned}
use wizteros.Json.{truthy_text}
use wizteros.Store.{Store, customer_ids_for_email, is_event_processed, checkout}
use wizteros.Identity.{IdentitySnapshot, Identity}
use wizteros.Bridge.{
  sets_expiry, disables_user, reads_clock, Bridge, World, call_failed, ok, err, list_subscriptions,
  add_days,
}
use wizteros.Bridge.Frame.{Within}
use wizteros.Store.Processed.{processed_of}
use wizteros.Members.{snapshot_over, standing_of, resolve_identity}
use wizteros.Members.Frame.{is_read}
use wizteros.Invites.{
  IssuedInvite, invite_url, issue_invite, deliver_invite, rescope_records, retired,
  retire_duplicates,
}
use wizteros.Bridge.Ensures.{MadeSince}
use wizteros.Invites.Spares.{CancelsDuplicate, retire_duplicates-spares}
use wizteros.Invites.Rescope.{AreCovered, rescope_records-All_or_none}
use wizteros.Invites.Once.{issue_invite-twice, deliver_invite-once}
use wizteros.Webhook.{
  resolve_live, renew_records, checkout_for, paying_sibling, stop_paying, cancellation_for,
  event_id_of, handle_event,
}
use wizteros.Webhook.Delivery.{is_ok, handle_event-marks, handle_event-twice}
use wizteros.Webhook.Tags.{
  may_tell, but_history, checkout_for-banned, cancellation_for-keeps_access,
}
use wizteros.Tests.Fixtures.{
  ann_row, ann_store, ann_user, ann_invitation, ann_links, ann_identity, subscription, willing,
  ann_subscription, updated_event, ann_world, tagged_world, ann_issue,
}
use wizteros.Bridge.Order.{calls_for}
use wizteros.Webhook.Writes.{record_ids, renew_records_lem}

updated_event-id : event_id_of updated_event ≡ some "evt_1"
unfolding event_id_of
updated_event-id = refl

updated_event-handled : (handle_event willing updated_event ann_world).0 ≡ ok tt
unfolding handle_event
updated_event-handled = refl

handle_event-marks_example :
    is_event_processed "evt_1" (handle_event willing updated_event ann_world).1.store ≡ (
      is_event_processed "evt_1" ann_world.store
      || (is_ok (handle_event willing updated_event ann_world).0 && ("evt_1" == "evt_1")))
unfolding is_event_processed
handle_event-marks_example =
    handle_event-marks willing updated_event "evt_1" "evt_1" ann_world updated_event-id refl

handle_event-twice_example :
    handle_event willing updated_event (handle_event willing updated_event ann_world).1
    ≡ (ok tt, (handle_event willing updated_event ann_world).1)
handle_event-twice_example =
    handle_event-twice willing updated_event "evt_1" ann_world updated_event-id
      updated_event-handled

-- What a handler resolves about Ann.
abbrev ann_live : Store → IdentitySnapshot × Identity
ann_live s =
    let snapshot = snapshot_over (ann_user ∷ []) (ann_invitation ∷ []) s in
    (snapshot, resolve_identity snapshot (some "cus_1") (some "ann@x.io") s)

ann-resolved_checkout :
    (w : World)
    → (resolve_live willing (truthy_text "customer" ann_subscription) (some "ann@x.io") w).0
      ≡ ok (ann_live w.store)
unfolding resolve_live truthy_text
ann-resolved_checkout w = refl

checkout_for-banned_example :
    Within may_tell but_history
      (tagged_world banned)
      (checkout_for willing ann_subscription "ann@x.io" (tagged_world banned)).1
unfolding standing_of resolve_identity snapshot_over is_banned insert
checkout_for-banned_example =
    checkout_for-banned willing ann_subscription "ann@x.io" (ann_live (tagged_world banned).store)
      (tagged_world banned) (ann-resolved_checkout (tagged_world banned)) refl

-- Ann's second customer, at the same address, pays by Stripe's list.
abbrev two_customers : World
two_customers = record ann_world {
  store = record ann_store {
    customers = ann_row ∷ record ann_row { stripe_customer_id = "cus_2" } ∷ [];
    links = ann_links;
  };
}

abbrev lists_second : Bridge
lists_second = record willing {
  all_subscriptions = λ t. some (subscription "sub_2" "cus_2" "active" ∷ []);
}

abbrev asked_world : World
asked_world = (paying_sibling lists_second "ann@x.io" "cus_1" two_customers).1

ann-sibling :
    paying_sibling lists_second "ann@x.io" "cus_1" two_customers ≡ (ok (some "cus_2"), asked_world)
unfolding paying_sibling from_entries insert
ann-sibling = refl

ann-resolved_after :
    (resolve_live lists_second (some "cus_1") (some "ann@x.io") (record asked_world {
      store = stop_paying lists_second "ann@x.io" (some "cus_2") asked_world.store;
    })).0
    ≡ ok (ann_live (stop_paying lists_second "ann@x.io" (some "cus_2") asked_world.store))
unfolding resolve_live
ann-resolved_after = refl

cancellation_for-keeps_access_example :
    Within is_read processed_of two_customers
      (cancellation_for lists_second "cus_1" "ann@x.io" two_customers).1
unfolding list_subscriptions resolve_identity snapshot_over stop_paying customer_ids_for_email
    paying_sibling insert
cancellation_for-keeps_access_example =
    cancellation_for-keeps_access lists_second "cus_1" "ann@x.io" (some "cus_2")
      (ann_live (stop_paying lists_second "ann@x.io" (some "cus_2") asked_world.store))
      (subscription "sub_2" "cus_2" "active" ∷ []) two_customers asked_world ann-sibling
      ann-resolved_after refl refl
      (inr (inr (refl, (subscription "sub_2" "cus_2" "active", inl refl, refl, refl, refl))))

abbrev ann_invite : IssuedInvite
ann_invite = record {
  code = "NEW";
  url = invite_url willing.settings "NEW";
  scope = ann_issue.scope;
  emailed = false;
  operation = some (checkout "cs_1");
}

ann-issued :
    issue_invite willing ann_issue ann_world
    ≡ (ok ann_invite, (issue_invite willing ann_issue ann_world).1)
unfolding issue_invite
ann-issued = refl

issue_invite-twice_example :
    ((issue_invite willing ann_issue (issue_invite willing ann_issue ann_world).1).0
      ≡ ok ann_invite)
    × ((issue_invite willing ann_issue (issue_invite willing ann_issue ann_world).1).1.calls
        ≡ reads_clock ∷ (issue_invite willing ann_issue ann_world).1.calls)
issue_invite-twice_example =
    issue_invite-twice willing ann_issue (checkout "cs_1") ann_invite ann_world refl
      (ap (λ p. p.0) ann-issued)

ann-delivered :
    (deliver_invite willing "ann@x.io" ann_invite (issue_invite willing ann_issue ann_world).1).0
    ≡ ok true
unfolding deliver_invite
ann-delivered = refl

deliver_invite-once_example :
    ((issue_invite willing ann_issue
        (deliver_invite willing "ann@x.io" ann_invite
          (issue_invite willing ann_issue ann_world).1).1).0
      ≡ ok (record ann_invite { emailed = true }))
    × ((u : World)
        → deliver_invite willing "ann@x.io" (record ann_invite { emailed = true }) u
          ≡ (ok false, u))
deliver_invite-once_example =
    deliver_invite-once willing ann_issue (checkout "cs_1") "ann@x.io" ann_invite true ann_world
      (issue_invite willing ann_issue ann_world).1 refl ann-issued ann-delivered

abbrev two_held : Identity
two_held = record ann_identity { records = ann_user ∷ record ann_user { id = 11 } ∷ [] }

renew_records_lem_example :
    ((renew_records willing two_held ann_world) ≡ (
      ok (record_ids two_held, add_days (willing.clock ann_world.calls) 31),
      record ann_world {
        calls =
            calls_for
              (λ id. sets_expiry id (some (add_days (willing.clock ann_world.calls) 31)))
              (record_ids two_held)
              (reads_clock ∷ ann_world.calls);
      },
    ))
    ⊎ ((done : List ℕ) × (failed : ℕ) × (rest : List ℕ) × (record_ids two_held
          ≡ done ++ failed ∷ rest)
        × (renew_records willing two_held ann_world ≡ (
          err call_failed,
          record ann_world {
            calls =
                sets_expiry failed (some (add_days (willing.clock ann_world.calls) 31))
                ∷ calls_for
                    (λ id. sets_expiry id (some (add_days (willing.clock ann_world.calls) 31)))
                    done
                    (reads_clock ∷ ann_world.calls);
          },
        )))
renew_records_lem_example = renew_records_lem willing two_held ann_world

-- Ann has an old customer, in dunning.
abbrev dunned : Bridge
dunned = record willing {
  customer_ids = λ email t. some ("cus_0" ∷ "cus_1" ∷ []);
  subscriptions = λ id t. some (subscription "sub_0" id "past_due" ∷ []);
}

retire_duplicates-spares_example :
    MadeSince
      (CancelsDuplicate dunned "cus_1")
      ann_world
      (retire_duplicates dunned "ann@x.io" "cus_1" ann_world).1
retire_duplicates-spares_example = retire_duplicates-spares dunned "ann@x.io" "cus_1" ann_world

dunned-cancels :
    (retire_duplicates dunned "ann@x.io" "cus_1" ann_world).0
    ≡ ok (retired (record { subscription = "sub_0"; customer = "cus_0"; invoices = [] } ∷ []))
unfolding retire_duplicates
dunned-cancels = refl

rescope_records-All_or_none_example :
    ((rescope_records willing two_held.records ("Vhagar" ∷ []) true ann_world
        ≡ (ok ([], two_held.records), ann_world))
      × (◌≡◌ {A = Bool} true true)
      × AreCovered ("Vhagar" ∷ []) two_held.records)
    ⊎ (rescope_records willing two_held.records ("Vhagar" ∷ []) true ann_world ≡ (
      ok (10 ∷ 11 ∷ [], []),
      record ann_world { calls = calls_for disables_user (10 ∷ 11 ∷ []) [] },
    ))
    ⊎ ((done : List ℕ) × (failed : ℕ) × (rest : List ℕ) × (◌≡◌ {A = List ℕ}
          (10 ∷ 11 ∷ [])
          (done ++ failed ∷ rest))
        × (rescope_records willing two_held.records ("Vhagar" ∷ []) true ann_world ≡ (
          err call_failed,
          record ann_world { calls = disables_user failed ∷ calls_for disables_user done [] },
        )))
rescope_records-All_or_none_example =
    rescope_records-All_or_none willing two_held.records ("Vhagar" ∷ []) true ann_world
