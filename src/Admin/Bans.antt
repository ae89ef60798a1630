-- ===== src/Admin/Bans.antt =====
-- A ban holds from its first step on, whatever fails after it.
use wizteros.Common.{
  Bool-cases, Option-cases, any, contains, lookup, insert, to_lower, ℕ, String, ◌≡◌, refl, ap, ◌∙◌,
  inl, inr, Bool, true, Option, none, some, List, [], ◌∷◌, arith, ◌==◌, eq_iff, eq_refl,
}
use wizteros.Json.{Fields, truthy_text}
use wizteros.Standing.{
  MemberTag, vip, hvu, banned, tag_name, member_tag, is_banned, strongest_across,
}
use wizteros.Status.{StripeSubscription}
use wizteros.Store.{
  Entry, Store, set_keyed, all_keyed, same, set_member_tag, all_member_tags, record_event,
}
use wizteros.Identity.{IdentitySnapshot, Identity}
use wizteros.Bridge.{
  Call, disables_user, cancels_at_period_end, Bridge, World, ok, M, modify, continue, ◌>>=◌,
  disable_user, customer_ids_of, subscriptions_for, cancel_at_period_end, log_event,
}
use wizteros.Bridge.Frame.{
  Within, Stays, Stays-pure, Stays-catch, Stays-bind, frame_rules, Stays-log_event,
}
use wizteros.Members.{standing_of}
use wizteros.Members.Frame.{is_read, identity_snapshot-Stays}
use wizteros.Webhook.Payer.{resolve_live}
use wizteros.Webhook.Handlers.{checkout_for}
use wizteros.Webhook.Tags.{may_tell, but_history, checkout_for-banned}
use wizteros.Admin.{
  attempt, ask_customers, customers_at, flag_each, flag_customer, flag_subscriptions, settle_ban,
  revoke_person, revoke_live, ban_member,
}
use wizteros.Standing.Strength.{strongest_across_lem}

decode-tag_name : (tag : MemberTag) → member_tag (tag_name tag) ≡ some tag
unfolding member_tag
decode-tag_name vip = refl
decode-tag_name hvu = refl
decode-tag_name banned = refl

-- A value that was set is what the table as a whole answers for the address.
lookup-all_keyed-insert :
    {T C : Type 0} (encode : T → C) (decode : C → Option T) (key : String) (v : T)
    (table : List (String × C))
    → decode (encode v) ≡ some v
    → lookup key (all_keyed encode decode (insert key (encode v) table)) ≡ some v
unfolding lookup all_keyed insert
lookup-all_keyed-insert encode decode key v [] e = rw (e, eq_refl key) refl
lookup-all_keyed-insert encode decode key v ((k, c) ∷ table) e = elim (Bool-cases (k == key)) [
  | inl same ↦ rw (same, e) (rw same refl)
  | inr other ↦ rw other (elim (Option-cases (decode c)) [
    | inl missing ↦ rw missing (lookup-all_keyed-insert encode decode key v table e)
    | inr (u, found) ↦ rw (found, other) (lookup-all_keyed-insert encode decode key v table e)
  ])
]

any-of_contains :
    (p : String → Bool) (xs : List String) (x : String)
    → contains xs x ≡ true
    → p x ≡ true
    → any p xs ≡ true
any-of_contains p [] x h e = cc h
any-of_contains p (y ∷ ys) x h e = elim (Bool-cases (y == x)) [
  | inl same ↦ rw ((eq_iff y x).0 same, e) refl
  | inr other ↦ ground (arith, any-of_contains p ys x (rw other at h) e)
]

-- What a ban may do outside: disable a record, and flag a subscription.
unfoldable pub may_ban : Call → Bool
unfolding is_read
may_ban (disables_user id) = true
may_ban (cancels_at_period_end id) = true
may_ban call = is_read call

-- The store less its history.
abbrev pub but_log : Store → Store
but_log s = record s { events = [] }

reads_ban : (c : Call) → is_read c ≡ true → may_ban c ≡ true
unfolding may_ban
reads_ban c h = ground arith

attempt-Stays :
    {V A : Type 0} {may : Call → Bool} {view : Store → V} (m : M A)
    → Stays may view m
    → Stays may view (attempt m)
unfolding attempt
attempt-Stays m h =
    Stays-catch _ _ (Stays-bind m _ h (λ a. Stays-pure (some a))) (λ e. Stays-pure none)

module _ (b : Bridge) where
  ask_customers-Stays :
      (address : String) (mapped : List String)
      → Stays may_ban but_log (ask_customers b address mapped)
  unfolding ask_customers customer_ids_of may_ban
  ask_customers-Stays address [] = search (frame_rules, attempt-Stays)
  ask_customers-Stays address (id ∷ ids) = search frame_rules

  customers_at-Stays : (address : String) → Stays may_ban but_log (customers_at b address)
  unfolding customers_at
  customers_at-Stays address = search (frame_rules, ask_customers-Stays)

  flag_each-Stays : (ss : List StripeSubscription) → Stays may_ban but_log (flag_each b ss)
  unfolding flag_each cancel_at_period_end may_ban
  flag_each-Stays ss = search (frame_rules, attempt-Stays)

  flag_customer-Stays : (id : String) → Stays may_ban but_log (flag_customer b id)
  unfolding flag_customer subscriptions_for may_ban
  flag_customer-Stays id = search (frame_rules, attempt-Stays, flag_each-Stays)

  flag_subscriptions-Stays :
      (addresses : List String) → Stays may_ban but_log (flag_subscriptions b addresses)
  unfolding flag_subscriptions
  flag_subscriptions-Stays addresses = search (frame_rules, customers_at-Stays, flag_customer-Stays)

  logs_ban-Stays :
      (email : String) (entry : Entry) → Stays may_ban but_log (log_event b email entry)
  unfolding may_ban record_event
  logs_ban-Stays email entry = Stays-log_event may_ban but_log b email entry refl (λ at s. refl)

  settle_ban-Stays :
      (email : String) (identity : Identity) (disabled : ℕ)
      → Stays may_ban but_log (settle_ban b email identity disabled)
  unfolding settle_ban
  settle_ban-Stays email identity disabled =
      search (frame_rules, flag_subscriptions-Stays, logs_ban-Stays)

  revoke_person-Stays :
      (email : String) (snapshot : IdentitySnapshot)
      → Stays may_ban but_log (revoke_person b email snapshot)
  unfolding revoke_person disable_user may_ban
  revoke_person-Stays email snapshot = search (frame_rules, settle_ban-Stays)

  revoke_live-Stays : (email : String) → Stays may_ban but_log (revoke_live b email)
  unfolding revoke_live
  revoke_live-Stays email =
      search (frame_rules, identity_snapshot-Stays {may = may_ban} b reads_ban, revoke_person-Stays)

-- Banning a member reads, disables records and flags subscriptions, and does nothing else outside:
-- nothing is cancelled at once, minted or mailed. Whether it returns or throws at any call, the
-- store is the one before with the tag set, and what its history gained.
pub ban_member-Within :
    (b : Bridge) (email : String) (w : World)
    → Within may_ban but_log
        (record w { store = set_member_tag email (some banned) w.store })
        (ban_member b email w).1
unfolding ban_member modify ◌>>=◌ continue
ban_member-Within b email w =
    (revoke_live-Stays b email).at (record w { store = set_member_tag email (some banned) w.store })

banned-standing_of :
    (email : String) (s : Store) (identity : Identity)
    → contains identity.addresses (to_lower email) ≡ true
    → is_banned (standing_of (set_member_tag email (some banned) s) identity) ≡ true
unfolding standing_of all_member_tags set_member_tag set_keyed is_banned
banned-standing_of email s identity listed =
    let tags = all_keyed tag_name member_tag (insert (to_lower email) (tag_name banned) s.tags) in
    (strongest_across_lem tags identity.addresses).0
    ∙ any-of_contains (λ a. is_banned (lookup a tags)) identity.addresses (to_lower email) listed
        (rw
          (lookup-all_keyed-insert tag_name member_tag (to_lower email) banned s.tags
            (decode-tag_name banned))
          refl)

same_tags :
    (identity : Identity) (s s' : Store)
    → but_log s ≡ but_log s'
    → standing_of s identity ≡ standing_of s' identity
unfolding standing_of all_member_tags
same_tags identity s s' e =
    ap (λ (t : Store). strongest_across (all_keyed tag_name member_tag t.tags) identity.addresses) e

-- After a ban, even one that threw, a checkout by any person who holds the banned address is refused:
-- the handler makes read calls and alerts alone, and the store keeps everything but its history.
pub ban_member-checkout_for :
    (b : Bridge) (email : String) (w : World) (obj : Fields) (payer : String)
    (live : IdentitySnapshot × Identity)
    → (resolve_live b (truthy_text "customer" obj) (some payer) (ban_member b email w).1).0
      ≡ ok live
    → contains live.1.addresses (to_lower email) ≡ true
    → Within may_tell but_history
        (ban_member b email w).1
        (checkout_for b obj payer (ban_member b email w).1).1
unfolding standing_of is_banned
ban_member-checkout_for b email w obj payer live h listed =
    checkout_for-banned b obj payer live (ban_member b email w).1 h (
      rw
        (same_tags live.1 (ban_member b email w).1.store
          (set_member_tag email (some banned) w.store) (ban_member-Within b email w).kept)
        (banned-standing_of email w.store live.1 listed))
