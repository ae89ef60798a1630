-- ===== src/Members.antt =====
-- apps/stripe-bridge/src/members.ts: who a Stripe customer is in Wizarr, resolved live.
pub mod Frame
use wizteros.Common.{
  if◌then◌else◌, and_then, to_list, is_empty, keep, find, flat_map, lookup, from_entries, to_lower,
  truthy, text_or_empty, sorted, ℕ, String, false, not, Option, none, some, List, [], ◌∷◌, map,
  ◌==◌,
}
use wizteros.Standing.{MemberTag, strongest_across}
use wizteros.Status.{StripeSubscription, is_live_status, status_by_customer}
use wizteros.Store.{
  Store, customer_ids_for_email, get_mapping, all_customer_rows, all_member_tags, all_member_links,
}
use wizteros.Identity.{WizarrUser, WizarrInvitation, IdentitySnapshot, Identity, identity_for}
use wizteros.Bridge.{
  AccessLine, unchecked, held, not_held, Bridge, M, pure, gets, catch, ◌>>=◌, ◌>>◌, both,
  list_users, list_invitations, list_subscriptions,
}

-- `storedIdentity`: the half of a snapshot that the store holds, over users and invitations in hand
-- (`snapshotOver`)
unfoldable pub snapshot_over : List WizarrUser → List WizarrInvitation → Store → IdentitySnapshot
unfolding all_member_links all_customer_rows from_entries
snapshot_over users invitations s = record {
  users = users;
  invitations = invitations;
  links = all_member_links s;
  invites = from_entries (
      flat_map (λ entry. map (λ code. (entry.0, code)) (to_list (truthy entry.1.invite_code)))
        (all_customer_rows s));
}

-- A snapshot from the store alone.
unfoldable pub stored_snapshot : Store → IdentitySnapshot
unfolding snapshot_over
stored_snapshot = snapshot_over [] []

-- The person behind one of their addresses, with the invite stored against it followed.
unfoldable pub person_at : IdentitySnapshot → String → Identity
unfolding identity_for lookup to_lower
person_at snapshot email =
    identity_for snapshot (some email) (lookup (to_lower email) snapshot.invites)

-- The strongest tag across the person's addresses.
unfoldable pub standing_of : Store → Identity → Option MemberTag
unfolding strongest_across all_member_tags
standing_of s identity = strongest_across (all_member_tags s) identity.addresses

-- The identity by the address, and by the invite stored against the customer.
unfoldable pub resolve_identity :
    IdentitySnapshot → (customer_id email : Option String) → Store → Identity
unfolding identity_for get_mapping
resolve_identity snapshot customer_id email s =
    identity_for snapshot email
      (and_then (truthy customer_id) (λ id. and_then (get_mapping id s) (λ row. row.invite_code)))

-- The customer ids at an address other than one of them.
unfoldable pub sibling_customers : String → String → Store → List String
unfolding customer_ids_for_email
sibling_customers email dead_customer s =
    keep (λ id. not (id == dead_customer)) (customer_ids_for_email email s)

-- Another address of the person that the store has as subscribed, the first in text order.
unfoldable pub still_subscribed_elsewhere : String → Identity → Store → Option String
unfolding all_customer_rows lookup sorted to_lower
still_subscribed_elsewhere email identity s =
    find
      (λ address. elim (lookup address (all_customer_rows s)) [
        | none ↦ false
        | some row ↦ row.subscribed
      ])
      (sorted (keep (λ address. not (address == to_lower email)) identity.addresses))

-- The first of some customers that Stripe says is live.
unfoldable pub first_live : List String → List StripeSubscription → Option String
unfolding is_live_status status_by_customer lookup
first_live siblings subscriptions =
    find
      (λ customer.
        is_live_status (text_or_empty (lookup customer (status_by_customer subscriptions))))
      siblings

module _ (b : Bridge) where
  -- Both lists are asked for, and then the store is read.
  unfoldable pub identity_snapshot : M IdentitySnapshot
  unfolding both gets list_users list_invitations snapshot_over ◌>>=◌
  identity_snapshot = do
    seen ← both (list_users b) (list_invitations b)
    gets (snapshot_over seen.0 seen.1)

  -- `resolveUserIds`
  unfoldable pub resolve_user_ids : (customer_id email : Option String) → M (List ℕ)
  unfolding identity_snapshot gets resolve_identity ◌>>=◌
  resolve_user_ids customer_id email = do
    snapshot ← identity_snapshot
    gets (λ s. map (λ u. u.id) (resolve_identity snapshot customer_id email s).records)

  -- `accessLine`, which does not throw
  unfoldable pub access_line : (customer_id : Option String) → (email : String) → M AccessLine
  unfolding resolve_user_ids catch pure ◌>>=◌
  access_line customer_id email =
      catch
        (do
          ids ← resolve_user_ids customer_id (some email)
          pure (if is_empty ids then not_held else held))
        (λ e. pure unchecked)

  unfoldable pub ask_stripe : List String → M (Option String)
  unfolding pure list_subscriptions first_live ◌>>=◌
  ask_stripe [] = pure none
  ask_stripe (s ∷ siblings) = do
    subscriptions ← list_subscriptions b
    pure (first_live (s ∷ siblings) subscriptions)

  -- Stripe is asked only when there is a sibling.
  unfoldable pub live_sibling_customer : (email dead_customer : String) → M (Option String)
  unfolding gets sibling_customers ask_stripe ◌>>=◌
  live_sibling_customer email dead_customer = do
    siblings ← gets (sibling_customers email dead_customer)
    ask_stripe siblings
