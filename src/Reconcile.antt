-- ===== src/Reconcile.antt =====
-- apps/stripe-bridge/src/reconcile.ts and baseline.ts: the sweep that stamps a missing expiry, and the
-- reaping of expired baseline invites.
pub mod Stamps
pub mod Reaps
use wizteros.Common.{
  ltb, leb, if◌then◌else◌, is_some, to_list, length, keep, flat_map, lookup, from_entries, truthy,
  ℕ, ◌+◌, String, Bool, true, false, not, ◌&&◌, Option, none, some, List, [], ◌∷◌, map,
}
use wizteros.Standing.{MemberTag, is_time_boxed, strongest_across}
use wizteros.Store.{
  CustomerRow, expiry_stamped, BaselineInvite, all_customer_rows, all_member_tags,
  all_baseline_invites, forget_baseline_invite,
}
use wizteros.Identity.{WizarrUser, WizarrInvitation, IdentitySnapshot, Identity, identity_for}
use wizteros.Bridge.{
  Bridge, M, pure, gets, catch, modify, ◌>>=◌, ◌>>◌, each_in_order, map_in_order, given,
  delete_invitation, set_expiry, now, log_event, add_days,
}
use wizteros.Members.{identity_snapshot}

-- `unstampedRecords`
unfoldable pub unstamped_records : Identity → List WizarrUser
unstamped_records identity = keep (λ u. not (is_some (truthy u.expires))) identity.records

-- One pending member; `invited_at` is the row's.
pub record Pending : Type 0 where
  pub email : String
  pub identity : Identity
  pub invited_at : ℕ

-- The rows of confirmed payers that were invited.
unfoldable pub paying_rows : List (String × CustomerRow) → List (String × CustomerRow)
paying_rows rows = keep (λ r. r.1.subscribed && is_some r.1.invited_at) rows

-- The person that a payer's row resolves to.
abbrev pub payer_identity : IdentitySnapshot → String × CustomerRow → Identity
payer_identity snapshot r = identity_for snapshot (some r.0) r.1.invite_code

-- The payer as a pending member, unless a tag frees them of a time box.
unfoldable pub pending_member :
    IdentitySnapshot → List (String × MemberTag) → String × CustomerRow → List Pending
unfolding strongest_across is_time_boxed identity_for
pending_member snapshot tags r =
    let identity = payer_identity snapshot r in
    if is_time_boxed (strongest_across tags identity.addresses)
    then map (λ at. record { email = r.0; identity = identity; invited_at = at })
        (to_list r.1.invited_at)
    else []

-- The signup's window has closed.
unfoldable pub is_lapsed : (at anchored : ℕ) → Bool
is_lapsed at anchored = leb anchored at

-- The expiry to stamp: the signup's window, or one from the sweep on if that has closed.
unfoldable pub stamp_for : (at invited_at days : ℕ) → ℕ
unfolding is_lapsed
stamp_for at invited_at days =
    if is_lapsed at (add_days invited_at days) then add_days at days else add_days invited_at days

-- `reduce((total, count) => total + count, 0)`
abbrev pub sum_from : ℕ → List ℕ → ℕ
sum_from total [] = total
sum_from total (n ∷ ns) = sum_from (total + n) ns

module _ (b : Bridge) where
  -- The records of one pending member are stamped, and the stamping is logged.
  unfoldable pub stamp_records : (at : ℕ) → Pending → List WizarrUser → M ℕ
  unfolding pure each_in_order set_expiry stamp_for is_lapsed log_event ◌>>=◌
  stamp_records at p [] = pure 0
  stamp_records at p (u ∷ us) = do
    let days = b.settings.access_days
    let expires = stamp_for at p.invited_at days
    each_in_order (u ∷ us) (λ r. set_expiry b r.id (some expires))
    log_event b p.email (expiry_stamped (is_lapsed at (add_days p.invited_at days)) expires)
    pure (length (u ∷ us))

  -- The sweep over the payers of a snapshot.
  unfoldable pub stamp_payers :
      IdentitySnapshot → List (String × MemberTag) → List (String × CustomerRow) → M ℕ
  unfolding pending_member now map_in_order stamp_records unstamped_records pure ◌>>=◌
  stamp_payers snapshot tags paying = do
    at ← now b
    counts ←
        map_in_order (flat_map (pending_member snapshot tags) paying)
          (λ p. stamp_records at p (unstamped_records p.identity))
    pure (sum_from 0 counts)

  sweep : List (String × MemberTag) → List (String × CustomerRow) → M ℕ
  unfolding pure identity_snapshot stamp_payers ◌>>=◌
  sweep tags [] = pure 0
  sweep tags (r ∷ rs) = do snapshot ← identity_snapshot b; stamp_payers snapshot tags (r ∷ rs)

  -- `reconcilePendingExpiries`
  unfoldable pub reconcile_pending_expiries : M ℕ
  unfolding gets all_customer_rows all_member_tags paying_rows sweep ◌>>=◌
  reconcile_pending_expiries = do
    customers ← gets all_customer_rows
    tags ← gets all_member_tags
    sweep tags (paying_rows customers)

-- The invitations by code; a repeated code keeps the last.
unfoldable pub by_code : List WizarrInvitation → List (String × WizarrInvitation)
unfolding from_entries
by_code invitations =
    from_entries (flat_map (λ i. map (λ code. (code, i)) (to_list i.code)) invitations)

module _ (b : Bridge) where
  -- The invitation is deleted and the code forgotten, unless the deletion throws: then neither.
  unfoldable pub delete_baseline : BaselineInvite → WizarrInvitation → M (Option String)
  unfolding delete_invitation modify forget_baseline_invite catch pure ◌>>=◌
  delete_baseline row live = do
    deleted ← catch (do delete_invitation b live.id; pure true) (λ e. pure false)
    if deleted
        then (modify (forget_baseline_invite row.code) >> pure (some row.code))
        else pure none

  -- A code that has vanished is forgotten.
  unfoldable pub forget_vanished : BaselineInvite → M (Option String)
  unfolding modify forget_baseline_invite pure ◌>>=◌
  forget_vanished row = do modify (forget_baseline_invite row.code); pure none

  unfoldable pub reap_row :
      List (String × WizarrInvitation) → (at : ℕ) → BaselineInvite → M (Option String)
  unfolding pure lookup delete_baseline forget_vanished
  reap_row codes at row =
      if ltb at row.expires_at
      then pure none
      else given (lookup row.code codes) (forget_vanished row) (delete_baseline row)

  -- `reapExpiredBaselines`: the codes reaped
  unfoldable pub reap_expired_baselines : List WizarrInvitation → (at : ℕ) → M (List String)
  unfolding gets all_baseline_invites by_code map_in_order reap_row pure ◌>>=◌
  reap_expired_baselines invitations at = do
    rows ← gets all_baseline_invites
    outcomes ← map_in_order rows (reap_row (by_code invitations) at)
    pure (flat_map to_list outcomes)
