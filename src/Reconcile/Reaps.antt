-- ===== src/Reconcile/Reaps.antt =====
-- Which invitations the reaping deletes.
use wizteros.Common.{
  ltb, if◌then◌else◌, to_list, Bool-cases, Option-cases, flat_map, Member, All-of_Member, lookup, ℕ,
  ◌≤◌, String, ◌≡◌, refl, inl, inr, Bool, true, false, none, some, List, arith,
}
use wizteros.Store.{BaselineInvite, all_baseline_invites, forget_baseline_invite}
use wizteros.Identity.{WizarrInvitation}
use wizteros.Bridge.{
  Call, deletes_invitation, Bridge, World, pure, gets, modify, continue, ◌>>=◌, ◌>>◌,
  delete_invitation,
}
use wizteros.Bridge.Ensures.{
  MadeSince, Makes, Makes-pure, Makes-modify, Makes-perform, Makes-bind, Makes-map_in_order_of,
  Makes-catch,
}
use wizteros.Members.Frame.{is_read}
use wizteros.Reconcile.{by_code, delete_baseline, forget_vanished, reap_row, reap_expired_baselines}

module _ (rows : List BaselineInvite) (codes : List (String × WizarrInvitation)) (at : ℕ) where
  -- A deleted invitation carries the code of an own baseline invite that is past its expiry; any
  -- other call is a read.
  pub DeletesOwn : Call → Type 0
  DeletesOwn (deletes_invitation id) =
      (row : BaselineInvite) × (live : WizarrInvitation) × Member row rows
      × (row.expires_at ≤ at)
      × (lookup row.code codes ≡ some live)
      × (live.id ≡ id)
  DeletesOwn call = is_read call ≡ true

module _ (b : Bridge) (rows : List BaselineInvite) (codes : List (String × WizarrInvitation))
    (at : ℕ) where
  delete_baseline-Makes :
      (row : BaselineInvite) (live : WizarrInvitation)
      → DeletesOwn rows codes at (deletes_invitation live.id)
      → Makes (DeletesOwn rows codes at) (delete_baseline b row live)
  unfolding delete_baseline delete_invitation
  delete_baseline-Makes row live own =
      Makes-bind _ _
        (Makes-catch _ false (
          Makes-bind _ _ (Makes-perform (deletes_invitation live.id) (b.deleted live.id) own)
            (λ _. Makes-pure true)))
        (λ deleted. after deleted)
    where
      after :
          (deleted : Bool)
          → Makes (DeletesOwn rows codes at) (
              if deleted
              then (modify (forget_baseline_invite row.code) >> pure (some row.code))
              else pure none)
      after true =
          Makes-bind _ _ (Makes-modify (forget_baseline_invite row.code))
            (λ _. Makes-pure (some row.code))
      after false = Makes-pure none

  reap_row-Makes :
      (row : BaselineInvite)
      → Member row rows
      → Makes (DeletesOwn rows codes at) (reap_row b codes at row)
  unfolding reap_row forget_vanished DeletesOwn
  reap_row-Makes row m = elim (Bool-cases (ltb at row.expires_at)) [
    | inl later ↦ rw later (Makes-pure none)
    | inr past ↦ elim (Option-cases (lookup row.code codes)) [
      | inl gone ↦ rw (past, gone) (Makes-bind _ _ (Makes-modify _) (λ _. Makes-pure none))
      | inr (live, found) ↦
          rw (past, found)
            (delete_baseline-Makes row live
              (row, live, m, not_later at row.expires_at past, found, refl))
    ]
  ]
    where
      not_later : (n e : ℕ) → ltb n e ≡ false → e ≤ n
      not_later n e h = ground arith

-- The reaping deletes an invitation only if it carries the code of a baseline invite that the bridge
-- recorded as its own and whose recorded expiry is not after the time of the sweep; it makes no other
-- call.
pub reap_expired_baselines-DeletesOwn :
    (b : Bridge) (invitations : List WizarrInvitation) (at : ℕ) (w : World)
    → MadeSince
        (DeletesOwn (all_baseline_invites w.store) (by_code invitations) at)
        w
        (reap_expired_baselines b invitations at w).1
unfolding reap_expired_baselines ◌>>=◌ continue gets
reap_expired_baselines-DeletesOwn b invitations at w =
    let rows = all_baseline_invites w.store in
    let reaped =
      Makes-bind _ (λ outcomes. pure (flat_map to_list outcomes))
        (Makes-map_in_order_of (λ row. Member row rows) rows (reap_row b (by_code invitations) at)
          (reap_row-Makes b rows (by_code invitations) at)
          (All-of_Member (λ row. Member row rows) rows (λ row m. m)))
        (λ outcomes. Makes-pure (flat_map to_list outcomes)) in
    reaped.ensured.since w
