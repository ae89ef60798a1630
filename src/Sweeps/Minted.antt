-- ===== src/Sweeps/Minted.antt =====
-- Which invites a rotation mints.
use wizteros.Common.{
  Option-cases, ℕ, String, ◌≡◌, refl, inl, inr, true, false, Option, none, some, List,
}
use wizteros.Tiers.{
  Tier, WizarrLibrary, resolve_tier_access, tier_scope_problem, LiveSections, without_stale,
}
use wizteros.Identity.{WizarrInvitation}
use wizteros.Bridge.{
  Call, lists_libraries, lists_invitations, creates_invite, deletes_invitation, sets_expiry,
  disables_user, reads_live_sections, sends_invite, sends_alert, Trace, Bridge, World, M,
  list_libraries, list_invitations, create_invite, delete_invitation, live_sections_or_none,
}
use wizteros.Bridge.Ensures.{
  MadeSince, Ensures, Makes, Ensures-perform, Makes-pure, Makes-gets, Makes-if, Makes-modify,
  Makes-perform, Makes-bind_of, Makes-bind, Makes-map_in_order, Makes-catch, makes_rules,
}
use wizteros.Invites.{invite_request, mint}
use wizteros.Reconcile.{delete_baseline, forget_vanished, reap_row, reap_expired_baselines}
use wizteros.Sweeps.{
  or_none, baseline_tiers, rotation_result, mint_baseline_invite, rotate_tier,
  rotate_baseline_invites,
}
use wizteros.Store.{BaselineInvite, forget_baseline_invite}

module _ (b : Bridge) where
  -- Wizarr listed the libraries, less the rows that Plex no longer knows.
  pub AreListed : List WizarrLibrary → Type 0
  AreListed libraries =
      (t : Trace) × (listed : List WizarrLibrary) × (live : Option LiveSections) × (b.libraries t
        ≡ some listed)
      × (libraries ≡ without_stale listed live)

  -- An invite that is created is a shareable one with the scope of a tier whose scope is whole, over
  -- the libraries that were listed, and lasts for the days of the settings. No record is disabled, no
  -- expiry set and nothing mailed; any other call passes.
  pub MintsWhole : Call → Type 0
  MintsWhole (creates_invite request) =
      (libraries : List WizarrLibrary) × (tier : Tier) × AreListed libraries
      × (tier_scope_problem libraries tier ≡ none)
      × (request
          ≡ invite_request (resolve_tier_access tier libraries) none
              b.settings.baseline_expires_days b.settings.access_days true)
  MintsWhole (disables_user id) = ⊥
  MintsWhole (sets_expiry id at) = ⊥
  MintsWhole (sends_invite to url) = ⊥
  MintsWhole (sends_alert alert) = ⊥
  MintsWhole _ = Unit

  or_none-Makes : {A : Type 0} (m : M A) → Makes MintsWhole m → Makes MintsWhole (or_none m)
  unfolding or_none
  or_none-Makes m h = Makes-catch _ none (Makes-bind m _ h (λ a. Makes-pure (some a)))

  mint_baseline-Makes :
      (libraries : List WizarrLibrary) (tier : Tier) (at : ℕ)
      → AreListed libraries
      → tier_scope_problem libraries tier ≡ none
      → Makes MintsWhole (mint_baseline_invite b tier (resolve_tier_access tier libraries) at)
  unfolding mint_baseline_invite mint create_invite MintsWhole
  mint_baseline-Makes libraries tier at listed whole =
      let allowed : MintsWhole (
          creates_invite (
            invite_request (resolve_tier_access tier libraries) none
              b.settings.baseline_expires_days b.settings.access_days true)) =
        (libraries, tier, listed, whole, refl) in
      search (makes_rules, allowed)

  rotate_tier-Makes :
      (libraries : List WizarrLibrary) (at : ℕ) (tier : Tier)
      → AreListed libraries
      → Makes MintsWhole (rotate_tier b libraries at tier)
  unfolding rotate_tier
  rotate_tier-Makes libraries at tier listed =
      elim (Option-cases (tier_scope_problem libraries tier)) [
        | inr (p, e) ↦ rw e (Makes-pure (tier, none))
        | inl e ↦ rw e (
            Makes-bind _ _ (or_none-Makes _ (mint_baseline-Makes libraries tier at listed e))
              (λ code. Makes-pure (tier, code)))
      ]

  delete_baseline-Makes :
      (row : BaselineInvite) (live : WizarrInvitation)
      → Makes MintsWhole (delete_baseline b row live)
  unfolding delete_baseline delete_invitation MintsWhole
  delete_baseline-Makes row live =
      Makes-bind _ _
        (Makes-catch _ false (
          Makes-bind _ _ (Makes-perform (deletes_invitation live.id) (b.deleted live.id) tt)
            (λ _. Makes-pure true)))
        (λ gone.
          Makes-if gone _ _
            (Makes-bind _ _ (Makes-modify (forget_baseline_invite row.code))
              (λ _. Makes-pure (some row.code)))
            (Makes-pure none))

  reap_row-Makes :
      (codes : List (String × WizarrInvitation)) (at : ℕ) (row : BaselineInvite)
      → Makes MintsWhole (reap_row b codes at row)
  unfolding reap_row forget_vanished
  reap_row-Makes codes at row = search (makes_rules, Makes-if, delete_baseline-Makes)

  reap-Makes :
      (invitations : List WizarrInvitation) (at : ℕ)
      → Makes MintsWhole (reap_expired_baselines b invitations at)
  unfolding reap_expired_baselines
  reap-Makes invitations at = search (makes_rules, Makes-gets, reap_row-Makes)

  -- What follows once the libraries are read.
  listed-Ensures :
      Ensures MintsWhole (λ listed. (t : Trace) × (b.libraries t ≡ some listed)) (list_libraries b)
  unfolding list_libraries MintsWhole
  listed-Ensures = Ensures-perform _ lists_libraries b.libraries tt (λ t listed e. (t, e))

  rotate-Makes : (at : ℕ) → Makes MintsWhole (rotate_baseline_invites b at)
  unfolding rotate_baseline_invites live_sections_or_none list_invitations MintsWhole AreListed
  rotate-Makes at = Makes-bind_of _ _ _ listed-Ensures (λ listed read.
      Makes-bind _ _ (Makes-perform reads_live_sections (λ t. some (b.live_sections t)) tt) (λ live.
        let libraries = without_stale listed live in
        Makes-bind _ _
          (Makes-map_in_order baseline_tiers (rotate_tier b libraries at)
            (λ tier. rotate_tier-Makes libraries at tier (read.0, listed, live, read.1, refl)))
          (λ outcomes.
            Makes-bind _ _ (Makes-perform lists_invitations b.invitations tt) (λ invitations.
              Makes-bind _ _ (reap-Makes invitations at)
                (λ reaped. Makes-pure (rotation_result outcomes reaped))))))

-- Whatever the services answer and wherever it fails, a rotation creates no invite but shareable ones
-- for tiers whose scope is whole over the libraries that Wizarr listed, with that scope and the
-- days of the settings; and it disables no record, sets no expiry and mails nothing.
pub rotate_baseline_invites-MintsWhole :
    (b : Bridge) (at : ℕ) (w : World)
    → MadeSince (MintsWhole b) w (rotate_baseline_invites b at w).1
rotate_baseline_invites-MintsWhole b at = (rotate-Makes b at).ensured.since
