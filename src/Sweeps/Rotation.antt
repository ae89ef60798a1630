-- ===== src/Sweeps/Rotation.antt =====
-- apps/stripe-bridge/src/baseline.ts: the rotation of the shareable baseline invites.
use wizteros.Common.{
  if◌then◌else◌, is_some, to_list, keep, flat_map, ℕ, String, true, not, Option, none, List, [],
  ◌∷◌, map,
}
use wizteros.Tiers.{
  Tier, bronze, silver, gold, youth, tier_name, WizarrLibrary, TierScope, resolve_tier_access,
  tier_scope_problem, without_stale,
}
use wizteros.Store.{record_baseline_invite}
use wizteros.Bridge.{
  Bridge, M, pure, modify, ◌>>=◌, ◌>>◌, map_in_order, list_libraries, list_invitations,
  live_sections_or_none, add_days,
}
use wizteros.Invites.{mint}
use wizteros.Reconcile.{reap_expired_baselines}
use wizteros.Sweeps.Checks.{or_none}

-- `BASELINE_TIERS`
abbrev pub baseline_tiers : List Tier
baseline_tiers = bronze ∷ gold ∷ silver ∷ youth ∷ []

-- `RotationResult`
pub record RotationResult : Type 0 where
  pub minted : List (Tier × String)
  pub skipped : List Tier
  pub reaped : List String

unfoldable pub rotation_result : List (Tier × Option String) → List String → RotationResult
rotation_result outcomes reaped = record {
  minted = flat_map (λ o. map (λ code. (o.0, code)) (to_list o.1)) outcomes;
  skipped = map (λ o. o.0) (keep (λ o. not (is_some o.1)) outcomes);
  reaped = reaped;
}

module _ (b : Bridge) where
  -- `mintBaselineInvite`: the code, which is recorded as soon as the invite exists
  unfoldable pub mint_baseline_invite : Tier → TierScope → (at : ℕ) → M String
  unfolding mint modify record_baseline_invite pure ◌>>=◌
  mint_baseline_invite tier scope at = do
    let days = b.settings.baseline_expires_days
    code ← mint b scope none days true
    modify (
        record_baseline_invite (record {
          code = code;
          tier = tier_name tier;
          expires_at = add_days at days;
          created_at = at;
        }))
    pure code

  -- One tier: skipped when its scope is broken or the minting throws.
  unfoldable pub rotate_tier : List WizarrLibrary → (at : ℕ) → Tier → M (Tier × Option String)
  unfolding tier_scope_problem pure or_none mint_baseline_invite resolve_tier_access ◌>>=◌
  rotate_tier libraries at tier =
      if is_some (tier_scope_problem libraries tier) then pure (tier, none) else do
        code ← or_none (mint_baseline_invite tier (resolve_tier_access tier libraries) at)
        pure (tier, code)

  -- `rotateBaselineInvites`
  unfoldable pub rotate_baseline_invites : (at : ℕ) → M RotationResult
  unfolding list_libraries live_sections_or_none without_stale map_in_order rotate_tier
      list_invitations reap_expired_baselines rotation_result pure ◌>>=◌
  rotate_baseline_invites at = do
    listed ← list_libraries b
    live ← live_sections_or_none b
    let libraries = without_stale listed live
    outcomes ← map_in_order baseline_tiers (rotate_tier libraries at)
    invitations ← list_invitations b
    reaped ← reap_expired_baselines b invitations at
    pure (rotation_result outcomes reaped)
