-- ===== src/Tests/Sweeps.antt =====
-- Runs of the expiry sweep and of the reaping.
use wizteros.Common.{insert, String, ◌≡◌, refl, List, [], ◌∷◌}
use wizteros.Store.{CustomerRow, empty_store, customer_row_of, all_baseline_invites}
use wizteros.Bridge.{World, ok}
use wizteros.Bridge.Ensures.{MadeSince}
use wizteros.Reconcile.{stamp_payers, by_code, reap_expired_baselines}
use wizteros.Reconcile.Reaps.{DeletesOwn, reap_expired_baselines-DeletesOwn}
use wizteros.Tests.Fixtures.{ann_row, ann_invitation, ann_snapshot, willing, ann_world}

abbrev ann_paying : List (String × CustomerRow)
ann_paying = ("ann@x.io", customer_row_of ann_row) ∷ []

-- Ann's one record has no expiry, and is stamped.
ann-stamped : (stamp_payers willing ann_snapshot [] ann_paying ann_world).0 ≡ ok 1
unfolding stamp_payers customer_row_of insert
ann-stamped = refl

abbrev baseline_world : World
baseline_world = record {
  store = record empty_store {
    baselines = record { code = "ABC"; tier = "gold"; created_at = 1; expires_at = 500 } ∷ [];
  };
  calls = [];
}

reap_expired_baselines-DeletesOwn_example :
    MadeSince
      (DeletesOwn (all_baseline_invites baseline_world.store) (by_code (ann_invitation ∷ [])) 900)
      baseline_world
      (reap_expired_baselines willing (ann_invitation ∷ []) 900 baseline_world).1
reap_expired_baselines-DeletesOwn_example =
    reap_expired_baselines-DeletesOwn willing (ann_invitation ∷ []) 900 baseline_world

-- The expired code is deleted and reported.
baseline-reaped :
    (reap_expired_baselines willing (ann_invitation ∷ []) 900 baseline_world).0 ≡ ok ("ABC" ∷ [])
unfolding reap_expired_baselines insert
baseline-reaped = refl
