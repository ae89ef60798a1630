-- ===== src/Webhook/Writes.antt =====
-- The writes that a renewal and a cancellation make to the person's records.
use wizteros.Common.{length, ℕ, ◌≡◌, refl, ◌⊎◌, inl, inr, some, List, ◌∷◌, ◌++◌, map}
use wizteros.Identity.{Identity}
use wizteros.Bridge.{
  sets_expiry, disables_user, reads_clock, Bridge, World, call_failed, ok, err, pure, answered,
  perform, continue, ◌>>=◌, set_expiry, disable_user, now, add_days,
}
use wizteros.Bridge.Order.{calls_for, each_in_order-prefix}
use wizteros.Webhook.Payer.{access_expiry}
use wizteros.Webhook.Effects.{renew_records, disable_records}

-- The ids of the records that a person was found by.
abbrev pub record_ids : Identity → List ℕ
record_ids identity = map (λ r. r.id) identity.records

-- A renewal that returns has stamped every record of the person, in order and once each, with the
-- one expiry that lies the settings' access days after the time of the call; one that throws has
-- made the same calls up to the one that failed.
pub renew_records_lem :
    (b : Bridge) (identity : Identity) (w : World)
    → ((renew_records b identity w) ≡ (
      ok (record_ids identity, add_days (b.clock w.calls) b.settings.access_days),
      record w {
        calls =
            calls_for
              (λ id. sets_expiry id (some (add_days (b.clock w.calls) b.settings.access_days)))
              (record_ids identity)
              (reads_clock ∷ w.calls);
      },
    ))
      ⊎ ((done : List ℕ) × (failed : ℕ) × (rest : List ℕ) × (record_ids identity
            ≡ done ++ failed ∷ rest)
          × (renew_records b identity w ≡ (
            err call_failed,
            record w {
              calls =
                  sets_expiry failed (some (add_days (b.clock w.calls) b.settings.access_days))
                  ∷ calls_for
                      (λ id.
                        sets_expiry id (some (add_days (b.clock w.calls) b.settings.access_days)))
                      done
                      (reads_clock ∷ w.calls);
            },
          )))
unfolding renew_records access_expiry now perform answered ◌>>=◌ continue pure set_expiry
renew_records_lem b identity w =
    elim (each_in_order-prefix
      (λ id. sets_expiry id (some (add_days (b.clock w.calls) b.settings.access_days)))
      (λ id. b.expiry_set id) (record_ids identity) (record w { calls = reads_clock ∷ w.calls })) [
        | inl h ↦ inl (rw h refl)
        | inr (done, failed, rest, split, h) ↦ inr (done, failed, rest, split, rw h refl)
      ]

-- The disabling of a person's records, when it returns, has disabled each of them, in order and once
-- each, and counts them; one that throws has made the same calls up to the one that failed.
pub disable_records_lem :
    (b : Bridge) (identity : Identity) (w : World)
    → ((disable_records b identity w) ≡ (
      ok (length (record_ids identity)),
      record w { calls = calls_for disables_user (record_ids identity) w.calls },
    ))
      ⊎ ((done : List ℕ) × (failed : ℕ) × (rest : List ℕ) × (record_ids identity
            ≡ done ++ failed ∷ rest)
          × (disable_records b identity w ≡ (
            err call_failed,
            record w { calls = disables_user failed ∷ calls_for disables_user done w.calls },
          )))
unfolding disable_records perform answered ◌>>=◌ continue pure disable_user
disable_records_lem b identity w =
    elim (each_in_order-prefix disables_user (λ id. b.disabled id) (record_ids identity) w) [
      | inl h ↦ inl (rw h refl)
      | inr (done, failed, rest, split, h) ↦ inr (done, failed, rest, split, rw h refl)
    ]
