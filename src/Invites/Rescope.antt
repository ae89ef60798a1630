-- ===== src/Invites/Rescope.antt =====
-- What re-scoping does to a member's records: all of them go, or none.
use wizteros.Common.{
  keep, All, Member, contains_id, ℕ, String, ◌≡◌, refl, ap, ◌∙◌, ◌⊎◌, inl, inr, Bool, true, false,
  not, List, [], ◌∷◌, ◌++◌, map,
}
use wizteros.Tiers.Cache.{stale_record_ids-All_or_none}
use wizteros.Identity.{WizarrUser, server_record}
use wizteros.Identity.Records.{contains_id-Member}
use wizteros.Bridge.{
  disables_user, Bridge, World, call_failed, ok, err, pure, continue, ◌>>=◌, each_in_order,
  disable_user,
}
use wizteros.Bridge.Order.{calls_for, each_in_order-prefix}
use wizteros.Invites.{to_disable, rescope_records}
use wizteros.Tiers.{is_covered}

abbrev ids_of : List WizarrUser → List ℕ
ids_of records = map (λ r. r.id) records

ids_of_rows :
    (records : List WizarrUser) → map (λ r. r.id) (map server_record records) ≡ ids_of records
ids_of_rows [] = refl
ids_of_rows (r ∷ records) = ap (λ ids. r.id ∷ ids) (ids_of_rows records)

-- Every record sits on a covered server.
pub AreCovered : List String → List WizarrUser → Type 0
AreCovered covered records = All (λ r. is_covered covered (server_record r) ≡ true) records

rows-AreCovered :
    (covered : List String) (records : List WizarrUser)
    → All (λ r. is_covered covered r ≡ true) (map server_record records)
    → AreCovered covered records
unfolding AreCovered
rows-AreCovered covered [] h = tt
rows-AreCovered covered (r ∷ records) (e, h) = (e, rows-AreCovered covered records h)

to_disable-All_or_none :
    (records : List WizarrUser) (covered : List String) (evaluable : Bool)
    → ((to_disable records covered evaluable ≡ [])
        × (evaluable ≡ true)
        × AreCovered covered records)
      ⊎ (to_disable records covered evaluable ≡ ids_of records)
unfolding to_disable
to_disable-All_or_none records covered false = inr refl
to_disable-All_or_none records covered true =
    elim (stale_record_ids-All_or_none (map server_record records) covered) [
      | inl (e, h) ↦ inl (e, refl, rows-AreCovered covered records h)
      | inr (e, h) ↦ inr (e ∙ ids_of_rows records)
    ]

keep_none :
    (p : WizarrUser → Bool) (records : List WizarrUser)
    → ((u : WizarrUser) → Member u records → p u ≡ false)
    → keep p records ≡ []
keep_none p [] h = refl
keep_none p (r ∷ records) h = rw (h r (inl refl)) (keep_none p records (λ u m. h u (inr m)))

keep_every : (records : List WizarrUser) → keep (λ r. not (contains_id [] r.id)) records ≡ records
keep_every [] = refl
keep_every (r ∷ records) = ap (λ rs. r ∷ rs) (keep_every records)

no_survivor :
    (records : List WizarrUser) → keep (λ r. not (contains_id (ids_of records) r.id)) records ≡ []
no_survivor records = keep_none _ records (λ u m. ap not (contains_id-Member u records m))

-- Re-scoping that returns has disabled no record and left them all, and then the coverage could be
-- judged and every record sits on a covered server; or it has disabled every record, in order and
-- once each, and left none. One that throws stopped at the record whose disabling failed. The store
-- is unchanged in every case.
pub rescope_records-All_or_none :
    (b : Bridge) (records : List WizarrUser) (covered : List String) (evaluable : Bool) (w : World)
    → ((rescope_records b records covered evaluable w ≡ (ok ([], records), w))
        × (evaluable ≡ true)
        × AreCovered covered records)
      ⊎ (rescope_records b records covered evaluable w ≡ (
        ok (ids_of records, []),
        record w { calls = calls_for disables_user (ids_of records) w.calls },
      ))
      ⊎ ((done : List ℕ) × (failed : ℕ) × (rest : List ℕ) × (ids_of records ≡ done ++ failed ∷ rest)
          × (rescope_records b records covered evaluable w ≡ (
            err call_failed,
            record w { calls = disables_user failed ∷ calls_for disables_user done w.calls },
          )))
unfolding rescope_records ◌>>=◌ continue pure disable_user each_in_order
rescope_records-All_or_none b records covered evaluable w =
    elim (to_disable-All_or_none records covered evaluable) [
      | inl (e, found, h) ↦ inl (rw (e, keep_every records) refl, found, h)
      | inr e ↦ elim (each_in_order-prefix disables_user (λ id. b.disabled id) (ids_of records) w) [
        | inl h ↦ inr (inl (rw (e, h, no_survivor records) refl))
        | inr (done, failed, rest, split, h) ↦ inr (inr (done, failed, rest, split, rw (e, h) refl))
      ]
    ]
