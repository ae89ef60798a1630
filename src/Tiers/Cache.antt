-- ===== src/Tiers/Cache.antt =====
-- Dropping the rows that Plex no longer answers to.
use wizteros.Common.{
  and_then, to_list, Bool-cases, Option-cases, keep, flat_map, All, Any, Member, contains_id,
  All-of_Member, all_or_Any, lookup, ℕ, String, ◌≡◌, refl, ◌⊎◌, inl, inr, true, false, not, ◌&&◌,
  Option, none, some, List, [], ◌∷◌, map, arith,
}
use wizteros.Tiers.Rules.{WizarrLibrary, is_on_share_server, is_enabled}
use wizteros.Tiers.Stale.{
  LiveSections, StaleLibrary, external_key, stale_in, stale_row, stale_libraries, without_stale,
  ServerRecord, is_covered, stale_record_ids,
}

stale_in-library :
    (l : WizarrLibrary) (sections : Option (List (String × String))) (key : Option String)
    (row : StaleLibrary)
    → stale_in l sections key ≡ some row
    → row.library ≡ l
unfolding stale_in
stale_in-library l none key row e = cc
stale_in-library l (some s) none row e = cc
stale_in-library l (some s) (some key) row e = ground arith

-- The row that is reported for a library is that library.
stale_row-library :
    (live : LiveSections) (l : WizarrLibrary) (row : StaleLibrary)
    → stale_row live l ≡ some row
    → row.library ≡ l
unfolding stale_row
stale_row-library live l row e = elim (Bool-cases (is_enabled l && is_on_share_server l)) [
  | inl on ↦
      stale_in-library l (and_then l.server_name (λ server. lookup server live))
        (external_key l.external_id) row (rw (on, stale_row) at e)
  | inr off ↦ absurd (cc (rw (off, stale_row) at e))
]

module _ (f : WizarrLibrary → Option StaleLibrary) where
  -- The ids of the rows that are reported.
  reported_ids : List WizarrLibrary → List ℕ
  reported_ids libraries = map (λ row. row.library.id) (flat_map (λ l. to_list (f l)) libraries)

  reported_id :
      ((l : WizarrLibrary) (row : StaleLibrary) → f l ≡ some row → row.library ≡ l)
      → (libraries : List WizarrLibrary) (l : WizarrLibrary) (row : StaleLibrary)
      → Member l libraries
      → f l ≡ some row
      → contains_id (reported_ids libraries) l.id ≡ true
  unfolding reported_ids
  reported_id same (k ∷ ks) l row (inl e) reported =
      let hit = same l row reported in rw (e, reported) (ground (arith, hit))
  reported_id same (k ∷ ks) l row (inr m) reported = elim (Option-cases (f k)) [
    | inl e ↦ rw (e, reported_ids) (reported_id same ks l row m reported)
    | inr (r, e) ↦ rw (e, reported_ids) (ground (arith, reported_id same ks l row m reported))
  ]
  reported_id same [] l row m reported = absurd m

  kept_unreported :
      (ids : List ℕ) (libraries : List WizarrLibrary)
      → All (λ l. contains_id ids l.id ≡ false → f l ≡ none) libraries
      → flat_map (λ l. to_list (f l)) (keep (λ l. not (contains_id ids l.id)) libraries) ≡ []
  kept_unreported ids [] h = refl
  kept_unreported ids (l ∷ ls) (p, h) = elim (Bool-cases (contains_id ids l.id)) [
    | inl dropped ↦ rw dropped (kept_unreported ids ls h)
    | inr kept ↦ rw (kept, p kept) (kept_unreported ids ls h)
  ]

  -- Dropping whatever is reported leaves nothing to report.
  nothing_reported :
      ((l : WizarrLibrary) (row : StaleLibrary) → f l ≡ some row → row.library ≡ l)
      → (libraries : List WizarrLibrary)
      → flat_map
          (λ l. to_list (f l))
          (keep (λ l. not (contains_id (reported_ids libraries) l.id)) libraries)
        ≡ []
  nothing_reported same libraries = kept_unreported (reported_ids libraries) libraries (
      All-of_Member _ libraries (λ l m kept. elim (Option-cases (f l)) [
        | inl e ↦ e
        | inr (row, e) ↦ absurd (cc (reported_id same libraries l row m e))
      ]))

-- After the stale rows are dropped, the check finds no stale row in what is left.
pub stale_libraries-without_stale :
    (libraries : List WizarrLibrary) (live : Option LiveSections)
    → stale_libraries (without_stale libraries live) live ≡ []
unfolding stale_libraries without_stale reported_ids
stale_libraries-without_stale libraries none = refl
stale_libraries-without_stale libraries (some []) = refl
stale_libraries-without_stale libraries (some (s ∷ live)) =
    nothing_reported (stale_row (s ∷ live)) (stale_row-library (s ∷ live)) libraries

-- The records to disable are none, if every record sits on a covered server, and all of them
-- otherwise: a record that sits on no covered server is never left out.
pub stale_record_ids-All_or_none :
    (records : List ServerRecord) (covered : List String)
    → ((stale_record_ids records covered ≡ []) × All (λ r. is_covered covered r ≡ true) records)
      ⊎ ((stale_record_ids records covered ≡ map (λ r. r.id) records)
          × Any (λ r. is_covered covered r ≡ false) records)
unfolding stale_record_ids
stale_record_ids-All_or_none records covered = elim (all_or_Any (is_covered covered) records) [
  | inl (e, h) ↦ inl (rw e refl, h)
  | inr (e, h) ↦ inr (rw e refl, h)
]
