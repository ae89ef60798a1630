-- ===== src/Fleet/Retired.antt =====
-- Whom the retiring of absent targets leaves alone.
use wizteros.Common.{
  nat_eq, if◌then◌else◌, Bool-cases, keep, any, All, contains, erase, lookup, lookup-erase, ℕ,
  String, ◌≡◌, refl, ◌∙◌, inl, inr, Bool, true, false, not, ◌&&◌, List, [], ◌∷◌, map, arith, ◌==◌,
  eq_iff,
}
use wizteros.Fleet.Tables.{Streak, Incident, FleetDb}
use wizteros.Fleet.Incidents.{
  is_open_for, update_incident, is_stale, removed_at, close_removed, forget_streaks, retire_absent,
}
use wizteros.Fleet.Sound.{apart, AllApart, IsSound, IsTame, IsTame-at, IsTame-removed}
use wizteros.Fleet.Like.{like_start, remove_prefix}
use wizteros.Fleet.Automaton.{health}

module _ (t : String) where
  -- An id that no incident of the target has.
  Misses : ℕ → List Incident → Type 0
  Misses id incidents = All (λ j. (nat_eq j.id id && j.target == t) ≡ false) incidents

  Misses-map :
      (id : ℕ) (f : Incident → Incident) (incidents : List Incident)
      → IsTame f
      → Misses id incidents
      → Misses id (map f incidents)
  unfolding Misses
  Misses-map id f [] tame h = tt
  Misses-map id f (j ∷ js) tame (a, h) =
      (rw (tame.same_id j, tame.same_target j) a, Misses-map id f js tame h)

  removed-others :
      (id at : ℕ) (incidents : List Incident)
      → Misses id incidents
      → any (is_open_for t) (update_incident id (removed_at at) incidents)
        ≡ any (is_open_for t) incidents
  unfolding Misses update_incident
  removed-others id at [] h = refl
  removed-others id at (j ∷ js) (a, h) = ground (arith, removed-others id at js h)

  All-Misses-map :
      (f : Incident → Incident) (incidents left : List Incident)
      → IsTame f
      → All (λ g. Misses g.id incidents) left
      → All (λ g. Misses g.id (map f incidents)) left
  All-Misses-map f incidents [] tame h = tt
  All-Misses-map f incidents (g ∷ left) tame (a, h) =
      (Misses-map g.id f incidents tame a, All-Misses-map f incidents left tame h)

  close_removed-others :
      (at : ℕ) (stale incidents : List Incident)
      → All (λ gone. Misses gone.id incidents) stale
      → any (is_open_for t) (close_removed at stale incidents) ≡ any (is_open_for t) incidents
  unfolding close_removed update_incident
  close_removed-others at [] incidents h = refl
  close_removed-others at (gone ∷ stale) incidents (a, h) =
      close_removed-others at stale (update_incident gone.id (removed_at at) incidents) (
        All-Misses-map (λ j. if nat_eq j.id gone.id then removed_at at j else j) incidents stale
          (IsTame-at gone.id (removed_at at) (IsTame-removed at)) h)
      ∙ removed-others gone.id at incidents a

  forget_streaks-others :
      (stale : List Incident) (streaks : List (String × Streak))
      → All (λ gone. (gone.target == t) ≡ false) stale
      → lookup t (forget_streaks stale streaks) ≡ lookup t streaks
  unfolding forget_streaks
  forget_streaks-others [] streaks h = refl
  forget_streaks-others (gone ∷ stale) streaks (a, h) =
      forget_streaks-others stale (erase gone.target streaks) h
      ∙ rw (lookup-erase gone.target t streaks, a) refl

  module _ (p : Incident → Bool) (spares : (i : Incident) → i.target ≡ t → p i ≡ false) where
    kept-targets :
        (incidents : List Incident) → All (λ g. (g.target == t) ≡ false) (keep p incidents)
    kept-targets [] = tt
    kept-targets (i ∷ is) = elim (Bool-cases (p i)) [
      | inr left ↦ rw left (kept-targets is)
      | inl kept ↦ rw kept (elim (Bool-cases (i.target == t)) [
        | inr other ↦ (other, kept-targets is)
        | inl same ↦ absurd (cc (kept, spares i ((eq_iff i.target t).0 same)))
      ])
    ]

    apart-Misses :
        (i : Incident) (incidents : List Incident)
        → All (λ j. apart i j ≡ true) incidents
        → Misses i.id incidents
    unfolding Misses
    apart-Misses i [] h = tt
    apart-Misses i (j ∷ js) (a, h) = (ground arith, apart-Misses i js h)

    kept-missed :
        (i : Incident) (incidents : List Incident)
        → All (λ j. apart i j ≡ true) incidents
        → All (λ g. (nat_eq i.id g.id && i.target == t) ≡ false) (keep p incidents)
    kept-missed i [] h = tt
    kept-missed i (j ∷ js) (a, h) = elim (Bool-cases (p j)) [
      | inr left ↦ rw left (kept-missed i js h)
      | inl kept ↦ rw kept (ground arith, kept-missed i js h)
    ]

    -- What is kept of the rest, with one more incident before it.
    with-head :
        (i : Incident) (incidents gone : List Incident)
        → All (λ g. (nat_eq i.id g.id && i.target == t) ≡ false) gone
        → All (λ g. Misses g.id incidents) gone
        → All (λ g. Misses g.id (i ∷ incidents)) gone
    unfolding Misses
    with-head i incidents [] h k = tt
    with-head i incidents (g ∷ gone) (a, h) (c, k) = ((a, c), with-head i incidents gone h k)

    kept-Misses :
        (incidents : List Incident)
        → AllApart incidents
        → All (λ g. Misses g.id incidents) (keep p incidents)
    unfolding Misses
    kept-Misses [] h = tt
    kept-Misses (i ∷ is) (a, h) =
        let rest = with-head i is (keep p is) (kept-missed i is a) (kept-Misses is h) in
        elim (Bool-cases (p i)) [
          | inr left ↦ rw left rest
          | inl kept ↦ rw kept (elim (Bool-cases (i.target == t)) [
            | inr other ↦ ((ground arith, apart-Misses i is a), rest)
            | inl same ↦ absurd (cc (kept, spares i ((eq_iff i.target t).0 same)))
          ])
        ]

-- Retiring the targets under a prefix leaves a target alone that is still present, or whose name does
-- not match the prefix: it keeps its runs and its incident.
pub retire_absent-spares :
    (prefix : String) (seen : List String) (at : ℕ) (t : String) (db : FleetDb)
    → IsSound db
    → (like_start prefix t && not (contains seen (remove_prefix prefix t))) ≡ false
    → health t (retire_absent prefix seen at db).1 ≡ health t db
unfolding retire_absent health is_stale
retire_absent-spares prefix seen at t db sound h =
    let p = is_stale prefix seen in
    let spares : (i : Incident) → i.target ≡ t → p i ≡ false = λ i e. rw e (ground arith) in
    rw
      (
        close_removed-others t at (keep p db.incidents) db.incidents
            (kept-Misses t p spares db.incidents sound.separate),
        forget_streaks-others t (keep p db.incidents) db.streaks
            (kept-targets t p spares db.incidents),
      )
      refl
