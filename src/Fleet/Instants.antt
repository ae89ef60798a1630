-- ===== src/Fleet/Instants.antt =====
-- An uptime against the instants of its window.
use wizteros.Common.{
  ltb, leb, if◌then◌else◌, Bool-cases, length, is_empty, keep, reduce, ℕ, zero, suc, ◌+◌, ◌-◌, ◌≤◌,
  String, ◌≡◌, refl, ◌∙◌, inl, inr, Bool, true, false, ◌&&◌, none, some, List, [], ◌∷◌, arith, ◌==◌,
}
use wizteros.Fleet.Tables.{Incident, FleetDb}
use wizteros.Fleet.Incidents.{ObservedRun, down_within, reaches, down_time, uptime}

-- An incident stands at an instant: it was open before or then, and not closed yet.
abbrev pub stands_at : (instant : ℕ) → Incident → Bool
stands_at k i = leb i.opened_at k && elim i.closed_at [ none ↦ true | some end ↦ ltb k end ]

-- The target's incidents that stand at an instant.
abbrev pub standing_at : (target : String) → List Incident → (instant : ℕ) → List Incident
standing_at t incidents k = keep (λ i. i.target == t && stands_at k i) incidents

abbrev pub total : (ℕ → ℕ) → (first count : ℕ) → ℕ
total f first zero = 0
total f first (suc count) = f first + total f (suc first) count

-- How many milliseconds of a window no incident of the target stands in.
unfoldable pub up_instants : (target : String) → List Incident → (since window : ℕ) → ℕ
up_instants t incidents = total (λ k. if is_empty (standing_at t incidents k) then 1 else 0)

abbrev one_if : Bool → ℕ
one_if true = 1
one_if false = 0

total-zero : (first count : ℕ) → total (λ k. 0) first count ≡ 0
total-zero first zero = refl
total-zero first (suc count) = let rest = total-zero (suc first) count in omega arith

total-add :
    (f g : ℕ → ℕ) (first count : ℕ)
    → total (λ k. f k + g k) first count ≡ total f first count + total g first count
total-add f g first zero = refl
total-add f g first (suc count) = let rest = total-add f g (suc first) count in omega arith

total-same :
    (f g : ℕ → ℕ) (first count : ℕ)
    → ((k : ℕ) → f k ≡ g k)
    → total f first count ≡ total g first count
total-same f g first zero h = refl
total-same f g first (suc count) h =
    let rest = total-same f g (suc first) count h in let here = h first in omega arith

down_within-total :
    (since count : ℕ) (i : Incident)
    → down_within since (since + count) i ≡ total (λ k. one_if (stands_at k i)) since count
unfolding down_within
down_within-total since zero i = ground arith
down_within-total since (suc count) i =
    let rest = down_within-total (suc since) count i in ground arith

-- An incident that ended before the window has no part in it.
down_within-past :
    (since now : ℕ) (i : Incident) → reaches since i ≡ false → down_within since now i ≡ 0
unfolding down_within
down_within-past since now i h = ground arith

-- One incident more: its own instants, if it is of the target, are added.
standing_at-total :
    (t : String) (since count : ℕ) (i : Incident) (incidents : List Incident)
    → total (λ k. length (standing_at t (i ∷ incidents) k)) since count
      ≡ (if i.target == t then down_within since (since + count) i else 0)
        + total (λ k. length (standing_at t incidents k)) since count
standing_at-total t since count i incidents = elim (Bool-cases (i.target == t)) [
  | inl mine ↦
      rw (mine, down_within-total since count i)
        (total-same _ (λ k. one_if (stands_at k i) + length (standing_at t incidents k)) since count
            (λ k. ground arith)
          ∙ total-add (λ k. one_if (stands_at k i)) _ since count)
  | inr other ↦
      rw other (
        total-same _ (λ k. length (standing_at t incidents k)) since count (λ k. refl)
        ∙ omega arith)
]

down_time-total :
    (t : String) (since count n : ℕ) (incidents : List Incident)
    → reduce
        (λ sum i. sum + down_within since (since + count) i)
        n
        (keep (λ i. i.target == t && reaches since i) incidents)
      ≡ n + total (λ k. length (standing_at t incidents k)) since count
down_time-total t since count n [] = let none_stand = total-zero since count in omega arith
down_time-total t since count n (i ∷ incidents) =
    let here = down_within since (since + count) i in
    ground (
      arith,
      standing_at-total t since count i incidents,
      down_time-total t since count n incidents,
      down_time-total t since count (n + here) incidents,
      down_within-past since (since + count) i,
    )

one_or_none :
    (stand : List Incident)
    → length stand ≤ 1
    → (if is_empty stand then 1 else 0) + length stand ≡ 1
one_or_none [] h = refl
one_or_none (i ∷ []) h = refl
one_or_none (i ∷ j ∷ stand) h = absurd (omega arith)

up-complement :
    (t : String) (incidents : List Incident) (since count : ℕ)
    → ((k : ℕ) → length (standing_at t incidents k) ≤ 1)
    → up_instants t incidents since count
        + total (λ k. length (standing_at t incidents k)) since count
      ≡ count
unfolding up_instants
up-complement t incidents since zero h = refl
up-complement t incidents since (suc count) h =
    let rest = up-complement t incidents (suc since) count h in
    let once = h since in let here = one_or_none (standing_at t incidents since) once in omega arith

-- If no two incidents of the target stand at one instant, an uptime is the number of milliseconds of the
-- window, which ends now, in which no incident of the target stands.
pub uptime-up_instants :
    (t : String) (since now gap up window : ℕ) (observed : ObservedRun) (db : FleetDb)
    → ((k : ℕ) → length (standing_at t db.incidents k) ≤ 1)
    → uptime t since now observed gap db ≡ some (up, window)
    → (since + window ≡ now) × (up ≡ up_instants t db.incidents since window)
unfolding uptime down_time
uptime-up_instants t since now gap up window observed db h e =
    let length_left : window ≡ now - since = ground arith in
    let ends : since + window ≡ now = ground arith in
    let down = down_time-total t since window 0 db.incidents in
    let split = up-complement t db.incidents since window h in
    let down_now = rw ends at down in (ends, ground arith)
