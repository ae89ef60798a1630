-- ===== src/Fleet/Uptime.antt =====
-- The uptime of a window that an outage spans.
use wizteros.Common.{
  or_else, Bool-cases, Option-cases, keep, reduce, Member, ℕ, ◌+◌, ◌-◌, ◌≤◌, ◌<◌, String, ◌≡◌, refl,
  ap, inl, inr, Bool, true, ◌&&◌, some, List, [], ◌∷◌, arith, ◌==◌, eq_refl,
}
use wizteros.Fleet.Tables.{Incident, FleetDb}
use wizteros.Fleet.Incidents.{ObservedRun, down_within, reaches, down_time, uptime}

reduce-grows :
    (f : Incident → ℕ) (n : ℕ) (xs : List Incident) → n ≤ reduce (λ total x. total + f x) n xs
reduce-grows f n [] = omega arith
reduce-grows f n (x ∷ xs) = let rest = reduce-grows f (n + f x) xs in omega arith

down-kept :
    (f : Incident → ℕ) (p : Incident → Bool) (i : Incident) (n : ℕ) (xs : List Incident)
    → p i ≡ true
    → Member i xs
    → f i ≤ reduce (λ total x. total + f x) n (keep p xs)
down-kept f p i n [] e h = absurd h
down-kept f p i n (x ∷ xs) e (inl same) =
    let kept : p x ≡ true = rw same e in
    let here = reduce-grows f (n + f x) (keep p xs) in
    let value : f x ≡ f i = ap f same in rw kept (omega arith)
down-kept f p i n (x ∷ xs) e (inr h) = elim (Bool-cases (p x)) [
  | inl kept ↦ rw kept (down-kept f p i (n + f x) xs e h)
  | inr left ↦ rw left (down-kept f p i n xs e h)
]

whole-window :
    (since now : ℕ) (i : Incident)
    → since < now
    → i.opened_at ≤ since
    → now ≤ or_else i.closed_at now
    → (down_within since now i ≡ now - since) × (reaches since i ≡ true)
unfolding down_within
whole-window since now i h o c = elim (Option-cases i.closed_at) [
  | inl open_still ↦ rw open_still (ground arith)
  | inr (at, closes) ↦ let late : now ≤ at = rw closes at c in rw closes (ground arith)
]

-- A target with an incident from before the window, that is still open or closed at its end or later,
-- was not up in it at all.
pub uptime-outage :
    (t : String) (since now gap up window : ℕ) (observed : ObservedRun) (db : FleetDb)
    (i : Incident)
    → uptime t since now observed gap db ≡ some (up, window)
    → Member i db.incidents
    → i.target ≡ t
    → i.opened_at ≤ since
    → now ≤ or_else i.closed_at now
    → up ≡ 0
unfolding uptime down_time
uptime-outage t since now gap up window observed db i h m e o c =
    let window_left : since < now = ground arith in
    let spans = whole-window since now i window_left o c in
    let mine : (i.target == t && reaches since i) ≡ true = rw (e, spans.1, eq_refl t) refl in
    let counted =
      down-kept (down_within since now) (λ i. i.target == t && reaches since i) i 0 db.incidents
        mine m in
    let all_down : now - since ≤ down_time t since now db.incidents = rw (← spans.0) counted in
    ground arith
