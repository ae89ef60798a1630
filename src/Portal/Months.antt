-- ===== src/Portal/Months.antt =====
-- The series ends on the month of today.
use wizteros.Common.{
  ltb, leb, nat_eq, if◌then◌else◌, to_list, Bool-cases, last, flat_map, reduce, ℕ, zero, suc, ◌+◌,
  ◌≤◌, ◌≡◌, refl, ap, ◌∙◌, inl, inr, some, List, [], ◌∷◌, ◌++◌, map, arith,
}
use wizteros.Portal.Walk.{IncomeEvent}
use wizteros.Portal.Series.{
  months_from, months_between, Unlogged, unlogged_members, first_month, month_row, monthly_series,
}
use wizteros.Portal.Member.{PortalMember}
use wizteros.Portal.Income.{current_income}

last-cons : {A : Type 0} (x l : A) (xs : List A) → last xs ≡ some l → last (x ∷ xs) ≡ some l
last-cons x l [] e = absurd (cc e)
last-cons x l (y ∷ xs) e = e

last-map :
    {A B : Type 0} (f : A → B) (l : A) (xs : List A)
    → last xs ≡ some l
    → last (map f xs) ≡ some (f l)
last-map f l [] e = absurd (cc e)
last-map f l (x ∷ []) e = let same : x ≡ l = cc e in ap (λ z. some (f z)) same
last-map f l (x ∷ y ∷ xs) e = last-map f l (y ∷ xs) e

months_from-last :
    (fuel first end : ℕ)
    → first ≤ end
    → end ≤ first + fuel
    → last (months_from fuel first end) ≡ some end
unfolding months_from
months_from-last zero first end h k = let same : first ≡ end = omega arith in ap some same
months_from-last (suc fuel) first end h k = elim (Bool-cases (nat_eq first end)) [
  | inl e ↦ rw e (let same : first ≡ end = ground arith in ap some same)
  | inr e ↦ rw e (
      last-cons first end (months_from fuel (suc first) end)
        (months_from-last fuel (suc first) end (ground arith) (omega arith)))
]

smaller-bound :
    (this : ℕ) (months : List ℕ) → reduce (λ a b. if ltb b a then b else a) this months ≤ this
smaller-bound this [] = omega arith
smaller-bound this (m ∷ months) =
    let rest = smaller-bound (if ltb m this then m else this) months in ground arith

months_between-last :
    (first end : ℕ) → first ≤ end → end ≤ first + 240 → last (months_between first end) ≡ some end
unfolding months_between
months_between-last first end h k = elim (Bool-cases (leb end first)) [
  | inl e ↦ rw e refl
  | inr e ↦ rw e (months_from-last 240 first end h k)
]

-- A log that begins at most 240 months ago gives a series that reaches the month of today: the loop's
-- bound is enough, and the last row is today's income and number of paying members.
pub monthly_series-ends :
    (month_of month_end : ℕ → ℕ) (at : ℕ) (members : List PortalMember) (events : List IncomeEvent)
    → month_of at
      ≤ first_month month_of month_end (month_of at) events (unlogged_members at events members)
        + 240
    → last (monthly_series month_of month_end at members events)
      ≡ some (
          month_row month_of month_end
            (month_of at)
            (current_income at members).total
            (current_income at members).paying
            events)
unfolding monthly_series first_month
monthly_series-ends month_of month_end at members events h =
    let this = month_of at in
    let unlogged = unlogged_members at events members in
    let start = first_month month_of month_end this events unlogged in
    last-map _ this (months_between start this) (
      months_between-last start this
        (smaller-bound this (
          map (λ (e : IncomeEvent). month_of e.at) events
          ++ flat_map (λ (u : Unlogged). map month_of (to_list u.since)) unlogged))
        h)
    ∙ ground arith
