-- ===== src/Links/Stars.antt =====
-- The links that pass the check never chain.
use wizteros.Common.{
  is_some, Bool-cases, Option-cases, find, All, lookup, insert, erase, lookup-erase, String, ◌≡◌,
  refl, ◌≢◌, ◌↔◌, inl, inr, Bool, false, Option, none, some, List, [], ◌∷◌, arith, ◌==◌, eq_iff,
  eq_refl,
}
use wizteros.Links.{chains, member_link_conflict}

-- No account that is paid for pays for another.
abbrev pub IsStar : List (String × String) → Type 0
IsStar links = All (λ l. lookup l.1 links ≡ none) links

find-none_iff :
    {A : Type 0} (p : A → Bool) (xs : List A) → (find p xs ≡ none) ↔ All (λ x. p x ≡ false) xs
find-none_iff p [] = (λ _. tt, λ _. refl)
find-none_iff p (x ∷ xs) = elim (Bool-cases (p x)) [
  | inl e ↦ ((λ h. absurd (cc (rw e at h))), (λ (h, hs). absurd (cc)))
  | inr e ↦ (
    (λ h. (e, (find-none_iff p xs).0 (rw e at h))),
    (λ (h, hs). rw e ((find-none_iff p xs).1 hs)),
  )
]

none_of_missing : {A : Type 0} (o : Option A) → is_some o ≡ false → o ≡ none
none_of_missing none h = refl
none_of_missing (some a) h = absurd (cc h)

missing_of_none : {A : Type 0} (o : Option A) → o ≡ none → is_some o ≡ false
missing_of_none o h = rw h refl

All-map {ℓ} :
    {A : Type ℓ} (P Q : A → Type 0) (xs : List A) → ((a : A) → P a → Q a) → All P xs → All Q xs
All-map P Q [] f h = tt
All-map P Q (x ∷ xs) f (p, h) = (f x p, All-map P Q xs f h)

-- The search for a chain finds none exactly when the links form stars.
no_chain_iff : (links : List (String × String)) → (find (chains links) links ≡ none) ↔ IsStar links
no_chain_iff links = (
  (λ h.
      All-map (λ l. chains links l ≡ false) (λ l. lookup l.1 links ≡ none) links
        (λ l. none_of_missing (lookup l.1 links)) ((find-none_iff (chains links) links).0 h)),
  (λ star. (find-none_iff (chains links) links).1 (
      All-map (λ l. lookup l.1 links ≡ none) (λ l. chains links l ≡ false) links
        (λ l. missing_of_none (lookup l.1 links)) star)),
)

-- A link passes exactly when it joins two different addresses and the links with it form stars;
-- an unlink always passes.
pub member_link_conflict_iff :
    (links : List (String × String)) (payer plex : String)
    → ((member_link_conflict links payer (some plex) ≡ none)
        ↔ ((payer ≢ plex) × IsStar (insert payer plex links)))
      × (member_link_conflict links payer none ≡ none)
unfolding member_link_conflict
member_link_conflict_iff links payer plex = ((to, from), refl)
  where
    proposed : List (String × String)
    proposed = insert payer plex links

    to :
        member_link_conflict links payer (some plex) ≡ none
        → (payer ≢ plex) × IsStar (insert payer plex links)
    to h = elim (Bool-cases (payer == plex)) [
      | inl same ↦ absurd (cc (rw (same, member_link_conflict) at h))
      | inr differs ↦ elim (Option-cases (find (chains proposed) proposed)) [
        | inl e ↦ ((λ p. cc (rw (p, eq_refl plex) at differs)), (no_chain_iff proposed).0 e)
        | inr (c, e) ↦ absurd (cc (rw (differs, e, member_link_conflict) at h))
      ]
    ]

    from :
        (payer ≢ plex) × IsStar (insert payer plex links)
        → member_link_conflict links payer (some plex) ≡ none
    from (n, star) = elim (Bool-cases (payer == plex)) [
      | inl same ↦ absurd (n ((eq_iff payer plex).0 same))
      | inr differs ↦ rw (differs, (no_chain_iff proposed).1 star, member_link_conflict) refl
    ]

All-erase :
    (P : String × String → Type 0) (k : String) (links : List (String × String))
    → All P links
    → All P (erase k links)
unfolding erase
All-erase P k [] h = tt
All-erase P k ((j, v) ∷ links) (p, h) = elim (Bool-cases (j == k)) [
  | inl e ↦ rw e (All-erase P k links h)
  | inr e ↦ rw e (p, All-erase P k links h)
]

-- Taking links away leaves stars.
pub IsStar-erase :
    (k : String) (links : List (String × String)) → IsStar links → IsStar (erase k links)
IsStar-erase k links star =
    All-erase (λ l. lookup l.1 (erase k links) ≡ none) k links
      (All-map (λ l. lookup l.1 links ≡ none) (λ l. lookup l.1 (erase k links) ≡ none) links
        (λ l e. rw (lookup-erase k l.1 links, e) (ground arith)) star)
