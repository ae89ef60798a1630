-- ===== src/Identity/Records.antt =====
-- Whose records an identity holds.
use wizteros.Common.{
  Bool-cases, keep, Member, contains, contains_id, keep-Member, ℕ, ◌≡◌, refl, inl, inr, true, not,
  ◌&&◌, ◌||◌, List, [], ◌∷◌, ◌++◌, map, arith,
}
use wizteros.Identity.Wizarr.{WizarrUser}
use wizteros.Identity.Resolve.{IdentitySnapshot, Identity, email_of, every_record}

contains_id-append :
    (xs ys : List WizarrUser) (n : ℕ)
    → contains_id (map (λ r. r.id) (xs ++ ys)) n
      ≡ (contains_id (map (λ r. r.id) xs) n || contains_id (map (λ r. r.id) ys) n)
contains_id-append [] ys n = refl
contains_id-append (x ∷ xs) ys n = ground (arith, contains_id-append xs ys n)

pub contains_id-Member :
    (u : WizarrUser) (xs : List WizarrUser)
    → Member u xs
    → contains_id (map (λ r. r.id) xs) u.id ≡ true
contains_id-Member u [] m = absurd m
contains_id-Member u (x ∷ xs) (inl e) = rw e (ground arith)
contains_id-Member u (x ∷ xs) (inr m) = rw (contains_id-Member u xs m) (ground arith)

-- Every user whose address is one of the person's is among the person's records: what acts on every
-- record, a ban above all, misses none of them.
pub every_record_covers :
    (snapshot : IdentitySnapshot) (identity : Identity) (u : WizarrUser)
    → Member u snapshot.users
    → contains identity.addresses (email_of u) ≡ true
    → contains_id (map (λ r. r.id) (every_record snapshot identity)) u.id ≡ true
unfolding every_record
every_record_covers snapshot identity u m h =
    let found = contains_id (map (λ (r : WizarrUser). r.id) identity.records) in
    let added = λ (u : WizarrUser). not (found u.id) && contains identity.addresses (email_of u) in
    rw (contains_id-append identity.records (keep added snapshot.users) u.id)
      (elim (Bool-cases (found u.id)) [
        | inl held ↦ rw held refl
        | inr missing ↦
            rw
              (contains_id-Member u (keep added snapshot.users)
                (keep-Member added u snapshot.users m (rw (missing, h) refl)))
              (ground arith)
      ])
