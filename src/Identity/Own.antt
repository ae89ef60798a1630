-- ===== src/Identity/Own.antt =====
-- The records that an identity was found by are the person's own.
use wizteros.Identity.Addresses.{contains-linked_to, owner_listed}
use wizteros.Common.{
  and_then, Bool-cases, Option-cases, is_empty, keep, All, contains, lookup, lookup-insert_all,
  HasUniqueKeys, last_of-keep, truthy, text_or_empty, String, ◌≡◌, refl, ◌⊎◌, inl, inr, true, false,
  not, Option, none, some, List, [], ◌∷◌, arith, ◌==◌, eq_iff, eq_refl,
}
use wizteros.Identity.Wizarr.{WizarrUser}
use wizteros.Identity.Resolve.{
  IdentitySnapshot, email_of, records_at, redeemer_of, redeemer_records, redeemer_address,
  implied_links, linked_to, asked_address, all_links, records_of, find_records, identity_for,
}

-- The address of a record is one of the person's, or the record has none.
abbrev pub IsOwn : List String → WizarrUser → Type 0
IsOwn addresses u = (contains addresses (email_of u) ≡ true) ⊎ (email_of u ≡ "")

IsOwn-records_at :
    (addresses : List String) (users : List WizarrUser) (a : String)
    → contains addresses a ≡ true
    → All (IsOwn addresses) (records_at users a)
unfolding records_at
IsOwn-records_at addresses [] a h = tt
IsOwn-records_at addresses (u ∷ users) a h = elim (Bool-cases (email_of u == a)) [
  | inr e ↦ rw e (IsOwn-records_at addresses users a h)
  | inl e ↦ rw e (inl (rw ((eq_iff _ _).0 e) h), IsOwn-records_at addresses users a h)
]

IsOwn-records_of :
    (addresses : List String) (users : List WizarrUser) (o : Option String)
    → ((a : String) → truthy o ≡ some a → contains addresses a ≡ true)
    → All (IsOwn addresses) (records_of users o)
unfolding records_of
IsOwn-records_of addresses users none h = tt
IsOwn-records_of addresses users (some a) h = elim (Bool-cases (a == "")) [
  | inl e ↦ rw e tt
  | inr e ↦ rw e (IsOwn-records_at addresses users a (h a (rw e refl)))
]

IsOwn-redeemer_records :
    (addresses : List String) (users : List WizarrUser) (redeemer : Option WizarrUser)
    → ((redeemer_address redeemer == "") ≡ false
        → contains addresses (redeemer_address redeemer) ≡ true)
    → All (IsOwn addresses) (redeemer_records users redeemer)
unfolding redeemer_records
IsOwn-redeemer_records addresses users none h = tt
IsOwn-redeemer_records addresses users (some r) h = elim (Bool-cases (email_of r == "")) [
  | inl e ↦ rw e (inr ((eq_iff _ _).0 e), tt)
  | inr e ↦ rw e (IsOwn-records_at addresses users (email_of r) (h e))
]

-- The evidence that answers is one of the three, so what holds of all of them holds of it.
find_records-All :
    (P : WizarrUser → Type 0) (snapshot : IdentitySnapshot) (address : Option String)
    (redeemer : Option WizarrUser)
    → All P (records_of snapshot.users address)
    → All P (records_of snapshot.users (and_then (truthy address) (λ a. lookup a snapshot.links)))
    → All P (redeemer_records snapshot.users redeemer)
    → All P (find_records snapshot address redeemer).0
unfolding find_records
find_records-All P snapshot address redeemer own linked redeemed =
    elim (Bool-cases (is_empty (records_of snapshot.users address))) [
      | inr e ↦ rw e own
      | inl e ↦
          rw e
            (elim (Bool-cases (
              is_empty (
                records_of snapshot.users
                  (and_then (truthy address) (λ a. lookup a snapshot.links))))) [
                    | inr f ↦ rw f linked
                    | inl f ↦ rw f redeemed
                  ])
    ]

own_seed :
    (address : Option String) (redeemed a : String)
    → truthy address ≡ some a
    → contains (keep (λ s. not (s == "")) (text_or_empty address ∷ redeemed ∷ [])) a ≡ true
own_seed none redeemed a e = absurd (cc e)
own_seed (some b) redeemed a e = ground (arith, eq_refl a)

redeemed_seed :
    (own redeemed : String)
    → (redeemed == "") ≡ false
    → contains (keep (λ s. not (s == "")) (own ∷ redeemed ∷ [])) redeemed ≡ true
redeemed_seed own redeemed e = ground (arith, eq_refl redeemed)

truthy-nonempty : (o : Option String) (a : String) → truthy o ≡ some a → (a == "") ≡ false
truthy-nonempty none a e = absurd (cc e)
truthy-nonempty (some b) a e = ground arith

truthy-eq : (o : Option String) (a : String) → truthy o ≡ some a → o ≡ some a
truthy-eq none a e = absurd (cc e)
truthy-eq (some b) a e = ground arith

module _ (snapshot : IdentitySnapshot) (address : Option String)
    (redeemer : Option WizarrUser) where
  abbrev seeds_of : List String
  seeds_of = keep (λ s. not (s == "")) (text_or_empty address ∷ redeemer_address redeemer ∷ [])

  abbrev addresses_of : List String
  addresses_of = linked_to (all_links snapshot) seeds_of

  seed_listed : (a : String) → contains seeds_of a ≡ true → contains addresses_of a ≡ true
  seed_listed a h = rw (contains-linked_to (all_links snapshot) seeds_of a, h) refl

  own_listed : (a : String) → truthy address ≡ some a → contains addresses_of a ≡ true
  own_listed a e = seed_listed a (own_seed address (redeemer_address redeemer) a e)

  -- A link that was stated outranks what a redemption implies.
  stated_link :
      (a l : String)
      → HasUniqueKeys snapshot.links
      → lookup a snapshot.links ≡ some l
      → (l == "") ≡ false
      → lookup a (all_links snapshot) ≡ some l
  unfolding all_links
  stated_link a l u e h =
      rw (lookup-insert_all a (implied_links snapshot) (keep (λ l. not (l.1 == "")) snapshot.links))
        (rw (last_of-keep a l (λ l. not (l.1 == "")) snapshot.links u e (rw h refl)) refl)

  linked_listed :
      (l : String)
      → HasUniqueKeys snapshot.links
      → truthy (and_then (truthy address) (λ a. lookup a snapshot.links)) ≡ some l
      → contains addresses_of l ≡ true
  linked_listed l u e = elim (Option-cases (truthy address)) [
    | inl missing ↦ absurd (cc (rw missing at e))
    | inr (a, asked) ↦
        let held = truthy-eq (lookup a snapshot.links) l (rw asked at e) in
        let filled = truthy-nonempty (lookup a snapshot.links) l (rw asked at e) in
        let stated = stated_link a l u held filled in
        rw (contains-linked_to (all_links snapshot) seeds_of l) (
          ground (
            arith,
            owner_listed (all_links snapshot) seeds_of a l
                (own_seed address (redeemer_address redeemer) a asked) stated,
          ))
  ]

  All-IsOwn :
      HasUniqueKeys snapshot.links
      → All (IsOwn addresses_of) (find_records snapshot address redeemer).0
  All-IsOwn u =
      find_records-All (IsOwn addresses_of) snapshot address redeemer
        (IsOwn-records_of addresses_of snapshot.users address own_listed)
        (IsOwn-records_of addresses_of snapshot.users
          (and_then (truthy address) (λ a. lookup a snapshot.links)) (λ l e. linked_listed l u e))
        (IsOwn-redeemer_records addresses_of snapshot.users redeemer (λ e.
          seed_listed (redeemer_address redeemer)
            (redeemed_seed (text_or_empty address) (redeemer_address redeemer) e)))

-- When the stated links are a map, every record that an identity was found by stands under one of
-- its addresses, or carries no address at all.
pub identity_for-IsOwn :
    (snapshot : IdentitySnapshot) (email invite_code : Option String)
    → HasUniqueKeys snapshot.links
    → All
        (IsOwn (identity_for snapshot email invite_code).addresses)
        (identity_for snapshot email invite_code).records
unfolding identity_for
identity_for-IsOwn snapshot email invite_code =
    All-IsOwn snapshot (asked_address email) (redeemer_of snapshot invite_code)
