-- ===== src/Portal/Twins.antt =====
-- apps/admin-portal/src/lib/duplicateMembers.ts: members who are probably one person under two addresses.
use Prim.Native.Char.{code}
use Prim.Native.String.{◌++◌ as append_text}
use wizteros.Common.{
  ltb, leb, nat_eq, if◌then◌else◌, is_empty, all, insert, to_lower, trim, ℕ, zero, suc, ◌-◌, String,
  Bool, false, not, ◌&&◌, ◌||◌, Option, none, some, List, [], ◌∷◌, ◌==◌,
}
use wizteros.Standing.{vip}
use wizteros.Portal.Member.{PortalMember, has_tag}

-- The index of the last at sign, and the length.
unfoldable pub last_at : String → Option ℕ
last_at String.[] = none
last_at (String.◌∷◌ c s) =
    let later = last_at s in
    elim later [ some i ↦ some (suc i) | none ↦ if nat_eq (code c) 64 then some 0 else none ]

unfoldable pub size : String → ℕ
size String.[] = 0
size (String.◌∷◌ c s) = suc (size s)

-- `slice(0, n)` and `slice(n)`
unfoldable pub text_take : ℕ → String → String
text_take zero s = ""
text_take (suc n) String.[] = ""
text_take (suc n) (String.◌∷◌ c s) = String.◌∷◌ c (text_take n s)

unfoldable pub text_drop : ℕ → String → String
text_drop zero s = s
text_drop (suc n) String.[] = ""
text_drop (suc n) (String.◌∷◌ c s) = text_drop n s

-- The text before the first plus sign, without its dots.
unfoldable pub mailbox : String → String
mailbox String.[] = ""
mailbox (String.◌∷◌ c s) =
    let rest = mailbox s in
    if nat_eq (code c) 43 then "" else if nat_eq (code c) 46 then rest else String.◌∷◌ c rest

-- `canonicalize`
unfoldable pub canonicalize : String → String
unfolding to_lower trim last_at text_take text_drop mailbox
canonicalize email =
    let lowered = to_lower (trim email) in
    elim (last_at lowered) [
      | none ↦ lowered
      | some zero ↦ lowered
      | some (suc i) ↦
          append_text (mailbox (text_take (suc i) lowered))
            (append_text "@" (text_drop (suc (suc i)) lowered))
    ]

-- The first index of the longer text at which the shorter one has another character or none.
unfoldable pub first_diff : (shorter longer : String) → Option ℕ
first_diff shorter String.[] = none
first_diff String.[] (String.◌∷◌ c longer) = some 0
first_diff (String.◌∷◌ d shorter) (String.◌∷◌ c longer) =
    let later = first_diff shorter longer in
    if nat_eq (code c) (code d) then elim later [ none ↦ none | some i ↦ some (suc i) ] else some 0

-- What is left behind the first difference is the same.
unfoldable pub agree_after : (shorter longer : String) → Bool
unfolding first_diff text_drop size
agree_after shorter longer = elim (first_diff shorter longer) [
  | none ↦ nat_eq (size longer - size shorter) 1
  | some i ↦
      if nat_eq (size shorter) (size longer)
      then text_drop (suc i) shorter == text_drop (suc i) longer
      else text_drop i shorter == text_drop (suc i) longer
]

unfoldable pub within_one : (shorter longer : String) → Bool
unfolding agree_after size
within_one shorter longer =
    if ltb 1 (size longer - size shorter) then false else agree_after shorter longer

-- `isOneEditApart`
unfoldable pub is_one_edit_apart : String → String → Bool
unfolding within_one size
is_one_edit_apart a b =
    if a == b then false else if leb (size a) (size b) then within_one a b else within_one b a

pub record Candidate : Type 0 where
  pub email : String
  pub canonical : String

-- `!!member.email && (member.subscribed || member.tag === 'vip')`
unfoldable pub candidates_of : List PortalMember → List Candidate
unfolding to_lower canonicalize
candidates_of [] = []
candidates_of (m ∷ members) =
    let rest = candidates_of members in
    if not (m.email == "") && (m.subscribed || has_tag vip m.tag)
    then record { email = to_lower m.email; canonical = canonicalize m.email } ∷ rest
    else rest

-- Two candidates that look like one person.
unfoldable pub look_alike : Candidate → Candidate → Bool
unfolding is_one_edit_apart
look_alike other member =
    other.canonical == member.canonical || is_one_edit_apart other.canonical member.canonical

-- The addresses at other positions that look like the one at `index`, from position `n` on.
unfoldable pub matches_of : (index : ℕ) → Candidate → (n : ℕ) → List Candidate → List String
unfolding look_alike
matches_of index member n [] = []
matches_of index member n (other ∷ others) =
    let rest = matches_of index member (suc n) others in
    if not (nat_eq n index) && look_alike other member then other.email ∷ rest else rest

unfoldable pub add_twins :
    (all : List Candidate)
    → (index : ℕ) → List Candidate
    → List (String × List String)
    → List (String × List String)
unfolding matches_of insert
add_twins all index [] twins = twins
add_twins all index (m ∷ members) twins =
    let found = matches_of index m 0 all in
    add_twins all (suc index) members (if is_empty found then twins else insert m.email found twins)

-- `findDuplicateTwins`
unfoldable pub find_duplicate_twins : List PortalMember → List (String × List String)
unfolding candidates_of add_twins
find_duplicate_twins members =
    let candidates = candidates_of members in add_twins candidates 0 candidates []
