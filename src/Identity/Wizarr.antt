-- ===== src/Identity/Wizarr.antt =====
-- Wizarr's user and invitation rows (types.ts), and the record that redeemed an invitation
-- (clients/wizarr.ts).
use Prim.Native.Char.{code}
use wizteros.Common.{
  nat_eq, if◌then◌else◌, and_then, find, to_lower, is_digit, trim, truthy, text_or_empty, ℕ, ◌+◌,
  ◌-◌, ◌*◌, String, ◌&&◌, Option, none, some, List, ◌==◌,
}
use wizteros.Tiers.{ServerRecord}

-- A person on one server. `expires` is the text that Wizarr sent.
pub record WizarrUser : Type 0 where
  pub id : ℕ
  pub username : Option String
  pub email : Option String
  pub server : Option String
  pub expires : Option String

-- `used_by` is none where Wizarr sent anything but a text.
pub record WizarrInvitation : Type 0 where
  pub id : ℕ
  pub code : Option String
  pub used_by : Option String

-- What `staleRecordIds` reads of a user record.
abbrev pub server_record : WizarrUser → ServerRecord
server_record user = record { id = user.id; server = user.server }

-- The rest of a text behind a prefix.
after_text : String → String → Option String
after_text String.[] s = some s
after_text (String.◌∷◌ c p) String.[] = none
after_text (String.◌∷◌ c p) (String.◌∷◌ d s) =
    let rest = after_text p s in if nat_eq (code c) (code d) then rest else none

-- `(\d*)>$` behind the digits read so far
digits_then_close : ℕ → String → Option ℕ
digits_then_close n String.[] = none
digits_then_close n (String.◌∷◌ c s) =
    let more = digits_then_close (10 * n + (code c - 48)) s in
    if is_digit (code c) then more else if nat_eq (code c) b'>' && (s == "") then some n else none

-- `(\d+)>$`
number_then_close : String → Option ℕ
number_then_close String.[] = none
number_then_close (String.◌∷◌ c s) =
    if is_digit (code c) then digits_then_close (code c - 48) s else none

-- `USED_BY_REPR`: the id in "<User N>", white space around it aside
unfoldable pub used_by_id : String → Option ℕ
unfolding after_text digits_then_close number_then_close trim is_digit
used_by_id text = and_then (after_text "<User " (trim text)) number_then_close

redeemed_by : String → List WizarrUser → Option WizarrUser
unfolding used_by_id to_lower
redeemed_by used_by users = elim (used_by_id used_by) [
  | some record_id ↦ find (λ u. nat_eq u.id record_id) users
  | none ↦ find (λ u. to_lower (text_or_empty u.username) == to_lower used_by) users
]

-- The user record that redeemed the invitation, or none when nothing resolves.
unfoldable pub redeemer_record : WizarrInvitation → List WizarrUser → Option WizarrUser
unfolding redeemed_by
redeemer_record invitation users = elim (truthy invitation.used_by) [
  | none ↦ none
  | some used_by ↦ redeemed_by used_by users
]
