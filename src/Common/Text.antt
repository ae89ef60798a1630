-- ===== src/Common/Text.antt =====
-- The text operations that the source uses. `to_lower` is `toLowerCase` (and SQLite's `lower`) on
-- ASCII letters; other characters stay. `trim` knows every white space character of JavaScript.
use Prim.Native.Nat.{ℕ, zero, suc, ◌+◌, ◌≤◌, ◌/◌, ◌%◌, Ordering}
use Prim.Native.Char.{Char, char, code, IsScalar}
use Prim.Native.String
use Prim.Native.String.{String, compare as compare_text}
use mathlib.Core.Path.{◌≡◌, refl, ap, ◌∙◌}
use mathlib.Core.Bool.{Bool, true, false, ◌&&◌, ◌||◌}
use mathlib.Core.Option.{Option, none, some}
use mathlib.Core.List.{List, [], ◌∷◌}
use mathlib.Core.Logic.{dite}
use native.Mathlib.Omega.{arith}
use native.Mathlib.Decide.{dec_le}
use text.Mathlib.Text.{◌==◌}
use wizteros.Common.Lists.{contains}
use wizteros.Common.Tests.{ltb, leb, nat_eq, if◌then◌else◌}

lower_scalar : (n : ℕ) → n ≤ 90 → IsScalar (n + 32)
lower_scalar n h = ground arith

lower_char : Char → Char
lower_char c =
    dite (dec_le 65 (code c))
      (λ _. dite (dec_le (code c) 90) (λ h. char (code c + 32) (lower_scalar (code c) h)) (λ _. c))
      (λ _. c)

unfoldable pub to_lower : String → String
unfolding lower_char lower_scalar dec_le
to_lower String.[] = ""
to_lower (String.◌∷◌ c s) = String.◌∷◌ (lower_char c) (to_lower s)

lower_char_idem : (c : Char) → lower_char (lower_char c) ≡ lower_char c
unfolding lower_char
lower_char_idem c = ground arith

pub to_lower_idem : (s : String) → to_lower (to_lower s) ≡ to_lower s
unfolding to_lower
to_lower_idem String.[] = refl
to_lower_idem (String.◌∷◌ c s) = cc (lower_char_idem c, to_lower_idem s)

-- JavaScript's white space: what `trim` strips and `\s` matches.
is_space : ℕ → Bool
is_space n =
    (leb 9 n && leb n 13)
    || nat_eq n 32
    || nat_eq n 160
    || nat_eq n 5760
    || (leb 8192 n && leb n 8202)
    || nat_eq n 8232
    || nat_eq n 8233
    || nat_eq n 8239
    || nat_eq n 8287
    || nat_eq n 12288
    || nat_eq n 65279

unfoldable pub is_digit : ℕ → Bool
is_digit n = leb b'0' n && leb n b'9'

unfoldable pub trim_start : String → String
unfolding is_space
trim_start String.[] = ""
trim_start (String.◌∷◌ c s) =
    let rest = trim_start s in if is_space (code c) then rest else String.◌∷◌ c s

-- The character is dropped when it is white space and nothing is left behind it.
trim_from : Char → String → String
trim_from c String.[] = if is_space (code c) then "" else String.◌∷◌ c ""
trim_from c (String.◌∷◌ d s) = String.◌∷◌ c (String.◌∷◌ d s)

unfoldable pub trim_end : String → String
unfolding is_space trim_from
trim_end String.[] = ""
trim_end (String.◌∷◌ c s) = trim_from c (trim_end s)

unfoldable pub trim : String → String
unfolding trim_start trim_end
trim s = trim_start (trim_end s)

-- A text that is not empty, or nothing: `value || null`.
abbrev pub truthy : Option String → Option String
truthy none = none
truthy (some s) = if s == "" then none else some s

-- `value ?? ''`
abbrev pub text_or_empty : Option String → String
text_or_empty none = ""
text_or_empty (some s) = s

-- `(value ?? '').trim().toLowerCase()`
abbrev pub address_of : Option String → String
address_of value = to_lower (trim (text_or_empty value))

abbrev pub str_le : String → String → Bool
str_le a b = elim (compare_text a b) [ Ordering.gt ↦ false | _ ↦ true ]

unfoldable pub insert_sorted : String → List String → List String
insert_sorted s [] = s ∷ []
insert_sorted s (t ∷ ts) = if str_le s t then s ∷ t ∷ ts else t ∷ insert_sorted s ts

-- `xs.toSorted()`
unfoldable pub sorted : List String → List String
unfolding insert_sorted
sorted [] = []
sorted (s ∷ ss) = insert_sorted s (sorted ss)

-- A decimal digit, at the position of its value.
digit : ℕ → String
digit zero = "0"
digit (suc zero) = "1"
digit (suc (suc zero)) = "2"
digit (suc (suc (suc zero))) = "3"
digit (suc (suc (suc (suc zero)))) = "4"
digit (suc (suc (suc (suc (suc zero))))) = "5"
digit (suc (suc (suc (suc (suc (suc zero)))))) = "6"
digit (suc (suc (suc (suc (suc (suc (suc zero))))))) = "7"
digit (suc (suc (suc (suc (suc (suc (suc (suc zero)))))))) = "8"
digit _ = "9"

decimal_from : ℕ → ℕ → String
unfolding digit
decimal_from zero n = ""
decimal_from (suc fuel) n =
    let more = String.◌++◌ (decimal_from fuel (n / 10)) (digit (n % 10)) in
    if ltb n 10 then digit n else more

-- `String(n)` of a natural number: it has at most `n + 1` digits.
unfoldable pub decimal : ℕ → String
unfolding decimal_from
decimal n = decimal_from (n + 1) n

contains-insert_sorted :
    (x : String) (xs : List String) (s : String)
    → contains (insert_sorted x xs) s ≡ ((x == s) || contains xs s)
unfolding insert_sorted
contains-insert_sorted x [] s = refl
contains-insert_sorted x (y ∷ ys) s = ground (arith, contains-insert_sorted x ys s)

-- Sorting keeps the texts.
pub contains-sorted : (xs : List String) (s : String) → contains (sorted xs) s ≡ contains xs s
unfolding sorted
contains-sorted [] s = refl
contains-sorted (x ∷ xs) s =
    contains-insert_sorted x (sorted xs) s ∙ ap (λ b. (x == s) || b) (contains-sorted xs s)
