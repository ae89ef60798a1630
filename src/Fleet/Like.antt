-- ===== src/Fleet/Like.antt =====
-- SQL's `LIKE ? || '%'`, as SQLite has it: ASCII letters match in either case, `_` matches any one
-- character and `%` any number of them.
use Prim.Native.Char.{Char, code}
use wizteros.Common.{
  leb, nat_eq, if◌then◌else◌, or_else, ℕ, ◌+◌, String, Bool, true, ◌&&◌, ◌||◌, Option, none, some,
}

abbrev lower_code : ℕ → ℕ
lower_code n = if leb 65 n && leb n 90 then n + 32 else n

-- One character of a pattern.
unfoldable pub like_char : (pattern c : Char) → Bool
like_char p c = nat_eq (code p) b'_' || nat_eq (lower_code (code p)) (lower_code (code c))

-- Whether the test holds of the text or of one of its ends.
unfoldable pub some_end : (String → Bool) → String → Bool
some_end f String.[] = f ""
some_end f (String.◌∷◌ c s) = f (String.◌∷◌ c s) || some_end f s

-- `text LIKE pattern || '%'`
unfoldable pub like_start : (pattern text : String) → Bool
unfolding like_char some_end
like_start String.[] text = true
like_start (String.◌∷◌ p ps) String.[] = nat_eq (code p) b'%' && like_start ps ""
like_start (String.◌∷◌ p ps) (String.◌∷◌ c s) =
    if nat_eq (code p) b'%'
    then some_end (like_start ps) (String.◌∷◌ c s)
    else like_char p c && like_start ps s

-- The rest of a text after a prefix, if it starts with it.
unfoldable pub after_prefix : (prefix text : String) → Option String
after_prefix String.[] text = some text
after_prefix (String.◌∷◌ p ps) String.[] = none
after_prefix (String.◌∷◌ p ps) (String.◌∷◌ c s) =
    let rest = after_prefix ps s in if nat_eq (code p) (code c) then rest else none

-- `removePrefix`
unfoldable pub remove_prefix : (prefix text : String) → String
unfolding after_prefix
remove_prefix prefix text = or_else (after_prefix prefix text) text
