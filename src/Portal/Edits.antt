-- ===== src/Portal/Edits.antt =====
-- The scan for one edit finds just the addresses that are one edit apart.
use Prim.Native.Char.{Char, code}
use text.Mathlib.TextEquality.{Char-path}
use mathlib.Core.Path.{subst}
use mathlib.Core.Bool.{false≢true}
use wizteros.Common.{
  leb, nat_eq, if◌then◌else◌, Bool-cases, ℕ, suc, ◌≤◌, String, ◌≡◌, refl, sym, ap, ◌∙◌, ◌≢◌, ◌↔◌,
  ◌⊎◌, inl, inr, true, false, arith, ◌==◌, eq_iff, eq_refl,
}
use wizteros.Portal.Twins.{size, text_drop, first_diff, agree_after, within_one, is_one_edit_apart}

-- One character changed, added or removed, at any place.
pub data OneEdit : String → String → Type 0 where
  changed : (c d : Char) (s : String) → code c ≢ code d → OneEdit (String.◌∷◌ c s) (String.◌∷◌ d s)
  added : (c : Char) (s : String) → OneEdit s (String.◌∷◌ c s)
  removed : (c : Char) (s : String) → OneEdit (String.◌∷◌ c s) s
  further : (c : Char) (s t : String) → OneEdit s t → OneEdit (String.◌∷◌ c s) (String.◌∷◌ c t)

flip : {s t : String} → OneEdit s t → OneEdit t s
flip (changed c d s h) = changed d c s (λ e. h (sym e))
flip (added c s) = removed c s
flip (removed c s) = added c s
flip (further c s t e) = further c t s (flip e)

code_of : String → ℕ
code_of String.[] = 0
code_of (String.◌∷◌ c s) = code c

tail_of : String → String
tail_of String.[] = ""
tail_of (String.◌∷◌ c s) = s

OneEdit-apart : {s t : String} → OneEdit s t → s ≢ t
unfolding code_of tail_of size
OneEdit-apart (changed c d s h) e = h (ap code_of e)
OneEdit-apart (added c s) e = let h : size s ≡ suc (size s) = ap size e in omega arith
OneEdit-apart (removed c s) e = let h : suc (size s) ≡ size s = ap size e in omega arith
OneEdit-apart (further c s t h) e = OneEdit-apart h (ap tail_of e)

OneEdit-size : {s t : String} → OneEdit s t → (size s ≤ suc (size t)) × (size t ≤ suc (size s))
unfolding size
OneEdit-size (changed c d s h) = (omega arith, omega arith)
OneEdit-size (added c s) = (omega arith, omega arith)
OneEdit-size (removed c s) = (omega arith, omega arith)
OneEdit-size (further c s t e) = let (h, k) = OneEdit-size e in (omega arith, omega arith)

agree_after-same :
    (c d : Char) (s l : String)
    → code c ≡ code d
    → agree_after (String.◌∷◌ d s) (String.◌∷◌ c l) ≡ agree_after s l
unfolding agree_after first_diff size text_drop
agree_after-same c d s l h = ground arith

agree_after-other :
    (c d : Char) (s l : String)
    → code c ≢ code d
    → agree_after (String.◌∷◌ d s) (String.◌∷◌ c l)
      ≡ (if nat_eq (size s) (size l) then s == l else String.◌∷◌ d s == l)
unfolding agree_after first_diff size text_drop
agree_after-other c d s l h = ground arith

empty_of : (s : String) → size s ≡ 0 → s ≡ ""
unfolding size
empty_of String.[] h = refl
empty_of (String.◌∷◌ c s) h = absurd (omega arith)

code_cases : (c d : Char) → (c ≡ d) ⊎ (code c ≢ code d)
code_cases c d = elim (Bool-cases (nat_eq (code c) (code d))) [
  | inl same ↦ inl (Char-path c d (ground arith))
  | inr other ↦ inr (ground arith)
]

agree_after-OneEdit :
    (s l : String) → size s ≤ size l → size l ≤ suc (size s) → agree_after s l ≡ true → OneEdit s l
unfolding size agree_after first_diff
agree_after-OneEdit String.[] String.[] h k e = absurd (false≢true e)
agree_after-OneEdit (String.◌∷◌ d s) String.[] h k e = absurd (omega arith)
agree_after-OneEdit String.[] (String.◌∷◌ c l) h k e =
    subst (λ t. OneEdit "" (String.◌∷◌ c t)) (sym (empty_of l (omega arith))) (added c "")
agree_after-OneEdit (String.◌∷◌ d s) (String.◌∷◌ c l) h k e = elim (code_cases c d) [
  | inl same ↦
      subst (λ x. OneEdit (String.◌∷◌ d s) (String.◌∷◌ x l)) (sym same)
        (further d s l (
          agree_after-OneEdit s l (omega arith) (omega arith)
            (sym (agree_after-same c d s l (ap code same)) ∙ e)))
  | inr other ↦
      (let left = sym (agree_after-other c d s l other) ∙ e in
        elim (Bool-cases (nat_eq (size s) (size l))) [
          | inl even ↦
              (let tails : (s == l) ≡ true = ground arith in
                subst (λ t. OneEdit (String.◌∷◌ d s) (String.◌∷◌ c t)) ((eq_iff s l).0 tails)
                  (changed d c s (λ x. other (sym x))))
          | inr odd ↦
              (let tails : (String.◌∷◌ d s == l) ≡ true = ground arith in
                subst (λ t. OneEdit (String.◌∷◌ d s) (String.◌∷◌ c t))
                  ((eq_iff (String.◌∷◌ d s) l).0 tails) (added c (String.◌∷◌ d s)))
        ])
]

agree_after-added : (c : Char) (s : String) → agree_after s (String.◌∷◌ c s) ≡ true
unfolding agree_after first_diff size text_drop
agree_after-added c String.[] = refl
agree_after-added c (String.◌∷◌ d s) = elim (code_cases c d) [
  | inl same ↦ agree_after-same c d s (String.◌∷◌ d s) (ap code same) ∙ agree_after-added d s
  | inr other ↦
      agree_after-other c d s (String.◌∷◌ d s) other ∙ ground (arith, eq_refl (String.◌∷◌ d s))
]

OneEdit-agree_after : {s l : String} → OneEdit s l → size s ≤ size l → agree_after s l ≡ true
unfolding size
OneEdit-agree_after (changed c d s h) k =
    agree_after-other d c s s (λ x. h (sym x)) ∙ ground (arith, eq_refl s)
OneEdit-agree_after (added c s) k = agree_after-added c s
OneEdit-agree_after (removed c s) k = absurd (omega arith)
OneEdit-agree_after (further c s t e) k =
    agree_after-same c c s t refl ∙ OneEdit-agree_after e (omega arith)

within_one-OneEdit : (s l : String) → size s ≤ size l → (within_one s l ≡ true) ↔ OneEdit s l
unfolding within_one
within_one-OneEdit s l h = (
  λ e. agree_after-OneEdit s l h (ground arith) (ground arith),
  λ e. (let short = (OneEdit-size e).1 in let agree = OneEdit-agree_after e h in ground arith),
)

-- Two addresses are found to be one edit apart exactly when one character of one changed, added or
-- removed gives the other; of equal addresses it is not found.
pub is_one_edit_apart_iff : (a b : String) → (is_one_edit_apart a b ≡ true) ↔ OneEdit a b
unfolding is_one_edit_apart
is_one_edit_apart_iff a b = elim (Bool-cases (leb (size a) (size b))) [
  | inl few ↦
      (let scan = within_one-OneEdit a b (ground arith) in
        (
          λ e. scan.0 (ground arith),
          λ e.
              (let found = scan.1 e in
                let apart : (a == b) ≡ false = unequal a b (OneEdit-apart e) in ground arith),
        ))
  | inr many ↦
      (let scan = within_one-OneEdit b a (ground arith) in
        (
          λ e. flip (scan.0 (ground arith)),
          λ e.
              (let found = scan.1 (flip e) in
                let apart : (a == b) ≡ false = unequal a b (OneEdit-apart e) in ground arith),
        ))
]
  where
    unequal : (x y : String) → x ≢ y → (x == y) ≡ false
    unequal x y h = elim (Bool-cases (x == y)) [
      | inl same ↦ absurd (h ((eq_iff x y).0 same))
      | inr other ↦ other
    ]
