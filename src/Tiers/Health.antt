-- ===== src/Tiers/Health.antt =====
-- The scope check against the scopes that are handed out.
use wizteros.Common.{
  or_else, contains, contains-keep, contains-sorted, ℕ, String, ◌≡◌, refl, sym, ◌∙◌, ◌≢◌, Bool,
  false, not, ◌&&◌, Option, none, some, List, [], ◌∷◌, map,
}
use wizteros.Tiers.Rules.{
  Tier, WizarrLibrary, library_title, tier_rule, tier_wants, shareable_libraries,
}
use wizteros.Tiers.Scope.{
  missing_titles, resolve_tier_access, ScopeProblem, no_libraries, missing_entries, judge,
  tier_scope_problem,
}

-- A title of the tier's allowlist that no library of the tier's scope carries.
abbrev pub is_uncarried : Tier → List WizarrLibrary → (title : String) → Bool
is_uncarried tier libraries title =
    contains (or_else (tier_rule tier).titles []) title
    && not (contains (map library_title (shareable_libraries tier_wants tier libraries)) title)

-- What is to be said of a tier whose invites get the ids: that there are none, or nothing when no title
-- is uncarried, or else just the titles that are.
pub data Judged (ids : List ℕ) (uncarried : String → Bool) : Option ScopeProblem → Type 0 where
  shares_nothing :
      (servers : List String) → ids ≡ [] → Judged ids uncarried (some (no_libraries servers))
  complete : ids ≢ [] → ((title : String) → uncarried title ≡ false) → Judged ids uncarried none
  lacking :
      (titles : List String)
      → ids ≢ []
      → titles ≢ []
      → ((title : String) → contains titles title ≡ uncarried title)
      → Judged ids uncarried (some (missing_entries titles))

judge-Judged :
    (servers : List String) (shareable : List WizarrLibrary) (missing : List String)
    (uncarried : String → Bool)
    → ((title : String) → contains missing title ≡ uncarried title)
    → Judged (map (λ l. l.id) shareable) uncarried (judge servers shareable missing)
unfolding judge
judge-Judged servers [] missing uncarried h = shares_nothing servers refl
judge-Judged servers (l ∷ ls) [] uncarried h = complete (λ e. cc) (λ title. sym (h title))
judge-Judged servers (l ∷ ls) (m ∷ ms) uncarried h = lacking (m ∷ ms) (λ e. cc) (λ e. cc) h

-- The check says of a tier that it has no libraries when the scope that an invite would get is empty.
-- Otherwise it names exactly the titles of the allowlist that no library of the scope carries, and says
-- nothing when there is no such title.
pub tier_scope_problem-Judged :
    (libraries : List WizarrLibrary) (tier : Tier)
    → Judged
        (resolve_tier_access tier libraries).library_ids
        (is_uncarried tier libraries)
        (tier_scope_problem libraries tier)
unfolding tier_scope_problem resolve_tier_access missing_titles
tier_scope_problem-Judged libraries tier =
    judge-Judged _ _ _ (is_uncarried tier libraries)
      (λ title. contains-sorted _ title ∙ contains-keep _ _ title)
