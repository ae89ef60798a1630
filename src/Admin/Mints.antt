-- ===== src/Admin/Mints.antt =====
-- A reissue whose invite cannot be created.
use wizteros.Common.{
  if◌then◌else◌, Option-cases, String, ◌≡◌, refl, inl, inr, Bool, true, false, Option, none, List,
  arith,
}
use wizteros.Tiers.{Tier, parse_tier, WizarrLibrary, TierScope}
use wizteros.Store.{SessionInvite, Store}
use wizteros.Identity.{WizarrUser}
use wizteros.Bridge.{
  InviteRequest, Call, creates_invite, Trace, Bridge, World, Error, http, Result, ok, err, M, raise,
  gets, answered, perform, continue, ◌>>=◌, list_libraries, create_invite, live_sections_or_none,
}
use wizteros.Bridge.Frame.{
  Within, Within-refl, Within-trans, Stays, Stays-raise, Stays-gets, Stays-perform, Stays-bind,
  frame_rules,
}
use wizteros.Members.Frame.{is_read, identity_snapshot-Stays}
use wizteros.Invites.{tier_scope, Issue, issuance_of, live_scope, mint, code_for, issue_invite}
use wizteros.Admin.{reissue, reissue_scope, replace_access, reissue_unless_banned, reissue_invite}

abbrev IsErr : {A : Type 0} → Result A → Type 0
IsErr (ok a) = ⊥
IsErr (err e) = Unit

-- Code that always throws, within bounds on what it does before.
pub record Refuses {V A : Type 0} (may : Call → Bool) (view : Store → V) (m : M A) : Type 0 where
  pub stays : Stays may view m
  pub throws : (w : World) → IsErr (m w).0

module _ {V A : Type 0} {may : Call → Bool} {view : Store → V} where
  Refuses-raise : (e : Error) → Refuses may view (raise {A = A} e)
  unfolding raise
  Refuses-raise e = record { stays = Stays-raise e; throws = λ w. tt }

  Refuses-perform :
      (call : Call) (answer : Trace → Option A)
      → may call ≡ true
      → ((t : Trace) → answer t ≡ none)
      → Refuses may view (perform call answer)
  unfolding perform answered
  Refuses-perform call answer h e = record {
    stays = Stays-perform call answer h;
    throws = λ w. rw (e w.calls) tt;
  }

module _ {V A B : Type 0} {may : Call → Bool} {view : Store → V} where
  first_threw :
      (r : Result A) (f : A → M B) (w : World)
      → IsErr r
      → Within may view w (continue r f w).1 × IsErr (continue r f w).0
  unfolding continue
  first_threw (ok a) f w h = absurd h
  first_threw (err e) f w h = (Within-refl w, tt)

  -- What follows a throw is not run.
  Refuses-first : (m : M A) (f : A → M B) → Refuses may view m → Refuses may view (m >>= f)
  unfolding ◌>>=◌
  Refuses-first m f h = record {
    stays = record {
      at = λ w. let (r, v) = m w in Within-trans (h.stays.at w) (first_threw r f v (h.throws w)).0;
    };
    throws = λ w. let (r, v) = m w in (first_threw r f v (h.throws w)).1;
  }

  then_threw :
      (r : Result A) (f : A → M B) (w : World)
      → ((a : A) → Refuses may view (f a))
      → IsErr (continue r f w).0
  unfolding continue
  then_threw (ok a) f w h = (h a).throws w
  then_threw (err e) f w h = tt

  Refuses-bind :
      (m : M A) (f : A → M B)
      → Stays may view m
      → ((a : A) → Refuses may view (f a))
      → Refuses may view (m >>= f)
  unfolding ◌>>=◌
  Refuses-bind m f h k = record {
    stays = Stays-bind m f h (λ a. (k a).stays);
    throws = λ w. let (r, v) = m w in then_threw r f v k;
  }

Refuses-if :
    {V A : Type 0} {may : Call → Bool} {view : Store → V} (c : Bool) (m n : M A)
    → Refuses may view m
    → Refuses may view n
    → Refuses may view (if c then m else n)
Refuses-if true m n h k = h
Refuses-if false m n h k = k

-- Reads, and the asking for an invite.
unfoldable pub may_ask : Call → Bool
unfolding is_read
may_ask (creates_invite request) = true
may_ask call = is_read call

abbrev pub whole : Store → Store
whole s = s

reads_ask : (c : Call) → is_read c ≡ true → may_ask c ≡ true
unfolding may_ask
reads_ask c h = ground arith

module _ (b : Bridge)
    (fails : (request : InviteRequest) (t : Trace) → b.created_code request t ≡ none) where
  create_invite-Refuses :
      (request : InviteRequest) → Refuses may_ask whole (create_invite b request)
  unfolding create_invite may_ask
  create_invite-Refuses request =
      Refuses-perform (creates_invite request) (b.created_code request) refl (fails request)

  first_code-Refuses :
      {A : Type 0} (issue : Issue) (f : Option SessionInvite → String → M A)
      → issue.operation ≡ none
      → Refuses may_ask whole
          (gets (issuance_of issue.operation) >>= λ issued. code_for b issue issued >>= f issued)
  unfolding issuance_of code_for mint gets ◌>>=◌ continue
  first_code-Refuses issue f e =
      rw e (Refuses-first (code_for b issue none) (f none) (create_invite-Refuses _))

  unrecorded-Refuses :
      (issue : Issue) → issue.operation ≡ none → Refuses may_ask whole (issue_invite b issue)
  unfolding issue_invite
  unrecorded-Refuses issue e = search first_code-Refuses

  issue_invite-Refuses :
      (email : String) (tier : Tier) (scope : TierScope) (override : Option Bool)
      → Refuses may_ask whole (issue_invite b (reissue email tier scope override))
  unfolding reissue
  issue_invite-Refuses email tier scope override =
      unrecorded-Refuses (reissue email tier scope override) refl

  tier_scope-Stays :
      (tier : Tier) (libraries : List WizarrLibrary)
      → Stays may_ask whole (tier_scope tier libraries)
  unfolding tier_scope
  tier_scope-Stays tier libraries = search frame_rules

  reissue_scope-Stays : (tier : Tier) → Stays may_ask whole (reissue_scope b tier)
  unfolding reissue_scope live_scope list_libraries live_sections_or_none is_read
  reissue_scope-Stays tier = search (frame_rules, reads_ask, tier_scope-Stays)

  replace_access-Refuses :
      (email : String) (tier : Tier) (records : List WizarrUser) (scope : TierScope)
      → Refuses may_ask whole (replace_access b email tier records scope)
  unfolding replace_access
  replace_access-Refuses email tier records scope =
      search (Stays-gets, Refuses-bind, Refuses-first, issue_invite-Refuses)

  reissue_unless_banned-Refuses :
      (email : String) (tier : Tier) → Refuses may_ask whole (reissue_unless_banned b email tier)
  unfolding reissue_unless_banned
  reissue_unless_banned-Refuses email tier = search (
    Stays-gets,
    identity_snapshot-Stays {may = may_ask} b reads_ask,
    reissue_scope-Stays,
    Refuses-bind,
    Refuses-if,
    Refuses-raise,
    replace_access-Refuses,
  )

-- While Wizarr creates no invite, a reissue throws, and nothing was lost by it: it made read calls
-- and asked for invites alone, so nobody was disabled or mailed, and the store is as it was.
pub reissue_invite-Refuses :
    (b : Bridge) (email tier : String)
    → ((request : InviteRequest) (t : Trace) → b.created_code request t ≡ none)
    → Refuses may_ask whole (reissue_invite b email tier)
unfolding reissue_invite
reissue_invite-Refuses b email tier fails = elim (Option-cases (parse_tier tier)) [
  | inl unknown ↦ rw unknown (Refuses-raise (http 400))
  | inr (t, known) ↦
      rw known (
        Refuses-if _ _ _ (Refuses-raise (http 500)) (reissue_unless_banned-Refuses b fails email t))
]
