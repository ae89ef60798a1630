-- ===== src/Reconcile/Stamps.antt =====
-- What the expiry sweep stamps.
use wizteros.Common.{is_some, Member, truthy, ℕ, ◌<◌, String, ◌≡◌, true, false, none, some, List}
use wizteros.Standing.{MemberTag, is_time_boxed, strongest_across}
use wizteros.Store.{CustomerRow}
use wizteros.Identity.{WizarrUser, IdentitySnapshot}
use wizteros.Bridge.{Call, sets_expiry, Trace, Bridge}
use wizteros.Members.Frame.{is_read}
use wizteros.Reconcile.{Pending, payer_identity}

module _ (b : Bridge) (snapshot : IdentitySnapshot) (tags : List (String × MemberTag))
    (paying : List (String × CustomerRow)) where
  -- A record without an expiry that a payer resolves to, whose tag leaves the time box on.
  pub IsStampable : ℕ → Type 0
  IsStampable id =
      (r : String × CustomerRow) × (u : WizarrUser) × Member r paying
      × Member u (payer_identity snapshot r).records
      × (u.id ≡ id)
      × (is_some (truthy u.expires) ≡ false)
      × (is_time_boxed (strongest_across tags (payer_identity snapshot r).addresses) ≡ true)

  -- A stamp lies after the clock and on a stampable record; any other call is a read.
  pub StampsRightly : Call → Type 0
  StampsRightly (sets_expiry id none) = ⊥
  StampsRightly (sets_expiry id (some expires)) =
      ((t : Trace) × (b.clock t < expires)) × IsStampable id
  StampsRightly call = is_read call ≡ true

  -- What is known of a pending member.
  IsPending : Pending → Type 0
  IsPending p =
      (r : String × CustomerRow) × Member r paying
      × (payer_identity snapshot r ≡ p.identity)
      × (is_time_boxed (strongest_across tags (payer_identity snapshot r).addresses) ≡ true)
