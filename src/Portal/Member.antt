-- ===== src/Portal/Member.antt =====
-- apps/admin-portal/src/lib/adminApi.ts and memberStatus.ts: a member as the portal reads one, and what
-- state the member is in. A date that does not parse counts as none.
use wizteros.Common.{
  ltb, if◌then◌else◌, is_empty, ℕ, ◌-◌, ◌*◌, String, Bool, true, false, not, ◌&&◌, Option, none,
  some, List,
}
use wizteros.Standing.{MemberTag, vip, hvu, banned}
use wizteros.Status.{PaymentState, past_due}
use wizteros.Tiers.{Tier}

-- `Member`, the fields that the calculations read; `tier` is none for 'unknown'.
pub record PortalMember : Type 0 where
  pub email : String
  pub tier : Option Tier
  pub expires : Option ℕ
  pub servers : List String
  pub subscribed : Bool
  pub payment_state : Option PaymentState
  pub invited_at : Option ℕ
  pub tag : Option MemberTag

pub data MemberStatus : Type 0 where
  banned_member uninvited invited declined_invite subscribed_monthly failed_payment vip_member
        expired_member :
      MemberStatus

-- `INVITE_GRACE_DAYS`, in milliseconds
abbrev pub grace : ℕ
grace = 14 * 86_400_000

-- `expiresAt < Date.now()`, of an expiry that there is
unfoldable pub is_expired : (at : ℕ) → PortalMember → Bool
is_expired at member = elim member.expires [ none ↦ false | some expires ↦ ltb expires at ]

abbrev pub is_declined : Option PaymentState → Bool
is_declined none = false
is_declined (some past_due) = true

abbrev pub has_tag : MemberTag → Option MemberTag → Bool
has_tag banned (some banned) = true
has_tag vip (some vip) = true
has_tag hvu (some hvu) = true
has_tag _ _ = false

-- `deriveStatus`
unfoldable pub derive_status : (at : ℕ) → PortalMember → MemberStatus
unfolding is_expired
derive_status at member =
    if has_tag banned member.tag
    then banned_member
    else if has_tag vip member.tag
    then vip_member
    else if is_declined member.payment_state && not (is_expired at member)
    then failed_payment
    else if member.subscribed
    then (if is_expired at member then expired_member else subscribed_monthly)
    else elim member.invited_at [
      | none ↦ uninvited
      | some sent ↦ if ltb grace (at - sent) then declined_invite else invited
    ]

pub record MemberProblems : Type 0 where
  pub payment_failed : Bool
  pub no_access : Bool

-- `ACCESS_EXPECTED.has(status)`
unfoldable pub expects_access : MemberStatus → Bool
expects_access subscribed_monthly = true
expects_access failed_payment = true
expects_access vip_member = true
expects_access _ = false

abbrev is_banned_status : MemberStatus → Bool
is_banned_status banned_member = true
is_banned_status _ = false

-- `deriveProblems`
unfoldable pub derive_problems : (at : ℕ) → PortalMember → MemberProblems
unfolding derive_status expects_access
derive_problems at member =
    let status = derive_status at member in
    record {
      payment_failed = not (is_banned_status status) && is_declined member.payment_state;
      no_access = is_empty member.servers && expects_access status;
    }
