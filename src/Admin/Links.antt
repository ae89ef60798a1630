-- ===== src/Admin/Links.antt =====
-- The links that an admin can make stay stars.
use wizteros.Common.{
  Bool-cases, Option-cases, erase, insert, to_lower, to_lower_idem, trim, truthy, String, ◌≡◌, refl,
  inl, inr, Bool, true, Option, none, some, List, [], ◌∷◌, arith, ◌==◌,
}
use wizteros.Store.{
  Entry, Store, set_keyed, all_keyed, set_member_link, all_member_links, record_event,
}
use wizteros.Bridge.{Call, Bridge, World, raise, gets, modify, continue, ◌>>=◌, ◌>>◌, log_event}
use wizteros.Bridge.Frame.{Stays, frame_rules, Stays-log_event}
use wizteros.Links.{member_link_conflict}
use wizteros.Links.Stars.{IsStar, member_link_conflict_iff, IsStar-erase}
use wizteros.Admin.{normal_address, log_link, put_link, link_address}

all_keyed-insert :
    (k v : String) (table : List (String × String))
    → all_keyed to_lower some (insert k v table) ≡ insert k v (all_keyed to_lower some table)
unfolding all_keyed insert
all_keyed-insert k v [] = refl
all_keyed-insert k v ((j, u) ∷ table) = ground (arith, all_keyed-insert k v table)

all_keyed-erase :
    (k : String) (table : List (String × String))
    → all_keyed to_lower some (erase k table) ≡ erase k (all_keyed to_lower some table)
unfolding all_keyed erase
all_keyed-erase k [] = refl
all_keyed-erase k ((j, u) ∷ table) = ground (arith, all_keyed-erase k table)

-- Setting a link of lowercase addresses is the map's own update.
links-set :
    (payer plex : String) (s : Store)
    → to_lower payer ≡ payer
    → to_lower plex ≡ plex
    → all_member_links (set_member_link payer (some plex) s)
      ≡ insert payer plex (all_member_links s)
unfolding all_member_links set_member_link set_keyed
links-set payer plex s e f = rw (e, f, all_keyed-insert payer plex s.links) refl

links-unset :
    (payer : String) (s : Store)
    → to_lower payer ≡ payer
    → all_member_links (set_member_link payer none s) ≡ erase payer (all_member_links s)
unfolding all_member_links set_member_link set_keyed
links-unset payer s e = rw (e, all_keyed-erase payer s.links) refl

any_call : Call → Bool
any_call c = true

module _ (b : Bridge) where
  logs-Stays :
      (email : String) (entry : Entry) → Stays any_call all_member_links (log_event b email entry)
  unfolding any_call all_member_links record_event
  logs-Stays email entry =
      Stays-log_event any_call all_member_links b email entry refl (λ at s. refl)

  log_link-Stays :
      (payer : String) (plex : Option String)
      → Stays any_call all_member_links (log_link b payer plex)
  unfolding log_link
  log_link-Stays payer none = search (frame_rules, logs-Stays)
  log_link-Stays payer (some plex) = search (frame_rules, logs-Stays)

  -- Setting a link, then recording it.
  linked :
      (payer : String) (plex : Option String) (w : World)
      → all_member_links
          ((modify (set_member_link payer plex) >> log_link b payer (truthy plex)) w).1.store
        ≡ all_member_links (set_member_link payer plex w.store)
  unfolding ◌>>=◌ continue modify
  linked payer plex w =
      ((log_link-Stays payer (truthy plex)).at
        (record w { store = set_member_link payer plex w.store })).kept

  put_link-IsStar :
      (payer : String) (plex : Option String) (w : World)
      → to_lower payer ≡ payer
      → ((p : String) → plex ≡ some p → to_lower p ≡ p)
      → IsStar (all_member_links w.store)
      → IsStar (all_member_links (put_link b payer plex w).1.store)
  unfolding put_link gets raise ◌>>=◌ continue
  put_link-IsStar payer none w e f star =
      rw (linked payer none w, links-unset payer w.store e)
        (IsStar-erase payer (all_member_links w.store) star)
  put_link-IsStar payer (some plex) w e f star =
      elim (Option-cases (member_link_conflict (all_member_links w.store) payer (some plex))) [
        | inr (c, refused) ↦ rw refused star
        | inl passes ↦ rw passes (
            rw (linked payer (some plex) w, links-set payer plex w.store e (f plex refl))
              ((member_link_conflict_iff (all_member_links w.store) payer plex).0.0 passes).1)
      ]

normal_address-lower : (o : Option String) (p : String) → normal_address o ≡ some p → to_lower p ≡ p
unfolding normal_address
normal_address-lower none p e = absurd (cc e)
normal_address-lower (some a) p e =
    let given_by : to_lower (trim a) ≡ p = cc e in rw (← given_by) (to_lower_idem (trim a))

-- Whatever is asked, and whether it is refused or done, the links that stand afterwards form stars
-- if those before did: an account that is paid for pays for no other.
pub link_address-IsStar :
    (b : Bridge) (stripe_email : String) (plex_email : Option String) (w : World)
    → IsStar (all_member_links w.store)
    → IsStar (all_member_links (link_address b stripe_email plex_email w).1.store)
unfolding link_address raise normal_address
link_address-IsStar b stripe_email plex_email w star =
    elim (Bool-cases (to_lower (trim stripe_email) == "")) [
      | inl missing ↦ rw missing star
      | inr asked ↦ rw asked (
          put_link-IsStar b (to_lower (trim stripe_email)) (normal_address (truthy plex_email)) w
            (to_lower_idem (trim stripe_email)) (normal_address-lower (truthy plex_email)) star)
    ]
