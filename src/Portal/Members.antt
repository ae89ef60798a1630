-- ===== src/Portal/Members.antt =====
-- Each member on their own: the log's rows of other members have no part in what is said of one.
use mathlib.Core.Path.{subst}
use wizteros.Common.{
  if◌then◌else◌, to_list, Bool-cases, keep, keep-append, insert, lookup-insert, to_lower, String,
  ◌≡◌, refl, ap, ◌∙◌, inl, inr, List, [], ◌∷◌, arith, ◌==◌, eq_iff,
}
use wizteros.Portal.Walk.{
  MemberEvent, PayingState, member_event, tier_change, step_grant, step_tier, step_end,
  step_renewal, step_action, step_member, walk,
}
use wizteros.Portal.Series.{state_in, walk_all, is_about}

-- What a step lists is about the row's own member.
about-step :
    (key : String) (state : PayingState) (row : MemberEvent)
    → keep (is_about key) (to_list (step_member state row).1)
      ≡ (if to_lower row.email == key then to_list (step_member state row).1 else [])
unfolding step_member step_action step_grant step_tier step_end step_renewal tier_change
    member_event
about-step key state row = ground arith

-- However the members' rows interleave, where a member stands and which events of theirs are listed is
-- what a walk over their own rows in their order gives.
pub walk_all-walk :
    (key : String) (states : List (String × PayingState)) (rows : List MemberEvent)
    → let own = walk (state_in key states) (keep (λ r. to_lower r.email == key) rows) in
      let whole = walk_all states rows in
      (state_in key whole.0 ≡ own.0) × (keep (is_about key) whole.1 ≡ own.1)
unfolding walk_all walk
walk_all-walk key states [] = (refl, refl)
walk_all-walk key states (row ∷ rows) =
    let at_key = to_lower row.email in
    let next = step_member (state_in at_key states) row in
    let (stands, listed) = walk_all-walk key (insert at_key next.0 states) rows in
    let about = about-step key (state_in at_key states) row in
    let found = lookup-insert at_key key next.0 states in
    let shared =
      keep-append (is_about key) (to_list next.1) (walk_all (insert at_key next.0 states) rows).1 in
    let kept = keep (λ r. to_lower r.email == key) rows in
    let whole = walk_all states (row ∷ rows) in
    elim (Bool-cases (at_key == key)) [
      | inl same ↦
          (let frame : state_in key (insert at_key next.0 states) ≡ next.0 =
              rw (found, same) refl in
            let known : state_in at_key states ≡ state_in key states =
              ap (λ k. state_in k states) ((eq_iff at_key key).0 same) in
            let own : keep (is_about key) (to_list next.1) ≡ to_list next.1 = cc (about, same) in
            rw same (
              subst
                (λ s.
                  (state_in key whole.0 ≡ (walk s (row ∷ kept)).0)
                  × (keep (is_about key) whole.1 ≡ (walk s (row ∷ kept)).1))
                known
                (
                  subst (λ s. state_in key whole.0 ≡ (walk s kept).0) frame stands,
                  shared ∙ rw (own, listed, frame) refl,
                )))
      | inr other ↦
          (let frame : state_in key (insert at_key next.0 states) ≡ state_in key states =
              rw (found, other) refl in
            rw other (
              subst (λ s. state_in key whole.0 ≡ (walk s kept).0) frame stands,
              shared ∙ rw (about, other, listed, frame) refl,
            ))
    ]
