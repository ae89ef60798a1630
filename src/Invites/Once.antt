-- ===== src/Invites/Once.antt =====
-- An operation that asks twice for an invite gets one, and its link is mailed once.
use mathlib.Core.Path.{subst}
use wizteros.Common.{
  if◌then◌else◌, Bool-cases, Option-cases, any, find, truthy, ℕ, String, ◌≡◌, refl, sym, ap, ◌∙◌,
  ◌⊎◌, inl, inr, Bool, true, false, Option, none, some, [], ◌∷◌, ◌==◌, eq_refl,
}
use wizteros.Store.{
  CustomerMap, SessionInvite, Store, is_for, set_by_email_or_placeholder, upsert_pending,
  upsert_pending_by_email, set_payment_state, same, InviteOperation, operation_key,
  get_invite_issuance, record_invite_issuance,
}
use wizteros.Bridge.{
  InviteRequest, creates_invite, reads_clock, Bridge, World, call_failed, Result, ok, err, pure,
  gets, answered, perform, modify, continue, ◌>>=◌, create_invite, send_invite, now,
}
use wizteros.Store.Bindings.{fresh_binding, get_invite_issuance-record, get_invite_issuance-mark}
use wizteros.Invites.{
  IssuedInvite, Issue, invite_url, invite_request, write_pending, record_pending, bind_code,
  issuance_of, mark_operation, mint, code_for, issue_invite, deliver_invite,
}

-- The tables but the customer map.
abbrev besides_customers : Store → Store
besides_customers s = record s { customers = [] }

set_by_email_or_placeholder-besides :
    (f : CustomerMap → CustomerMap) (email : String) (s : Store)
    → besides_customers (set_by_email_or_placeholder f email s) ≡ besides_customers s
unfolding set_by_email_or_placeholder
set_by_email_or_placeholder-besides f email s = elim (Bool-cases (any (is_for email) s.customers)) [
  | inl e ↦ rw e refl
  | inr e ↦ rw e refl
]

write_pending-besides :
    (customer_id : Option String) (issue : Issue) (code : String) (at : ℕ) (s : Store)
    → besides_customers (write_pending customer_id issue code at s) ≡ besides_customers s
unfolding write_pending upsert_pending upsert_pending_by_email
write_pending-besides none issue code at s = set_by_email_or_placeholder-besides _ issue.email s
write_pending-besides (some id) issue code at s = refl

either-besides :
    (c : Bool) (t u s : Store)
    → besides_customers t ≡ besides_customers s
    → besides_customers u ≡ besides_customers s
    → besides_customers (if c then t else u) ≡ besides_customers s
either-besides true t u s h k = h
either-besides false t u s h k = k

record_pending-besides :
    (issue : Issue) (code : String) (at : ℕ) (s : Store)
    → besides_customers (record_pending issue code at s) ≡ besides_customers s
unfolding record_pending set_payment_state
record_pending-besides issue code at s =
    let h = write_pending-besides (truthy issue.customer_id) issue code at s in
    either-besides issue.settles_payment _ _ s h h

get_invite_issuance-record_pending :
    (op : InviteOperation) (issue : Issue) (code : String) (at : ℕ) (s : Store)
    → get_invite_issuance op (record_pending issue code at s) ≡ get_invite_issuance op s
unfolding get_invite_issuance
get_invite_issuance-record_pending op issue code at s =
    ap (λ t. find (λ r. r.session_id == operation_key op) t.session_invites)
      (record_pending-besides issue code at s)

module _ (b : Bridge) (issue : Issue) (op : InviteOperation)
    (asks : issue.operation ≡ some op) where
  -- The invite of a row that was recorded for the operation.
  abbrev invite_of : SessionInvite → IssuedInvite
  invite_of row = record {
    code = row.invite_code;
    url = invite_url b.settings row.invite_code;
    scope = issue.scope;
    emailed = row.emailed;
    operation = some op;
  }

  -- What a recorded operation gets: the recorded invite, with no call but one of the clock.
  issue_invite-recorded :
      (row : SessionInvite) (w : World)
      → get_invite_issuance op w.store ≡ some row
      → issue_invite b issue w ≡ (
        ok (invite_of row),
        record {
          store = record_pending issue row.invite_code (b.clock w.calls) w.store;
          calls = reads_clock ∷ w.calls;
        },
      )
  unfolding issue_invite ◌>>=◌ continue gets issuance_of code_for pure modify bind_code now perform
      answered
  issue_invite-recorded row w e = rw (asks, e) refl

  abbrev request : InviteRequest
  request =
      invite_request issue.scope issue.allow_downloads b.settings.invite_days b.settings.access_days
        false

  issue_invite-new :
      (code : String) (w : World)
      → get_invite_issuance op w.store ≡ none
      → b.created_code request w.calls ≡ some code
      → issue_invite b issue w ≡ (
        ok (invite_of (fresh_binding (operation_key op) code)),
        record {
          store =
              record_pending issue code
                (b.clock (creates_invite request ∷ w.calls))
                (record_invite_issuance op code w.store);
          calls = reads_clock ∷ creates_invite request ∷ w.calls;
        },
      )
  unfolding issue_invite ◌>>=◌ continue gets issuance_of code_for pure modify bind_code now perform
      answered mint create_invite
  issue_invite-new code w e c = rw (asks, e, c) refl

  issue_invite-refused :
      (w : World)
      → get_invite_issuance op w.store ≡ none
      → b.created_code request w.calls ≡ none
      → (issue_invite b issue w).0 ≡ err call_failed
  unfolding issue_invite ◌>>=◌ continue gets issuance_of code_for pure modify bind_code now perform
      answered mint create_invite
  issue_invite-refused w e c = rw (asks, e, c) refl

  recorded_after :
      (code : String) (at : ℕ) (row : SessionInvite) (s : Store)
      → get_invite_issuance op s ≡ some row
      → get_invite_issuance op (record_pending issue code at s) ≡ some row
  recorded_after code at row s e = get_invite_issuance-record_pending op issue code at s ∙ e

  bound_after :
      (code : String) (at : ℕ) (s : Store)
      → get_invite_issuance op s ≡ none
      → get_invite_issuance op (record_pending issue code at (record_invite_issuance op code s))
        ≡ some (fresh_binding (operation_key op) code)
  bound_after code at s e =
      recorded_after code at (fresh_binding (operation_key op) code)
        (record_invite_issuance op code s)
        (get_invite_issuance-record op op code s ∙ rw (e, eq_refl (operation_key op)) refl)

  -- What an issuing that returned leaves behind: the row that its invite was read from.
  Recorded : Result IssuedInvite → World → Type 0
  Recorded r w =
      (row : SessionInvite) × (r ≡ ok (invite_of row)) × (get_invite_issuance op w.store ≡ some row)

  issue_invite-Recorded :
      (w : World)
      → ((issue_invite b issue w).0 ≡ err call_failed)
        ⊎ Recorded (issue_invite b issue w).0 (issue_invite b issue w).1
  unfolding Recorded
  issue_invite-Recorded w = elim (Option-cases (get_invite_issuance op w.store)) [
    | inr (row, e) ↦
        rw (issue_invite-recorded row w e)
          (inr (row, refl, recorded_after row.invite_code _ row w.store e))
    | inl e ↦ elim (Option-cases (b.created_code request w.calls)) [
      | inl c ↦ inl (issue_invite-refused w e c)
      | inr (code, c) ↦
          rw (issue_invite-new code w e c)
            (inr (fresh_binding (operation_key op) code, refl, bound_after code _ w.store e))
    ]
  ]

module _ (b : Bridge) (issue : Issue) (op : InviteOperation)
    (asks : issue.operation ≡ some op) where
  abbrev row_of : (key code : String) → Bool → SessionInvite
  row_of key code emailed = record { session_id = key; invite_code = code; emailed = emailed }

  abbrev delivery : String → SessionInvite → World → Result Bool × World
  delivery email row v = deliver_invite b email (invite_of b issue op asks row) v

  -- After a delivery that returned, the row of the operation is marked.
  get_invite_issuance-deliver :
      (email key code : String) (emailed sent : Bool) (v : World)
      → get_invite_issuance op v.store ≡ some (row_of key code emailed)
      → (delivery email (row_of key code emailed) v).0 ≡ ok sent
      → get_invite_issuance op (delivery email (row_of key code emailed) v).1.store
        ≡ some (row_of key code true)
  unfolding deliver_invite pure send_invite perform answered ◌>>=◌ continue modify mark_operation
  get_invite_issuance-deliver email key code true sent v g d = g
  get_invite_issuance-deliver email key code false sent v g d =
      elim (Option-cases (b.invite_mailed v.calls)) [
        | inl e ↦ absurd (cc (rw e at d))
        | inr (a, e) ↦
            rw e (get_invite_issuance-mark op op v.store ∙ rw (g, eq_refl (operation_key op)) refl)
      ]

ok_injective : {A : Type 0} (a a' : A) → ok a ≡ ok a' → a ≡ a'
ok_injective {A} a a' e = ap value e
  where
    value : Result A → A
    value (ok x) = x
    value (err x) = a

-- Right after an invite was issued for an operation, issuing again for it answers with the same
-- invite and makes no call but one of the clock.
pub issue_invite-twice :
    (b : Bridge) (issue : Issue) (op : InviteOperation) (invite : IssuedInvite) (w : World)
    → issue.operation ≡ some op
    → (issue_invite b issue w).0 ≡ ok invite
    → ((issue_invite b issue (issue_invite b issue w).1).0 ≡ ok invite)
      × ((issue_invite b issue (issue_invite b issue w).1).1.calls
          ≡ reads_clock ∷ (issue_invite b issue w).1.calls)
unfolding Recorded
issue_invite-twice b issue op invite w asks h = elim (issue_invite-Recorded b issue op asks w) [
  | inl e ↦ absurd (cc)
  | inr (row, e, g) ↦
      rw (issue_invite-recorded b issue op asks row (issue_invite b issue w).1 g) (sym e ∙ h, refl)
]

-- After the link of an operation's invite was sent, or had been sent before, the operation gets the
-- same invite, marked as emailed, and delivering it again makes no call.
pub deliver_invite-once :
    (b : Bridge) (issue : Issue) (op : InviteOperation) (email : String) (invite : IssuedInvite)
    (sent : Bool) (w v : World)
    → issue.operation ≡ some op
    → issue_invite b issue w ≡ (ok invite, v)
    → (deliver_invite b email invite v).0 ≡ ok sent
    → ((issue_invite b issue (deliver_invite b email invite v).1).0
        ≡ ok (record invite { emailed = true }))
      × ((u : World) → deliver_invite b email (record invite { emailed = true }) u ≡ (ok false, u))
unfolding Recorded deliver_invite pure
deliver_invite-once b issue op email invite sent w v asks h d =
    elim (issue_invite-Recorded b issue op asks w) [
      | inl e ↦ absurd (cc)
      | inr (row, e, g) ↦
          from_row row (ok_injective _ _ (sym e ∙ ap (λ p. p.0) h))
            (subst (λ p. get_invite_issuance op p.1.store ≡ some row) h g)
    ]
  where
    from_row :
        (row : SessionInvite)
        → invite_of b issue op asks row ≡ invite
        → get_invite_issuance op v.store ≡ some row
        → ((issue_invite b issue (deliver_invite b email invite v).1).0
            ≡ ok (record invite { emailed = true }))
          × ((u : World)
              → deliver_invite b email (record invite { emailed = true }) u ≡ (ok false, u))
    from_row row same g =
        let marked =
          get_invite_issuance-deliver b issue op asks email row.session_id row.invite_code
            row.emailed sent v g
            (subst (λ i. (deliver_invite b email i v).0 ≡ ok sent) (sym same) d) in
        (
          subst
              (λ i.
                (issue_invite b issue (deliver_invite b email i v).1).0
                ≡ ok (record i { emailed = true }))
              same (ap (λ p. p.0) (issue_invite-recorded b issue op asks _ _ marked)),
          λ u. refl,
        )
