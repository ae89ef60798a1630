-- ===== src/Store/Bindings.antt =====
-- The durable records: an operation's invite, once bound, and an event, once processed.
use wizteros.Common.{
  if◌then◌else◌, first_some, is_some, Bool-cases, Option-cases, any, find, contains_of_eq,
  contains-append, String, ◌≡◌, refl, inl, inr, true, false, not, ◌||◌, none, some, List, [], ◌∷◌,
  ◌++◌, arith, ◌==◌, eq_iff,
}
use wizteros.Store.Tables.{SessionInvite, Store}
use wizteros.Store.Records.{
  is_event_processed, mark_event_processed, InviteOperation, operation_key, get_invite_issuance,
  record_invite_issuance, mark_emailed, mark_invite_emailed,
}

find-concat :
    (key : String) (rows : List SessionInvite) (r : SessionInvite)
    → find (λ q. q.session_id == key) (rows ++ r ∷ [])
      ≡ first_some
          (find (λ q. q.session_id == key) rows)
          (if r.session_id == key then some r else none)
find-concat key [] r = refl
find-concat key (q ∷ rows) r = ground (arith, find-concat key rows r)

find_of_any :
    (key : String) (rows : List SessionInvite)
    → any (λ q. q.session_id == key) rows ≡ is_some (find (λ q. q.session_id == key) rows)
find_of_any key [] = refl
find_of_any key (q ∷ rows) = ground (arith, find_of_any key rows)

abbrev pub fresh_binding : String → String → SessionInvite
fresh_binding key code = record { session_id = key; invite_code = code; emailed = false }

-- Where the key is bound, a new binding has nothing to add for any key.
kept_bound :
    (key other : String) (rows : List SessionInvite) (r : SessionInvite)
    → any (λ q. q.session_id == key) rows ≡ true
    → find (λ q. q.session_id == other) rows
      ≡ first_some (find (λ q. q.session_id == other) rows) (if key == other then some r else none)
kept_bound key other rows r bound = elim (Option-cases (find (λ q. q.session_id == other) rows)) [
  | inr (q, e) ↦ rw e refl
  | inl e ↦ elim (Bool-cases (key == other)) [
    | inr differs ↦ rw (e, differs) refl
    | inl same ↦
        let at_other : any (λ q. q.session_id == other) rows ≡ true =
          rw (← (eq_iff key other).0 same) bound in
        absurd (cc (rw (find_of_any other rows, e) at at_other))
  ]
]

-- Binding an invite to an operation: the operation keeps the invite that it had, or else gets the
-- new one, not yet emailed; every operation with another key keeps what it had.
pub get_invite_issuance-record :
    (op other : InviteOperation) (code : String) (s : Store)
    → get_invite_issuance other (record_invite_issuance op code s)
      ≡ first_some (get_invite_issuance other s) (
          if operation_key op == operation_key other
          then some (fresh_binding (operation_key op) code)
          else none)
unfolding get_invite_issuance record_invite_issuance
get_invite_issuance-record op other code s =
    elim (Bool-cases (any (λ r. r.session_id == operation_key op) s.session_invites)) [
      | inl bound ↦
          rw bound (kept_bound (operation_key op) (operation_key other) s.session_invites _ bound)
      | inr unbound ↦ rw unbound (find-concat (operation_key other) s.session_invites _)
    ]

find-mark_emailed :
    (key other : String) (rows : List SessionInvite)
    → find (λ q. q.session_id == other) (mark_emailed key rows)
      ≡ elim (find (λ q. q.session_id == other) rows) [
        | none ↦ none
        | some r ↦ some (if key == other then record r { emailed = true } else r)
      ]
unfolding mark_emailed
find-mark_emailed key other [] = refl
find-mark_emailed key other (r ∷ rows) = ground (
  arith,
  find-mark_emailed key other rows,
  eq_iff r.session_id key,
  eq_iff r.session_id other,
  eq_iff key other,
)

-- Marking the delivery of an operation's invite changes that flag and no binding.
pub get_invite_issuance-mark :
    (op other : InviteOperation) (s : Store)
    → get_invite_issuance other (mark_invite_emailed op s) ≡ elim (get_invite_issuance other s) [
      | none ↦ none
      | some r ↦
          some (if operation_key op == operation_key other then record r { emailed = true } else r)
    ]
unfolding get_invite_issuance mark_invite_emailed
get_invite_issuance-mark op other s =
    find-mark_emailed (operation_key op) (operation_key other) s.session_invites

-- After an event is marked, exactly it and the events marked before are processed; it is reported
-- as new exactly when it was not.
pub mark_event_processed_lem :
    (event_id other : String) (s : Store)
    → (is_event_processed other (mark_event_processed event_id s).0
        ≡ (is_event_processed other s || (event_id == other)))
      × ((mark_event_processed event_id s).1 ≡ not (is_event_processed event_id s))
unfolding is_event_processed mark_event_processed
mark_event_processed_lem event_id other s = ground (
  arith,
  contains-append s.processed (event_id ∷ []) other,
  contains_of_eq s.processed event_id other,
)
