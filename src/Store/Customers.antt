-- ===== src/Store/Customers.antt =====
-- customers.ts: what the bridge knows about each paying address.
use text.Mathlib.Text.{starts_with}
use Prim.Native.String.{◌++◌ as append_text}
use wizteros.Common.{
  if◌then◌else◌, is_some, keep, any, find, last, from_entries, to_lower, trim, text_or_empty, ℕ,
  String, Bool, true, false, not, Option, none, some, List, [], ◌∷◌, ◌++◌, map, ◌==◌,
}
use wizteros.Status.{PaymentState}
use wizteros.Tiers.{Tier, tier_name, canonical_tier}
use wizteros.Store.Tables.{CustomerMap, CustomerRow, Store}

-- `ADMIN_KEY_PREFIX + email.toLowerCase()`
unfoldable pub admin_key : String → String
unfolding to_lower
admin_key email = append_text "admin:" (to_lower email)

-- `lower(email) = lower(?)`, which no row without an email passes
unfoldable pub is_for : String → CustomerMap → Bool
unfolding to_lower
is_for email row = elim row.email [ none ↦ false | some e ↦ to_lower e == to_lower email ]

-- `stripe_customer_id LIKE 'cus\_%'`: SQLite's LIKE does not tell the case of ASCII letters.
unfoldable pub is_real : CustomerMap → Bool
unfolding to_lower
is_real row = starts_with (to_lower row.stripe_customer_id) "cus_"

-- `CUSTOMER_SELECT` with `CUSTOMER_ORDER`, over the rows of one `WHERE`: those with an email, the
-- placeholders before the real customers, and rowid order among each.
unfoldable pub in_order : List CustomerMap → List CustomerMap
unfolding is_real
in_order rows =
    let selected = keep (λ r. is_some r.email) rows in
    keep (λ r. not (is_real r)) selected ++ keep is_real selected

unfoldable pub customer_row_of : CustomerMap → CustomerRow
unfolding canonical_tier to_lower trim
customer_row_of row = record {
  customer_id =
      if starts_with row.stripe_customer_id "cus_" then some row.stripe_customer_id else none;
  invite_code = row.invite_code;
  tier = canonical_tier (elim row.tier [ none ↦ none | some t ↦ some (to_lower (trim t)) ]);
  invited_at = row.invited_at;
  subscribed = row.subscribed;
  payment_state = row.payment_state;
}

-- `UPDATE customer_map SET … WHERE lower(email) = lower(?)`
unfoldable pub update_rows :
    (CustomerMap → CustomerMap) → String → List CustomerMap → List CustomerMap
unfolding is_for
update_rows f email [] = []
update_rows f email (r ∷ rows) = (if is_for email r then f r else r) ∷ update_rows f email rows

-- A new row with nothing but its key and address; `subscribed` defaults to 0.
abbrev pub blank_row : String → String → CustomerMap
blank_row key email = record {
  stripe_customer_id = key;
  email = some email;
  invite_code = none;
  tier = none;
  invited_at = none;
  subscribed = false;
  payment_state = none;
}

-- `setByEmailOrPlaceholder`: `f` writes the columns.
unfoldable pub set_by_email_or_placeholder : (CustomerMap → CustomerMap) → String → Store → Store
unfolding update_rows admin_key
set_by_email_or_placeholder f email s =
    if any (is_for email) s.customers
    then record s { customers = update_rows f email s.customers }
    else record s { customers = s.customers ++ f (blank_row (admin_key email) email) ∷ [] }

-- The upsert by primary key of `upsertPending`: `f` writes the columns on a row that is there, and
-- `row` is inserted at the end when none is.
unfoldable pub upsert_by_key :
    (CustomerMap → CustomerMap) → CustomerMap → List CustomerMap → List CustomerMap
upsert_by_key f row [] = row ∷ []
upsert_by_key f row (r ∷ rows) =
    if r.stripe_customer_id == row.stripe_customer_id
    then f r ∷ rows
    else r ∷ upsert_by_key f row rows

-- The columns that a completed checkout writes.
abbrev pub pending : String → String → Option Tier → ℕ → CustomerMap → CustomerMap
pending email invite_code tier invited_at row = record row {
  email = some email;
  invite_code = some invite_code;
  tier = elim tier [ none ↦ none | some t ↦ some (tier_name t) ];
  invited_at = some invited_at;
  subscribed = true;
}

-- `upsertPending`; `invited_at` is the instant of the call.
unfoldable pub upsert_pending :
    (customer_id email invite_code : String) → Option Tier → (invited_at : ℕ) → Store → Store
unfolding admin_key upsert_by_key
upsert_pending customer_id email invite_code tier invited_at s =
    let others = keep (λ r. not (r.stripe_customer_id == admin_key email)) s.customers in
    let write = pending email invite_code tier invited_at in
    record s { customers = upsert_by_key write (write (blank_row customer_id email)) others }

-- `upsertPendingByEmail`
unfoldable pub upsert_pending_by_email :
    (email invite_code : String) → Option Tier → (invited_at : ℕ) → Store → Store
unfolding set_by_email_or_placeholder
upsert_pending_by_email email invite_code tier invited_at =
    set_by_email_or_placeholder
      (λ r. record r {
        invite_code = some invite_code;
        tier = elim tier [ none ↦ none | some t ↦ some (tier_name t) ];
        invited_at = some invited_at;
      })
      email

unfoldable pub stamp_invited : (email : String) → (invited_at : ℕ) → Store → Store
unfolding set_by_email_or_placeholder
stamp_invited email invited_at =
    set_by_email_or_placeholder (λ r. record r { invited_at = some invited_at }) email

unfoldable pub set_tier : (email : String) → Tier → Store → Store
unfolding set_by_email_or_placeholder
set_tier email tier =
    set_by_email_or_placeholder (λ r. record r { tier = some (tier_name tier) }) email

unfoldable pub set_subscribed : (email : String) → Bool → Store → Store
unfolding update_rows
set_subscribed email value s = record s {
  customers = update_rows (λ r. record r { subscribed = value }) email s.customers;
}

unfoldable pub set_payment_state : (email : String) → Option PaymentState → Store → Store
unfolding update_rows
set_payment_state email state s = record s {
  customers = update_rows (λ r. record r { payment_state = state }) email s.customers;
}

unfoldable pub customer_ids_for_email : String → Store → List String
unfolding is_for
customer_ids_for_email email s =
    keep (λ id. not (starts_with id "admin:"))
      (map (λ r. r.stripe_customer_id) (keep (is_for email) s.customers))

unfoldable pub get_mapping : (customer_id : String) → Store → Option CustomerMap
get_mapping customer_id s = find (λ r. r.stripe_customer_id == customer_id) s.customers

abbrev pub keyed_row : CustomerMap → String × CustomerRow
keyed_row r = (to_lower (text_or_empty r.email), customer_row_of r)

-- Lowercased address -> its row; of several rows, the last in order.
unfoldable pub all_customer_rows : Store → List (String × CustomerRow)
unfolding in_order from_entries customer_row_of to_lower
all_customer_rows s = from_entries (map keyed_row (in_order s.customers))

-- `customerRow`: the last of the rows for the address, in order.
unfoldable pub customer_row : (email : String) → Store → Option CustomerRow
unfolding in_order customer_row_of is_for
customer_row email s = elim (last (in_order (keep (is_for email) s.customers))) [
  | none ↦ none
  | some row ↦ some (customer_row_of row)
]
