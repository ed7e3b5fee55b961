-- ===== src/Db/Scan.antt =====
-- The conversions between columns and fields: boolToInt and intToBool of internal/db/sqlite.go,
-- and what scanAPIKey, scanRequest and their twins for sql.Rows do after Scan. A row of a table is
-- given as the struct that was written; the columns that Scan fills in are computed from it.
use go_key_pool_system.Prelude.{
  ◌≡◌, refl, ℕ, String, Bool, true, false, not, Option, none, some, if◌then◌else◌,
}
use go_key_pool_system.Prelude.Int.{ℤ, pos, eqb_ℤ}
use go_key_pool_system.Db.Adapter.{ApiKey, Request}

unfoldable pub bool_to_int : Bool → ℤ
bool_to_int b = if b then pos 1 else pos 0

unfoldable pub int_to_bool : ℤ → Bool
int_to_bool i = not (eqb_ℤ i (pos 0))

-- sql.NullString, NullInt64 and NullTime.
pub record Nullable (A : Type 0) : Type 0 where
  pub value : A
  pub valid : Bool

-- What Scan makes of a column: one that is NULL has the zero value.
abbrev pub column_of : {A : Type 0} → A → Option A → Nullable A
column_of zero_value none = record { value = zero_value; valid = false }
column_of zero_value (some a) = record { value = a; valid = true }

-- The pointer that stays nil unless the value is valid.
abbrev pub pointer_to : {A : Type 0} → Nullable A → Option A
pointer_to v = if v.valid then some v.value else none

pointer_to-column_of : {A : Type 0} (z : A) (o : Option A) → pointer_to (column_of z o) ≡ o
pointer_to-column_of z none = refl
pointer_to-column_of z (some a) = refl

unfoldable pub scan_api_key : ApiKey → ApiKey
scan_api_key row = record row {
  is_healthy = int_to_bool (bool_to_int row.is_healthy);
  last_used_at = pointer_to (column_of 0 row.last_used_at);
}

unfoldable pub apply_nullable_fields :
    Request
    → Nullable String
    → Nullable String
    → Nullable String
    → Nullable String
    → Nullable String
    → Nullable String
    → Nullable ℤ
    → Nullable ℕ
    → Request
apply_nullable_fields req idempotency assigned error response heads body code completed =
    record req {
      idempotency_key = if idempotency.valid then some idempotency.value else req.idempotency_key;
      assigned_key_id = if assigned.valid then some assigned.value else req.assigned_key_id;
      last_error = if error.valid then some error.value else req.last_error;
      response_body = if response.valid then some response.value else req.response_body;
      headers = if heads.valid then some heads.value else req.headers;
      payload = if body.valid then some body.value else req.payload;
      response_status = if code.valid then some code.value else req.response_status;
      completed_at = if completed.valid then some completed.value else req.completed_at;
    }

-- &Request{} with the columns that are not NULL, and the others by way of their variables.
unfoldable pub scan_request : Request → Request
scan_request row =
    apply_nullable_fields
      (record row {
        idempotency_key = none;
        assigned_key_id = none;
        last_error = none;
        response_body = none;
        headers = none;
        payload = none;
        response_status = none;
        completed_at = none;
      })
      (column_of "" row.idempotency_key) (column_of "" row.assigned_key_id)
      (column_of "" row.last_error) (column_of "" row.response_body) (column_of "" row.headers)
      (column_of "" row.payload) (column_of (pos 0) row.response_status)
      (column_of 0 row.completed_at)

int_to_bool-bool_to_int : (b : Bool) → int_to_bool (bool_to_int b) ≡ b
unfolding bool_to_int int_to_bool
int_to_bool-bool_to_int true = refl
int_to_bool-bool_to_int false = refl

-- What was written is read back.
pub scan_api_key_same : (row : ApiKey) → scan_api_key row ≡ row
unfolding scan_api_key
scan_api_key_same row = λ i. record row {
  is_healthy = int_to_bool-bool_to_int row.is_healthy i;
  last_used_at = pointer_to-column_of 0 row.last_used_at i;
}

pub scan_request_same : (row : Request) → scan_request row ≡ row
unfolding scan_request apply_nullable_fields
scan_request_same row = λ i. record row {
  idempotency_key = pointer_to-column_of "" row.idempotency_key i;
  assigned_key_id = pointer_to-column_of "" row.assigned_key_id i;
  last_error = pointer_to-column_of "" row.last_error i;
  response_body = pointer_to-column_of "" row.response_body i;
  headers = pointer_to-column_of "" row.headers i;
  payload = pointer_to-column_of "" row.payload i;
  response_status = pointer_to-column_of (pos 0) row.response_status i;
  completed_at = pointer_to-column_of 0 row.completed_at i;
}
