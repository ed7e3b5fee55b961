-- ===== src/Api/Submit/Checks.antt =====
-- The checks of SubmitRequest before it reads the database.
use go_key_pool_system.Prelude.{
  ℕ, ◌≡◌, ◌≢◌, subst, str_eq_ne, ne_of_str_eq, ◌∙◌, refl, sym, ap, String, true, false, ◌||◌, ◌⊎◌,
  inl, inr, arith, str_eq, Bool-cases, sum-cases,
}
use go_key_pool_system.Db.Adapter.{priority_high, priority_low}
use go_key_pool_system.Prelude.Int.{ltb_ℤ, pos, ◌≤ℤ◌}
use go_key_pool_system.Api.Http.{HttpIn, write_error}
use go_key_pool_system.Api.Server.{Server, Submission, Library, Call}
use go_key_pool_system.Api.Submit.{defaulted, accept, submit_request}
use Prim.Native.String.{◌++◌ as str_append}
use go_key_pool_system.Api.Submit.Storing.{true-false}

-- What a submission must have: a priority of 0 stands for the default.
pub record Fits (body : Submission) : Type 0 where
  pub method : body.method ≢ ""
  pub url : body.url ≢ ""
  pub low : pos 0 ≤ℤ body.priority
  pub high : body.priority ≤ℤ pos 3

abbrev right_or : Submission → String ⊎ Submission → Submission
right_or d (inl error) = d
right_or d (inr body) = body

left-right :
    {d : String ⊎ Submission} {error : String} {body : Submission}
    → d ≡ inl error
    → d ≡ inr body
    → ⊥
left-right e h = ground (arith, e, h)

missing-Fits :
    (body : Submission) → (str_eq body.method "" || str_eq body.url "") ≡ true → Fits body → ⊥
missing-Fits body e fits =
    true-false
      (sym e ∙ rw (str_eq_ne body.method "" fits.method, str_eq_ne body.url "" fits.url) refl)

outside-Fits :
    (body : Submission)
    → (ltb_ℤ (defaulted body).priority priority_high
        || ltb_ℤ priority_low (defaulted body).priority)
      ≡ true
    → Fits body
    → ⊥
unfolding defaulted
outside-Fits body e fits = ground (arith, e, fits.low, fits.high)

checked-Fits :
    (body : Submission)
    → (str_eq body.method "" || str_eq body.url "") ≡ false
    → (ltb_ℤ (defaulted body).priority priority_high
        || ltb_ℤ priority_low (defaulted body).priority)
      ≡ false
    → Fits body
unfolding defaulted
checked-Fits body whole inside = record {
  method = ne_of_str_eq body.method "" (ground (arith, whole));
  url = ne_of_str_eq body.url "" (ground (arith, whole));
  low = ground (arith, inside);
  high = ground (arith, inside);
}

-- The checks come before `accept`.
pub data Checked (lib : Library) (call : Call) (r : HttpIn) (s : Server) : Type 0 where
  turned_down :
      (status : ℕ) (message : String)
      → ((status ≡ 405) × (r.method ≢ "POST"))
        ⊎ ((status ≡ 400)
            × ((body : Submission) → lib.decode_submission r.body ≡ inr body → Fits body → ⊥))
      → submit_request lib call r s ≡ (write_error status message, s)
      → Checked lib call r s
  passed :
      (body : Submission)
      → lib.decode_submission r.body ≡ inr body
      → Fits body
      → submit_request lib call r s ≡ accept lib call (defaulted body) s
      → Checked lib call r s

-- Another body than the one decoded, or none.
pub same_body :
    (lib : Library) (json : String) (body other : Submission)
    → lib.decode_submission json ≡ inr body
    → lib.decode_submission json ≡ inr other
    → body ≡ other
same_body lib json body other e h = ap (right_or body) (sym e ∙ h)

pub submit_request-Checked :
    (lib : Library) (call : Call) (r : HttpIn) (s : Server) → Checked lib call r s
unfolding submit_request defaulted
submit_request-Checked lib call r s = elim (Bool-cases (str_eq r.method "POST")) [
  | inr other ↦
      turned_down 405 "method not allowed" (inl (refl, ne_of_str_eq r.method "POST" other))
        (rw other refl)
  | inl post ↦ elim (sum-cases (lib.decode_submission r.body)) [
    | inl (error, e) ↦
        turned_down 400 (str_append "invalid JSON: " error)
          (inr (refl, λ body decoded fits. left-right e decoded)) (rw (post, e) refl)
    | inr (body, e) ↦ elim (Bool-cases (str_eq body.method "" || str_eq body.url "")) [
      | inl missing ↦
          turned_down 400 "method and url are required"
            (inr (
              refl,
              λ other decoded fits.
                  missing-Fits body missing
                    (subst Fits (same_body lib r.body other body decoded e) fits),
            ))
            (rw (post, e, missing) refl)
      | inr whole ↦
          elim (Bool-cases (
            ltb_ℤ (defaulted body).priority priority_high
            || ltb_ℤ priority_low (defaulted body).priority)) [
              | inl outside ↦
                  turned_down 400 "priority must be 1 (high), 2 (normal), or 3 (low)"
                    (inr (
                      refl,
                      λ other decoded fits.
                          outside-Fits body outside
                            (subst Fits (same_body lib r.body other body decoded e) fits),
                    ))
                    (rw (post, e, whole, outside) refl)
              | inr inside ↦
                  passed body e (checked-Fits body whole inside) (rw (post, e, whole, inside) refl)
            ]
    ]
  ]
]
