-- ===== src/Api/Router/Guarded.antt =====
-- What a request without the admin token can change, through the routes of internal/api/router.go and
-- the check of internal/api/middleware.go.
use go_key_pool_system.Prelude.{
  ◌≡◌, ◌∙◌, refl, ap, subst, String, true, Option, none, some, ◌⊎◌, inl, inr, arith, str_eq, eq_iff,
  Bool-cases, Option-cases,
}
use go_key_pool_system.Prelude.Texts.{split_two}
use go_key_pool_system.Api.Http.{HttpIn, write_error, code}
use go_key_pool_system.Api.Server.{Server, Library, Call}
use go_key_pool_system.Api.Submit.{health_check, submit_request, get_request_status}
use go_key_pool_system.Api.Submit.Answers.{
  refused, failed, replayed, stored, submit_request-Answered,
}
use go_key_pool_system.Api.Router.{Handler, admin_auth, admin_route, public_route, router}
use text.Mathlib.Text.{starts_with}

-- The header is a scheme that folds to "bearer", a blank, and the token.
abbrev pub IsAuthorized : Library → String → HttpIn → Type 0
IsAuthorized lib token r =
    (scheme : String) × (split_two r.authorization " " ≡ some (scheme, token))
    × (lib.equal_fold scheme "bearer" ≡ true)

-- What only the admin routes write is as it was.
pub record SameAdmin (before after : Server) : Type 0 where
  pub api_keys : after.db.api_keys ≡ before.db.api_keys
  pub key_events : after.db.key_events ≡ before.db.key_events
  pub system_config : after.db.system_config ≡ before.db.system_config
  pub pool : after.pool ≡ before.pool

-- A request that is not authorized is answered 401, and changes nothing.
admin_auth-refuses :
    (lib : Library) (token : String) (next : Handler) (r : HttpIn) (s : Server)
    → (IsAuthorized lib token r → ⊥)
    → ((admin_auth lib token next r s).1 ≡ s) × (code (admin_auth lib token next r s).0 ≡ 401)
unfolding admin_auth
admin_auth-refuses lib token next r s stranger = elim (Bool-cases (str_eq r.authorization "")) [
  | inl e ↦ rw e (refl, refl)
  | inr e ↦ elim (Option-cases (split_two r.authorization " ")) [
    | inl h ↦ rw (e, h) (refl, refl)
    | inr (parts, h) ↦ elim (Bool-cases (lib.equal_fold parts.0 "bearer")) [
      | inr f ↦ rw (e, h, f) (refl, refl)
      | inl f ↦ elim (Bool-cases (str_eq parts.1 token)) [
        | inr g ↦ rw (e, h, f, g) (refl, refl)
        | inl g ↦
            absurd
              (stranger (parts.0, h ∙ ap (λ t. some (parts.0, t)) ((eq_iff parts.1 token).0 g), f))
      ]
    ]
  ]
]

same-SameAdmin : (s after : Server) → after ≡ s → SameAdmin s after
same-SameAdmin s after e =
    rw e (record { api_keys = refl; key_events = refl; system_config = refl; pool = refl })

submit_request-SameAdmin :
    (lib : Library) (call : Call) (r : HttpIn) (s : Server)
    → SameAdmin s (submit_request lib call r s).1
submit_request-SameAdmin lib call r s = elim (submit_request-Answered lib call r s) [
  | refused status message reason e ↦ same-SameAdmin s _ (ap (λ p. p.1) e)
  | failed message body decoded fits why e ↦ same-SameAdmin s _ (ap (λ p. p.1) e)
  | replayed body existing decoded found match e ↦ same-SameAdmin s _ (ap (λ p. p.1) e)
  | stored body decoded fits kept ↦
      rw kept.kept
        (record { api_keys = refl; key_events = refl; system_config = refl; pool = refl })
]

get_request_status-same :
    (call : Call) (r : HttpIn) (s : Server) → (get_request_status call r s).1 ≡ s
unfolding get_request_status
get_request_status-same call r s = ground arith

-- The handler of a route, if there is one, keeps what the admin routes write.
abbrev Keeping : HttpIn → Server → Option Handler → Type 0
Keeping r s none = Unit
Keeping r s (some handler) = SameAdmin s (handler r s).1

public_route-Keeping :
    (lib : Library) (call : Call) (r : HttpIn) (s : Server)
    → Keeping r s (public_route lib call r.path)
unfolding public_route health_check
public_route-Keeping lib call r s = elim (Bool-cases (str_eq r.path "/health")) [
  | inl e ↦ rw e (same-SameAdmin s s refl)
  | inr e ↦ elim (Bool-cases (starts_with r.path "/api/requests/")) [
    | inl h ↦ rw (e, h) (same-SameAdmin s _ (get_request_status-same call r s))
    | inr h ↦ elim (Bool-cases (str_eq r.path "/api/requests")) [
      | inl f ↦ rw (e, h, f) (submit_request-SameAdmin lib call r s)
      | inr f ↦ rw (e, h, f) tt
    ]
  ]
]

-- A request that does not bear the admin token changes neither the keys, nor their events, nor the
-- settings, nor the pool, whatever its path; and where no public route takes its path, it changes
-- nothing at all and is answered 401 or 404.
pub router-guards :
    (lib : Library) (token : String) (call : Call) (r : HttpIn) (s : Server)
    → (IsAuthorized lib token r → ⊥)
    → SameAdmin s (router lib token call r s).1
      × (((handler : Handler) × (public_route lib call r.path ≡ some handler))
          ⊎ (((router lib token call r s).1 ≡ s)
              × ((code (router lib token call r s).0 ≡ 401)
                  ⊎ (code (router lib token call r s).0 ≡ 404))))
unfolding router
router-guards lib token call r s stranger = elim (Option-cases (public_route lib call r.path)) [
  | inr (handler, e) ↦
      (rw (router, e) (subst (Keeping r s) e (public_route-Keeping lib call r s)), inl (handler, e))
  | inl e ↦ elim (Option-cases (admin_route lib call r.path)) [
    | inl h ↦
        let done : router lib token call r s ≡ (write_error 404 "404 page not found", s) =
          rw (router, e, h) refl in
        (
          same-SameAdmin s _ (ap (λ p. p.1) done),
          inr (ap (λ p. p.1) done, inr (ap (λ p. code p.0) done)),
        )
    | inr (handler, h) ↦
        let refused = admin_auth-refuses lib token handler r s stranger in
        let done : router lib token call r s ≡ admin_auth lib token handler r s =
          rw (router, e, h) refl in
        let same : (router lib token call r s).1 ≡ s = ap (λ p. p.1) done ∙ refused.0 in
        (same-SameAdmin s _ same, inr (same, inl (ap (λ p. code p.0) done ∙ refused.1)))
  ]
]
