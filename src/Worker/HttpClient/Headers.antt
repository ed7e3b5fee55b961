-- ===== src/Worker/HttpClient/Headers.antt =====
-- The headers that internal/httpclient/client.go sends.
use go_key_pool_system.Prelude.{
  ◌≡◌, ◌≢◌, ◌∙◌, refl, sym, ap, subst, String, Bool, true, false, ◌&&◌, Option, none, some, List,
  [], ◌∷◌, ◌⊎◌, inl, inr, if◌then◌else◌, str_eq, str_eq_self, str_eq_ne, ne_of_str_eq, Bool-cases,
}
use go_key_pool_system.Worker.ProcessItem.{HttpRequest}
use go_key_pool_system.Worker.HttpClient.{
  Header, NetHttp, set_header, get_header, apply_headers, custom, has_body, default_content_type,
  build,
}
use Prim.Native.String.{◌++◌ as str_append}

-- The value that the last of the headers with this name gives, or `before` where there is none.
abbrev pub last_value : NetHttp → String → List (String × String) → Option String → Option String
last_value net name [] before = before
last_value net name ((key, value) ∷ rest) before =
    last_value net name rest (if str_eq (net.canonical key) name then some value else before)

module _ (net : NetHttp) where
  apply_headers-last :
      (headers : List (String × String)) (header : Header) (name : String)
      → apply_headers net headers header name ≡ last_value net name headers (header name)
  unfolding apply_headers set_header
  apply_headers-last [] header name = refl
  apply_headers-last ((key, value) ∷ rest) header name = apply_headers-last rest _ name

  unless_other :
      (test : Bool) (key value : String) (header : Header) (name : String)
      → net.canonical key ≢ name
      → (if test then set_header net key value header else header) name ≡ header name
  unfolding set_header
  unless_other true key value header name other = rw (str_eq_ne (net.canonical key) name other) refl
  unless_other false key value header name other = refl

  get_header-set_header :
      (name value : String) (header : Header)
      → get_header net name (set_header net name value header) ≡ value
  unfolding get_header set_header
  get_header-set_header name value header =
      rw (get_header, set_header, str_eq_self (net.canonical name)) refl

  default_content_type-other :
      (body : Bool) (header : Header) (name : String)
      → net.canonical "Content-Type" ≢ name
      → default_content_type net body header name ≡ header name
  unfolding default_content_type
  default_content_type-other body header name other =
      unless_other (body && str_eq (get_header net "Content-Type" header) "") "Content-Type" _
        header name other

  default_content_type-there :
      (header : Header) → get_header net "Content-Type" (default_content_type net true header) ≢ ""
  unfolding default_content_type
  default_content_type-there header =
      elim (Bool-cases (str_eq (get_header net "Content-Type" header) "")) [
        | inl empty ↦
            let set : default_content_type net true header
                ≡ set_header net "Content-Type" "application/json" header =
              rw (default_content_type, empty) refl in
            λ e. ne_of_str_eq "application/json" "" refl (
              sym (get_header-set_header "Content-Type" "application/json" header)
              ∙ ap (get_header net "Content-Type") (sym set)
              ∙ e)
        | inr there ↦
            let kept : default_content_type net true header ≡ header =
              rw (default_content_type, there) refl in
            λ e.
              ne_of_str_eq (get_header net "Content-Type" header) "" there
                (ap (get_header net "Content-Type") (sym kept) ∙ e)
      ]

  -- Do sends the API key as a bearer token unless the request has a header of its own for
  -- "Authorization", in whatever spelling: then it sends the value of the last such one instead. A
  -- request with a body that is not empty is sent with a content type.
  pub build-headers :
      (req : HttpRequest (List (String × String)))
      → net.canonical "Authorization" ≡ "Authorization"
      → net.canonical "Content-Type" ≡ "Content-Type"
      → ((build net req).header "Authorization"
          ≡ last_value net "Authorization"
              (custom net req.headers)
              (some (str_append "Bearer " req.api_key)))
        × ((has_body net req.body ≡ false)
            ⊎ (get_header net "Content-Type" (build net req).header ≢ ""))
  unfolding build set_header
  build-headers req authorization content =
      let first : Header =
        set_header net "Authorization" (str_append "Bearer " req.api_key) (λ name. none) in
      let header : Header = apply_headers net (custom net req.headers) first in
      let apart : net.canonical "Content-Type" ≢ "Authorization" =
        λ e. ne_of_str_eq "Content-Type" "Authorization" refl (sym content ∙ e) in
      let bearer : first "Authorization" ≡ some (str_append "Bearer " req.api_key) =
        rw (set_header, authorization) refl in
      (
        default_content_type-other (has_body net req.body) header "Authorization" apart
            ∙ apply_headers-last (custom net req.headers) first "Authorization"
            ∙ ap (last_value net "Authorization" (custom net req.headers)) bearer,
        elim (Bool-cases (has_body net req.body)) [
          | inr no_body ↦ inl no_body
          | inl body ↦ inr (
              subst (λ b. get_header net "Content-Type" (default_content_type net b header) ≢ "")
                (sym body) (default_content_type-there header))
        ],
      )
