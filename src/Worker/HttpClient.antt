-- ===== src/Worker/HttpClient.antt =====
-- internal/httpclient/client.go: Do, the client that the workers call. The map of the headers is
-- given in the order in which Go ranges over it. From net/http it takes, as parameters, the form that
-- Header.Set gives to a name, the check of NewRequest, and the call with the reading of its body.
pub mod Headers
use go_key_pool_system.Prelude.{
  ◌≡◌, String, Bool, true, false, ◌&&◌, not, Option, none, some, List, [], ◌∷◌, ◌⊎◌, inl, inr,
  if◌then◌else◌, str_eq,
}
use go_key_pool_system.Prelude.Int.{ℤ}
use go_key_pool_system.Worker.ProcessItem.{HttpRequest, HttpResponse}
use Prim.Native.String.{◌++◌ as str_append}

-- An http.Header, where each name has one value: Set replaces what was there.
abbrev pub Header : Type 0
Header = String → Option String

-- The *http.Request that is sent; the body is nil where there is none.
pub record Outgoing : Type 0 where
  pub method : String
  pub url : String
  pub header : Header
  pub body : Option String

pub record NetHttp : Type 0 where
  pub canonical : String → String
  -- An error of NewRequestWithContext for a method and a URL.
  pub refuses : String → String → Option String
  -- The error of the call, or the status and what io.ReadAll gives: an error or the body.
  pub send : Outgoing → String ⊎ (ℤ × (String ⊎ String))

module _ (net : NetHttp) where
  unfoldable pub set_header : String → String → Header → Header
  set_header name value header j = if str_eq (net.canonical name) j then some value else header j

  -- Get: "" where there is no value.
  unfoldable pub get_header : String → Header → String
  get_header name header = elim (header (net.canonical name)) [ none ↦ "" | some v ↦ v ]

  unfoldable pub apply_headers : List (String × String) → Header → Header
  apply_headers [] header = header
  apply_headers ((name, value) ∷ rest) header = apply_headers rest (set_header name value header)

  -- The headers that are ranged over: a nil map has none.
  abbrev pub custom : Option (List (String × String)) → List (String × String)
  custom none = []
  custom (some headers) = headers

  -- len(req.Body) > 0
  abbrev pub has_body : Option String → Bool
  has_body none = false
  has_body (some body) = not (str_eq body "")

  unfoldable pub default_content_type : Bool → Header → Header
  default_content_type body header =
      if body && str_eq (get_header "Content-Type" header) ""
      then set_header "Content-Type" "application/json" header
      else header

  unfoldable pub build : HttpRequest (List (String × String)) → Outgoing
  build req = record {
    method = req.method;
    url = req.url;
    header = default_content_type (has_body req.body) (
        apply_headers (custom req.headers)
          (set_header "Authorization" (str_append "Bearer " req.api_key) (λ name. none)));
    body = if has_body req.body then req.body else none;
  }

  unfoldable pub execute : HttpRequest (List (String × String)) → String ⊎ HttpResponse
  execute req = elim (net.refuses req.method req.url) [
    | some error ↦ inl (str_append "failed to create request: " error)
    | none ↦ elim (net.send (build req)) [
      | inl error ↦ inl (str_append "request failed: " error)
      | inr reply ↦ elim reply.1 [
        | inl error ↦ inl (str_append "failed to read response body: " error)
        | inr body ↦ inr (record { status_code = reply.0; body = body })
      ]
    ]
  ]
