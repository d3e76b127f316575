-- ===== src/Proxy/Headers.antt =====
-- crates/twl-server/src/proxy/headers.rs. A header map is the list of its lines in the order of its
-- iteration, names in lower case as `HeaderName` keeps them; `to_str` is `HeaderValue::to_str`.
pub mod Trust
use Prim.Native.Char.{code}
use Prim.Native.String.{String}
use token_weasel.Prelude.{
  ℕ, Bool, true, false, not, ◌||◌, List, [], ◌∷◌, ◌++◌, Option, none, some, if◌then◌else◌, ite,
  and_then,
}
use token_weasel.Prelude.Text.{
  String-discrete, is_empty, trim, to_ascii_lowercase, before_sep, split, ◌=ₛ◌,
}
use token_weasel.Backends.Catalog.{is_in}

abbrev pub HeaderValue : Type 0
HeaderValue = List ℕ

abbrev pub HeaderMap : Type 0
HeaderMap = List (String × HeaderValue)

abbrev pub skip_request_headers : List String
skip_request_headers =
    "host" ∷ "content-length" ∷ "connection" ∷ "keep-alive" ∷ "proxy-authenticate"
    ∷ "proxy-authorization" ∷ "te" ∷ "trailer" ∷ "transfer-encoding" ∷ "upgrade" ∷ "cookie"
    ∷ "accept-encoding" ∷ []

abbrev pub client_auth_headers : List String
client_auth_headers = "authorization" ∷ "x-api-key" ∷ []

abbrev pub skip_response_headers : List String
skip_response_headers =
    "connection" ∷ "keep-alive" ∷ "proxy-authenticate" ∷ "proxy-authorization" ∷ "te" ∷ "trailer"
    ∷ "transfer-encoding" ∷ "upgrade" ∷ "set-cookie" ∷ "content-length" ∷ []

abbrev pub active_html_headers : List String
active_html_headers =
    "content-disposition" ∷ "content-security-policy" ∷ "content-security-policy-report-only"
    ∷ "x-content-type-options" ∷ []

-- the tokens of one `Connection` value
unfoldable pub tokens : List String → List String
tokens [] = []
tokens (p ∷ ps) = if is_empty (trim p) then tokens ps else to_ascii_lowercase (trim p) ∷ tokens ps

abbrev tokens_of : Option String → List String
tokens_of none = []
tokens_of (some s) = tokens (split b',' s)

-- `headers.get`, the first value
unfoldable pub get_header : String → HeaderMap → Option HeaderValue
get_header k [] = none
get_header k ((n, v) ∷ hs) = ite (String-discrete n k) (some v) (get_header k hs)

abbrev mime_is_active : String → Bool
mime_is_active mime =
    let m = to_ascii_lowercase mime in
    m =ₛ "text/html" || m =ₛ "application/xhtml+xml" || m =ₛ "image/svg+xml"

abbrev is_active : Option String → Bool
is_active none = false
is_active (some s) = mime_is_active (trim (before_sep b';' s))

unfoldable pub bytes : String → HeaderValue
bytes String.[] = []
bytes (String.◌∷◌ c s) = code c ∷ bytes s

-- the values that the program writes
abbrev pub identity_value : HeaderValue
identity_value = 105 ∷ 100 ∷ 101 ∷ 110 ∷ 116 ∷ 105 ∷ 116 ∷ 121 ∷ []

unfoldable pub active_safeguards : HeaderMap
active_safeguards =
    (
      "content-security-policy",
      bytes "sandbox; default-src 'none'; base-uri 'none'; form-action 'none'",
    )
    ∷ ("x-content-type-options", bytes "nosniff")
    ∷ ("content-disposition", bytes "attachment")
    ∷ []

module _ (to_str : HeaderValue → Option String) where
  unfoldable pub connection_header_names : HeaderMap → List String
  connection_header_names [] = []
  connection_header_names ((n, v) ∷ hs) =
      ite (String-discrete n "connection") (tokens_of (to_str v) ++ connection_header_names hs)
        (connection_header_names hs)

  abbrev pub is_skipped : List String → List String → List String → String → Bool
  is_skipped list dynamic extra n =
      is_in n list || is_in (to_ascii_lowercase n) dynamic || is_in n extra

  unfoldable pub retain_headers : List String → List String → List String → HeaderMap → HeaderMap
  retain_headers list dynamic extra [] = []
  retain_headers list dynamic extra ((n, v) ∷ hs) =
      if is_skipped list dynamic extra n
      then retain_headers list dynamic extra hs
      else (n, v) ∷ retain_headers list dynamic extra hs

  unfoldable pub skip_headers : Bool → HeaderMap → List String → HeaderMap
  skip_headers req headers extra =
      retain_headers (if req then skip_request_headers else skip_response_headers)
        (connection_header_names headers) extra headers

  unfoldable pub forward_request_headers : HeaderMap → Bool → HeaderMap
  forward_request_headers headers strip_client_auth =
      skip_headers true headers (if strip_client_auth then client_auth_headers else [])
      ++ ("accept-encoding", identity_value) ∷ []

  unfoldable pub active_html : HeaderMap → Bool
  active_html headers = is_active (and_then (get_header "content-type" headers) to_str)

  unfoldable pub forward_response_headers : HeaderMap → HeaderMap
  forward_response_headers headers =
      if active_html headers
      then skip_headers false headers active_html_headers ++ active_safeguards
      else skip_headers false headers []
