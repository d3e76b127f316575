-- ===== src/Auth.antt =====
-- Who a request comes from: `parse_bearer_credentials` of crates/twl-auth/src/lib.rs, apikey.rs
-- beside it, and crates/twl-server/src/auth.rs. `to_str` is `HeaderValue::to_str`, `sha256` the
-- digest in hex.
pub mod Bearer
pub mod Revoked
pub mod Login
use Prim.Native.String.{String}
use token_weasel.Prelude.{
  ℕ, Bool, true, false, ◌||◌, Option, none, some, is_some, ◌==◌, if◌then◌else◌, and_then, or_else,
}
use token_weasel.Prelude.Int.{ℤ}
use token_weasel.Prelude.Text.{
  is_empty, trim_end_matches, trim_start_matches, split_once, any_char, to_ascii_lowercase, ◌=ₛ◌,
  strip_prefix,
}
use token_weasel.Prelude.Result.{Result, ok, err}
use token_weasel.Proxy.{ValidatedKey, ClientKeyResult, not_present, invalid, error, valid}
use token_weasel.Proxy.Headers.{HeaderValue, HeaderMap, get_header}
use token_weasel.Identity.{DbError, UserRow, Store}
use token_weasel.Identity.ApiKeys.{get_api_key_user, get_api_key_id}
use token_weasel.Accounts.Handlers.{AuthUser, display_db}

abbrev pub is_ascii_whitespace : ℕ → Bool
is_ascii_whitespace c = c == 32 || c == 9 || c == 10 || c == 12 || c == 13

abbrev pub is_space_or_tab : ℕ → Bool
is_space_or_tab c = c == 32 || c == 9

abbrev pub is_space : ℕ → Bool
is_space c = c == 32

-- what follows the scheme
unfoldable pub bearer_of : String × String → Option String
bearer_of (scheme, credentials) =
    let token = trim_start_matches is_space credentials in
    if to_ascii_lowercase scheme =ₛ "bearer"
    then (if is_empty token || any_char is_ascii_whitespace token then none else some token)
    else none

unfoldable pub parse_bearer_credentials : String → Option String
unfolding bearer_of
parse_bearer_credentials value =
    and_then (split_once 32 (trim_end_matches is_space_or_tab value)) bearer_of

-- `filter(|token| token.starts_with("twl_"))`
unfoldable pub if_key : String → Option String
if_key token = if is_some (strip_prefix "twl_" token) then some token else none

module _ (to_str : HeaderValue → Option String) where
  abbrev header_text : String → HeaderMap → Option String
  header_text name headers = and_then (get_header name headers) to_str

  -- The value of `x-api-key` is taken whole: what `strip_prefix` cuts off is put back.
  unfoldable pub extract_client_key : HeaderMap → Option String
  extract_client_key headers =
      or_else
        (and_then (and_then (header_text "authorization" headers) parse_bearer_credentials) if_key)
        (and_then (header_text "x-api-key" headers) if_key)

  -- what the blocking lookup gives, or the message of a failed join
  abbrev pub lookup_result : Option String → Result DbError (Option (ℤ × ℤ)) → ClientKeyResult
  lookup_result (some join) r = error join
  lookup_result none (ok (some (key_id, user_id))) =
      valid (record { key_id = key_id; user_id = user_id })
  lookup_result none (ok none) = invalid
  lookup_result none (err e) = error (display_db e)

  unfoldable pub extract_and_validate_client_key :
      (sha256 : String → String)
      → Option String
      → Option DbError
      → HeaderMap
      → Store
      → ClientKeyResult
  extract_and_validate_client_key sha256 join fault headers s = elim (extract_client_key headers) [
    | none ↦ not_present
    | some key ↦ lookup_result join (get_api_key_id fault (sha256 key) s)
  ]

-- how `require_auth` ends: it runs the handler for a user, or answers itself
pub data Admission : Type 0 where
  admitted : AuthUser → Admission
  redirect_to_login unauthorized internal_error : Admission

unfoldable pub auth_failed_response : String → Admission
auth_failed_response path =
    if path =ₛ "/usage" || path =ₛ "/account" then redirect_to_login else unauthorized

abbrev pub auth_user : UserRow → AuthUser
auth_user u = record { id = u.id; username = u.username; is_admin = u.is_admin }

abbrev pub api_user_admission : Bool → String → Result DbError (Option UserRow) → Admission
api_user_admission true path r = internal_error
api_user_admission false path (ok (some u)) = admitted (auth_user u)
api_user_admission false path (ok none) = auth_failed_response path
api_user_admission false path (err e) = internal_error

abbrev pub key_admission :
    (sha256 : String → String) → Bool → Option DbError → String → Store → Option String → Admission
key_admission sha256 panicked fault path s none = auth_failed_response path
key_admission sha256 panicked fault path s (some token) =
    api_user_admission panicked path (get_api_key_user fault (sha256 token) s)

-- `session` is the user of the browser session; `panicked` says whether the lookup's task failed.
unfoldable pub require_auth :
    (to_str : HeaderValue → Option String) (sha256 : String → String)
    → Bool
    → Option DbError
    → Option AuthUser
    → HeaderMap
    → String
    → Store
    → Admission
require_auth to_str sha256 panicked fault (some user) headers path s = admitted user
require_auth to_str sha256 panicked fault none headers path s =
    key_admission sha256 panicked fault path s (
      and_then
        (and_then (and_then (get_header "authorization" headers) to_str) parse_bearer_credentials)
        if_key)
