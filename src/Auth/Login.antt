-- ===== src/Auth/Login.antt =====
-- `LoginBackend::authenticate` of crates/twl-server/src/auth.rs and `login_api` of
-- crates/twl-server/src/handlers/session.rs, over the login throttle. `verify_password` and the
-- dummy hash are parameters; the clients are keyed by what `client_ip` gives.
pub mod Locked
pub mod Throttled
use Prim.Native.String.{String}
use token_weasel.Prelude.{ℕ, Bool, true, false, List, Option, none, some, if◌then◌else◌, unwrap_or}
use token_weasel.Prelude.Text.{String-discrete}
use token_weasel.Prelude.Result.{Result, ok, err}
use token_weasel.Identity.{DbError, UserRow, Store}
use token_weasel.Identity.Users.{get_user}
use token_weasel.Throttle.{Entry, check, record_failure, record_success}

-- `join` is a blocking task that failed.
pub data LoginError : Type 0 where
  join : String → LoginError
  store : DbError → LoginError

pub data LoginResponse : Type 0 where
  logged_in : LoginResponse
  -- with the seconds of `Retry-After`
  locked_out : ℕ → LoginResponse
  bad_credentials internal_error : LoginResponse

abbrev hash_of_row : Option UserRow → String → String
hash_of_row none dummy = dummy
hash_of_row (some u) dummy = u.password_hash

-- a hash that cannot be verified counts as a mismatch
abbrev is_match : Result String Bool → Bool
is_match (ok b) = b
is_match (err e) = false

module _ (verify_password : String → String → Result String Bool) (dummy : String) where
  abbrev pub verified : String → Option UserRow → Option UserRow
  verified password row =
      if is_match (verify_password password (hash_of_row row dummy)) then row else none

  -- the lookup, and the verification unless its task fails
  abbrev pub authenticate_row :
      Option String → String → Result DbError (Option UserRow) → Result LoginError (Option UserRow)
  authenticate_row failed password (err e) = err (store e)
  authenticate_row (some m) password (ok row) = err (join m)
  authenticate_row none password (ok row) = ok (verified password row)

  -- `failed_lookup` and `failed_verify` are the tasks that fail.
  unfoldable pub authenticate :
      (failed_lookup failed_verify : Option String)
      → Option DbError
      → String
      → String
      → Store
      → Result LoginError (Option UserRow)
  authenticate (some m) failed_verify fault username password s = err (join m)
  authenticate none failed_verify fault username password s =
      authenticate_row failed_verify password (get_user fault username s)

-- the map of the throttle, the answer, and the user that the session is for
abbrev LoginOutcome : Type 0
LoginOutcome = List (String × Entry) × LoginResponse × Option UserRow

-- What follows the credentials: `at` is when a failure is recorded, `saved` whether the session is
-- persisted.
unfoldable pub after_credentials :
    ℕ → Bool → String → Result LoginError (Option UserRow) → List (String × Entry) → LoginOutcome
after_credentials at saved client (err e) map = (map, internal_error, none)
after_credentials at saved client (ok none) map =
    (record_failure String-discrete at client map, bad_credentials, none)
after_credentials at saved client (ok (some u)) map =
    if saved
    then (record_success String-discrete client map, logged_in, some u)
    else (map, internal_error, none)

unfoldable pub login_api :
    ℕ
    → ℕ
    → Bool
    → String
    → Result LoginError (Option UserRow)
    → List (String × Entry)
    → LoginOutcome
unfolding after_credentials
login_api now at saved client credentials map = elim (check String-discrete now client map) [
  | some remaining ↦ (map, locked_out remaining, none)
  | none ↦ after_credentials at saved client credentials map
]
