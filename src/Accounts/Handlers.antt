-- ===== src/Accounts/Handlers.antt =====
-- The handlers of crates/twl-server/src/handlers/accounts.rs behind the authentication of the
-- request. A response is its status with what its body tells; the `Location` of a created user or
-- key is its path.
pub mod Access
pub mod Runs
use Prim.Native.String.{String, ◌++◌}
use token_weasel.Prelude.{
  ℕ, Bool, true, false, not, List, Option, none, some, ◌==◌, if◌then◌else◌, unwrap_or,
}
use token_weasel.Prelude.Int.{ℤ}
use token_weasel.Prelude.Result.{Result, ok, err}
use token_weasel.Identity.{
  DbError, unique_violation, clock_error, pool, sqlite, UserRow, StoredKey, ApiKeyRow, UserListRow,
  Store,
}
use token_weasel.Identity.ApiKeys as ApiKeys
use token_weasel.Identity.Users as Users
use token_weasel.Accounts as Accounts
use token_weasel.Accounts.{
  AccountError, invalid_username, weak_password, username_taken, not_found, last_admin,
  wrong_password, concurrent_password_change, db, internal, Outcome,
}

pub record AuthUser : Type 0 where
  pub id : ℤ
  pub username : String
  pub is_admin : Bool

pub data Response : Type 0 where
  user_created : ℤ → String → Bool → Response
  -- id, name, prefix and the raw key
  key_created : ℤ → Option String → String → String → Response
  keys_listed : List ApiKeyRow → Response
  users_listed : List UserListRow → Response
  profile : AuthUser → Response
  user_shown : ℤ → String → Bool → ℤ → Response
  no_content : Response
  -- status and detail
  problem : ℕ → String → Response

-- What happens around a request: the failures of its transactions, the clock, what others do
-- between them, whether the blocking task panics (its transaction is then rolled back), and the
-- random part of a new key.
pub record Env : Type 0 where
  pub first_fault : Option DbError
  pub second_fault : Option DbError
  pub clock : Option ℤ
  pub others : Store → Store
  pub panicked : Bool
  pub random : String

abbrev pub display_db : DbError → String
display_db unique_violation = "unique constraint violation"
display_db clock_error = "system clock before Unix epoch"
display_db (pool m) = "connection pool error: " ++ m
display_db (sqlite m) = m

-- `to_string`
abbrev pub display : AccountError → String
display (invalid_username m) = m
display (weak_password m) = m
display username_taken = "username already exists"
display not_found = "user not found"
display last_admin = "the last admin cannot be deleted"
display wrong_password = "old password is wrong"
display concurrent_password_change = "password was changed concurrently"
display (db e) = "database error: " ++ display_db e
display (internal m) = m

abbrev pub forbidden : Response
forbidden = problem 403 "admin access required"

abbrev panic_problem : Response
panic_problem = problem 500 "database task panicked"

-- `spawn_blocking(…).await`, and the answer to its outcome
abbrev pub task :
    {A : Type 0} → Bool → (Result AccountError A → Response) → Store → Outcome A → Store × Response
task true respond s out = (s, panic_problem)
task false respond s (t, r) = (t, respond r)

abbrev created_response : String → Bool → Result AccountError ℤ → Response
created_response username admin (ok id) = user_created id username admin
created_response username admin (err (invalid_username m)) = problem 400 m
created_response username admin (err (weak_password m)) = problem 400 m
created_response username admin (err username_taken) = problem 409 "username already exists"
created_response username admin (err e) = problem 500 (display e)

abbrev key_response :
    (String → String) → Option String → Result AccountError (ℤ × String) → Response
key_response take_ten name (ok (id, raw)) = key_created id name (take_ten raw) raw
key_response take_ten name (err e) = problem 500 (display e)

abbrev delete_response : Result AccountError (Unit {0}) → Response
delete_response (ok _) = no_content
delete_response (err not_found) = problem 404 "user not found"
delete_response (err last_admin) = problem 409 "the last admin cannot be deleted"
delete_response (err e) = problem 500 (display e)

abbrev reset_response : Result AccountError (Unit {0}) → Response
reset_response (ok _) = no_content
reset_response (err (weak_password m)) = problem 400 m
reset_response (err not_found) = problem 404 "user not found"
reset_response (err e) = problem 500 (display e)

abbrev change_response : Result AccountError (Unit {0}) → Response
change_response (ok _) = no_content
change_response (err (weak_password m)) = problem 400 m
change_response (err wrong_password) = problem 403 "old password is wrong"
change_response (err concurrent_password_change) =
    problem 409 "password changed during this request; retry with the current password"
change_response (err e) = problem 500 (display e)

-- a database call, and the answer to what it gives
abbrev pub run_db_problem :
    {A : Type 0} → Bool → (A → Response) → Store → Store × Result DbError A → Store × Response
run_db_problem true respond s out = (s, panic_problem)
run_db_problem false respond s (t, ok a) = (t, respond a)
run_db_problem false respond s (t, err e) = (t, problem 500 (display_db e))

abbrev shown : Option UserRow → Response
shown none = problem 404 "user not found"
shown (some u) = user_shown u.id u.username u.is_admin u.created_ts

abbrev key_deleted : ℕ → Response
key_deleted n = if n == 0 then problem 404 "api key not found" else no_content

-- the handlers that the routes of `build_router` name: those that are for administrators, and all
pub data AdminRequest : Type 0 where
  create_user_api : String → String → Option Bool → AdminRequest
  list_users_api : AdminRequest
  get_user_api delete_user_api : ℤ → AdminRequest
  reset_password_api : ℤ → String → AdminRequest

pub data Request : Type 0 where
  create_api_key : Option String → Request
  list_api_keys me_api : Request
  delete_api_key_api : ℤ → Request
  change_password_api : String → String → Request
  by_admin : AdminRequest → Request

-- `newest_first` and `oldest_first` are the database's orders by creation time.
module _ (hash_password : String → Result String String)
    (verify_password : String → String → Result String Bool) (print : ℕ → String)
    (sha256 take_ten : String → String) (newest_first : List StoredKey → List StoredKey)
    (oldest_first : List UserRow → List UserRow) where
  -- what an administrator's request does
  unfoldable pub handle_admin : Env → AdminRequest → Store → Store × Response
  handle_admin env (create_user_api username password admin) s =
      let is_admin = unwrap_or admin false in
      task env.panicked (created_response username is_admin) s (
        Accounts.create_user hash_password verify_password print env.first_fault env.clock username
          password is_admin s)
  handle_admin env list_users_api s =
      run_db_problem env.panicked users_listed s
        (s, Users.list_users oldest_first env.first_fault s)
  handle_admin env (get_user_api id) s =
      run_db_problem env.panicked shown s (s, Users.get_user_by_id env.first_fault id s)
  handle_admin env (delete_user_api id) s =
      task env.panicked delete_response s (Accounts.delete_user env.first_fault id s)
  handle_admin env (reset_password_api id password) s = task env.panicked reset_response s (
      Accounts.reset_password hash_password verify_password print env.first_fault env.second_fault
        env.others id password s)

  -- the check in front of it
  unfoldable pub admin_only : Env → AuthUser → AdminRequest → Store → Store × Response
  unfolding handle_admin
  admin_only env caller request s =
      if not caller.is_admin then (s, forbidden) else handle_admin env request s

  unfoldable pub handle : Env → AuthUser → Request → Store → Store × Response
  unfolding admin_only
  handle env caller (create_api_key name) s = task env.panicked (key_response take_ten name) s (
      Accounts.create_api_key sha256 take_ten env.random env.first_fault env.clock caller.id name s)
  handle env caller list_api_keys s =
      run_db_problem env.panicked keys_listed s
        (s, ApiKeys.list_api_keys newest_first env.first_fault caller.id s)
  handle env caller me_api s = (s, profile caller)
  handle env caller (change_password_api old_password new_password) s =
      task env.panicked change_response s (
        Accounts.change_password hash_password verify_password print env.first_fault
          env.second_fault env.others caller.id old_password new_password s)
  handle env caller (delete_api_key_api id) s =
      run_db_problem env.panicked key_deleted s
        (ApiKeys.delete_api_key env.first_fault id caller.id s)
  handle env caller (by_admin request) s = admin_only env caller request s
