-- ===== src/Accounts/Handlers/Runs.antt =====
-- Every request of crates/twl-server/src/handlers/accounts.rs is a run of statements of the store.
use Prim.Native.String.{String}
use token_weasel.Prelude.{
  ℕ, ◌<◌, inl, inr, Bool, true, false, not, List, Option, none, some, if◌then◌else◌,
}
use token_weasel.Prelude.Int.{ℤ}
use token_weasel.Prelude.Result.{Result, ok, err, Result-cases}
use token_weasel.Identity.{
  DbError, unique_violation, clock_error, pool, sqlite, UserRow, StoredKey, Store,
}
use token_weasel.Identity.Users.{count_admins}
use token_weasel.Identity.Integrity.{IsConsistent}
use token_weasel.Identity.Reach.{
  Run, here, next, Step, user_created, key_inserted, password_replaced, password_swapped,
  user_deleted, key_deleted, Run-IsConsistent,
}
use token_weasel.Accounts.{
  AccountError, Outcome, on_answer, created_user, hashed, deletion_of, create_user, create_api_key,
  delete_user, reset_password, reset_read, change_password, change_read, change_verified,
  is_valid_username, password_has_minimum_length,
}
use token_weasel.Accounts.Handlers.{
  AuthUser, Response, Env, Request, AdminRequest, by_admin, create_user_api,
  create_api_key as create_key, list_api_keys, me_api, list_users_api, get_user_api,
  delete_user_api, delete_api_key_api, reset_password_api, change_password_api, task,
  run_db_problem, handle, admin_only, handle_admin,
}

step : {s t : Store} → Step s t → Run s t
step st = next here st

if-Run :
    {A : Type 0} (s : Store) (b : Bool) (x y : Store × A)
    → Run s x.0
    → Run s y.0
    → Run s (if b then x else y).0
if-Run s true x y h k = h
if-Run s false x y h k = k

on_answer-Run :
    {A B : Type 0} (s : Store) (f : A → Result AccountError B) (x : Store × Result DbError A)
    → Run s x.0
    → Run s (on_answer f x).0
on_answer-Run s f (t, ok a) h = h
on_answer-Run s f (t, err e) h = h

created_user-Run : (s : Store) (x : Store × Result DbError ℤ) → Run s x.0 → Run s (created_user x).0
created_user-Run s (t, ok id) h = h
created_user-Run s (t, err unique_violation) h = h
created_user-Run s (t, err clock_error) h = h
created_user-Run s (t, err (pool m)) h = h
created_user-Run s (t, err (sqlite m)) h = h

hashed-Run :
    {A : Type 0} (s : Store) (r : Result String String) (f : String → Outcome A)
    → ((hash : String) → Run s (f hash).0)
    → Run s (hashed r s f).0
hashed-Run s (err e) f h = here
hashed-Run s (ok hash) f h = h hash

task-Run :
    {A : Type 0} (s : Store) (panicked : Bool) (respond : Result AccountError A → Response)
    (out : Outcome A)
    → Run s out.0
    → Run s (task panicked respond s out).0
task-Run s true respond out h = here
task-Run s false respond (t, r) h = h

run_db_problem-Run :
    {A : Type 0} (s : Store) (panicked : Bool) (respond : A → Response)
    (x : Store × Result DbError A)
    → Run s x.0
    → Run s (run_db_problem panicked respond s x).0
run_db_problem-Run s true respond x h = here
run_db_problem-Run s false respond (t, ok a) h = h
run_db_problem-Run s false respond (t, err e) h = h

module _ (hash_password : String → Result String String)
    (verify_password : String → String → Result String Bool) (print : ℕ → String)
    (sha256 take_ten : String → String) (newest_first : List StoredKey → List StoredKey)
    (oldest_first : List UserRow → List UserRow) (env : Env) (s : Store)
    (around : Run s (env.others s)) where
  create_user-Run :
      (username password : String) (is_admin : Bool)
      → Run s
          (create_user hash_password verify_password print env.first_fault env.clock username
            password is_admin s).0
  unfolding create_user
  create_user-Run username password is_admin =
      if-Run s (not (is_valid_username username)) _ _ here (
        if-Run s (not (password_has_minimum_length password)) _ _ here (
          hashed-Run s (hash_password password) _ λ hash.
            created_user-Run s _
              (step (user_created env.first_fault env.clock username hash is_admin))))

  reset_read-Run :
      (id : ℤ) (password : String) (r : Result DbError (Option UserRow))
      → Run s
          (reset_read hash_password verify_password print env.second_fault env.others id password r
            s).0
  unfolding reset_read
  reset_read-Run id password (err e) = here
  reset_read-Run id password (ok none) = here
  reset_read-Run id password (ok (some u)) =
      hashed-Run s (hash_password password) _
        λ hash. on_answer-Run s _ _ (next around (password_replaced env.second_fault id hash))

  reset_password-Run :
      (id : ℤ) (password : String)
      → Run s
          (reset_password hash_password verify_password print env.first_fault env.second_fault
            env.others id password s).0
  unfolding reset_password
  reset_password-Run id password =
      if-Run s (not (password_has_minimum_length password)) _ _ here (reset_read-Run id password _)

  change_verified-Run :
      (id : ℤ) (old_password password : String) (u : UserRow)
      → Run s
          (change_verified hash_password verify_password print env.second_fault env.others id
            old_password password u s).0
  unfolding change_verified
  change_verified-Run id old_password password u =
      elim (Result-cases (verify_password old_password u.password_hash)) [
        | inr (e, bad) ↦ rw (bad, change_verified) here
        | inl (false, wrong) ↦ rw (wrong, change_verified) here
        | inl (true, right) ↦
            rw (right, change_verified)
              (hashed-Run s (hash_password password) _ λ hash.
                on_answer-Run s _ _
                  (next around (password_swapped env.second_fault id u.password_hash hash)))
      ]

  change_read-Run :
      (id : ℤ) (old_password password : String) (r : Result DbError (Option UserRow))
      → Run s
          (change_read hash_password verify_password print env.second_fault env.others id
            old_password password r s).0
  unfolding change_read
  change_read-Run id old_password password (err e) = here
  change_read-Run id old_password password (ok none) = here
  change_read-Run id old_password password (ok (some u)) =
      change_verified-Run id old_password password u

  change_password-Run :
      (id : ℤ) (old_password password : String)
      → Run s
          (change_password hash_password verify_password print env.first_fault env.second_fault
            env.others id old_password password s).0
  unfolding change_password
  change_password-Run id old_password password =
      if-Run s (not (password_has_minimum_length password)) _ _ here
        (change_read-Run id old_password password _)

  handle_admin-Run :
      (request : AdminRequest)
      → Run s
          (handle_admin hash_password verify_password print sha256 take_ten newest_first
            oldest_first env request s).0
  unfolding handle_admin delete_user
  handle_admin-Run (create_user_api username password admin) =
      task-Run s env.panicked _ _ (create_user-Run username password _)
  handle_admin-Run list_users_api = run_db_problem-Run s env.panicked _ _ here
  handle_admin-Run (get_user_api id) = run_db_problem-Run s env.panicked _ _ here
  handle_admin-Run (delete_user_api id) =
      task-Run s env.panicked _ _
        (on_answer-Run s deletion_of _ (step (user_deleted env.first_fault id)))
  handle_admin-Run (reset_password_api id password) =
      task-Run s env.panicked _ _ (reset_password-Run id password)

  admin_only-Run :
      (caller : AuthUser) (request : AdminRequest)
      → Run s
          (admin_only hash_password verify_password print sha256 take_ten newest_first oldest_first
            env caller request s).0
  unfolding admin_only
  admin_only-Run caller request = if-Run s (not caller.is_admin) _ _ here (handle_admin-Run request)

  request-Run :
      (caller : AuthUser) (request : Request)
      → Run s
          (handle hash_password verify_password print sha256 take_ten newest_first oldest_first env
            caller request s).0
  unfolding handle create_api_key
  request-Run caller (create_key name) =
      task-Run s env.panicked _ _
        (on_answer-Run s _ _ (step (key_inserted env.first_fault env.clock caller.id name _ _)))
  request-Run caller list_api_keys = run_db_problem-Run s env.panicked _ _ here
  request-Run caller me_api = here
  request-Run caller (change_password_api old_password password) =
      task-Run s env.panicked _ _ (change_password-Run caller.id old_password password)
  request-Run caller (delete_api_key_api id) =
      run_db_problem-Run s env.panicked _ _ (step (key_deleted env.first_fault id caller.id))
  request-Run caller (by_admin request) = admin_only-Run caller request

  -- A request of anyone, with other connections at work on the store between its transactions, is a
  -- sequence of the store's statements. So it keeps the tables consistent, and as long as there is
  -- an administrator there still is one afterwards.
  pub handle-Run :
      (caller : AuthUser) (request : Request)
      → let t =
          (handle hash_password verify_password print sha256 take_ten newest_first oldest_first env
            caller request s).0 in
        Run s t
        × (IsConsistent s → IsConsistent t × (0 < count_admins s.users → 0 < count_admins t.users))
  handle-Run caller request = let r = request-Run caller request in (r, Run-IsConsistent r)
