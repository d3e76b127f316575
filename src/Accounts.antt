-- ===== src/Accounts.antt =====
-- crates/twl-auth/src/accounts.rs, with `AccountError` and the password policy of lib.rs beside it.
-- Hashing, verification and the random part of a key are parameters. What other connections do
-- between two transactions of one operation is the argument `others`.
pub mod Passwords
pub mod Handlers
use Prim.Native.String.{String, count, len, ◌++◌}
use Prim.Native.Char.{code}
use text.Mathlib.Text
use token_weasel.Prelude.{
  ℕ, zero, suc, ◌+◌, Bool, true, false, not, ◌&&◌, ◌||◌, Option, none, some, ◌==◌, leb, ltb,
  if◌then◌else◌,
}
use token_weasel.Prelude.Int.{ℤ}
use token_weasel.Prelude.Text.{is_empty, append}
use token_weasel.Prelude.Result.{Result, ok, err}
use token_weasel.Identity.{
  DbError, unique_violation, clock_error, pool, sqlite, UserRow, Store, DeleteUserOutcome,
}
use token_weasel.Identity.ApiKeys.{insert_api_key}
use token_weasel.Identity.Users as Users

pub data AccountError : Type 0 where
  invalid_username weak_password : String → AccountError
  username_taken not_found last_admin wrong_password concurrent_password_change : AccountError
  db : DbError → AccountError
  internal : String → AccountError

abbrev min_password_characters : ℕ
min_password_characters = 8

-- `chars().count()`
unfoldable pub password_has_minimum_length : String → Bool
password_has_minimum_length password = leb min_password_characters (count password)

-- alphanumeric, or one of `.`, `-` and `_`
unfoldable pub is_username_char : ℕ → Bool
is_username_char c =
    (leb 48 c && leb c 57)
    || (leb 65 c && leb c 90)
    || (leb 97 c && leb c 122)
    || c == b'.'
    || c == b'-'
    || c == b'_'

unfoldable pub all_username_chars : String → Bool
unfolding is_username_char
all_username_chars String.[] = true
all_username_chars (String.◌∷◌ c s) = is_username_char (code c) && all_username_chars s

-- `len` is in bytes
unfoldable pub is_valid_username : String → Bool
unfolding is_empty all_username_chars
is_valid_username username =
    not (is_empty username || ltb 64 (len username) || not (all_username_chars username))

abbrev username_message : String
username_message =
    "username must be 1-64 characters of ASCII alphanumerics, dots, dashes or underscores"

abbrev pub Outcome : Type 0 → Type 0
Outcome A = Store × Result AccountError A

-- what a transaction answers, read on
abbrev pub on_answer :
    {A B : Type 0} → (A → Result AccountError B) → Store × Result DbError A → Outcome B
on_answer next (s, ok a) = (s, next a)
on_answer next (s, err e) = (s, err (db e))

abbrev pub created_user : Store × Result DbError ℤ → Outcome ℤ
created_user (s, ok id) = (s, ok id)
created_user (s, err unique_violation) = (s, err username_taken)
created_user (s, err e) = (s, err (db e))

abbrev pub deletion_of : DeleteUserOutcome → Result AccountError (Unit {0})
deletion_of DeleteUserOutcome.deleted = ok tt
deletion_of DeleteUserOutcome.not_found = err not_found
deletion_of DeleteUserOutcome.last_admin = err last_admin

unfoldable pub delete_user : Option DbError → ℤ → Store → Outcome (Unit {0})
delete_user fault id s = on_answer deletion_of (Users.delete_user_guarded fault id s)

-- `sha256` is the digest in hex, `random` the alphanumeric part.
abbrev pub raw_key : String → String
raw_key random = append "twl_" random

unfoldable pub create_api_key :
    (sha256 : String → String) (take_ten : String → String) (random : String)
    → Option DbError
    → Option ℤ
    → ℤ
    → Option String
    → Store
    → Outcome (ℤ × String)
create_api_key sha256 take_ten random fault clock user_id name s =
    on_answer (λ id. ok (id, raw_key random))
      (insert_api_key fault clock user_id name (sha256 (raw_key random)) (take_ten (raw_key random))
        s)

abbrev pub one_row : (ℕ → String) → AccountError → ℕ → Result AccountError (Unit {0})
one_row print missing n =
    if n == 1
    then ok tt
    else if n == 0
    then err missing
    else err (internal ("password update affected " ++ print n ++ " users"))

-- with the new hash, or the failure of hashing
abbrev pub hashed : {A : Type 0} → Result String String → Store → (String → Outcome A) → Outcome A
hashed (err e) s next = (s, err (internal ("password hashing failed: " ++ e)))
hashed (ok hash) s next = next hash

-- `print` is the decimal form of a number.
module _ (hash_password : String → Result String String)
    (verify_password : String → String → Result String Bool) (print : ℕ → String) where
  unfoldable pub create_user :
      Option DbError → Option ℤ → String → String → Bool → Store → Outcome ℤ
  create_user fault clock username password is_admin s =
      if not (is_valid_username username)
      then (s, err (invalid_username username_message))
      else if not (password_has_minimum_length password)
      then (s, err (weak_password "password must be at least 8 characters"))
      else hashed (hash_password password) s
          (λ hash. created_user (Users.create_user fault clock username hash is_admin s))

  -- the rest of `reset_password`, once the row is asked for
  unfoldable pub reset_read :
      (swap : Option DbError) (others : Store → Store)
      → ℤ
      → String
      → Result DbError (Option UserRow)
      → Store
      → Outcome (Unit {0})
  reset_read swap others id new_password (err e) s = (s, err (db e))
  reset_read swap others id new_password (ok none) s = (s, err not_found)
  reset_read swap others id new_password (ok (some u)) s =
      hashed (hash_password new_password) s λ hash.
        on_answer (one_row print not_found)
          (Users.replace_password_and_revoke_keys swap id hash (others s))

  -- `get` and `swap` are the failures of the two transactions.
  unfoldable pub reset_password :
      (get swap : Option DbError) (others : Store → Store) → ℤ → String → Store → Outcome (Unit {0})
  unfolding reset_read
  reset_password get swap others id new_password s =
      if not (password_has_minimum_length new_password)
      then (s, err (weak_password "password must be at least 8 characters"))
      else reset_read swap others id new_password (Users.get_user_by_id get id s) s

  -- the rest of `change_password`, once the user's row is read
  unfoldable pub change_verified :
      (swap : Option DbError) (others : Store → Store)
      → ℤ
      → String
      → String
      → UserRow
      → Store
      → Outcome (Unit {0})
  change_verified swap others id old_password new_password u s =
      elim (verify_password old_password u.password_hash) [
        | err e ↦ (s, err (internal ("password verification failed: " ++ e)))
        | ok false ↦ (s, err wrong_password)
        | ok true ↦ hashed (hash_password new_password) s λ hash.
            on_answer (one_row print concurrent_password_change) (
              Users.compare_and_swap_password_and_revoke_keys swap id u.password_hash hash
                (others s))
      ]

  unfoldable pub change_read :
      (swap : Option DbError) (others : Store → Store)
      → ℤ
      → String
      → String
      → Result DbError (Option UserRow)
      → Store
      → Outcome (Unit {0})
  unfolding change_verified
  change_read swap others id old_password new_password (err e) s = (s, err (db e))
  change_read swap others id old_password new_password (ok none) s =
      (s, err (internal "authenticated user not found in database"))
  change_read swap others id old_password new_password (ok (some u)) s =
      change_verified swap others id old_password new_password u s

  unfoldable pub change_password :
      (get swap : Option DbError) (others : Store → Store)
      → ℤ
      → String
      → String
      → Store
      → Outcome (Unit {0})
  unfolding change_read
  change_password get swap others id old_password new_password s =
      if not (password_has_minimum_length new_password)
      then (s, err (weak_password "new password must be at least 8 characters"))
      else change_read swap others id old_password new_password (Users.get_user_by_id get id s) s
