-- ===== src/Tests/Accounts.antt =====
-- The identity store, the accounts and the logins at concrete inputs: crates/twl-store/src/identity.rs,
-- crates/twl-auth and crates/twl-server/src/auth.rs.
use Prim.Native.String.{String, count}
use token_weasel.Prelude.{ℕ, ◌≤◌, ◌<◌, ◌≡◌, ◌⊎◌, refl, Bool, true, false, none, some}
use token_weasel.Prelude.Int.{pos, ℤ-discrete}
use token_weasel.Prelude.Text.{String-discrete, append, ◌=ₛ◌}
use token_weasel.Prelude.Table.{find_by}
use token_weasel.Prelude.Result.{Result, ok}
use token_weasel.Accounts.{change_password, reset_password}
use token_weasel.Accounts.Passwords.{Changed, Failed, change_password-outcome}
use token_weasel.Accounts.Passwords.Resets.{Reset, reset_password-outcome}
use token_weasel.Accounts.Handlers.{
  AuthUser, Env, handle, by_admin, delete_user_api, change_password_api,
}
use token_weasel.Accounts.Handlers.Runs.{handle-Run}
use token_weasel.Accounts.Handlers.Access.{IsolatedFrom, handle-Isolated}
use token_weasel.Identity.{UserRow, Store, find_user}
use token_weasel.Identity.ApiKeys.{insert_api_key, insert_key, attribute_key, delete_api_key}
use token_weasel.Identity.Users.{create_user, insert_user, count_admins}
use token_weasel.Identity.Integrity.{IsConsistent}
use token_weasel.Identity.Reach.{
  empty_store, Run, here, next, user_created, key_inserted, key_deleted, Run-IsConsistent,
}

abbrev pub key_hash : String → String
key_hash k = append "sha256:" k

-- an administrator, a user and a key of the user
abbrev with_admin : Store
with_admin = (create_user none (some (pos 100)) "ada" "ada-hash" true empty_store).0

abbrev pub with_user : Store
with_user = (create_user none (some (pos 200)) "bob" "bob-hash" false with_admin).0

abbrev pub with_key : Store
with_key =
    (insert_api_key none (some (pos 300)) (pos 2) none (key_hash "twl_k1") "twl_k1" with_user).0

abbrev users_run : Run empty_store with_user
users_run =
    next (next here (user_created none (some (pos 100)) "ada" "ada-hash" true))
      (user_created none (some (pos 200)) "bob" "bob-hash" false)

abbrev pub key_run : Run empty_store with_key
key_run =
    next users_run (key_inserted none (some (pos 300)) (pos 2) none (key_hash "twl_k1") "twl_k1")

pub empty_store-IsConsistent : IsConsistent empty_store
empty_store-IsConsistent = record {
  user_ids = tt;
  usernames = tt;
  key_ids = tt;
  key_hashes = tt;
  users_numbered = tt;
  keys_numbered = tt;
  attributions_numbered = tt;
  keys_owned = tt;
  attributions_owned = tt;
  keys_attributed = tt;
}

pub with_key-IsConsistent : IsConsistent with_key
with_key-IsConsistent = (Run-IsConsistent key_run empty_store-IsConsistent).0

with_user-IsConsistent : IsConsistent with_user
with_user-IsConsistent = (Run-IsConsistent users_run empty_store-IsConsistent).0

Run-IsConsistent_example :
    IsConsistent with_key × (0 < count_admins empty_store.users → 0 < count_admins with_key.users)
Run-IsConsistent_example = Run-IsConsistent key_run empty_store-IsConsistent

abbrev pub bob : UserRow
bob = record {
  id = pos 2;
  username = "bob";
  password_hash = "bob-hash";
  is_admin = false;
  created_ts = pos 200;
}

pub bob_stored : find_user (pos 2) with_key.users ≡ some bob
unfolding create_user insert_user insert_api_key insert_key attribute_key find_by String-discrete
    ℤ-discrete
bob_stored = refl

bob_stored_early : find_user (pos 2) with_user.users ≡ some bob
unfolding create_user insert_user find_by String-discrete ℤ-discrete
bob_stored_early = refl

-- a hash and its check, and what else the handlers are given
abbrev hash_password : String → Result String String
hash_password password = ok (append password "-hash")

abbrev pub verify_password : String → String → Result String Bool
verify_password password hash = ok (append password "-hash" =ₛ hash)

abbrev print : ℕ → String
print n = "n"

abbrev pub same : {A : Type 0} → A → A
same a = a

-- another connection deletes the key meanwhile
abbrev busy : Env
busy = record {
  first_fault = none;
  second_fault = none;
  clock = some (pos 400);
  others = λ s. (delete_api_key none (pos 1) (pos 2) s).0;
  panicked = false;
  random = "r1";
}

abbrev busy_run : Run with_key (busy.others with_key)
busy_run = next here (key_deleted none (pos 1) (pos 2))

abbrev pub ada : AuthUser
ada = record { id = pos 1; username = "ada"; is_admin = true }

abbrev bob_user : AuthUser
bob_user = record { id = pos 2; username = "bob"; is_admin = false }

busy-IsConsistent : IsConsistent (busy.others with_key)
busy-IsConsistent = (Run-IsConsistent busy_run with_key-IsConsistent).0

handle-Run_example :
    let t =
      (handle hash_password verify_password print key_hash same same same busy ada
        (by_admin (delete_user_api (pos 2)))
        with_key).0 in
    Run with_key t
    × (IsConsistent with_key
        → IsConsistent t × (0 < count_admins with_key.users → 0 < count_admins t.users))
handle-Run_example =
    handle-Run hash_password verify_password print key_hash same same same busy with_key busy_run
      ada (by_admin (delete_user_api (pos 2)))

handle-Isolated_example :
    IsolatedFrom
      (pos 2)
      with_key
      (busy.others with_key)
      (handle hash_password verify_password print key_hash same same same busy bob_user
        (change_password_api "bob" "long-secret")
        with_key).0
handle-Isolated_example =
    handle-Isolated hash_password verify_password print key_hash same same same busy bob_user refl
      (change_password_api "bob" "long-secret") with_key with_key-IsConsistent busy-IsConsistent

change_password-outcome_example :
    let out =
      change_password hash_password verify_password print none none busy.others
        (pos 2)
        "bob"
        "long-secret"
        with_key in
    ((out.1 ≡ ok tt)
      × (8 ≤ count "long-secret")
      × Changed hash_password verify_password print
          (pos 2)
          "bob"
          "long-secret"
          (busy.others with_key)
          out.0)
    ⊎ Failed with_key (busy.others with_key) out
change_password-outcome_example =
    change_password-outcome hash_password verify_password print (pos 2) none none busy.others "bob"
      "long-secret" with_key busy-IsConsistent

reset_password-outcome_example :
    let out =
      reset_password hash_password verify_password print none none busy.others
        (pos 2)
        "long-secret"
        with_key in
    ((out.1 ≡ ok tt)
      × (8 ≤ count "long-secret")
      × Reset hash_password verify_password print
          (pos 2)
          "long-secret"
          (busy.others with_key)
          out.0)
    ⊎ Failed with_key (busy.others with_key) out
reset_password-outcome_example =
    reset_password-outcome hash_password verify_password print (pos 2) none none busy.others
      "long-secret" with_key busy-IsConsistent
