-- ===== src/Tests/Admission.antt =====
-- Who is admitted by a key or a login, at concrete inputs: crates/twl-auth/src/lib.rs and
-- crates/twl-server/src/auth.rs, with handlers/session.rs beside it.
use Prim.Native.String.{String}
use token_weasel.Prelude.{
  ℕ, ◌+◌, ◌-◌, ◌≡◌, ◌≢◌, refl, true, false, List, [], ◌∷◌, Option, none, some, arith, if◌then◌else◌,
  ◌==◌, and_then, min, unwrap_or, inl,
}
use token_weasel.Prelude.Int.{ℤ, pos, ℤ-discrete}
use token_weasel.Prelude.Text.{
  String-discrete, append, any_char, split_once, trim_end_matches, to_ascii_lowercase,
  trim_start_matches, strip_prefix,
}
use token_weasel.Prelude.Assoc.{lookup, insert}
use token_weasel.Prelude.Table.{find_by, delete_by, update_by}
use token_weasel.Prelude.Result.{ok}
use token_weasel.Accounts.{raw_key, create_api_key}
use token_weasel.Auth.{
  parse_bearer_credentials, extract_and_validate_client_key, require_auth, admitted,
  redirect_to_login, is_ascii_whitespace, if_key, auth_failed_response,
}
use token_weasel.Auth.Bearer.{create_api_key-validates}
use token_weasel.Auth.Revoked.{require_auth-revoked}
use token_weasel.Proxy.{valid}
use token_weasel.Proxy.Headers.{HeaderValue, HeaderMap, get_header}
use token_weasel.Throttle.{
  Entry, check, backoff_for_failures, new_entry, u32_max, record_failure, make_room,
}
use token_weasel.Identity.{UserRow, Store, find_user, hash_of, username_of}
use token_weasel.Identity.ApiKeys.{
  insert_api_key, insert_key, attribute_key, revoke_keys, get_api_key_user, joined,
}
use token_weasel.Identity.Users.{
  create_user, insert_user, replace_password_and_revoke_keys, set_password,
}
use token_weasel.Identity.Integrity.{IsConsistent}
use token_weasel.Identity.Reach.{next, key_inserted, Run-IsConsistent}
use token_weasel.Identity.Revocation.{IsRekeyed, replace_password_and_revoke_keys-IsRekeyed}
use token_weasel.Tests.Accounts.{
  key_hash, with_key, key_run, same, ada, bob, empty_store-IsConsistent, with_key-IsConsistent,
  bob_stored, verify_password,
}
use token_weasel.Auth.Login.{
  authenticate, login_api, logged_in, locked_out, bad_credentials, after_credentials, LoginResponse,
}
use token_weasel.Auth.Login.Throttled.{login_api_sound}
use token_weasel.Auth.Login.Locked.{Meanwhile, nothing, own, other, login_api-locks}
use token_weasel.Identity.Users.{get_user}

-- `to_str` of a value that reads as one of two credentials
abbrev text_of : HeaderValue → Option String
text_of [] = none
text_of (c ∷ v) = some (append "Bearer " (if c == 1 then "twl_k1" else "twl_k2"))

abbrev first_bearer : HeaderMap
first_bearer = ("authorization", 1 ∷ []) ∷ []

abbrev bearer : HeaderMap
bearer = ("authorization", 2 ∷ []) ∷ []

bearer_sent :
    and_then (get_header "authorization" bearer) text_of ≡ some (append "Bearer " (raw_key "k2"))
unfolding get_header append String-discrete
bearer_sent = refl

k2_alphanumeric : any_char is_ascii_whitespace "k2" ≡ false
unfolding any_char
k2_alphanumeric = refl

k2_fresh : find_by String-discrete hash_of (key_hash (raw_key "k2")) with_key.api_keys ≡ none
unfolding create_user insert_user insert_api_key insert_key attribute_key find_by String-discrete
    ℤ-discrete append
k2_fresh = refl

create_api_key-validates_example :
    let (t, r) = create_api_key key_hash same "k2" none (some (pos 500)) (pos 2) none with_key in
    (id : ℤ) × (r ≡ ok (id, raw_key "k2"))
    × (extract_and_validate_client_key text_of key_hash none none bearer t
        ≡ valid (record { key_id = id; user_id = pos 2 }))
create_api_key-validates_example =
    create_api_key-validates text_of key_hash same "k2" bearer bearer_sent k2_alphanumeric (pos 500)
      (pos 2) none bob with_key with_key-IsConsistent bob_stored k2_fresh

-- a key of the administrator too
abbrev with_keys : Store
with_keys =
    (insert_api_key none (some (pos 350)) (pos 1) none (key_hash "twl_k2") "twl_k2" with_key).0

with_keys-IsConsistent : IsConsistent with_keys
with_keys-IsConsistent =
    (Run-IsConsistent
      (next key_run (key_inserted none (some (pos 350)) (pos 1) none (key_hash "twl_k2") "twl_k2"))
      empty_store-IsConsistent).0

bob_among_keys : find_user (pos 2) with_keys.users ≡ some bob
unfolding create_user insert_user insert_api_key insert_key attribute_key find_by String-discrete
    ℤ-discrete append
bob_among_keys = refl

abbrev rekeyed : Store
rekeyed = (replace_password_and_revoke_keys none (pos 2) "new-hash" with_keys).0

rekeyed-IsRekeyed : IsRekeyed (pos 2) bob "new-hash" with_keys rekeyed
rekeyed-IsRekeyed =
    (replace_password_and_revoke_keys-IsRekeyed (pos 2) "new-hash" bob with_keys
      with_keys-IsConsistent bob_among_keys).1

ada_admitted : require_auth text_of key_hash false none none bearer "/usage" rekeyed ≡ admitted ada
unfolding require_auth get_api_key_user joined create_user insert_user insert_api_key insert_key
    attribute_key find_by String-discrete ℤ-discrete get_header parse_bearer_credentials split_once
    trim_end_matches append to_ascii_lowercase trim_start_matches any_char if_key strip_prefix
    replace_password_and_revoke_keys revoke_keys delete_by set_password update_by
ada_admitted = refl

bob_refused :
    require_auth text_of key_hash false none none first_bearer "/usage" rekeyed ≡ redirect_to_login
unfolding require_auth get_api_key_user joined create_user insert_user insert_api_key insert_key
    attribute_key find_by String-discrete ℤ-discrete get_header parse_bearer_credentials split_once
    trim_end_matches append to_ascii_lowercase trim_start_matches any_char if_key strip_prefix
    replace_password_and_revoke_keys revoke_keys delete_by set_password auth_failed_response
bob_refused = refl

require_auth-revoked_example : ada.id ≢ pos 2
require_auth-revoked_example =
    require_auth-revoked text_of key_hash false none bearer "/usage" "new-hash" (pos 2) bob
      with_keys rekeyed ada rekeyed-IsRekeyed ada_admitted

-- a login of the user, by a client that is not known to the throttle
abbrev login : String → ℕ → List (String × Entry) × LoginResponse × Option UserRow
login password now =
    login_api now now true "client"
      (authenticate verify_password "dummy-hash" none none none "bob" password with_key) []

login_accepted : (login "bob" 7).1 ≡ logged_in
unfolding login_api check lookup authenticate get_user append find_by insert_api_key insert_key
    create_user insert_user String-discrete ℤ-discrete attribute_key
login_accepted = refl

login_api_sound_example :
    (u : UserRow) × ((login "bob" 7).2 ≡ some u)
    × (find_by String-discrete username_of "bob" with_key.users ≡ some u)
    × (verify_password "bob" u.password_hash ≡ ok true)
    × (check String-discrete 7 "client" [] ≡ none)
login_api_sound_example =
    login_api_sound verify_password "dummy-hash" none none none "bob" "bob" with_key 7 7 true
      "client" [] login_accepted

-- the client has used up its free attempts, and fails once more: with 9 failures it waits 8 seconds
abbrev tried : List (String × Entry)
tried = ("client", record { failures = 8; blocked_until = 0 }) ∷ []

failed_again : (login_api 7 7 true "client" (ok none) tried).1 ≡ bad_credentials
unfolding login_api check after_credentials String-discrete lookup
failed_again = refl

wait_run :
    min ((unwrap_or (lookup String-discrete "client" tried) new_entry).failures + 1) u32_max ≡ 9
unfolding lookup String-discrete
wait_run = refl

backoff_run : backoff_for_failures 9 ≡ 8
unfolding backoff_for_failures
backoff_run = refl

abbrev locked_map : List (String × Entry)
locked_map = (login_api 7 7 true "client" (ok none) tried).0

abbrev later_map : List (String × Entry)
later_map =
    (login_api 9 9 true "client" (ok none)
      (after_credentials 8 true "other" (ok none) locked_map).0).0

-- another client fails, and this one tries again
attempts : Meanwhile "client" 15 locked_map later_map
unfolding login_api check after_credentials String-discrete lookup record_failure make_room insert
    backoff_for_failures
attempts =
    own 9 9 true (ok none)
      (other 8 true "other" (ok none) nothing (λ h. cc) (λ h. inl (omega arith))) (omega arith)

login_api-locks_example :
    let failures =
      min ((unwrap_or (lookup String-discrete "client" tried) new_entry).failures + 1) u32_max in
    login_api 10 10 true "client" (ok (some bob)) later_map
    ≡ (later_map, locked_out (7 + backoff_for_failures failures - 10), none)
unfolding lookup String-discrete backoff_for_failures
login_api-locks_example =
    login_api-locks 7 7 10 10 true true "client" (ok none) (ok (some bob)) tried later_map
      failed_again (omega arith) attempts (omega arith)
