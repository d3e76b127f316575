-- ===== src/Auth/Login/Throttled.antt =====
-- What a login of crates/twl-server/src/handlers/session.rs needs, and what failures cost.
use Prim.Native.String.{String}
use mathlib.Core.Option.{some-injective}
use token_weasel.Prelude.{
  ℕ, ◌≡◌, refl, sym, ap, subst, ◌∙◌, ◌≢◌, inl, inr, Bool, true, false, List, Option, none, some,
  Option-cases, arith,
}
use token_weasel.Prelude.Text.{String-discrete}
use token_weasel.Prelude.Result.{Result, ok, err, Result-cases, ok-injective}
use token_weasel.Prelude.Table.{find_by}
use token_weasel.Identity.{DbError, UserRow, Store, username_of}
use token_weasel.Identity.Users.{get_user}
use token_weasel.Throttle.{Entry, check, record_failure}
use token_weasel.Auth.Login.{
  LoginError, logged_in, locked_out, bad_credentials, verified, authenticate_row, authenticate,
  after_credentials, login_api,
}

locked_out≢logged_in : (n : ℕ) → locked_out n ≢ logged_in
locked_out≢logged_in n h = cc

verified-some :
    (verify_password : String → String → Result String Bool) (dummy password : String)
    (row : Option UserRow) (u : UserRow)
    → verified verify_password dummy password row ≡ some u
    → (row ≡ some u) × (verify_password password u.password_hash ≡ ok true)
verified-some verify_password dummy password none u h = ground arith
verified-some verify_password dummy password (some w) u h =
    elim (Result-cases (verify_password password w.password_hash)) [
      | inr (e, bad) ↦ absurd (ground arith)
      | inl (false, wrong) ↦ absurd (ground arith)
      | inl (true, right) ↦
          let same : ◌≡◌ {A = Option UserRow} (some w) (some u) = rw right at h in
          (
            same,
            subst (λ x. verify_password password x.password_hash ≡ ok true)
                (some-injective _ _ same) right,
          )
    ]

authenticate_row-some :
    (verify_password : String → String → Result String Bool) (dummy : String)
    (failed : Option String) (password : String) (r : Result DbError (Option UserRow)) (u : UserRow)
    → authenticate_row verify_password dummy failed password r ≡ ok (some u)
    → (r ≡ ok (some u)) × (verify_password password u.password_hash ≡ ok true)
authenticate_row-some verify_password dummy failed password (err e) u h = cc
authenticate_row-some verify_password dummy (some m) password (ok row) u h = cc
authenticate_row-some verify_password dummy none password (ok row) u h =
    let (found, right) = verified-some verify_password dummy password row u (ok-injective h) in
    (ap ok found, right)

get_user-some :
    (fault : Option DbError) (username : String) (s : Store) (u : UserRow)
    → get_user fault username s ≡ ok (some u)
    → find_by String-discrete username_of username s.users ≡ some u
unfolding get_user
get_user-some none username s u h = ok-injective h
get_user-some (some e) username s u h = cc

authenticate-some :
    (verify_password : String → String → Result String Bool) (dummy : String)
    (failed_lookup failed_verify : Option String) (fault : Option DbError)
    (username password : String) (s : Store) (u : UserRow)
    → authenticate verify_password dummy failed_lookup failed_verify fault username password s
      ≡ ok (some u)
    → (find_by String-discrete username_of username s.users ≡ some u)
      × (verify_password password u.password_hash ≡ ok true)
unfolding authenticate
authenticate-some verify_password dummy (some m) failed_verify fault username password s u h = cc
authenticate-some verify_password dummy none failed_verify fault username password s u h =
    let (row, right) =
      authenticate_row-some verify_password dummy failed_verify password (get_user fault username s)
        u h in
    (get_user-some fault username s u row, right)

after_credentials-logged_in :
    (at : ℕ) (saved : Bool) (client : String) (r : Result LoginError (Option UserRow))
    (map : List (String × Entry))
    → (after_credentials at saved client r map).1 ≡ logged_in
    → (u : UserRow) × (r ≡ ok (some u)) × ((after_credentials at saved client r map).2 ≡ some u)
unfolding after_credentials
after_credentials-logged_in at saved client (err e) map h = cc
after_credentials-logged_in at saved client (ok none) map h = cc
after_credentials-logged_in at true client (ok (some u)) map h = (u, refl, refl)
after_credentials-logged_in at false client (ok (some u)) map h = cc

login_api-open :
    (now at : ℕ) (saved : Bool) (client : String) (r : Result LoginError (Option UserRow))
    (map : List (String × Entry))
    → check String-discrete now client map ≡ none
    → login_api now at saved client r map ≡ after_credentials at saved client r map
unfolding login_api
login_api-open now at saved client r map e = rw (e, login_api) refl

pub login_api-blocked :
    (now at : ℕ) (saved : Bool) (client : String) (r : Result LoginError (Option UserRow))
    (map : List (String × Entry)) (remaining : ℕ)
    → check String-discrete now client map ≡ some remaining
    → login_api now at saved client r map ≡ (map, locked_out remaining, none)
unfolding login_api
login_api-blocked now at saved client r map remaining e = rw (e, login_api) refl

-- A login succeeds only if the client is not locked out, a user of that name is stored and the
-- password is right for that user's hash; the session is then for that user. In particular the
-- dummy hash of an unknown user never lets anyone in.
pub login_api_sound :
    (verify_password : String → String → Result String Bool) (dummy : String)
    (failed_lookup failed_verify : Option String) (fault : Option DbError)
    (username password : String) (s : Store) (now at : ℕ) (saved : Bool) (client : String)
    (map : List (String × Entry))
    → let out =
        login_api now at saved client
          (authenticate verify_password dummy failed_lookup failed_verify fault username password s)
          map in
      out.1 ≡ logged_in
      → (u : UserRow) × (out.2 ≡ some u)
        × (find_by String-discrete username_of username s.users ≡ some u)
        × (verify_password password u.password_hash ≡ ok true)
        × (check String-discrete now client map ≡ none)
login_api_sound verify_password dummy failed_lookup failed_verify fault username password s now at
      saved client map h =
    let r =
      authenticate verify_password dummy failed_lookup failed_verify fault username password s in
    elim (Option-cases (check String-discrete now client map)) [
      | inr (remaining, e) ↦ absurd (
          locked_out≢logged_in remaining
            (sym (ap (λ o. o.1) (login_api-blocked now at saved client r map remaining e)) ∙ h))
      | inl e ↦
          let open_path = login_api-open now at saved client r map e in
          let (u, answer, session) =
            after_credentials-logged_in at saved client r map (sym (ap (λ o. o.1) open_path) ∙ h) in
          let (stored, right) =
            authenticate-some verify_password dummy failed_lookup failed_verify fault username
              password s u answer in
          (u, ap (λ o. o.2) open_path ∙ session, stored, right, e)
    ]

pub bad_credentials-recorded :
    (now at : ℕ) (saved : Bool) (client : String) (r : Result LoginError (Option UserRow))
    (map : List (String × Entry))
    → (login_api now at saved client r map).1 ≡ bad_credentials
    → (login_api now at saved client r map).0 ≡ record_failure String-discrete at client map
unfolding login_api after_credentials
bad_credentials-recorded now at saved client (err e) map h = ground arith
bad_credentials-recorded now at saved client (ok none) map h = ground arith
bad_credentials-recorded now at saved client (ok (some u)) map h = ground arith
