-- ===== src/Auth/Login/Locked.antt =====
-- How long a failed login of crates/twl-server/src/handlers/session.rs locks its client out, and
-- what the logins that come after it can do to that.
use Prim.Native.String.{String}
use token_weasel.Prelude.{
  ℕ, ◌+◌, ◌-◌, ◌<◌, ◌≡◌, ◌≢◌, ◌⊎◌, refl, sym, ap, subst, ◌∙◌, Bool, true, false, List, Option, none,
  some, unwrap_or, min, length, arith,
}
use token_weasel.Prelude.Text.{String-discrete}
use token_weasel.Prelude.Assoc.{lookup, lookup-remove_ne}
use token_weasel.Prelude.Result.{Result, ok, err}
use token_weasel.Identity.{UserRow}
use token_weasel.Throttle.{
  Entry, check, cap_clients, retain_active, record_success, fail_entry, new_entry, u32_max,
  free_attempts, backoff_for_failures,
}
use token_weasel.Throttle.Lockout.{lookup-record_failure_self, record_failure_others}
use token_weasel.Throttle.Backoff.{backoff-pos_iff}
use token_weasel.Auth.Login.{LoginError, locked_out, bad_credentials, after_credentials, login_api}
use token_weasel.Auth.Login.Throttled.{bad_credentials-recorded, login_api-blocked}

-- there is room for one more client, if need be by dropping those that are not blocked
abbrev pub HasRoom : ℕ → ℕ → List (String × Entry) → Type 0
HasRoom at until map =
    (length map < cap_clients) ⊎ (at < until) × (length (retain_active at map) < cap_clients)

-- What may happen to the throttle while a client is locked out until `until`: its own logins, from
-- the check on, and the outcomes of other clients' credentials, whenever their checks were made,
-- as long as there is room for another client whenever one of them fails.
pub data Meanwhile (client : String) (until : ℕ) (map : List (String × Entry))
    : List (String × Entry) → Type 0 where
  nothing : Meanwhile client until map map
  own :
      {map' : List (String × Entry)} (now at : ℕ) (saved : Bool)
      (r : Result LoginError (Option UserRow))
      → Meanwhile client until map map'
      → now < until
      → Meanwhile client until map (login_api now at saved client r map').0
  other :
      {map' : List (String × Entry)} (at : ℕ) (saved : Bool) (k : String)
      (r : Result LoginError (Option UserRow))
      → Meanwhile client until map map'
      → k ≢ client
      → (r ≡ ok none → HasRoom at until map')
      → Meanwhile client until map (after_credentials at saved k r map').0

check-blocked :
    (now : ℕ) (client : String) (e : Entry) (map : List (String × Entry))
    → lookup String-discrete client map ≡ some e
    → now < e.blocked_until
    → check String-discrete now client map ≡ some (e.blocked_until - now)
unfolding check
check-blocked now client e map h b = rw (h, check) (ground arith)

after_credentials_others :
    (at : ℕ) (saved : Bool) (k client : String) (r : Result LoginError (Option UserRow)) (e : Entry)
    (map : List (String × Entry))
    → k ≢ client
    → lookup String-discrete client map ≡ some e
    → (r ≡ ok none → HasRoom at e.blocked_until map)
    → lookup String-discrete client (after_credentials at saved k r map).0 ≡ some e
unfolding after_credentials record_success
after_credentials_others at saved k client (err x) e map ne h room = h
after_credentials_others at saved k client (ok none) e map ne h room =
    record_failure_others String-discrete at k client e map ne h (room refl)
after_credentials_others at true k client (ok (some u)) e map ne h room =
    lookup-remove_ne String-discrete k client map ne ∙ h
after_credentials_others at false k client (ok (some u)) e map ne h room = h

Meanwhile-lookup :
    (client : String) (e : Entry) (map map' : List (String × Entry))
    → lookup String-discrete client map ≡ some e
    → Meanwhile client e.blocked_until map map'
    → lookup String-discrete client map' ≡ some e
Meanwhile-lookup client e map _ h nothing = h
Meanwhile-lookup client e map _ h (own {map'} now at saved r m soon) =
    let still = Meanwhile-lookup client e map map' h m in
    ap (λ o. lookup String-discrete client o.0)
      (login_api-blocked now at saved client r map' _ (check-blocked now client e map' still soon))
    ∙ still
Meanwhile-lookup client e map _ h (other {map'} at saved k r m ne room) =
    after_credentials_others at saved k client r e map' ne (Meanwhile-lookup client e map map' h m)
      room

backoff-pos : (f : ℕ) → free_attempts < f → 0 < backoff_for_failures f
backoff-pos f h = ground (arith, backoff-pos_iff f)

blocked_until-failure :
    (at : ℕ) (old : Entry)
    → free_attempts < min (old.failures + 1) u32_max
    → (fail_entry at old).blocked_until ≡ at + backoff_for_failures (min (old.failures + 1) u32_max)
blocked_until-failure at old h = ground (arith, backoff-pos (min (old.failures + 1) u32_max) h)

-- Once a client has used up the free attempts, a wrong password at `at` locks it out for the
-- backoff of its new number of failures. Whatever its own later logins and other clients do in the
-- meantime, as long as there is room for another client whenever one of those fails, until then
-- every login of that client is refused with the time that is left, whatever the credentials, the
-- right ones included, and changes nothing. A login of that client that had passed its check before
-- the failure is not among what happens in the meantime.
pub login_api-locks :
    (now at later at' : ℕ) (saved saved' : Bool) (client : String)
    (r r' : Result LoginError (Option UserRow)) (map map' : List (String × Entry))
    → let out = login_api now at saved client r map in
      let failures =
        min ((unwrap_or (lookup String-discrete client map) new_entry).failures + 1) u32_max in
      let until = at + backoff_for_failures failures in
      out.1 ≡ bad_credentials
      → free_attempts < failures
      → Meanwhile client until out.0 map'
      → later < until
      → login_api later at' saved' client r' map' ≡ (map', locked_out (until - later), none)
login_api-locks now at later at' saved saved' client r r' map map' h used meanwhile soon =
    let old = unwrap_or (lookup String-discrete client map) new_entry in
    let e = fail_entry at old in
    let until = at + backoff_for_failures (min (old.failures + 1) u32_max) in
    let same : e.blocked_until ≡ until = blocked_until-failure at old used in
    let recorded : lookup String-discrete client (login_api now at saved client r map).0 ≡ some e =
      ap (lookup String-discrete client) (bad_credentials-recorded now at saved client r map h)
      ∙ lookup-record_failure_self String-discrete at client map in
    let still = Meanwhile-lookup client e _ map' recorded (
      subst (λ t. Meanwhile client t (login_api now at saved client r map).0 map') (sym same)
        meanwhile) in
    login_api-blocked later at' saved' client r' map' (until - later) (
      check-blocked later client e map' still (subst (λ t. later < t) (sym same) soon)
      ∙ ap (λ t. some (t - later)) same)
