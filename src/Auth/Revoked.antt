-- ===== src/Auth/Revoked.antt =====
-- Whom `require_auth` of crates/twl-server/src/auth.rs admits.
use Prim.Native.String.{String}
use mathlib.Core.Option.{some-injective}
use token_weasel.Prelude.{
  ◌≡◌, refl, sym, ap, ◌∙◌, ◌≢◌, inl, inr, Bool, true, false, List, [], ◌∷◌, Option, none, some,
  Option-cases, arith, if_pos, if_neg,
}
use token_weasel.Prelude.Int.{ℤ}
use token_weasel.Prelude.Text.{String-discrete}
use token_weasel.Prelude.Result.{Result, ok, err, ok-injective}
use token_weasel.Prelude.Table.{find_by}
use token_weasel.Proxy.Headers.{HeaderValue, HeaderMap}
use token_weasel.Identity.{DbError, UserRow, StoredKey, Store, find_user, read}
use token_weasel.Identity.ApiKeys.{joined, user_of, ids_of, get_api_key_user, get_api_key_id}
use token_weasel.Identity.Credentials.{withheld, authenticated}
use token_weasel.Identity.Revocation.{IsRekeyed}
use token_weasel.Accounts.Handlers.{AuthUser}
use token_weasel.Auth.{
  admitted, key_admission, require_auth, auth_failed_response, api_user_admission, auth_user,
}

-- the row that a join gives is the key's owner
joined-owner :
    (hash : String) (users : List UserRow) (ks : List StoredKey) (k : StoredKey) (u : UserRow)
    → joined hash users ks ≡ some (k, u)
    → (find_user k.user_id users ≡ some u)
unfolding joined
joined-owner hash users [] k u h = ground arith
joined-owner hash users (j ∷ ks) k u h = elim (String-discrete j.key_hash hash) [
  | no d ↦ joined-owner hash users ks k u (sym (if_neg (String-discrete j.key_hash hash) d _ _) ∙ h)
  | yes p ↦
      let h' = sym (if_pos (String-discrete j.key_hash hash) p _ _) ∙ h in
      elim (Option-cases (find_user j.user_id users)) [
        | inl e ↦ joined-owner hash users ks k u (rw e at h')
        | inr (w, e) ↦
            let same : (j, w) ≡ (k, u) = some-injective _ _ (rw e at h') in
            ap (λ p. find_user p.0.user_id users) (sym same) ∙ e ∙ ap (λ p. some p.1) same
      ]
]

user_of-some :
    (o : Option (StoredKey × UserRow)) (u : UserRow)
    → user_of o ≡ some u
    → (k : StoredKey) × (o ≡ some (k, u))
user_of-some none u h = ground arith
user_of-some (some (k, w)) u h = (k, ap (λ x. some (k, x)) (some-injective _ _ h))

not-admitted : (path : String) (user : AuthUser) → auth_failed_response path ≢ admitted user
unfolding auth_failed_response
not-admitted path user h = ground arith

admitted-injective : (a b : AuthUser) → admitted a ≡ admitted b → a ≡ b
admitted-injective a b h = cc

api_user-admitted :
    (panicked : Bool) (path : String) (r : Result DbError (Option UserRow)) (user : AuthUser)
    → api_user_admission panicked path r ≡ admitted user
    → (u : UserRow) × (r ≡ ok (some u)) × (user ≡ auth_user u)
api_user-admitted true path r user h = cc
api_user-admitted false path (ok none) user h = absurd (not-admitted path user h)
api_user-admitted false path (ok (some u)) user h =
    (u, refl, sym (admitted-injective (auth_user u) user h))
api_user-admitted false path (err e) user h = cc

read-ok :
    {A : Type 0} (fault : Option DbError) (a b : A) → read fault a ≡ ok b → (fault ≡ none) × (a ≡ b)
read-ok none a b h = (refl, ok-injective h)
read-ok (some e) a b h = cc

-- Who is admitted by a key is the owner of a stored key.
key-admitted :
    (sha256 : String → String) (panicked : Bool) (fault : Option DbError) (path : String)
    (s : Store) (token : Option String) (user : AuthUser)
    → key_admission sha256 panicked fault path s token ≡ admitted user
    → (key : String) × (k : StoredKey) × (u : UserRow) × (token ≡ some key)
      × (joined (sha256 key) s.users s.api_keys ≡ some (k, u))
      × (find_user k.user_id s.users ≡ some u)
      × (user ≡ auth_user u)
unfolding get_api_key_user
key-admitted sha256 panicked fault path s none user h = absurd (not-admitted path user h)
key-admitted sha256 panicked fault path s (some key) user h =
    let (u, answer, same) = api_user-admitted panicked path _ user h in
    let (k, found) =
      user_of-some (joined (sha256 key) s.users s.api_keys) u (read-ok fault _ _ answer).1 in
    (key, k, u, refl, found, joined-owner (sha256 key) s.users s.api_keys k u found, same)

find_user-id : (i : ℤ) (u : UserRow) (us : List UserRow) → find_user i us ≡ some u → u.id ≡ i
unfolding find_by
find_user-id i u [] h = ground arith
find_user-id i u (v ∷ us) h = ground (arith, find_user-id i u us)

withheld-own : (id key_id : ℤ) (o : Option (ℤ × ℤ)) → some (key_id, id) ≢ withheld id o
withheld-own id key_id none h = ground arith
withheld-own id key_id (some (k, i)) h = ground arith

-- After a password of a user is changed or reset, no request without a browser session is admitted
-- as that user, whatever bearer token it shows: every key from before is refused.
pub require_auth-revoked :
    (to_str : HeaderValue → Option String) (sha256 : String → String) (panicked : Bool)
    (fault : Option DbError) (headers : HeaderMap) (path hash : String) (id : ℤ) (u : UserRow)
    (s t : Store) (user : AuthUser)
    → IsRekeyed id u hash s t
    → require_auth to_str sha256 panicked fault none headers path t ≡ admitted user
    → user.id ≢ id
unfolding require_auth get_api_key_id
require_auth-revoked to_str sha256 panicked fault headers path hash id u s t user r h p =
    let (key, k, w, token, found, owner, same) =
      key-admitted sha256 panicked fault path t _ user h in
    let own : k.user_id ≡ id =
      sym (find_user-id k.user_id w t.users owner) ∙ sym (ap (λ a. a.id) same) ∙ p in
    withheld-own id k.id (authenticated (sha256 key) s) (
      ap (λ i. some (k.id, i)) (sym own)
      ∙ sym (ap ids_of found)
      ∙ ok-injective (r.keys (sha256 key)))
