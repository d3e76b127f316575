-- ===== src/Auth/Bearer.antt =====
-- What `parse_bearer_credentials` of crates/twl-auth/src/lib.rs takes from a header, and that a key
-- which the program hands out finds its way back.
use Prim.Native.String.{String}
use Prim.Native.Char.{Char}
use token_weasel.Prelude.{
  ◌≡◌, refl, ap, ◌∙◌, false, Option, none, some, and_then, arith, Option-cases, inl, inr,
}
use token_weasel.Prelude.Int.{ℤ}
use token_weasel.Prelude.Text.{
  is_empty, trim_end_matches, trim_start_matches, split_once, any_char, strip_prefix,
  to_ascii_lowercase, append, String-discrete,
}
use token_weasel.Prelude.Table.{find_by}
use token_weasel.Prelude.Result.{ok}
use token_weasel.Proxy.{valid}
use token_weasel.Proxy.Headers.{HeaderValue, HeaderMap, get_header}
use token_weasel.Identity.{UserRow, Store, hash_of, find_user}
use token_weasel.Identity.Integrity.{IsConsistent}
use token_weasel.Identity.Issue.{insert_api_key-lookup}
use token_weasel.Identity.ApiKeys.{insert_api_key}
use token_weasel.Accounts.Passwords.{on_answer-ok}
use token_weasel.Accounts.{raw_key, create_api_key}
use token_weasel.Auth.{
  is_ascii_whitespace, is_space_or_tab, is_space, bearer_of, parse_bearer_credentials, if_key,
  extract_client_key, extract_and_validate_client_key, lookup_result,
}

abbrev IsToken : String → Type 0
IsToken t = (is_empty t ≡ false) × (any_char is_ascii_whitespace t ≡ false)

trim_end-token :
    (t : String) → any_char is_ascii_whitespace t ≡ false → trim_end_matches is_space_or_tab t ≡ t
unfolding trim_end_matches any_char
trim_end-token String.[] h = refl
trim_end-token (String.◌∷◌ c s) h = ground (arith, trim_end-token s)

trim_end-cons :
    (c : Char) (s : String)
    → is_empty s ≡ false
    → trim_end_matches is_space_or_tab s ≡ s
    → trim_end_matches is_space_or_tab (String.◌∷◌ c s) ≡ String.◌∷◌ c s
unfolding trim_end_matches
trim_end-cons c s e h = rw (h, e) refl

trim_start-token :
    (t : String) → any_char is_ascii_whitespace t ≡ false → trim_start_matches is_space t ≡ t
unfolding trim_start_matches any_char
trim_start-token String.[] h = refl
trim_start-token (String.◌∷◌ c s) h = ground arith

bearer_trimmed :
    (t : String)
    → IsToken t
    → trim_end_matches is_space_or_tab (append "Bearer " t) ≡ append "Bearer " t
unfolding is_empty append
bearer_trimmed t h = trim_end-cons _ _ refl (
    trim_end-cons _ _ refl (
      trim_end-cons _ _ refl (
        trim_end-cons _ _ refl (
          trim_end-cons _ _ refl
            (trim_end-cons _ _ refl (trim_end-cons _ t h.0 (trim_end-token t h.1)))))))

bearer_of-token : (t : String) → IsToken t → bearer_of ("Bearer", t) ≡ some t
unfolding bearer_of to_ascii_lowercase
bearer_of-token t h = rw (trim_start-token t h.1, h.0, h.1) refl

-- A token that is not empty and has no white space is read back from the header that carries it.
parse_bearer_credentials-token :
    (t : String) → IsToken t → parse_bearer_credentials (append "Bearer " t) ≡ some t
unfolding parse_bearer_credentials split_once append
parse_bearer_credentials-token t h =
    ap (λ v. and_then (split_once 32 v) bearer_of) (bearer_trimmed t h) ∙ bearer_of-token t h

bearer_of-IsToken : (p : String × String) (t : String) → bearer_of p ≡ some t → IsToken t
unfolding bearer_of
bearer_of-IsToken (scheme, credentials) t h = ground arith

-- Whatever the header, what is taken from it is not empty and has no white space.
parse_bearer_credentials-IsToken : (v t : String) → parse_bearer_credentials v ≡ some t → IsToken t
unfolding parse_bearer_credentials
parse_bearer_credentials-IsToken v t h =
    elim (Option-cases (split_once 32 (trim_end_matches is_space_or_tab v))) [
      | inl e ↦ absurd (ground arith)
      | inr (p, e) ↦ bearer_of-IsToken p t (rw e at h)
    ]

raw_key-IsToken :
    (random : String) → any_char is_ascii_whitespace random ≡ false → IsToken (raw_key random)
unfolding is_empty any_char append
raw_key-IsToken random h = (refl, h)

raw_key-if_key : (random : String) → if_key (raw_key random) ≡ some (raw_key random)
unfolding if_key strip_prefix append
raw_key-if_key random = refl

module _ (to_str : HeaderValue → Option String) (sha256 take_ten : String → String)
    (random : String) (headers : HeaderMap)
    (sent : and_then (get_header "authorization" headers) to_str
      ≡ some (append "Bearer " (raw_key random)))
    (alphanumeric : any_char is_ascii_whitespace random ≡ false) where
  extract_client_key-raw_key : extract_client_key to_str headers ≡ some (raw_key random)
  unfolding extract_client_key
  extract_client_key-raw_key =
      rw
        (
          sent,
          parse_bearer_credentials-token (raw_key random) (raw_key-IsToken random alphanumeric),
          raw_key-if_key random,
        )
        refl

  -- A key that is created for an existing user, sent back as a bearer token, is validated as that
  -- key of that user, if no stored key has its hash and its random part has no white space.
  pub create_api_key-validates :
      (ts user_id : ℤ) (name : Option String) (u : UserRow) (s : Store)
      → IsConsistent s
      → find_user user_id s.users ≡ some u
      → find_by String-discrete hash_of (sha256 (raw_key random)) s.api_keys ≡ none
      → let (t, r) = create_api_key sha256 take_ten random none (some ts) user_id name s in
        (id : ℤ) × (r ≡ ok (id, raw_key random))
        × (extract_and_validate_client_key to_str sha256 none none headers t
            ≡ valid (record { key_id = id; user_id = user_id }))
  unfolding create_api_key extract_and_validate_client_key
  create_api_key-validates ts user_id name u s c owner fresh =
      let (id, answer, found, user, rest) =
        insert_api_key-lookup user_id name (sha256 (raw_key random)) (take_ten (raw_key random)) ts
          u s c owner fresh in
      let made =
        on_answer-ok {B = ℤ × String} (λ i. ok (i, raw_key random))
          (insert_api_key none (some ts) user_id name (sha256 (raw_key random))
            (take_ten (raw_key random)) s)
          id answer in
      rw made (
        id,
        refl,
        rw (extract_and_validate_client_key, extract_client_key-raw_key)
            (ap (lookup_result to_str none) found),
      )
