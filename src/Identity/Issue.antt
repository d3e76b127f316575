-- ===== src/Identity/Issue.antt =====
-- The creation of API keys in crates/twl-store/src/identity.rs, and their lookup.
use Prim.Native.String.{String}
use token_weasel.Prelude.{
  suc, ◌≡◌, refl, sym, ap, subst, ◌∙◌, ◌≢◌, inl, inr, [], ◌∷◌, ◌++◌, Option, none, some,
  Option-cases, and_then, arith,
}
use token_weasel.Prelude.Int.{ℤ, pos}
use token_weasel.Prelude.Text.{String-discrete}
use token_weasel.Prelude.Result.{ok}
use token_weasel.Prelude.Table.{
  find_by, find_by-append_none, find_by-append_some, find_by-append_new,
}
use token_weasel.Identity.{UserRow, Store, hash_of, attributed_id_of, find_user}
use token_weasel.Identity.ApiKeys.{
  attribute_key, insert_key, insert_api_key, paired, joined, user_of, ids_of, get_api_key_user,
  get_api_key_id,
}
use token_weasel.Identity.Integrity.{IsConsistent, next_free}
use token_weasel.Identity.Integrity.Inserts.{insert_key-IsConsistent}
use token_weasel.Identity.Credentials.{joined-find_by, with_owner}

abbrev pub issued : ℤ → Option String → String → String → ℤ → Store → Store
issued user_id name hash prefix ts s =
    let id = pos (suc s.keys_seq) in
    record s {
      api_keys =
          s.api_keys
          ++ record {
            id = id;
            user_id = user_id;
            name = name;
            key_hash = hash;
            prefix = prefix;
            created_ts = ts;
          }
            ∷ [];
      attributions =
          s.attributions
          ++ record { api_key_id = id; user_id = user_id; name = name; prefix = prefix } ∷ [];
      keys_seq = suc s.keys_seq;
    }

module _ (user_id : ℤ) (name : Option String) (hash prefix : String) (ts : ℤ) (u : UserRow)
    (s : Store) (c : IsConsistent s) (owner : find_user user_id s.users ≡ some u)
    (fresh : find_by String-discrete hash_of hash s.api_keys ≡ none) where
  pub insert_key-issued :
      insert_key user_id name hash prefix ts s
      ≡ (issued user_id name hash prefix ts s, ok (pos (suc s.keys_seq)))
  unfolding insert_key attribute_key
  insert_key-issued =
      rw
        (
          fresh,
          insert_key,
          owner,
          attribute_key,
          next_free attributed_id_of s.keys_seq s.attributions c.attributions_numbered,
        )
        refl

  issued-IsConsistent : IsConsistent (issued user_id name hash prefix ts s)
  issued-IsConsistent =
      subst IsConsistent (ap (λ r. r.0) insert_key-issued)
        (insert_key-IsConsistent user_id name hash prefix ts s c)

  pub joined-issued :
      joined hash s.users (issued user_id name hash prefix ts s).api_keys
      ≡ some (
        record {
          id = pos (suc s.keys_seq);
          user_id = user_id;
          name = name;
          key_hash = hash;
          prefix = prefix;
          created_ts = ts;
        },
        u,
      )
  joined-issued =
      joined-find_by hash s.users (issued user_id name hash prefix ts s).api_keys
        issued-IsConsistent.key_hashes
      ∙ ap (λ o. and_then o (with_owner s.users))
          (find_by-append_new String-discrete hash_of _ s.api_keys fresh)
      ∙ ap (paired _) owner

  find_by-issued_ne :
      (h : String)
      → hash ≢ h
      → find_by String-discrete hash_of h (issued user_id name hash prefix ts s).api_keys
        ≡ find_by String-discrete hash_of h s.api_keys
  unfolding find_by
  find_by-issued_ne h d = elim (Option-cases (find_by String-discrete hash_of h s.api_keys)) [
    | inr (k, e) ↦ find_by-append_some String-discrete hash_of h k s.api_keys _ e ∙ sym e
    | inl e ↦ find_by-append_none String-discrete hash_of h s.api_keys _ e ∙ ground arith
  ]

  pub joined-issued_ne :
      (h : String)
      → hash ≢ h
      → joined h s.users (issued user_id name hash prefix ts s).api_keys
        ≡ joined h s.users s.api_keys
  joined-issued_ne h d =
      joined-find_by h s.users (issued user_id name hash prefix ts s).api_keys
        issued-IsConsistent.key_hashes
      ∙ ap (λ o. and_then o (with_owner s.users)) (find_by-issued_ne h d)
      ∙ sym (joined-find_by h s.users s.api_keys c.key_hashes)

  -- A key that is inserted for an existing user, under a hash that no key has, is found again by
  -- its hash, as a key of that user, and every other hash stands for the key and user as before.
  pub insert_api_key-lookup :
      let (t, answer) = insert_api_key none (some ts) user_id name hash prefix s in
      (id : ℤ) × (answer ≡ ok id)
      × (get_api_key_id none hash t ≡ ok (some (id, user_id)))
      × (get_api_key_user none hash t ≡ ok (some u))
      × ((h : String)
          → hash ≢ h
          → (get_api_key_id none h t ≡ get_api_key_id none h s)
            × (get_api_key_user none h t ≡ get_api_key_user none h s))
  unfolding insert_api_key get_api_key_id get_api_key_user
  insert_api_key-lookup = rw insert_key-issued (
    pos (suc s.keys_seq),
    refl,
    ap (λ o. ok (ids_of o)) joined-issued,
    ap (λ o. ok (user_of o)) joined-issued,
    λ h d. (
      ap (λ o. ok (ids_of o)) (joined-issued_ne h d),
      ap (λ o. ok (user_of o)) (joined-issued_ne h d),
    ),
  )
