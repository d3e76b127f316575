-- ===== src/Identity/Integrity/Inserts.antt =====
-- The inserts of crates/twl-store/src/identity.rs keep the tables consistent.
use Prim.Native.String.{String}
use token_weasel.Prelude.{
  ◌≡◌, refl, ap, inl, inr, Bool, Option, none, Option-cases, is_some, All-append,
}
use token_weasel.Prelude.Int.{ℤ, ℤ-discrete}
use token_weasel.Prelude.Text.{String-discrete}
use token_weasel.Prelude.Table.{find_by, IsUnique-append, find_by-append_new}
use token_weasel.Prelude.Table.Columns.{All-map}
use token_weasel.Identity.{
  Store, id_of, username_of, key_id_of, hash_of, attributed_id_of, find_user,
}
use token_weasel.Identity.ApiKeys.{attribute_key, insert_key}
use token_weasel.Identity.Users.{insert_user}
use token_weasel.Identity.Integrity.{
  HasUser, IsAttributed, IsConsistent, next_free, grow, HasUser-append, IsAttributed-append,
}

pub insert_user-IsConsistent :
    (name hash : String) (is_admin : Bool) (ts : ℤ) (s : Store)
    → IsConsistent s
    → IsConsistent (insert_user name hash is_admin ts s).0
unfolding insert_user
insert_user-IsConsistent name hash is_admin ts s c =
    elim (Option-cases (find_by String-discrete username_of name s.users)) [
      | inr (u, e) ↦ rw (e, insert_user) c
      | inl e ↦
          rw (e, insert_user)
            (record {
              user_ids =
                  IsUnique-append ℤ-discrete id_of _ s.users c.user_ids
                    (next_free id_of s.users_seq s.users c.users_numbered);
              usernames = IsUnique-append String-discrete username_of _ s.users c.usernames e;
              key_ids = c.key_ids;
              key_hashes = c.key_hashes;
              users_numbered = grow id_of s.users_seq _ s.users refl c.users_numbered;
              keys_numbered = c.keys_numbered;
              attributions_numbered = c.attributions_numbered;
              keys_owned =
                  All-map _ _ s.api_keys (λ k. HasUser-append k.user_id _ s.users) c.keys_owned;
              attributions_owned =
                  All-map _ _ s.attributions (λ a. HasUser-append a.user_id _ s.users)
                    c.attributions_owned;
              keys_attributed = c.keys_attributed;
            })
    ]

attribute_key-IsConsistent :
    (user_id : ℤ) (name : Option String) (hash prefix : String) (ts : ℤ) (s : Store)
    → IsConsistent s
    → find_by String-discrete hash_of hash s.api_keys ≡ none
    → HasUser s.users user_id
    → IsConsistent (attribute_key user_id name hash prefix ts s).0
unfolding attribute_key
attribute_key-IsConsistent user_id name hash prefix ts s c fresh owner =
    let free = next_free attributed_id_of s.keys_seq s.attributions c.attributions_numbered in
    rw (free, attribute_key)
      (record {
        user_ids = c.user_ids;
        usernames = c.usernames;
        key_ids =
            IsUnique-append ℤ-discrete key_id_of _ s.api_keys c.key_ids
              (next_free key_id_of s.keys_seq s.api_keys c.keys_numbered);
        key_hashes = IsUnique-append String-discrete hash_of _ s.api_keys c.key_hashes fresh;
        users_numbered = c.users_numbered;
        keys_numbered = grow key_id_of s.keys_seq _ s.api_keys refl c.keys_numbered;
        attributions_numbered =
            grow attributed_id_of s.keys_seq _ s.attributions refl c.attributions_numbered;
        keys_owned =
            All-append (λ k. HasUser s.users k.user_id) s.api_keys _ c.keys_owned (owner, tt);
        attributions_owned =
            All-append (λ a. HasUser s.users a.user_id) s.attributions _ c.attributions_owned
              (owner, tt);
        keys_attributed =
            All-append (IsAttributed _) s.api_keys _
              (All-map _ _ s.api_keys (λ k. IsAttributed-append k _ s.attributions)
                c.keys_attributed)
              ((_, find_by-append_new ℤ-discrete attributed_id_of _ s.attributions free, refl), tt);
      })

pub insert_key-IsConsistent :
    (user_id : ℤ) (name : Option String) (hash prefix : String) (ts : ℤ) (s : Store)
    → IsConsistent s
    → IsConsistent (insert_key user_id name hash prefix ts s).0
unfolding insert_key
insert_key-IsConsistent user_id name hash prefix ts s c =
    elim (Option-cases (find_by String-discrete hash_of hash s.api_keys)) [
      | inr (k, e) ↦ rw (e, insert_key) c
      | inl e ↦ elim (Option-cases (find_user user_id s.users)) [
        | inl n ↦ rw (e, insert_key, n) c
        | inr (u, o) ↦
            rw (e, insert_key, o)
              (attribute_key-IsConsistent user_id name hash prefix ts s c e (ap is_some o))
      ]
    ]
