-- ===== src/Identity/Integrity/Deletes.antt =====
-- The deletions of crates/twl-store/src/identity.rs keep the tables consistent.
use token_weasel.Prelude.{◌≡◌, refl, if_pos, if_neg, List, [], ◌∷◌, none, All, arith}
use token_weasel.Prelude.Int.{ℤ, ℤ-discrete}
use token_weasel.Prelude.Text.{String-discrete}
use token_weasel.Prelude.Table.{find_by, delete_by, IsUnique, All-delete_by}
use token_weasel.Prelude.Table.Columns.{IsUnique-delete_by, All-map}
use token_weasel.Identity.{
  StoredKey, Store, id_of, username_of, key_id_of, owner_of, hash_of, attributed_owner_of,
}
use token_weasel.Identity.ApiKeys.{revoke_keys, delete_owned}
use token_weasel.Identity.Users.{remove_user}
use token_weasel.Identity.Integrity.{
  IsNumbered, HasUser, IsAttributed, IsConsistent, HasUser-delete, IsAttributed-delete,
}

pub revoke_keys-IsConsistent :
    (id : ℤ) (s : Store) → IsConsistent s → IsConsistent (revoke_keys id s)
unfolding revoke_keys
revoke_keys-IsConsistent id s c = record {
  user_ids = c.user_ids;
  usernames = c.usernames;
  key_ids = IsUnique-delete_by ℤ-discrete owner_of ℤ-discrete key_id_of id s.api_keys c.key_ids;
  key_hashes =
      IsUnique-delete_by ℤ-discrete owner_of String-discrete hash_of id s.api_keys c.key_hashes;
  users_numbered = c.users_numbered;
  keys_numbered = others (λ k. IsNumbered s.keys_seq k.id) c.keys_numbered;
  attributions_numbered = c.attributions_numbered;
  keys_owned = others (λ k. HasUser s.users k.user_id) c.keys_owned;
  attributions_owned = c.attributions_owned;
  keys_attributed = others (IsAttributed s.attributions) c.keys_attributed;
}
  where
    others :
        (P : StoredKey → Type 0)
        → All P s.api_keys
        → All P (delete_by ℤ-discrete owner_of id s.api_keys)
    others P h =
        All-map _ P (delete_by ℤ-discrete owner_of id s.api_keys) (λ k q. q.1)
          (All-delete_by ℤ-discrete owner_of P id s.api_keys h)

pub remove_user-IsConsistent :
    (id : ℤ) (s : Store) → IsConsistent s → IsConsistent (remove_user id s)
unfolding remove_user revoke_keys
remove_user-IsConsistent id s c =
    let r = revoke_keys-IsConsistent id s c in
    record {
      user_ids = IsUnique-delete_by ℤ-discrete id_of ℤ-discrete id_of id s.users c.user_ids;
      usernames =
          IsUnique-delete_by ℤ-discrete id_of String-discrete username_of id s.users c.usernames;
      key_ids = r.key_ids;
      key_hashes = r.key_hashes;
      users_numbered =
          All-map _ _ (delete_by ℤ-discrete id_of id s.users) (λ u q. q.1)
            (All-delete_by ℤ-discrete id_of (λ u. IsNumbered s.users_seq u.id) id s.users
              c.users_numbered);
      keys_numbered = r.keys_numbered;
      attributions_numbered =
          All-map _ _ (delete_by ℤ-discrete attributed_owner_of id s.attributions) (λ a q. q.1)
            (All-delete_by ℤ-discrete attributed_owner_of (λ a. IsNumbered s.keys_seq a.api_key_id)
              id s.attributions c.attributions_numbered);
      keys_owned =
          All-map _ _ (delete_by ℤ-discrete owner_of id s.api_keys)
            (λ k q. HasUser-delete id k.user_id s.users q.0 q.1)
            (All-delete_by ℤ-discrete owner_of (λ k. HasUser s.users k.user_id) id s.api_keys
              c.keys_owned);
      attributions_owned =
          All-map _ _ (delete_by ℤ-discrete attributed_owner_of id s.attributions)
            (λ a q. HasUser-delete id a.user_id s.users q.0 q.1)
            (All-delete_by ℤ-discrete attributed_owner_of (λ a. HasUser s.users a.user_id) id
              s.attributions c.attributions_owned);
      keys_attributed =
          All-map _ _ (delete_by ℤ-discrete owner_of id s.api_keys)
            (λ k q. IsAttributed-delete id k s.attributions q.0 q.1)
            (All-delete_by ℤ-discrete owner_of (IsAttributed s.attributions) id s.api_keys
              c.keys_attributed);
    }

module _ (id user_id : ℤ) where
  All-delete_owned :
      (P : StoredKey → Type 0) (ks : List StoredKey) → All P ks → All P (delete_owned id user_id ks)
  unfolding delete_owned
  All-delete_owned P [] h = tt
  All-delete_owned P (k ∷ ks) h = elim (ℤ-discrete k.id id) [
    | no p ↦ rw (if_neg (ℤ-discrete k.id id) p) (h.0, All-delete_owned P ks h.1)
    | yes p ↦ rw (if_pos (ℤ-discrete k.id id) p) (elim (ℤ-discrete k.user_id user_id) [
      | yes q ↦ rw (if_pos (ℤ-discrete k.user_id user_id) q) (All-delete_owned P ks h.1)
      | no q ↦ rw (if_neg (ℤ-discrete k.user_id user_id) q) (h.0, All-delete_owned P ks h.1)
    ])
  ]

  module _ {J : Type 0} (eq : Discrete J) (column : StoredKey → J) where
    pub find_by-delete_owned :
        (j : J) (ks : List StoredKey)
        → find_by eq column j ks ≡ none
        → find_by eq column j (delete_owned id user_id ks) ≡ none
    unfolding find_by delete_owned
    find_by-delete_owned j [] h = refl
    find_by-delete_owned j (k ∷ ks) h = ground (arith, find_by-delete_owned j ks)

    IsUnique-delete_owned :
        (ks : List StoredKey)
        → IsUnique eq column ks
        → IsUnique eq column (delete_owned id user_id ks)
    unfolding delete_owned
    IsUnique-delete_owned [] u = tt
    IsUnique-delete_owned (k ∷ ks) u =
        let rest = IsUnique-delete_owned ks u.1 in
        elim (ℤ-discrete k.id id) [
          | no p ↦ rw (if_neg (ℤ-discrete k.id id) p) (find_by-delete_owned (column k) ks u.0, rest)
          | yes p ↦ rw (if_pos (ℤ-discrete k.id id) p) (elim (ℤ-discrete k.user_id user_id) [
            | yes q ↦ rw (if_pos (ℤ-discrete k.user_id user_id) q) rest
            | no q ↦
                rw (if_neg (ℤ-discrete k.user_id user_id) q)
                  (find_by-delete_owned (column k) ks u.0, rest)
          ])
        ]

  pub delete_owned-IsConsistent :
      (s : Store)
      → IsConsistent s
      → IsConsistent (record s { api_keys = delete_owned id user_id s.api_keys })
  delete_owned-IsConsistent s c = record {
    user_ids = c.user_ids;
    usernames = c.usernames;
    key_ids = IsUnique-delete_owned ℤ-discrete key_id_of s.api_keys c.key_ids;
    key_hashes = IsUnique-delete_owned String-discrete hash_of s.api_keys c.key_hashes;
    users_numbered = c.users_numbered;
    keys_numbered = All-delete_owned (λ k. IsNumbered s.keys_seq k.id) s.api_keys c.keys_numbered;
    attributions_numbered = c.attributions_numbered;
    keys_owned = All-delete_owned (λ k. HasUser s.users k.user_id) s.api_keys c.keys_owned;
    attributions_owned = c.attributions_owned;
    keys_attributed = All-delete_owned (IsAttributed s.attributions) s.api_keys c.keys_attributed;
  }
