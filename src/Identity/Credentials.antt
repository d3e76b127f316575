-- ===== src/Identity/Credentials.antt =====
-- Which API keys authenticate whom, before and after the statements of
-- crates/twl-store/src/identity.rs that hand them out and revoke them.
use Prim.Native.String.{String}
use token_weasel.Prelude.{
  ◌≡◌, refl, sym, ap, ◌∙◌, ite, if_pos, if_neg, inl, inr, List, [], ◌∷◌, Option, none, some,
  Option-cases, is_some, or_else, and_then, arith, if◌then◌else◌,
}
use token_weasel.Prelude.Int.{ℤ, ℤ-discrete}
use token_weasel.Prelude.Text.{String-discrete}
use token_weasel.Prelude.Table.{find_by, delete_by, update_by, IsUnique}
use token_weasel.Prelude.Table.Columns.{
  find_by-delete_by-none, find_by-delete_by-some, find_by-delete_by_gone, is_some-find_by-update_by,
}
use token_weasel.Identity.{UserRow, StoredKey, Store, id_of, hash_of, owner_of, find_user}
use token_weasel.Identity.ApiKeys.{revoke_keys, paired, joined, ids_of}
use token_weasel.Identity.Integrity.{IsConsistent}
use token_weasel.Identity.Integrity.Deletes.{revoke_keys-IsConsistent}

abbrev pub with_owner : List UserRow → StoredKey → Option (StoredKey × UserRow)
with_owner users k = paired k (find_user k.user_id users)

joined-none :
    (hash : String) (users : List UserRow) (ks : List StoredKey)
    → find_by String-discrete hash_of hash ks ≡ none
    → joined hash users ks ≡ none
unfolding joined find_by
joined-none hash users [] h = refl
joined-none hash users (k ∷ ks) h = ground (arith, joined-none hash users ks)

-- With unique hashes the join is a lookup of the key and one of its owner.
pub joined-find_by :
    (hash : String) (users : List UserRow) (ks : List StoredKey)
    → IsUnique String-discrete hash_of ks
    → joined hash users ks ≡ and_then (find_by String-discrete hash_of hash ks) (with_owner users)
unfolding joined find_by
joined-find_by hash users [] u = refl
joined-find_by hash users (k ∷ ks) u = elim (String-discrete k.key_hash hash) [
  | yes p ↦
      if_pos (String-discrete k.key_hash hash) p _ _
      ∙ alone (find_user k.user_id users) (joined-none hash users ks (rw p at u.0))
      ∙ ap (λ o. and_then o (with_owner users))
          (sym (if_pos (String-discrete k.key_hash hash) p _ _))
  | no p ↦
      if_neg (String-discrete k.key_hash hash) p _ _
      ∙ joined-find_by hash users ks u.1
      ∙ ap (λ o. and_then o (with_owner users))
          (sym (if_neg (String-discrete k.key_hash hash) p _ _))
]
  where
    alone :
        (o : Option UserRow)
        → joined hash users ks ≡ none
        → or_else (paired k o) (joined hash users ks) ≡ paired k o
    alone none e = e
    alone (some w) e = refl

-- what is left of an answer when the keys of `id` are revoked
abbrev pub withheld : ℤ → Option (ℤ × ℤ) → Option (ℤ × ℤ)
withheld id none = none
withheld id (some (key_id, user_id)) = ite (ℤ-discrete user_id id) none (some (key_id, user_id))

pub ids_with_owner :
    (users : List UserRow) (k : StoredKey)
    → ids_of (with_owner users k)
      ≡ (if is_some (find_user k.user_id users) then some (k.id, k.user_id) else none)
ids_with_owner users k = elim (Option-cases (find_user k.user_id users)) [
  | inl e ↦ rw e refl
  | inr (u, e) ↦ rw e refl
]

-- which key and user a hash stands for
abbrev pub authenticated : String → Store → Option (ℤ × ℤ)
authenticated hash s = ids_of (joined hash s.users s.api_keys)

pub authenticated-find_by :
    (hash : String) (s : Store)
    → IsConsistent s
    → authenticated hash s
      ≡ ids_of (and_then (find_by String-discrete hash_of hash s.api_keys) (with_owner s.users))
authenticated-find_by hash s c = ap ids_of (joined-find_by hash s.users s.api_keys c.key_hashes)

revoked-find_by :
    (id : ℤ) (hash : String) (users : List UserRow) (ks : List StoredKey)
    → IsUnique String-discrete hash_of ks
    → ids_of (
        and_then
          (find_by String-discrete hash_of hash (delete_by ℤ-discrete owner_of id ks))
          (with_owner users))
      ≡ withheld id (ids_of (and_then (find_by String-discrete hash_of hash ks) (with_owner users)))
revoked-find_by id hash users ks u = elim (Option-cases (find_by String-discrete hash_of hash ks)) [
  | inl e ↦
      rw (e, find_by-delete_by-none ℤ-discrete owner_of String-discrete hash_of id hash ks e) refl
  | inr (k, e) ↦ elim (ℤ-discrete k.user_id id) [
    | yes p ↦
        rw
          (
            e,
            find_by-delete_by_gone ℤ-discrete owner_of String-discrete hash_of id hash k ks u e p,
            ids_with_owner users k,
          )
          (ground arith)
    | no p ↦
        rw
          (
            e,
            find_by-delete_by-some ℤ-discrete owner_of String-discrete hash_of id hash k ks e p,
            ids_with_owner users k,
          )
          (ground arith)
  ]
]

-- Revoking the keys of a user withholds exactly that user's.
pub authenticated-revoke_keys :
    (id : ℤ) (hash : String) (s : Store)
    → IsConsistent s
    → authenticated hash (revoke_keys id s) ≡ withheld id (authenticated hash s)
unfolding revoke_keys
authenticated-revoke_keys id hash s c =
    authenticated-find_by hash (revoke_keys id s) (revoke_keys-IsConsistent id s c)
    ∙ revoked-find_by id hash s.users s.api_keys c.key_hashes
    ∙ ap (withheld id) (sym (authenticated-find_by hash s c))

-- Whose keys authenticate does not depend on the passwords.
pub authenticated-update_by :
    (id : ℤ) (g : UserRow → UserRow) (hash : String) (s : Store)
    → ((u : UserRow) → (g u).id ≡ u.id)
    → IsConsistent s
    → authenticated hash (record s { users = update_by ℤ-discrete id_of id g s.users })
      ≡ authenticated hash s
authenticated-update_by id g hash s same c =
    ap ids_of
      (joined-find_by hash (update_by ℤ-discrete id_of id g s.users) s.api_keys c.key_hashes)
    ∙ still (find_by String-discrete hash_of hash s.api_keys)
    ∙ sym (authenticated-find_by hash s c)
  where
    still :
        (o : Option StoredKey)
        → ids_of (and_then o (with_owner (update_by ℤ-discrete id_of id g s.users)))
          ≡ ids_of (and_then o (with_owner s.users))
    still none = refl
    still (some k) =
        ids_with_owner (update_by ℤ-discrete id_of id g s.users) k
        ∙ ap (λ b. if b then some (k.id, k.user_id) else none)
            (is_some-find_by-update_by ℤ-discrete id_of ℤ-discrete id_of id k.user_id g s.users
              same)
        ∙ sym (ids_with_owner s.users k)
