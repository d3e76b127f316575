-- ===== src/Identity/Owned.antt =====
-- What the statements of crates/twl-store/src/identity.rs that act for one user leave of the others.
use Prim.Native.String.{String}
use token_weasel.Prelude.{
  ◌≡◌, refl, sym, ap, subst, ◌∙◌, ◌≢◌, inl, inr, Bool, List, [], ◌∷◌, Option, none, some,
  Option-cases, and_then, arith, ite, if_pos, if_neg,
}
use token_weasel.Prelude.Int.{ℤ, ℤ-discrete}
use token_weasel.Prelude.Text.{String-discrete}
use token_weasel.Prelude.Result.{ok-injective}
use token_weasel.Prelude.Table.{find_by, IsUnique}
use token_weasel.Identity.{DbError, UserRow, StoredKey, Store, hash_of, find_user}
use token_weasel.Identity.ApiKeys as ApiKeys
use token_weasel.Identity.ApiKeys.{ids_of, insert_key, insert_api_key, delete_owned, delete_api_key}
use token_weasel.Identity.Integrity.{IsConsistent}
use token_weasel.Identity.Integrity.Deletes.{find_by-delete_owned, delete_owned-IsConsistent}
use token_weasel.Identity.Credentials.{
  with_owner, withheld, authenticated, authenticated-find_by, ids_with_owner,
}
use token_weasel.Identity.Issue.{issued, insert_key-issued, joined-issued, joined-issued_ne}
use token_weasel.Identity.Revocation.{IsRekeyed}

abbrev rank_of : Option UserRow → Option Bool
rank_of none = none
rank_of (some u) = some u.is_admin

-- Of everybody else, the rows and what their keys authenticate are as before; the user's own rank is.
pub record Isolated (id : ℤ) (s t : Store) : Type 0 where
  pub others : (j : ℤ) → id ≢ j → find_user j t.users ≡ find_user j s.users
  pub rank : rank_of (find_user id t.users) ≡ rank_of (find_user id s.users)
  pub keys : (h : String) → withheld id (authenticated h t) ≡ withheld id (authenticated h s)

pub Isolated-refl : (id : ℤ) (s : Store) → Isolated id s s
Isolated-refl id s = record { others = λ j d. refl; rank = refl; keys = λ h. refl }

withheld_twice : (id : ℤ) (o : Option (ℤ × ℤ)) → withheld id (withheld id o) ≡ withheld id o
withheld_twice id none = refl
withheld_twice id (some (k, i)) = ground arith

withheld_own : (id key_id : ℤ) → withheld id (some (key_id, id)) ≡ none
withheld_own id key_id = if_pos (ℤ-discrete id id) refl _ _

pub IsRekeyed-Isolated :
    (id : ℤ) (u : UserRow) (hash : String) (s t : Store)
    → find_user id s.users ≡ some u
    → IsRekeyed id u hash s t
    → Isolated id s t
unfolding ApiKeys.get_api_key_id
IsRekeyed-Isolated id u hash s t e r = record {
  others = r.others;
  rank = ap rank_of r.rehashed ∙ sym (ap rank_of e);
  keys = λ h. ap (withheld id) (ok-injective (r.keys h)) ∙ withheld_twice id (authenticated h s);
}

-- a key, unless its owner is `id`
abbrev other_owner : ℤ → Option StoredKey → Option StoredKey
other_owner id none = none
other_owner id (some k) = ite (ℤ-discrete k.user_id id) none (some k)

other_owner-delete_owned :
    (id user_id : ℤ) (h : String) (ks : List StoredKey)
    → IsUnique String-discrete hash_of ks
    → other_owner user_id (find_by String-discrete hash_of h (delete_owned id user_id ks))
      ≡ other_owner user_id (find_by String-discrete hash_of h ks)
unfolding find_by delete_owned
other_owner-delete_owned id user_id h [] v = refl
other_owner-delete_owned id user_id h (k ∷ ks) v = elim (String-discrete k.key_hash h) [
  | yes p ↦ ground (
    arith,
    other_owner-delete_owned id user_id h ks v.1,
    find_by-delete_owned id user_id String-discrete hash_of h ks (rw p at v.0),
  )
  | no p ↦ ground (arith, other_owner-delete_owned id user_id h ks v.1)
]

withheld-with_owner :
    (id : ℤ) (users : List UserRow) (o : Option StoredKey)
    → withheld id (ids_of (and_then o (with_owner users)))
      ≡ ids_of (and_then (other_owner id o) (with_owner users))
withheld-with_owner id users none = refl
withheld-with_owner id users (some k) = elim (ℤ-discrete k.user_id id) [
  | yes p ↦ rw (ids_with_owner users k, if_pos (ℤ-discrete k.user_id id) p) (ground arith)
  | no p ↦ rw (if_neg (ℤ-discrete k.user_id id) p) (rw (ids_with_owner users k) (ground arith))
]

-- Deleting an own key leaves the other users alone.
pub delete_api_key-Isolated :
    (fault : Option DbError) (id user_id : ℤ) (s : Store)
    → IsConsistent s
    → Isolated user_id s (delete_api_key fault id user_id s).0
unfolding delete_api_key
delete_api_key-Isolated (some e) id user_id s c = Isolated-refl user_id s
delete_api_key-Isolated none id user_id s c = record {
  others = λ j d. refl;
  rank = refl;
  keys = λ h.
      ap (withheld user_id) (
        authenticated-find_by h (record s { api_keys = delete_owned id user_id s.api_keys })
          (delete_owned-IsConsistent id user_id s c))
      ∙ withheld-with_owner user_id s.users
          (find_by String-discrete hash_of h (delete_owned id user_id s.api_keys))
      ∙ ap (λ o. ids_of (and_then o (with_owner s.users)))
          (other_owner-delete_owned id user_id h s.api_keys c.key_hashes)
      ∙ sym (withheld-with_owner user_id s.users (find_by String-discrete hash_of h s.api_keys))
      ∙ ap (withheld user_id) (sym (authenticated-find_by h s c));
}

module _ (user_id : ℤ) (name : Option String) (hash prefix : String) (ts : ℤ) (s : Store)
    (c : IsConsistent s) where
  issued_keys :
      (u : UserRow) (h : String)
      → find_user user_id s.users ≡ some u
      → find_by String-discrete hash_of hash s.api_keys ≡ none
      → withheld user_id (authenticated h (issued user_id name hash prefix ts s))
        ≡ withheld user_id (authenticated h s)
  issued_keys u h o e = elim (String-discrete hash h) [
    | no d ↦
        ap (λ x. withheld user_id (ids_of x))
          (joined-issued_ne user_id name hash prefix ts u s c o e h d)
    | yes p ↦
        subst
          (λ x.
            withheld user_id (authenticated x (issued user_id name hash prefix ts s))
            ≡ withheld user_id (authenticated x s))
          p
          (ap (λ x. withheld user_id (ids_of x))
              (joined-issued user_id name hash prefix ts u s c o e)
            ∙ withheld_own user_id _
            ∙ sym (
                ap (withheld user_id) (authenticated-find_by hash s c)
                ∙ ap (λ x. withheld user_id (ids_of (and_then x (with_owner s.users)))) e))
  ]

  insert_key-Isolated : Isolated user_id s (insert_key user_id name hash prefix ts s).0
  unfolding insert_key
  insert_key-Isolated = elim (Option-cases (find_by String-discrete hash_of hash s.api_keys)) [
    | inr (k, e) ↦ rw (e, insert_key) (Isolated-refl user_id s)
    | inl e ↦ elim (Option-cases (find_user user_id s.users)) [
      | inl n ↦ rw (e, insert_key, n) (Isolated-refl user_id s)
      | inr (u, o) ↦
          subst (λ r. Isolated user_id s r.0)
            (sym (insert_key-issued user_id name hash prefix ts u s c o e))
            (record { others = λ j d. refl; rank = refl; keys = λ h. issued_keys u h o e })
    ]
  ]

-- Creating an own key leaves the other users alone.
pub insert_api_key-Isolated :
    (fault : Option DbError) (clock : Option ℤ) (user_id : ℤ) (name : Option String)
    (hash prefix : String) (s : Store)
    → IsConsistent s
    → Isolated user_id s (insert_api_key fault clock user_id name hash prefix s).0
unfolding insert_api_key
insert_api_key-Isolated fault none user_id name hash prefix s c = Isolated-refl user_id s
insert_api_key-Isolated (some e) (some ts) user_id name hash prefix s c = Isolated-refl user_id s
insert_api_key-Isolated none (some ts) user_id name hash prefix s c =
    insert_key-Isolated user_id name hash prefix ts s c
