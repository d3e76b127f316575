-- ===== src/Identity/Reach.antt =====
-- Every statement of `IdentityStore`, in any order and with any failures, as a step relation.
use Prim.Native.String.{String}
use token_weasel.Prelude.{
  ◌+◌, ◌≤◌, ◌<◌, ◌≡◌, refl, ◌⊎◌, inl, inr, Bool, false, List, [], ◌∷◌, ◌++◌, Option, none, some,
  Option-cases, Bool-cases, leb, ◌==◌, if◌then◌else◌, arith,
}
use token_weasel.Prelude.Int.{ℤ, ℤ-discrete}
use token_weasel.Prelude.Text.{String-discrete}
use token_weasel.Prelude.Table.{find_by, delete_by, update_by, IsUnique}
use token_weasel.Identity.{DbError, UserRow, Store, id_of, username_of, find_user}
use token_weasel.Identity.ApiKeys.{
  attribute_key, insert_key, insert_api_key, revoke_keys, delete_api_key, delete_api_keys_for_user,
}
use token_weasel.Identity.Users.{
  insert_user, create_user, set_password, update_password, replace_password_and_revoke_keys,
  swap_if, swap_hash, count_matching, compare_and_swap_password_and_revoke_keys, count_admins,
  remove_user, set_hash, delete_guarded, delete_user_guarded,
}
use token_weasel.Identity.Integrity.{IsConsistent}
use token_weasel.Identity.Integrity.Inserts.{insert_user-IsConsistent, insert_key-IsConsistent}
use token_weasel.Identity.Integrity.Updates.{set_password-IsConsistent, swap_hash-IsConsistent}
use token_weasel.Identity.Integrity.Deletes.{
  revoke_keys-IsConsistent, remove_user-IsConsistent, delete_owned-IsConsistent,
}

abbrev pub empty_store : Store
empty_store = record { users = []; api_keys = []; attributions = []; users_seq = 0; keys_seq = 0 }

pub data Step (s : Store) : Store → Type 0 where
  user_created :
      (fault : Option DbError) (clock : Option ℤ) (name hash : String) (is_admin : Bool)
      → Step s (create_user fault clock name hash is_admin s).0
  key_inserted :
      (fault : Option DbError) (clock : Option ℤ) (user_id : ℤ) (name : Option String)
      (hash prefix : String)
      → Step s (insert_api_key fault clock user_id name hash prefix s).0
  password_updated :
      (fault : Option DbError) (id : ℤ) (hash : String) → Step s (update_password fault id hash s).0
  password_replaced :
      (fault : Option DbError) (id : ℤ) (hash : String)
      → Step s (replace_password_and_revoke_keys fault id hash s).0
  password_swapped :
      (fault : Option DbError) (id : ℤ) (expected hash : String)
      → Step s (compare_and_swap_password_and_revoke_keys fault id expected hash s).0
  user_deleted : (fault : Option DbError) (id : ℤ) → Step s (delete_user_guarded fault id s).0
  key_deleted :
      (fault : Option DbError) (id user_id : ℤ) → Step s (delete_api_key fault id user_id s).0
  keys_deleted :
      (fault : Option DbError) (user_id : ℤ) → Step s (delete_api_keys_for_user fault user_id s).0

pub data Run (s : Store) : Store → Type 0 where
  here : Run s s
  next : {t u : Store} → Run s t → Step t u → Run s u

-- A guarded deletion does nothing, or removes a user that is no admin or not the last one.
delete_user_guarded-elim :
    (P : Store → Type 0) (fault : Option DbError) (id : ℤ) (s : Store)
    → P s
    → ((u : UserRow)
        → find_user id s.users ≡ some u
        → (u.is_admin ≡ false) ⊎ (1 < count_admins s.users)
        → P (remove_user id s))
    → P (delete_user_guarded fault id s).0
unfolding delete_user_guarded delete_guarded
delete_user_guarded-elim P (some e) id s same gone = same
delete_user_guarded-elim P none id s same gone = elim (Option-cases (find_user id s.users)) [
  | inl e ↦ rw (e, delete_guarded) same
  | inr (u, e) ↦ elim (Bool-cases u.is_admin) [
    | inr plain ↦ rw (e, delete_guarded, plain) (gone u e (inl plain))
    | inl admin ↦ elim (Bool-cases (leb (count_admins s.users) 1)) [
      | inl last ↦ rw (e, delete_guarded, admin, last) same
      | inr more ↦ rw (e, delete_guarded, admin, more) (gone u e (inr (ground arith)))
    ]
  ]
]

Step-IsConsistent : {s t : Store} → Step s t → IsConsistent s → IsConsistent t
unfolding create_user insert_api_key update_password replace_password_and_revoke_keys
    compare_and_swap_password_and_revoke_keys delete_api_key delete_api_keys_for_user
Step-IsConsistent {s} (user_created fault none name hash is_admin) c = c
Step-IsConsistent {s} (user_created (some e) (some ts) name hash is_admin) c = c
Step-IsConsistent {s} (user_created none (some ts) name hash is_admin) c =
    insert_user-IsConsistent name hash is_admin ts s c
Step-IsConsistent {s} (key_inserted fault none user_id name hash prefix) c = c
Step-IsConsistent {s} (key_inserted (some e) (some ts) user_id name hash prefix) c = c
Step-IsConsistent {s} (key_inserted none (some ts) user_id name hash prefix) c =
    insert_key-IsConsistent user_id name hash prefix ts s c
Step-IsConsistent {s} (password_updated (some e) id hash) c = c
Step-IsConsistent {s} (password_updated none id hash) c = set_password-IsConsistent id hash s c
Step-IsConsistent {s} (password_replaced (some e) id hash) c = c
Step-IsConsistent {s} (password_replaced none id hash) c =
    revoke_keys-IsConsistent id (set_password id hash s) (set_password-IsConsistent id hash s c)
Step-IsConsistent {s} (password_swapped (some e) id expected hash) c = c
Step-IsConsistent {s} (password_swapped none id expected hash) c =
    let swapped : Store = record s { users = swap_hash id expected hash s.users } in
    let kept : IsConsistent swapped = swap_hash-IsConsistent id expected hash s c in
    elim (Bool-cases (count_matching id expected s.users == 1)) [
      | inl e ↦ rw e (revoke_keys-IsConsistent id swapped kept)
      | inr e ↦ rw e kept
    ]
Step-IsConsistent {s} (user_deleted fault id) c =
    delete_user_guarded-elim IsConsistent fault id s c
      (λ u e guarded. remove_user-IsConsistent id s c)
Step-IsConsistent {s} (key_deleted (some e) id user_id) c = c
Step-IsConsistent {s} (key_deleted none id user_id) c = delete_owned-IsConsistent id user_id s c
Step-IsConsistent {s} (keys_deleted (some e) user_id) c = c
Step-IsConsistent {s} (keys_deleted none user_id) c = revoke_keys-IsConsistent user_id s c

count_admins-append :
    (us : List UserRow) (u : UserRow) → count_admins us ≤ count_admins (us ++ u ∷ [])
unfolding count_admins
count_admins-append [] u = omega arith
count_admins-append (v ∷ us) u = omega (arith, count_admins-append us u)

count_admins-update_by :
    (id : ℤ) (g : UserRow → UserRow) (us : List UserRow)
    → ((u : UserRow) → (g u).is_admin ≡ u.is_admin)
    → count_admins (update_by ℤ-discrete id_of id g us) ≡ count_admins us
unfolding count_admins update_by
count_admins-update_by id g [] same = refl
count_admins-update_by id g (u ∷ us) same =
    ground (arith, same u, count_admins-update_by id g us same)

count_admins-delete_none :
    (id : ℤ) (us : List UserRow)
    → find_user id us ≡ none
    → count_admins (delete_by ℤ-discrete id_of id us) ≡ count_admins us
unfolding count_admins delete_by find_by
count_admins-delete_none id [] h = refl
count_admins-delete_none id (u ∷ us) h = ground (arith, count_admins-delete_none id us)

count_admins-delete_by :
    (id : ℤ) (u : UserRow) (us : List UserRow)
    → IsUnique ℤ-discrete id_of us
    → find_user id us ≡ some u
    → count_admins us
      ≡ (if u.is_admin then 1 else 0) + count_admins (delete_by ℤ-discrete id_of id us)
unfolding count_admins delete_by find_by
count_admins-delete_by id u [] v h = ground arith
count_admins-delete_by id u (w ∷ us) v h = elim (ℤ-discrete w.id id) [
  | yes p ↦ ground (arith, count_admins-delete_none id us (rw p at v.0))
  | no p ↦ ground (arith, count_admins-delete_by id u us v.1)
]

abbrev HasAdmin : Store → Type 0
HasAdmin s = 0 < count_admins s.users

remove_user-HasAdmin :
    (id : ℤ) (s : Store)
    → IsConsistent s
    → HasAdmin s
    → (u : UserRow) → find_user id s.users ≡ some u
    → (u.is_admin ≡ false) ⊎ (1 < count_admins s.users)
    → HasAdmin (remove_user id s)
unfolding remove_user
remove_user-HasAdmin id s c a u e (inl plain) =
    ground (arith, count_admins-delete_by id u s.users c.user_ids e)
remove_user-HasAdmin id s c a u e (inr more) =
    ground (arith, count_admins-delete_by id u s.users c.user_ids e)

insert_user-HasAdmin :
    (name hash : String) (is_admin : Bool) (ts : ℤ) (s : Store)
    → HasAdmin s
    → HasAdmin (insert_user name hash is_admin ts s).0
unfolding insert_user
insert_user-HasAdmin name hash is_admin ts s a =
    elim (Option-cases (find_by String-discrete username_of name s.users)) [
      | inr (u, e) ↦ rw (e, insert_user) a
      | inl e ↦ rw (e, insert_user) (omega (arith, count_admins-append s.users))
    ]

insert_key-users :
    (user_id : ℤ) (name : Option String) (hash prefix : String) (ts : ℤ) (s : Store)
    → (insert_key user_id name hash prefix ts s).0.users ≡ s.users
unfolding insert_key attribute_key
insert_key-users user_id name hash prefix ts s = ground arith

set_password-HasAdmin :
    (id : ℤ) (hash : String) (s : Store) → HasAdmin s → HasAdmin (set_password id hash s)
unfolding set_password
set_password-HasAdmin id hash s a =
    rw (count_admins-update_by id (set_hash hash) s.users (λ u. refl)) a

Step-HasAdmin : {s t : Store} → Step s t → IsConsistent s → HasAdmin s → HasAdmin t
unfolding create_user insert_api_key update_password replace_password_and_revoke_keys
    compare_and_swap_password_and_revoke_keys delete_api_key delete_api_keys_for_user revoke_keys
    swap_hash
Step-HasAdmin {s} (user_created fault none name hash is_admin) c a = a
Step-HasAdmin {s} (user_created (some e) (some ts) name hash is_admin) c a = a
Step-HasAdmin {s} (user_created none (some ts) name hash is_admin) c a =
    insert_user-HasAdmin name hash is_admin ts s a
Step-HasAdmin {s} (key_inserted fault none user_id name hash prefix) c a = a
Step-HasAdmin {s} (key_inserted (some e) (some ts) user_id name hash prefix) c a = a
Step-HasAdmin {s} (key_inserted none (some ts) user_id name hash prefix) c a =
    rw (insert_key-users user_id name hash prefix ts s) a
Step-HasAdmin {s} (password_updated (some e) id hash) c a = a
Step-HasAdmin {s} (password_updated none id hash) c a = set_password-HasAdmin id hash s a
Step-HasAdmin {s} (password_replaced (some e) id hash) c a = a
Step-HasAdmin {s} (password_replaced none id hash) c a = set_password-HasAdmin id hash s a
Step-HasAdmin {s} (password_swapped (some e) id expected hash) c a = a
Step-HasAdmin {s} (password_swapped none id expected hash) c a =
    let kept : count_admins (update_by ℤ-discrete id_of id (swap_if expected hash) s.users)
        ≡ count_admins s.users =
      count_admins-update_by id (swap_if expected hash) s.users (λ u. ground arith) in
    ground arith
Step-HasAdmin {s} (user_deleted fault id) c a =
    delete_user_guarded-elim HasAdmin fault id s a (remove_user-HasAdmin id s c a)
Step-HasAdmin {s} (key_deleted (some e) id user_id) c a = a
Step-HasAdmin {s} (key_deleted none id user_id) c a = a
Step-HasAdmin {s} (keys_deleted (some e) user_id) c a = a
Step-HasAdmin {s} (keys_deleted none user_id) c a = a

-- Of a store that meets the schema, and in whatever order statements run and fail, the tables stay
-- consistent: ids, user names and key hashes are unique, no id is used twice, every key has its
-- owner and an attribution to that owner. And once there is an administrator there is always one.
pub Run-IsConsistent :
    {s t : Store}
    → Run s t
    → IsConsistent s
    → IsConsistent t × (0 < count_admins s.users → 0 < count_admins t.users)
Run-IsConsistent here c = (c, λ a. a)
Run-IsConsistent (next r st) c =
    let (kept, admin) = Run-IsConsistent r c in
    (Step-IsConsistent st kept, λ a. Step-HasAdmin st kept (admin a))
