-- ===== src/Identity/Users.antt =====
-- The statements on `users` of crates/twl-store/src/identity.rs.
use Prim.Native.String.{String}
use token_weasel.Prelude.{
  ℕ, suc, ◌+◌, Bool, List, [], ◌∷◌, ◌++◌, Option, none, some, ◌==◌, leb, if◌then◌else◌, ite, map,
  length,
}
use token_weasel.Prelude.Int.{ℤ, pos, ℤ-discrete}
use token_weasel.Prelude.Text.{String-discrete}
use token_weasel.Prelude.Table.{find_by, delete_by, update_by, count_by}
use token_weasel.Prelude.Result.{Result, ok, err}
use token_weasel.Identity.{
  DbError, unique_violation, UserRow, UserListRow, Store, DeleteUserOutcome, deleted, not_found,
  last_admin, id_of, username_of, attributed_owner_of, find_user, Transaction, with_fault, read,
  with_clock,
}
use token_weasel.Identity.ApiKeys.{revoke_keys}

unfoldable pub count_users : Option DbError → Store → Result DbError ℕ
count_users fault s = read fault (length s.users)

unfoldable pub get_user : Option DbError → String → Store → Result DbError (Option UserRow)
get_user fault username s = read fault (find_by String-discrete username_of username s.users)

unfoldable pub get_user_by_id : Option DbError → ℤ → Store → Result DbError (Option UserRow)
get_user_by_id fault id s = read fault (find_user id s.users)

unfoldable pub insert_user : String → String → Bool → ℤ → Transaction ℤ
insert_user username hash is_admin ts s =
    elim (find_by String-discrete username_of username s.users) [
      | some u ↦ (s, err unique_violation)
      | none ↦
          let id = pos (suc s.users_seq) in
          (
            record s {
              users =
                  s.users
                  ++ record {
                    id = id;
                    username = username;
                    password_hash = hash;
                    is_admin = is_admin;
                    created_ts = ts;
                  }
                    ∷ [];
              users_seq = suc s.users_seq;
            },
            ok id,
          )
    ]

unfoldable pub create_user : Option DbError → Option ℤ → String → String → Bool → Transaction ℤ
create_user fault clock username hash is_admin =
    with_clock clock (λ ts. with_fault fault (insert_user username hash is_admin ts))

abbrev to_list_row : UserRow → UserListRow
to_list_row u = record {
  id = u.id;
  username = u.username;
  is_admin = u.is_admin;
  created_ts = u.created_ts;
}

unfoldable pub list_users :
    (List UserRow → List UserRow) → Option DbError → Store → Result DbError (List UserListRow)
list_users oldest_first fault s = read fault (map to_list_row (oldest_first s.users))

abbrev pub set_hash : String → UserRow → UserRow
set_hash hash u = record u { password_hash = hash }

unfoldable pub set_password : ℤ → String → Store → Store
set_password id hash s = record s { users = update_by ℤ-discrete id_of id (set_hash hash) s.users }

unfoldable pub update_password : Option DbError → ℤ → String → Transaction ℕ
update_password fault id hash =
    with_fault fault (λ s. (set_password id hash s, ok (count_by ℤ-discrete id_of id s.users)))

unfoldable pub replace_password_and_revoke_keys : Option DbError → ℤ → String → Transaction ℕ
replace_password_and_revoke_keys fault id hash =
    with_fault fault
      λ s. (revoke_keys id (set_password id hash s), ok (count_by ℤ-discrete id_of id s.users))

-- `WHERE id = ? AND password_hash = ?`
abbrev pub swap_if : String → String → UserRow → UserRow
swap_if expected hash u = ite (String-discrete u.password_hash expected) (set_hash hash u) u

unfoldable pub swap_hash : ℤ → String → String → List UserRow → List UserRow
swap_hash id expected hash = update_by ℤ-discrete id_of id (swap_if expected hash)

unfoldable pub count_matching : ℤ → String → List UserRow → ℕ
count_matching id expected [] = 0
count_matching id expected (u ∷ us) =
    ite (ℤ-discrete u.id id) (ite (String-discrete u.password_hash expected) 1 0) 0
    + count_matching id expected us

unfoldable pub compare_and_swap_password_and_revoke_keys :
    Option DbError → ℤ → String → String → Transaction ℕ
compare_and_swap_password_and_revoke_keys fault id expected hash = with_fault fault λ s.
    let updated = count_matching id expected s.users in
    let swapped : Store = record s { users = swap_hash id expected hash s.users } in
    (if updated == 1 then revoke_keys id swapped else swapped, ok updated)

unfoldable pub count_admins : List UserRow → ℕ
count_admins [] = 0
count_admins (u ∷ us) = (if u.is_admin then 1 else 0) + count_admins us

-- The keys go first, so that the foreign key of `api_keys` is met; the attributions of the user
-- go with the row by ON DELETE CASCADE.
unfoldable pub remove_user : ℤ → Store → Store
unfolding revoke_keys
remove_user id s =
    let s' = revoke_keys id s in
    record s' {
      users = delete_by ℤ-discrete id_of id s'.users;
      attributions = delete_by ℤ-discrete attributed_owner_of id s'.attributions;
    }

unfoldable pub delete_guarded : ℤ → Transaction DeleteUserOutcome
delete_guarded id s = elim (find_user id s.users) [
  | none ↦ (s, ok not_found)
  | some u ↦
      if u.is_admin
      then (if leb (count_admins s.users) 1
          then (s, ok last_admin)
          else (remove_user id s, ok deleted))
      else (remove_user id s, ok deleted)
]

unfoldable pub delete_user_guarded : Option DbError → ℤ → Transaction DeleteUserOutcome
delete_user_guarded fault id = with_fault fault (delete_guarded id)
