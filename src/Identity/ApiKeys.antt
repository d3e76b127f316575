-- ===== src/Identity/ApiKeys.antt =====
-- The statements on `api_keys` and `api_key_attribution` of crates/twl-store/src/identity.rs.
use Prim.Native.String.{String}
use token_weasel.Prelude.{ℕ, suc, ◌+◌, List, [], ◌∷◌, ◌++◌, Option, none, some, ite, or_else, map}
use token_weasel.Prelude.Int.{ℤ, pos, ℤ-discrete}
use token_weasel.Prelude.Text.{String-discrete}
use token_weasel.Prelude.Table.{find_by, delete_by, select_by, count_by}
use token_weasel.Prelude.Result.{Result, ok, err}
use token_weasel.Identity.{
  DbError, unique_violation, sqlite, UserRow, StoredKey, ApiKeyRow, Store, owner_of, hash_of,
  attributed_id_of, find_user, Transaction, with_fault, read, with_clock,
}

-- the two inserts, once the first has met its constraints
unfoldable pub attribute_key : ℤ → Option String → String → String → ℤ → Transaction ℤ
attribute_key user_id name hash prefix ts s =
    let id = pos (suc s.keys_seq) in
    elim (find_by ℤ-discrete attributed_id_of id s.attributions) [
      | some a ↦ (s, err (sqlite "UNIQUE constraint failed: api_key_attribution.api_key_id"))
      | none ↦ (
        record s {
          api_keys =
              s.api_keys
              ++ record {
                id = id;
                user_id = user_id;
                name = name;
                key_hash = hash;
                prefix = prefix;
                created_ts = ts;
              }
                ∷ [];
          attributions =
              s.attributions
              ++ record { api_key_id = id; user_id = user_id; name = name; prefix = prefix } ∷ [];
          keys_seq = suc s.keys_seq;
        },
        ok id,
      )
    ]

unfoldable pub insert_key : ℤ → Option String → String → String → ℤ → Transaction ℤ
insert_key user_id name hash prefix ts s = elim (find_by String-discrete hash_of hash s.api_keys) [
  | some k ↦ (s, err unique_violation)
  | none ↦ elim (find_user user_id s.users) [
    | none ↦ (s, err (sqlite "FOREIGN KEY constraint failed"))
    | some u ↦ attribute_key user_id name hash prefix ts s
  ]
]

unfoldable pub insert_api_key :
    Option DbError → Option ℤ → ℤ → Option String → String → String → Transaction ℤ
insert_api_key fault clock user_id name hash prefix =
    with_clock clock (λ ts. with_fault fault (insert_key user_id name hash prefix ts))

abbrev to_row : StoredKey → ApiKeyRow
to_row k = record { id = k.id; name = k.name; prefix = k.prefix; created_ts = k.created_ts }

-- `ORDER BY` is an argument: the order among rows of one time is the database's.
unfoldable pub list_api_keys :
    (List StoredKey → List StoredKey) → Option DbError → ℤ → Store → Result DbError (List ApiKeyRow)
list_api_keys newest_first fault user_id s =
    read fault (map to_row (newest_first (select_by ℤ-discrete owner_of user_id s.api_keys)))

unfoldable pub revoke_keys : ℤ → Store → Store
revoke_keys id s = record s { api_keys = delete_by ℤ-discrete owner_of id s.api_keys }

-- `WHERE id = ? AND user_id = ?`
unfoldable pub delete_owned : ℤ → ℤ → List StoredKey → List StoredKey
delete_owned id user_id [] = []
delete_owned id user_id (k ∷ ks) =
    let rest = delete_owned id user_id ks in
    ite (ℤ-discrete k.id id) (ite (ℤ-discrete k.user_id user_id) rest (k ∷ rest)) (k ∷ rest)

unfoldable pub count_owned : ℤ → ℤ → List StoredKey → ℕ
count_owned id user_id [] = 0
count_owned id user_id (k ∷ ks) =
    ite (ℤ-discrete k.id id) (ite (ℤ-discrete k.user_id user_id) 1 0) 0 + count_owned id user_id ks

unfoldable pub delete_api_key : Option DbError → ℤ → ℤ → Transaction ℕ
delete_api_key fault id user_id = with_fault fault λ s. (
  record s { api_keys = delete_owned id user_id s.api_keys },
  ok (count_owned id user_id s.api_keys),
)

abbrev pub paired : StoredKey → Option UserRow → Option (StoredKey × UserRow)
paired k none = none
paired k (some u) = some (k, u)

-- `api_keys k JOIN users u ON u.id = k.user_id WHERE k.key_hash = ?`
unfoldable pub joined : String → List UserRow → List StoredKey → Option (StoredKey × UserRow)
joined hash users [] = none
joined hash users (k ∷ ks) =
    let rest = joined hash users ks in
    ite (String-discrete k.key_hash hash) (or_else (paired k (find_user k.user_id users)) rest) rest

abbrev pub user_of : Option (StoredKey × UserRow) → Option UserRow
user_of none = none
user_of (some (k, u)) = some u

abbrev pub ids_of : Option (StoredKey × UserRow) → Option (ℤ × ℤ)
ids_of none = none
ids_of (some (k, u)) = some (k.id, k.user_id)

unfoldable pub get_api_key_user : Option DbError → String → Store → Result DbError (Option UserRow)
get_api_key_user fault hash s = read fault (user_of (joined hash s.users s.api_keys))

unfoldable pub get_api_key_id : Option DbError → String → Store → Result DbError (Option (ℤ × ℤ))
get_api_key_id fault hash s = read fault (ids_of (joined hash s.users s.api_keys))

unfoldable pub delete_api_keys_for_user : Option DbError → ℤ → Transaction ℕ
delete_api_keys_for_user fault user_id =
    with_fault fault
      (λ s. (revoke_keys user_id s, ok (count_by ℤ-discrete owner_of user_id s.api_keys)))
