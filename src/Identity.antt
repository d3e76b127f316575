-- ===== src/Identity.antt =====
-- `IdentityStore` of crates/twl-store/src/identity.rs: the tables of schema.sql and the statements
-- on them. A transaction runs whole or leaves the store as it was; `fault` is the failure that
-- SQLite reports in it, if it does, and `clock` the reading of `now_unix_secs`.
pub mod ApiKeys
pub mod Users
pub mod Integrity
pub mod Reach
pub mod Credentials
pub mod Revocation
pub mod Issue
pub mod Owned
use Prim.Native.String.{String}
use token_weasel.Prelude.{
  ℕ, suc, ◌+◌, Bool, true, false, List, [], ◌∷◌, ◌++◌, Option, none, some, ◌==◌, leb, if◌then◌else◌,
  ite, or_else, map, length,
}
use token_weasel.Prelude.Int.{ℤ, pos, ℤ-discrete}
use token_weasel.Prelude.Text.{String-discrete}
use token_weasel.Prelude.Table.{find_by, delete_by, select_by, update_by, count_by}
use token_weasel.Prelude.Result.{Result, ok, err}

pub data DbError : Type 0 where
  unique_violation clock_error : DbError
  pool sqlite : String → DbError

pub record UserRow : Type 0 where
  pub id : ℤ
  pub username : String
  pub password_hash : String
  pub is_admin : Bool
  pub created_ts : ℤ

-- a row of the table `api_keys`
pub record StoredKey : Type 0 where
  pub id : ℤ
  pub user_id : ℤ
  pub name : Option String
  pub key_hash : String
  pub prefix : String
  pub created_ts : ℤ

-- a row of the table `api_key_attribution`
pub record Attribution : Type 0 where
  pub api_key_id : ℤ
  pub user_id : ℤ
  pub name : Option String
  pub prefix : String

pub record ApiKeyRow : Type 0 where
  pub id : ℤ
  pub name : Option String
  pub prefix : String
  pub created_ts : ℤ

pub record UserListRow : Type 0 where
  pub id : ℤ
  pub username : String
  pub is_admin : Bool
  pub created_ts : ℤ

-- The tables, and the counters of AUTOINCREMENT.
pub record Store : Type 0 where
  pub users : List UserRow
  pub api_keys : List StoredKey
  pub attributions : List Attribution
  pub users_seq : ℕ
  pub keys_seq : ℕ

pub data DeleteUserOutcome : Type 0 where
  deleted not_found last_admin : DeleteUserOutcome

-- the columns by which the statements select
abbrev pub id_of : UserRow → ℤ
id_of u = u.id

abbrev pub username_of : UserRow → String
username_of u = u.username

abbrev pub key_id_of : StoredKey → ℤ
key_id_of u = u.id

abbrev pub owner_of : StoredKey → ℤ
owner_of u = u.user_id

abbrev pub hash_of : StoredKey → String
hash_of u = u.key_hash

abbrev pub attributed_id_of : Attribution → ℤ
attributed_id_of u = u.api_key_id

abbrev pub attributed_owner_of : Attribution → ℤ
attributed_owner_of u = u.user_id

abbrev pub find_user : ℤ → List UserRow → Option UserRow
find_user = find_by ℤ-discrete id_of

abbrev pub Transaction : Type 0 → Type 0
Transaction A = Store → Store × Result DbError A

abbrev pub with_fault : {A : Type 0} → Option DbError → Transaction A → Transaction A
with_fault none run s = run s
with_fault (some e) run s = (s, err e)

abbrev pub read : {A : Type 0} → Option DbError → A → Result DbError A
read none a = ok a
read (some e) a = err e

abbrev pub with_clock : {A : Type 0} → Option ℤ → (ℤ → Transaction A) → Transaction A
with_clock none run s = (s, err clock_error)
with_clock (some ts) run s = run ts s
