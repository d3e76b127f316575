-- ===== src/Identity/Integrity/Updates.antt =====
-- The updates of crates/twl-store/src/identity.rs keep the tables consistent.
use Prim.Native.String.{String}
use token_weasel.Prelude.{◌≡◌, refl, ◌∙◌, arith}
use token_weasel.Prelude.Int.{ℤ, ℤ-discrete}
use token_weasel.Prelude.Text.{String-discrete}
use token_weasel.Prelude.Table.{update_by}
use token_weasel.Prelude.Table.Columns.{
  IsUnique-update_by, All-map, All-update_by, is_some-find_by-update_by,
}
use token_weasel.Identity.{UserRow, Store, id_of, username_of}
use token_weasel.Identity.Users.{set_hash, set_password, swap_if, swap_hash}
use token_weasel.Identity.Integrity.{IsNumbered, HasUser, IsConsistent}

update_users-IsConsistent :
    (id : ℤ) (g : UserRow → UserRow) (s : Store)
    → ((u : UserRow) → (g u).id ≡ u.id)
    → ((u : UserRow) → (g u).username ≡ u.username)
    → IsConsistent s
    → IsConsistent (record s { users = update_by ℤ-discrete id_of id g s.users })
update_users-IsConsistent id g s same_id same_name c = record {
  user_ids = IsUnique-update_by ℤ-discrete id_of ℤ-discrete id_of id g s.users same_id c.user_ids;
  usernames =
      IsUnique-update_by ℤ-discrete id_of String-discrete username_of id g s.users same_name
        c.usernames;
  key_ids = c.key_ids;
  key_hashes = c.key_hashes;
  users_numbered =
      All-update_by ℤ-discrete id_of (λ u. IsNumbered s.users_seq u.id) id g s.users
        (λ u h. rw (same_id u) h) c.users_numbered;
  keys_numbered = c.keys_numbered;
  attributions_numbered = c.attributions_numbered;
  keys_owned = All-map _ _ s.api_keys (λ k. still k.user_id) c.keys_owned;
  attributions_owned = All-map _ _ s.attributions (λ a. still a.user_id) c.attributions_owned;
  keys_attributed = c.keys_attributed;
}
  where
    still : (i : ℤ) → HasUser s.users i → HasUser (update_by ℤ-discrete id_of id g s.users) i
    still i h =
        is_some-find_by-update_by ℤ-discrete id_of ℤ-discrete id_of id i g s.users same_id ∙ h

pub set_password-IsConsistent :
    (id : ℤ) (hash : String) (s : Store) → IsConsistent s → IsConsistent (set_password id hash s)
unfolding set_password
set_password-IsConsistent id hash s =
    update_users-IsConsistent id (set_hash hash) s (λ u. refl) (λ u. refl)

pub swap_if-same :
    (expected hash : String) (u : UserRow)
    → ((swap_if expected hash u).id ≡ u.id) × ((swap_if expected hash u).username ≡ u.username)
swap_if-same expected hash u = ground arith

pub swap_hash-IsConsistent :
    (id : ℤ) (expected hash : String) (s : Store)
    → IsConsistent s
    → IsConsistent (record s { users = swap_hash id expected hash s.users })
unfolding swap_hash
swap_hash-IsConsistent id expected hash s =
    update_users-IsConsistent id (swap_if expected hash) s (λ u. (swap_if-same expected hash u).0)
      (λ u. (swap_if-same expected hash u).1)
