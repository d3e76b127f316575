-- ===== src/Identity/Integrity.antt =====
-- What the schema of crates/twl-store/src/schema.sql promises of the tables.
pub mod Inserts
pub mod Updates
pub mod Deletes
use Prim.Native.String.{String}
use token_weasel.Prelude.{
  ℕ, suc, ◌+◌, ◌≤◌, ◌<◌, ◌≡◌, refl, sym, ap, ◌∙◌, ◌≢◌, ite, if_pos, if_neg, inl, inr, Bool, true,
  List, [], ◌∷◌, ◌++◌, Option, none, some, Option-cases, is_some, All, All-append, arith, subst,
}
use token_weasel.Prelude.Int.{ℤ, pos, pos_part, neg_part, ℤ-discrete}
use token_weasel.Prelude.Text.{String-discrete}
use token_weasel.Prelude.Table.{
  find_by, delete_by, update_by, IsUnique, IsUnique-append, All-delete_by, find_by-append_new,
  find_by-append_some, find_by-delete_by_ne,
}
use token_weasel.Prelude.Table.Columns.{
  IsUnique-delete_by, IsUnique-update_by, All-map, All-update_by, find_by-delete_by-some,
  is_some-find_by-update_by, All-find_by,
}
use token_weasel.Identity.{
  UserRow, StoredKey, Attribution, Store, id_of, username_of, key_id_of, owner_of, hash_of,
  attributed_id_of, attributed_owner_of, find_user,
}
use token_weasel.Identity.ApiKeys.{attribute_key, insert_key, revoke_keys, delete_owned}
use token_weasel.Identity.Users.{
  insert_user, set_hash, set_password, swap_if, swap_hash, remove_user,
}

-- an id that AUTOINCREMENT has given out
abbrev pub IsNumbered : ℕ → ℤ → Type 0
IsNumbered seq i = (0 < pos_part i) × (pos_part i ≤ seq) × (neg_part i ≡ 0)

abbrev pub HasUser : List UserRow → ℤ → Type 0
HasUser users i = is_some (find_user i users) ≡ true

-- the attribution of a key names the key's owner
abbrev pub IsAttributed : List Attribution → StoredKey → Type 0
IsAttributed attributions k =
    (a : Attribution) × (find_by ℤ-discrete attributed_id_of k.id attributions ≡ some a)
    × (a.user_id ≡ k.user_id)

pub record IsConsistent (s : Store) : Type 0 where
  pub user_ids : IsUnique ℤ-discrete id_of s.users
  pub usernames : IsUnique String-discrete username_of s.users
  pub key_ids : IsUnique ℤ-discrete key_id_of s.api_keys
  pub key_hashes : IsUnique String-discrete hash_of s.api_keys
  pub users_numbered : All (λ u. IsNumbered s.users_seq u.id) s.users
  pub keys_numbered : All (λ k. IsNumbered s.keys_seq k.id) s.api_keys
  pub attributions_numbered : All (λ a. IsNumbered s.keys_seq a.api_key_id) s.attributions
  pub keys_owned : All (λ k. HasUser s.users k.user_id) s.api_keys
  pub attributions_owned : All (λ a. HasUser s.users a.user_id) s.attributions
  pub keys_attributed : All (IsAttributed s.attributions) s.api_keys

IsNumbered-suc : (n : ℕ) (i : ℤ) → IsNumbered n i → IsNumbered (suc n) i
IsNumbered-suc n i h = omega arith

IsNumbered-next : (n : ℕ) → IsNumbered (suc n) (pos (suc n))
IsNumbered-next n = omega arith

not-IsNumbered-next : (n : ℕ) (i : ℤ) → IsNumbered n i → i ≢ pos (suc n)
not-IsNumbered-next n i h e = omega (arith, ap pos_part e)

-- The next id is not in use.
pub next_free :
    {A : Type 0} (column : A → ℤ) (n : ℕ) (xs : List A)
    → All (λ x. IsNumbered n (column x)) xs
    → find_by ℤ-discrete column (pos (suc n)) xs ≡ none
unfolding find_by
next_free column n [] h = refl
next_free column n (x ∷ xs) h =
    if_neg (ℤ-discrete (column x) (pos (suc n))) (not-IsNumbered-next n (column x) h.0) _ _
    ∙ next_free column n xs h.1

pub grow :
    {A : Type 0} (column : A → ℤ) (n : ℕ) (x : A) (xs : List A)
    → column x ≡ pos (suc n)
    → All (λ y. IsNumbered n (column y)) xs
    → All (λ y. IsNumbered (suc n) (column y)) (xs ++ x ∷ [])
grow column n x xs e h =
    All-append (λ y. IsNumbered (suc n) (column y)) xs (x ∷ [])
      (All-map _ _ xs (λ y. IsNumbered-suc n (column y)) h) (rw e (IsNumbered-next n), tt)

pub HasUser-append :
    (i : ℤ) (u : UserRow) (us : List UserRow) → HasUser us i → HasUser (us ++ u ∷ []) i
HasUser-append i u us h = elim (Option-cases (find_user i us)) [
  | inl e ↦ absurd (ground arith)
  | inr (v, e) ↦ rw (find_by-append_some ℤ-discrete id_of i v us (u ∷ []) e) refl
]

pub HasUser-delete :
    (id i : ℤ) (us : List UserRow)
    → i ≢ id
    → HasUser us i
    → HasUser (delete_by ℤ-discrete id_of id us) i
HasUser-delete id i us d h = rw (find_by-delete_by_ne ℤ-discrete id_of id i us (λ e. d (sym e))) h

pub IsAttributed-append :
    (k : StoredKey) (a : Attribution) (as' : List Attribution)
    → IsAttributed as' k
    → IsAttributed (as' ++ a ∷ []) k
IsAttributed-append k a as' (b, e, f) =
    (b, find_by-append_some ℤ-discrete attributed_id_of k.id b as' (a ∷ []) e, f)

pub IsAttributed-delete :
    (id : ℤ) (k : StoredKey) (as' : List Attribution)
    → k.user_id ≢ id
    → IsAttributed as' k
    → IsAttributed (delete_by ℤ-discrete attributed_owner_of id as') k
IsAttributed-delete id k as' d (b, e, f) = (
  b,
  find_by-delete_by-some ℤ-discrete attributed_owner_of ℤ-discrete attributed_id_of id k.id b as' e
      (λ p. d (sym f ∙ p)),
  f,
)
