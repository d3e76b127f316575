-- ===== src/Identity/Revocation.antt =====
-- The password changes of crates/twl-store/src/identity.rs, which revoke the user's API keys.
use Prim.Native.String.{String}
use mathlib.Core.Bool.{true≢false}
use token_weasel.Prelude.{
  ◌≡◌, refl, sym, ap, ◌∙◌, ◌≢◌, ◌⊎◌, ite, if_pos, if_neg, inl, inr, List, [], ◌∷◌, none, some,
  Option-cases, arith, is_some,
}
use token_weasel.Prelude.Int.{ℤ, ℤ-discrete}
use token_weasel.Prelude.Text.{String-discrete}
use token_weasel.Prelude.Result.{ok}
use token_weasel.Prelude.Table.{
  find_by, update_by, IsUnique, find_by-update_by_self, find_by-update_by_ne, count_by_unique,
  count_by-none, update_by-none, delete_by_none,
}
use token_weasel.Prelude.Table.Columns.{All-map}
use token_weasel.Identity.{UserRow, Store, id_of, owner_of, find_user}
use token_weasel.Identity.ApiKeys.{revoke_keys, get_api_key_id}
use token_weasel.Identity.Users.{
  set_hash, set_password, replace_password_and_revoke_keys, swap_if, swap_hash, count_matching,
  compare_and_swap_password_and_revoke_keys,
}
use token_weasel.Identity.Integrity.{IsConsistent, HasUser}
use token_weasel.Identity.Integrity.Updates.{
  set_password-IsConsistent, swap_if-same, swap_hash-IsConsistent,
}
use token_weasel.Identity.Credentials.{
  withheld, authenticated, authenticated-revoke_keys, authenticated-update_by,
}

-- The user has the new password hash, the other users' rows are as before, and of the keys exactly
-- the user's no longer authenticate.
pub record IsRekeyed (id : ℤ) (u : UserRow) (hash : String) (s t : Store) : Type 0 where
  pub rehashed : find_user id t.users ≡ some (set_hash hash u)
  pub others : (j : ℤ) → id ≢ j → find_user j t.users ≡ find_user j s.users
  pub keys : (h : String) → get_api_key_id none h t ≡ ok (withheld id (authenticated h s))

-- Of a consistent store that has the user, the reset affects one row: the user has the new hash,
-- the other users are as before, and of all keys exactly that user's no longer authenticate.
pub replace_password_and_revoke_keys-IsRekeyed :
    (id : ℤ) (hash : String) (u : UserRow) (s : Store)
    → IsConsistent s
    → find_user id s.users ≡ some u
    → let (t, affected) = replace_password_and_revoke_keys none id hash s in
      (affected ≡ ok 1) × IsRekeyed id u hash s t
unfolding replace_password_and_revoke_keys get_api_key_id revoke_keys set_password
replace_password_and_revoke_keys-IsRekeyed id hash u s c e = (
  ap ok (count_by_unique ℤ-discrete id_of id u s.users c.user_ids e),
  record {
    rehashed = find_by-update_by_self ℤ-discrete id_of id (set_hash hash) u s.users (λ v. refl) e;
    others =
        λ j d. find_by-update_by_ne ℤ-discrete id_of id j (set_hash hash) s.users (λ v. refl) d;
    keys = λ h. ap ok (
        authenticated-revoke_keys id h (set_password id hash s)
          (set_password-IsConsistent id hash s c)
        ∙ ap (withheld id) (authenticated-update_by id (set_hash hash) h s (λ v. refl) c));
  },
)

-- Of a consistent store that does not have the user, the reset changes nothing.
pub replace_password_and_revoke_keys_missing :
    (id : ℤ) (hash : String) (s : Store)
    → IsConsistent s
    → find_user id s.users ≡ none
    → replace_password_and_revoke_keys none id hash s ≡ (s, ok 0)
unfolding replace_password_and_revoke_keys revoke_keys set_password
replace_password_and_revoke_keys_missing id hash s c gone =
    rw
      (
        count_by-none ℤ-discrete id_of id s.users gone,
        update_by-none ℤ-discrete id_of id (set_hash hash) s.users gone,
        delete_by_none ℤ-discrete owner_of id s.api_keys (
            All-map (λ k. HasUser s.users k.user_id) (λ k. k.user_id ≢ id) s.api_keys
              (λ k owned e.
                true≢false
                  (sym owned ∙ ap (λ i. is_some (find_user i s.users)) e ∙ ap is_some gone))
              c.keys_owned),
      )
      refl

count_matching-none :
    (id : ℤ) (expected : String) (us : List UserRow)
    → find_user id us ≡ none
    → count_matching id expected us ≡ 0
unfolding count_matching find_by
count_matching-none id expected [] h = refl
count_matching-none id expected (u ∷ us) h = ground (arith, count_matching-none id expected us)

count_matching-some :
    (id : ℤ) (expected : String) (u : UserRow) (us : List UserRow)
    → IsUnique ℤ-discrete id_of us
    → find_user id us ≡ some u
    → count_matching id expected us ≡ ite (String-discrete u.password_hash expected) 1 0
unfolding count_matching find_by
count_matching-some id expected u [] v h = ground arith
count_matching-some id expected u (w ∷ us) v h = elim (ℤ-discrete w.id id) [
  | yes p ↦ ground (arith, count_matching-none id expected us (rw p at v.0))
  | no p ↦ ground (arith, count_matching-some id expected u us v.1)
]

-- A swap that matches no row changes none.
swap_hash_unmatched :
    (id : ℤ) (expected hash : String) (us : List UserRow)
    → count_matching id expected us ≡ 0
    → swap_hash id expected hash us ≡ us
unfolding count_matching swap_hash update_by
swap_hash_unmatched id expected hash [] h = refl
swap_hash_unmatched id expected hash (u ∷ us) h =
    ground (arith, swap_hash_unmatched id expected hash us)

abbrev HasHash : ℤ → String → Store → UserRow → Type 0
HasHash id expected s u = (find_user id s.users ≡ some u) × (u.password_hash ≡ expected)

cas_unmatched :
    (id : ℤ) (expected hash : String) (s : Store)
    → count_matching id expected s.users ≡ 0
    → compare_and_swap_password_and_revoke_keys none id expected hash s ≡ (s, ok 0)
unfolding compare_and_swap_password_and_revoke_keys
cas_unmatched id expected hash s e = rw (e, swap_hash_unmatched id expected hash s.users e) refl

cas_matched :
    (id : ℤ) (expected hash : String) (s : Store)
    → count_matching id expected s.users ≡ 1
    → compare_and_swap_password_and_revoke_keys none id expected hash s
      ≡ (revoke_keys id (record s { users = swap_hash id expected hash s.users }), ok 1)
unfolding compare_and_swap_password_and_revoke_keys
cas_matched id expected hash s e = rw e refl

module _ (id : ℤ) (expected hash : String) (u : UserRow) (s : Store) (c : IsConsistent s)
    (e : find_user id s.users ≡ some u) where
  swapped-IsRekeyed :
      u.password_hash ≡ expected
      → IsRekeyed id u hash s
          (revoke_keys id (record s { users = swap_hash id expected hash s.users }))
  unfolding get_api_key_id swap_hash revoke_keys
  swapped-IsRekeyed p = record {
    rehashed =
        find_by-update_by_self ℤ-discrete id_of id (swap_if expected hash) u s.users
          (λ v. (swap_if-same expected hash v).0) e
        ∙ ap some (if_pos (String-discrete u.password_hash expected) p _ _);
    others = λ j d.
        find_by-update_by_ne ℤ-discrete id_of id j (swap_if expected hash) s.users
          (λ v. (swap_if-same expected hash v).0) d;
    keys = λ h. ap ok (
        authenticated-revoke_keys id h (record s { users = swap_hash id expected hash s.users })
          (swap_hash-IsConsistent id expected hash s c)
        ∙ ap (withheld id) (
            authenticated-update_by id (swap_if expected hash) h s
              (λ v. (swap_if-same expected hash v).0) c));
  }

  count_matching_hit : u.password_hash ≡ expected → count_matching id expected s.users ≡ 1
  count_matching_hit p =
      count_matching-some id expected u s.users c.user_ids e
      ∙ if_pos (String-discrete u.password_hash expected) p _ _

  count_matching_miss : u.password_hash ≢ expected → count_matching id expected s.users ≡ 0
  count_matching_miss p =
      count_matching-some id expected u s.users c.user_ids e
      ∙ if_neg (String-discrete u.password_hash expected) p _ _

-- Of a consistent store, a password swap is all or nothing: if the user has the expected hash it
-- affects one row, the user has the new hash, the others are as before, and exactly that user's
-- keys no longer authenticate; if not, it affects no row and the store is the same.
pub compare_and_swap-outcome :
    (id : ℤ) (expected hash : String) (s : Store)
    → IsConsistent s
    → let (t, affected) = compare_and_swap_password_and_revoke_keys none id expected hash s in
      ((u : UserRow) × HasHash id expected s u × (affected ≡ ok 1) × IsRekeyed id u hash s t)
      ⊎ (((u : UserRow) → ¬ HasHash id expected s u) × (affected ≡ ok 0) × (t ≡ s))
compare_and_swap-outcome id expected hash s c = elim (Option-cases (find_user id s.users)) [
  | inl e ↦
      rw (cas_unmatched id expected hash s (count_matching-none id expected s.users e))
        (inr ((λ u h. ground arith), refl, refl))
  | inr (u, e) ↦ elim (String-discrete u.password_hash expected) [
    | yes p ↦
        rw (cas_matched id expected hash s (count_matching_hit id expected hash u s c e p))
          (inl (u, (e, p), refl, swapped-IsRekeyed id expected hash u s c e p))
    | no p ↦
        rw (cas_unmatched id expected hash s (count_matching_miss id expected hash u s c e p))
          (inr ((λ v h. p (ground arith)), refl, refl))
  ]
]
