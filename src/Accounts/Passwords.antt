-- ===== src/Accounts/Passwords.antt =====
-- What `change_password` of crates/twl-auth/src/accounts.rs does, with other connections at work
-- between its transactions.
pub mod Resets
use Prim.Native.String.{String, count}
use token_weasel.Prelude.{
  ℕ, ◌≤◌, ◌≡◌, refl, sym, ap, subst, ◌⊎◌, inl, inr, Bool, true, false, Option, none, some,
  Option-cases, Bool-cases, leb, leb→le,
}
use token_weasel.Prelude.Int.{ℤ}
use token_weasel.Prelude.Result.{Result, ok, err, Result-cases, ok-injective}
use token_weasel.Identity.{DbError, UserRow, Store, find_user}
use token_weasel.Identity.Users as Users
use token_weasel.Identity.Integrity.{IsConsistent}
use token_weasel.Identity.Revocation.{
  IsRekeyed, compare_and_swap-outcome, replace_password_and_revoke_keys-IsRekeyed,
  replace_password_and_revoke_keys_missing,
}
use token_weasel.Accounts.{
  AccountError, not_found, concurrent_password_change, db, Outcome, on_answer, hashed, one_row,
  password_has_minimum_length, reset_read, reset_password, change_verified, change_read,
  change_password,
}

-- It failed, and what it leaves is the store as it found it or as others have left it since.
abbrev pub Failed : {A : Type 0} → Store → Store → Outcome A → Type 0
Failed {A} s s' (t, r) = (e : AccountError) × (r ≡ err e) × ((t ≡ s) ⊎ (t ≡ s'))

pub on_answer-ok :
    {A B : Type 0} (next : A → Result AccountError B) (x : Store × Result DbError A) (a : A)
    → x.1 ≡ ok a
    → on_answer next x ≡ (x.0, next a)
on_answer-ok next (s, ok b) a e = ap (λ c. (s, next c)) (ok-injective e)
on_answer-ok next (s, err b) a e = cc

module _ (hash_password : String → Result String String)
    (verify_password : String → String → Result String Bool) (print : ℕ → String) (id : ℤ) where
  -- The old password was right for the hash that the change replaced.
  abbrev pub Changed : String → String → Store → Store → Type 0
  Changed old_password new_password s t =
      (u : UserRow) × (hash : String) × (find_user id s.users ≡ some u)
      × (verify_password old_password u.password_hash ≡ ok true)
      × (hash_password new_password ≡ ok hash)
      × IsRekeyed id u hash s t

  -- The change succeeded, or it failed.
  abbrev ChangeOutcome : String → String → Store → Store → Outcome (Unit {0}) → Type 0
  ChangeOutcome old_password new_password s s' out =
      ((out.1 ≡ ok tt) × Changed old_password new_password s' out.0) ⊎ Failed s s' out

  swap_answer :
      (swap : Option DbError) (old_password new_password hash : String) (u : UserRow) (s s' : Store)
      → IsConsistent s'
      → verify_password old_password u.password_hash ≡ ok true
      → hash_password new_password ≡ ok hash
      → ChangeOutcome old_password new_password s s' (
          on_answer
            (one_row print concurrent_password_change)
            (Users.compare_and_swap_password_and_revoke_keys swap id u.password_hash hash s'))
  unfolding Users.compare_and_swap_password_and_revoke_keys
  swap_answer (some e) old_password new_password hash u s s' c verified hashing =
      inr (db e, refl, inr refl)
  swap_answer none old_password new_password hash u s s' c verified hashing =
      elim (compare_and_swap-outcome id u.password_hash hash s' c) [
        | inl (v, has, one, rekeyed) ↦
            subst (ChangeOutcome old_password new_password s s')
              (sym (on_answer-ok (one_row print concurrent_password_change) _ 1 one))
              (inl (
                refl,
                (
                  v,
                  hash,
                  has.0,
                  subst (λ h. verify_password old_password h ≡ ok true) (sym has.1) verified,
                  hashing,
                  rekeyed,
                ),
              ))
        | inr (no_match, zero_rows, same) ↦
            subst (ChangeOutcome old_password new_password s s')
              (sym (on_answer-ok (one_row print concurrent_password_change) _ 0 zero_rows))
              (inr (concurrent_password_change, refl, inr same))
      ]

  change_verified-right :
      (swap : Option DbError) (others : Store → Store) (old_password new_password hash : String)
      (u : UserRow) (s : Store)
      → verify_password old_password u.password_hash ≡ ok true
      → hash_password new_password ≡ ok hash
      → change_verified hash_password verify_password print swap others id old_password new_password
          u s
        ≡ on_answer (one_row print concurrent_password_change) (
            Users.compare_and_swap_password_and_revoke_keys swap id u.password_hash hash (others s))
  unfolding change_verified
  change_verified-right swap others old_password new_password hash u s right hashing =
      rw (right, change_verified, hashing) refl

  change_verified-outcome :
      (swap : Option DbError) (others : Store → Store) (old_password new_password : String)
      (u : UserRow) (s : Store)
      → IsConsistent (others s)
      → ChangeOutcome old_password new_password s (others s) (
          change_verified hash_password verify_password print swap others id old_password
            new_password u s)
  unfolding change_verified
  change_verified-outcome swap others old_password new_password u s c =
      elim (Result-cases (verify_password old_password u.password_hash)) [
        | inr (e, bad) ↦ rw (bad, change_verified) (inr (_, refl, inl refl))
        | inl (false, wrong) ↦ rw (wrong, change_verified) (inr (_, refl, inl refl))
        | inl (true, right) ↦ elim (Result-cases (hash_password new_password)) [
          | inr (e, bad) ↦ rw (right, change_verified, bad) (inr (_, refl, inl refl))
          | inl (hash, hashing) ↦
              subst (ChangeOutcome old_password new_password s (others s))
                (sym (
                  change_verified-right swap others old_password new_password hash u s right
                    hashing))
                (swap_answer swap old_password new_password hash u s (others s) c right hashing)
        ]
      ]

  change_read-outcome :
      (swap : Option DbError) (others : Store → Store) (old_password new_password : String)
      (r : Result DbError (Option UserRow)) (s : Store)
      → IsConsistent (others s)
      → ChangeOutcome old_password new_password s (others s) (
          change_read hash_password verify_password print swap others id old_password new_password r
            s)
  unfolding change_read
  change_read-outcome swap others old_password new_password (err e) s c = inr (db e, refl, inl refl)
  change_read-outcome swap others old_password new_password (ok none) s c = inr (_, refl, inl refl)
  change_read-outcome swap others old_password new_password (ok (some u)) s c =
      change_verified-outcome swap others old_password new_password u s c

  change_password-long :
      (get swap : Option DbError) (others : Store → Store) (old_password new_password : String)
      (s : Store)
      → leb 8 (count new_password) ≡ true
      → change_password hash_password verify_password print get swap others id old_password
          new_password s
        ≡ change_read hash_password verify_password print swap others id old_password new_password
            (Users.get_user_by_id get id s)
            s
  unfolding change_password password_has_minimum_length
  change_password-long get swap others old_password new_password s long = rw long refl

  -- Whatever others do between its two transactions, a change of the own password succeeds only if
  -- the new password is long enough and the old one is right for the hash that is replaced; then the
  -- user has a hash of the new one, the other users are as before, and exactly the user's API keys
  -- no longer authenticate. On every error it has changed nothing.
  pub change_password-outcome :
      (get swap : Option DbError) (others : Store → Store) (old_password new_password : String)
      (s : Store)
      → IsConsistent (others s)
      → let out =
          change_password hash_password verify_password print get swap others id old_password
            new_password s in
        ((out.1 ≡ ok tt)
          × (8 ≤ count new_password)
          × Changed old_password new_password (others s) out.0)
        ⊎ Failed s (others s) out
  unfolding change_password password_has_minimum_length
  change_password-outcome get swap others old_password new_password s c =
      elim (Bool-cases (leb 8 (count new_password))) [
        | inr short ↦ rw (short, change_password) (inr (_, refl, inl refl))
        | inl long ↦
            rw (change_password-long get swap others old_password new_password s long)
              (elim (change_read-outcome swap others old_password new_password
                (Users.get_user_by_id get id s) s c) [
                  | inl (done, changed) ↦ inl (done, leb→le 8 (count new_password) long, changed)
                  | inr failed ↦ inr failed
                ])
      ]
