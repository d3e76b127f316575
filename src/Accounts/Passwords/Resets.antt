-- ===== src/Accounts/Passwords/Resets.antt =====
-- What `reset_password` of crates/twl-auth/src/accounts.rs does, likewise.
use Prim.Native.String.{String, count}
use token_weasel.Prelude.{
  ℕ, ◌≤◌, ◌≡◌, refl, sym, subst, ◌⊎◌, inl, inr, Bool, Option, none, some, Option-cases, Bool-cases,
  leb, leb→le,
}
use token_weasel.Prelude.Int.{ℤ}
use token_weasel.Prelude.Result.{Result, ok, err, Result-cases}
use token_weasel.Identity.{DbError, UserRow, Store, find_user}
use token_weasel.Identity.Users as Users
use token_weasel.Identity.Integrity.{IsConsistent}
use token_weasel.Identity.Revocation.{
  IsRekeyed, replace_password_and_revoke_keys-IsRekeyed, replace_password_and_revoke_keys_missing,
}
use token_weasel.Accounts.{
  not_found, db, Outcome, on_answer, hashed, one_row, password_has_minimum_length, reset_read,
  reset_password,
}
use token_weasel.Accounts.Passwords.{Failed, on_answer-ok}

module _ (hash_password : String → Result String String)
    (verify_password : String → String → Result String Bool) (print : ℕ → String) (id : ℤ) where
  abbrev pub Reset : String → Store → Store → Type 0
  Reset new_password s t =
      (u : UserRow) × (hash : String) × (find_user id s.users ≡ some u)
      × (hash_password new_password ≡ ok hash)
      × IsRekeyed id u hash s t

  abbrev ResetOutcome : String → Store → Store → Outcome (Unit {0}) → Type 0
  ResetOutcome new_password s s' out =
      ((out.1 ≡ ok tt) × Reset new_password s' out.0) ⊎ Failed s s' out

  reset_answer :
      (swap : Option DbError) (new_password hash : String) (s s' : Store)
      → IsConsistent s'
      → hash_password new_password ≡ ok hash
      → ResetOutcome new_password s s' (
          on_answer
            (one_row print not_found)
            (Users.replace_password_and_revoke_keys swap id hash s'))
  unfolding Users.replace_password_and_revoke_keys
  reset_answer (some e) new_password hash s s' c hashing = inr (db e, refl, inr refl)
  reset_answer none new_password hash s s' c hashing = elim (Option-cases (find_user id s'.users)) [
    | inl gone ↦
        subst (λ x. ResetOutcome new_password s s' (on_answer (one_row print not_found) x))
          (sym (replace_password_and_revoke_keys_missing id hash s' c gone))
          (inr (not_found, refl, inr refl))
    | inr (u, e) ↦
        let (one, rekeyed) = replace_password_and_revoke_keys-IsRekeyed id hash u s' c e in
        subst (ResetOutcome new_password s s')
          (sym (on_answer-ok (one_row print not_found) _ 1 one))
          (inl (refl, (u, hash, e, hashing, rekeyed)))
  ]

  reset_read-outcome :
      (swap : Option DbError) (others : Store → Store) (new_password : String)
      (r : Result DbError (Option UserRow)) (s : Store)
      → IsConsistent (others s)
      → ResetOutcome new_password s
          (others s)
          (reset_read hash_password verify_password print swap others id new_password r s)
  unfolding reset_read
  reset_read-outcome swap others new_password (err e) s c = inr (db e, refl, inl refl)
  reset_read-outcome swap others new_password (ok none) s c = inr (_, refl, inl refl)
  reset_read-outcome swap others new_password (ok (some u)) s c =
      elim (Result-cases (hash_password new_password)) [
        | inr (e, bad) ↦ rw bad (inr (_, refl, inl refl))
        | inl (hash, hashing) ↦
            subst
              (λ h. ResetOutcome new_password s (others s) (
                hashed h s (λ hash'.
                  on_answer (one_row print not_found)
                    (Users.replace_password_and_revoke_keys swap id hash' (others s)))))
              (sym hashing) (reset_answer swap new_password hash s (others s) c hashing)
      ]

  -- Whatever others do between its two transactions, a reset succeeds only if the new password is
  -- long enough and the user still exists; then the user has a hash of the new one, the other users
  -- are as before, and exactly the user's API keys no longer authenticate. On every error it has
  -- changed nothing.
  pub reset_password-outcome :
      (get swap : Option DbError) (others : Store → Store) (new_password : String) (s : Store)
      → IsConsistent (others s)
      → let out =
          reset_password hash_password verify_password print get swap others id new_password s in
        ((out.1 ≡ ok tt) × (8 ≤ count new_password) × Reset new_password (others s) out.0)
        ⊎ Failed s (others s) out
  unfolding reset_password password_has_minimum_length
  reset_password-outcome get swap others new_password s c =
      elim (Bool-cases (leb 8 (count new_password))) [
        | inr short ↦ rw (short, reset_password) (inr (_, refl, inl refl))
        | inl long ↦
            let found =
              reset_read-outcome swap others new_password (Users.get_user_by_id get id s) s c in
            rw (long, reset_password)
              (elim found [
                | inl (done, changed) ↦ inl (done, leb→le 8 (count new_password) long, changed)
                | inr failed ↦ inr failed
              ])
      ]
