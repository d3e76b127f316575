-- ===== src/Accounts/Handlers/Access.antt =====
-- What a caller without administrator rights can do through the handlers of
-- crates/twl-server/src/handlers/accounts.rs.
use Prim.Native.String.{String}
use token_weasel.Prelude.{ℕ, ◌≡◌, refl, sym, subst, ◌⊎◌, inl, inr, Bool, true, false, List}
use token_weasel.Prelude.Int.{ℤ}
use token_weasel.Prelude.Result.{Result, ok, err}
use token_weasel.Identity.{DbError, UserRow, StoredKey, Store}
use token_weasel.Identity.ApiKeys as ApiKeys
use token_weasel.Identity.Integrity.{IsConsistent}
use token_weasel.Identity.Owned.{
  Isolated, Isolated-refl, IsRekeyed-Isolated, delete_api_key-Isolated, insert_api_key-Isolated,
}
use token_weasel.Accounts.{AccountError, Outcome, on_answer, create_api_key, change_password}
use token_weasel.Accounts.Passwords.{change_password-outcome}
use token_weasel.Accounts.Handlers.{
  AuthUser, Response, Env, Request, AdminRequest, by_admin, create_api_key as create_key,
  list_api_keys, me_api, delete_api_key_api, change_password_api, forbidden, task, run_db_problem,
  handle, admin_only,
}

abbrev pub IsolatedFrom : ℤ → Store → Store → Store → Type 0
IsolatedFrom id s s' t = Isolated id s t ⊎ Isolated id s' t

task-Isolated :
    {A : Type 0} (id : ℤ) (panicked : Bool) (respond : Result AccountError A → Response)
    (s s' : Store) (out : Outcome A)
    → IsolatedFrom id s s' out.0
    → IsolatedFrom id s s' (task panicked respond s out).0
task-Isolated id true respond s s' out h = inl (Isolated-refl id s)
task-Isolated id false respond s s' (t, r) h = h

run_db_problem-Isolated :
    {A : Type 0} (id : ℤ) (panicked : Bool) (respond : A → Response) (s : Store)
    (x : Store × Result DbError A)
    → Isolated id s x.0
    → Isolated id s (run_db_problem panicked respond s x).0
run_db_problem-Isolated id true respond s x h = Isolated-refl id s
run_db_problem-Isolated id false respond s (t, ok a) h = h
run_db_problem-Isolated id false respond s (t, err e) h = h

on_answer-store :
    {A B : Type 0} (next : A → Result AccountError B) (x : Store × Result DbError A)
    → (on_answer next x).0 ≡ x.0
on_answer-store next (s, ok a) = refl
on_answer-store next (s, err e) = refl

module _ (hash_password : String → Result String String)
    (verify_password : String → String → Result String Bool) (print : ℕ → String)
    (sha256 take_ten : String → String) (newest_first : List StoredKey → List StoredKey)
    (oldest_first : List UserRow → List UserRow) (env : Env) (caller : AuthUser)
    (plain : caller.is_admin ≡ false) where
  admin_only-forbidden :
      (request : AdminRequest) (s : Store)
      → admin_only hash_password verify_password print sha256 take_ten newest_first oldest_first env
          caller request s
        ≡ (s, forbidden)
  unfolding admin_only
  admin_only-forbidden request s = rw plain refl

  refused :
      (request : AdminRequest) (s : Store)
      → IsolatedFrom caller.id s
          (env.others s)
          (admin_only hash_password verify_password print sha256 take_ten newest_first oldest_first
            env caller request s).0
  refused request s = inl (
      subst (λ r. Isolated caller.id s r.0) (sym (admin_only-forbidden request s))
        (Isolated-refl caller.id s))

  change-Isolated :
      (old_password new_password : String) (s : Store)
      → IsConsistent (env.others s)
      → IsolatedFrom caller.id s
          (env.others s)
          (change_password hash_password verify_password print env.first_fault env.second_fault
            env.others caller.id old_password new_password s).0
  change-Isolated old_password new_password s c =
      elim (change_password-outcome hash_password verify_password print caller.id env.first_fault
        env.second_fault env.others old_password new_password s c) [
          | inl (done, long, (u, hash, e, verified, hashing, rekeyed)) ↦
              inr (IsRekeyed-Isolated caller.id u hash (env.others s) _ e rekeyed)
          | inr (e, failed, inl same) ↦
              inl (subst (Isolated caller.id s) (sym same) (Isolated-refl caller.id s))
          | inr (e, failed, inr same) ↦ inr (
              subst (Isolated caller.id (env.others s)) (sym same)
                (Isolated-refl caller.id (env.others s)))
        ]

  -- Whatever a caller who is no administrator requests, and whatever fails on the way, the users'
  -- rows other than the caller's and what the keys of others authenticate are as they were at the
  -- start or as other connections left them, and the caller does not become an administrator.
  pub handle-Isolated :
      (request : Request) (s : Store)
      → IsConsistent s
      → IsConsistent (env.others s)
      → IsolatedFrom caller.id s
          (env.others s)
          (handle hash_password verify_password print sha256 take_ten newest_first oldest_first env
            caller request s).0
  unfolding handle create_api_key
  handle-Isolated (create_key name) s c c' =
      task-Isolated caller.id env.panicked _ s (env.others s) _ (
        inl (
          subst (Isolated caller.id s) (sym (on_answer-store _ _))
            (insert_api_key-Isolated env.first_fault env.clock caller.id name _ _ s c)))
  handle-Isolated list_api_keys s c c' = inl (
      run_db_problem-Isolated caller.id env.panicked _ s
        (s, ApiKeys.list_api_keys newest_first env.first_fault caller.id s)
        (Isolated-refl caller.id s))
  handle-Isolated me_api s c c' = inl (Isolated-refl caller.id s)
  handle-Isolated (change_password_api old_password new_password) s c c' =
      task-Isolated caller.id env.panicked _ s (env.others s) _
        (change-Isolated old_password new_password s c')
  handle-Isolated (delete_api_key_api id) s c c' = inl (
      run_db_problem-Isolated caller.id env.panicked _ s _
        (delete_api_key-Isolated env.first_fault id caller.id s c))
  handle-Isolated (by_admin request) s c c' = refused request s
