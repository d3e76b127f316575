-- ===== src/Sessions.antt =====
-- crates/twl-server/src/session_store.rs. `fresh n` is the n-th `Id::default()`; `now` is the
-- reading of the clock. The operations run under the store's lock.
pub mod Purge
use token_weasel.Prelude.{
  ℕ, zero, suc, ◌+◌, Bool, true, false, List, [], ◌∷◌, Option, none, some, ltb, if◌then◌else◌,
  is_some, and_then, ◌≡◌, ite,
}
use token_weasel.Prelude.Assoc.{lookup, insert, remove}

pub record Record (K D : Type 0) : Type 0 where
  pub id : K
  pub data_of : D
  pub expiry_date : ℕ

-- `filter(|record| record.expiry_date > now)`
abbrev pub if_live : {K D : Type 0} → ℕ → Record K D → Option (Record K D)
if_live now r = if ltb now r.expiry_date then some r else none

-- `retain`
unfoldable pub purge_expired : {K D : Type 0} → ℕ → List (K × Record K D) → List (K × Record K D)
purge_expired now [] = []
purge_expired now ((k, r) ∷ m) =
    if ltb now r.expiry_date then (k, r) ∷ purge_expired now m else purge_expired now m

module _ {K D : Type 0} (eq : Discrete K) where
  -- The loop of `create`, with fuel; the record that it is called with gets the new id.
  unfoldable pub choose_id : ℕ → (ℕ → K) → ℕ → K → List (K × Record K D) → Option K
  choose_id zero fresh n k m = none
  choose_id (suc fuel) fresh n k m =
      let rest = choose_id fuel fresh (n + 1) (fresh n) m in
      if is_some (lookup eq k m) then rest else some k

  unfoldable pub create :
      ℕ → (ℕ → K) → Record K D → List (K × Record K D) → Option (Record K D × List (K × Record K D))
  create fuel fresh r m =
      and_then (choose_id fuel fresh 0 r.id m)
        λ k. let r' = record r { id = k } in some (r', insert eq k r' m)

  unfoldable pub save : Record K D → List (K × Record K D) → List (K × Record K D)
  save r m = insert eq r.id r m

  unfoldable pub load : ℕ → K → List (K × Record K D) → Option (Record K D)
  load now k m = and_then (lookup eq k m) (if_live now)

  unfoldable pub delete : K → List (K × Record K D) → List (K × Record K D)
  delete k m = remove eq k m
