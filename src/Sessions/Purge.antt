-- ===== src/Sessions/Purge.antt =====
-- The clean-up and the creation of sessions, as a later request sees them.
use mathlib.Core.Option.{none-ne-some, some-injective}
use token_weasel.Prelude.{
  subst, ℕ, zero, suc, ◌+◌, ◌≤◌, ◌<◌, ◌≡◌, refl, sym, ap, ◌∙◌, inl, inr, List, [], ◌∷◌, Option,
  none, some, and_then, ite, arith, Option-cases,
}
use token_weasel.Prelude.Assoc.{lookup, insert, lookup-insert}
use token_weasel.Sessions.{Record, if_live, purge_expired, choose_id, create, load}

zero_right : (n : ℕ) → n + 0 ≡ n
zero_right n = omega arith

zero_left : (n : ℕ) → 0 + n ≡ n
zero_left n = omega arith

suc_right : (n i : ℕ) → n + suc i ≡ n + 1 + i
suc_right n i = omega arith

module _ {K D : Type 0} (eq : Discrete K) where
  -- each id once, as in a hash map
  abbrev pub IsMap : List (K × Record K D) → Type 0
  IsMap [] = Unit {0}
  IsMap ((k, r) ∷ m) = (lookup eq k m ≡ none) × IsMap m

  lookup-purge_none :
      (now : ℕ) (k : K) (m : List (K × Record K D))
      → lookup eq k m ≡ none
      → lookup eq k (purge_expired now m) ≡ none
  unfolding lookup purge_expired
  lookup-purge_none now k [] h = refl
  lookup-purge_none now k ((j, r) ∷ m) h = ground (arith, lookup-purge_none now k m)

  -- A purge changes nothing that a load at its time or later can see.
  load-purge_expired :
      (now later : ℕ) (k : K) (m : List (K × Record K D))
      → IsMap m
      → now ≤ later
      → load eq later k (purge_expired now m) ≡ load eq later k m
  unfolding load lookup purge_expired
  load-purge_expired now later k [] v h = refl
  load-purge_expired now later k ((j, r) ∷ m) v h =
      ground (arith, load-purge_expired now later k m v.1 h, lookup-purge_none now j m v.0)

  choose_id-unused :
      (fuel : ℕ) (fresh : ℕ → K) (n : ℕ) (k chosen : K) (m : List (K × Record K D))
      → choose_id eq fuel fresh n k m ≡ some chosen
      → lookup eq chosen m ≡ none
  unfolding choose_id
  choose_id-unused zero fresh n k chosen m e = absurd (none-ne-some _ e)
  choose_id-unused (suc fuel) fresh n k chosen m e = elim (Option-cases (lookup eq k m)) [
    | inl free ↦ subst (λ x. lookup eq x m ≡ none) (some-injective _ _ (rw free at e)) free
    | inr (r, taken) ↦ choose_id-unused fuel fresh (n + 1) (fresh n) chosen m (rw taken at e)
  ]

  choose_id_free :
      (fuel : ℕ) (fresh : ℕ → K) (n : ℕ) (k : K) (m : List (K × Record K D))
      → lookup eq k m ≡ none
      → 0 < fuel
      → choose_id eq fuel fresh n k m ≡ some k
  unfolding choose_id
  choose_id_free zero fresh n k m e h = ground arith
  choose_id_free (suc fuel) fresh n k m e h = rw (e, choose_id) refl

  choose_id_total :
      (i fuel : ℕ) (fresh : ℕ → K) (n : ℕ) (k : K) (m : List (K × Record K D))
      → lookup eq (fresh (n + i)) m ≡ none
      → i + 1 < fuel
      → (chosen : K) × (choose_id eq fuel fresh n k m ≡ some chosen)
  unfolding choose_id
  choose_id_total i zero fresh n k m e h = ground arith
  choose_id_total zero (suc fuel) fresh n k m e h = elim (Option-cases (lookup eq k m)) [
    | inl free ↦ (k, rw (free, choose_id) refl)
    | inr (r, taken) ↦
        rw (taken, choose_id)
          (
            fresh n,
            choose_id_free fuel fresh (n + 1) (fresh n) m (rw (zero_right n) at e) (omega arith),
          )
  ]
  choose_id_total (suc i) (suc fuel) fresh n k m e h = elim (Option-cases (lookup eq k m)) [
    | inl free ↦ (k, rw (free, choose_id) refl)
    | inr (r, taken) ↦
        rw (taken, choose_id)
          (choose_id_total i fuel fresh (n + 1) (fresh n) m (rw (suc_right n i) at e) (omega arith))
  ]

  load-insert :
      (now : ℕ) (k j : K) (r : Record K D) (m : List (K × Record K D))
      → load eq now j (insert eq k r m) ≡ ite (eq k j) (if_live now r) (load eq now j m)
  unfolding load
  load-insert now k j r m =
      ap (λ o. and_then o (if_live now)) (lookup-insert eq k j r m)
      ∙ distribute (eq k j) (lookup eq j m)
    where
      distribute :
          (d : Dec (k ≡ j)) (o : Option (Record K D))
          → and_then (ite d (some r) o) (if_live now)
            ≡ ite d (if_live now r) (and_then o (if_live now))
      distribute (yes p) o = refl
      distribute (no p) o = refl

  -- `create` ends once the generator gives an id that is not in use, and it never overwrites: the
  -- id that the record gets was free, and every other id loads as before.
  pub create_fresh :
      (i fuel : ℕ) (fresh : ℕ → K) (r : Record K D) (m : List (K × Record K D))
      → lookup eq (fresh i) m ≡ none
      → i + 1 < fuel
      → (r' : Record K D) × (m' : List (K × Record K D)) × (create eq fuel fresh r m
          ≡ some (r', m'))
        × (lookup eq r'.id m ≡ none)
        × ((now : ℕ) (k : K)
            → load eq now k m' ≡ ite (eq r'.id k) (if_live now r') (load eq now k m))
  unfolding create
  create_fresh i fuel fresh r m e h =
      let (k, chosen) = choose_id_total i fuel fresh 0 r.id m (rw (sym (zero_left i)) at e) h in
      let r' : Record K D = record r { id = k } in
      (
        r',
        insert eq k r' m,
        rw chosen refl,
        choose_id-unused fuel fresh 0 r.id k m chosen,
        λ now j. load-insert now k j r' m,
      )
