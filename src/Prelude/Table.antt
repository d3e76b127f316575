-- ===== src/Prelude/Table.antt =====
-- Tables of a relational store as lists of rows, and the statements on them that test a column for
-- a value. The rows stand in the order of their insertion.
pub mod Columns
use token_weasel.Prelude.{
  ℕ, ◌+◌, ◌≡◌, refl, ap, ◌≢◌, ◌∙◌, ite, if_pos, if_neg, List, [], ◌∷◌, ◌++◌, Option, none, some,
  All, is_some, arith, subst,
}

module _ {A K : Type 0} (eq : Discrete K) (column : A → K) where
  -- `SELECT … WHERE column = k`, the first row
  unfoldable pub find_by : K → List A → Option A
  find_by k [] = none
  find_by k (x ∷ xs) = ite (eq (column x) k) (some x) (find_by k xs)

  -- `DELETE … WHERE column = k`
  unfoldable pub delete_by : K → List A → List A
  delete_by k [] = []
  delete_by k (x ∷ xs) = ite (eq (column x) k) (delete_by k xs) (x ∷ delete_by k xs)

  -- `SELECT … WHERE column = k`
  unfoldable pub select_by : K → List A → List A
  select_by k [] = []
  select_by k (x ∷ xs) = ite (eq (column x) k) (x ∷ select_by k xs) (select_by k xs)

  -- `UPDATE … WHERE column = k`
  unfoldable pub update_by : K → (A → A) → List A → List A
  update_by k g [] = []
  update_by k g (x ∷ xs) = ite (eq (column x) k) (g x) x ∷ update_by k g xs

  -- the number of rows that such a statement affects
  unfoldable pub count_by : K → List A → ℕ
  count_by k [] = 0
  count_by k (x ∷ xs) = ite (eq (column x) k) 1 0 + count_by k xs

  -- a `UNIQUE` column
  abbrev pub IsUnique : List A → Type 0
  IsUnique [] = Unit {0}
  IsUnique (x ∷ xs) = (find_by (column x) xs ≡ none) × IsUnique xs

  pub find_by-append_none :
      (k : K) (xs ys : List A) → find_by k xs ≡ none → find_by k (xs ++ ys) ≡ find_by k ys
  unfolding find_by
  find_by-append_none k [] ys h = refl
  find_by-append_none k (x ∷ xs) ys h = ground (arith, find_by-append_none k xs ys)

  pub find_by-append_some :
      (k : K) (a : A) (xs ys : List A) → find_by k xs ≡ some a → find_by k (xs ++ ys) ≡ some a
  unfolding find_by
  find_by-append_some k a [] ys h = ground arith
  find_by-append_some k a (x ∷ xs) ys h = ground (arith, find_by-append_some k a xs ys)

  pub find_by-append_new :
      (x : A) (xs : List A)
      → find_by (column x) xs ≡ none
      → find_by (column x) (xs ++ x ∷ []) ≡ some x
  unfolding find_by
  find_by-append_new x [] h = if_pos (eq (column x) (column x)) refl _ _
  find_by-append_new x (y ∷ ys) h = ground (arith, find_by-append_new x ys)

  pub IsUnique-append :
      (x : A) (xs : List A) → IsUnique xs → find_by (column x) xs ≡ none → IsUnique (xs ++ x ∷ [])
  unfolding find_by
  IsUnique-append x [] u h = (refl, tt)
  IsUnique-append x (y ∷ ys) u h = elim (eq (column y) (column x)) [
    | yes p ↦ absurd (ground arith)
    | no p ↦ (
      find_by-append_none (column y) ys (x ∷ []) u.0 ∙ ground arith,
      IsUnique-append x ys u.1 (ground arith),
    )
  ]

  -- the rows that a deletion leaves have another value
  pub All-delete_by {ℓ} :
      (P : A → Type ℓ) (k : K) (xs : List A)
      → All P xs
      → All (λ x. (column x ≢ k) × P x) (delete_by k xs)
  unfolding delete_by
  All-delete_by P k [] h = tt
  All-delete_by P k (x ∷ xs) h = elim (eq (column x) k) [
    | yes p ↦ rw (if_pos (eq (column x) k) p) (All-delete_by P k xs h.1)
    | no p ↦ rw (if_neg (eq (column x) k) p) ((p, h.0), All-delete_by P k xs h.1)
  ]

  pub find_by-delete_by_ne :
      (k j : K) (xs : List A) → k ≢ j → find_by j (delete_by k xs) ≡ find_by j xs
  unfolding find_by delete_by
  find_by-delete_by_ne k j [] h = refl
  find_by-delete_by_ne k j (x ∷ xs) h = ground (arith, find_by-delete_by_ne k j xs h)

  find_by-delete_by_self : (k : K) (xs : List A) → find_by k (delete_by k xs) ≡ none
  unfolding find_by delete_by
  find_by-delete_by_self k [] = refl
  find_by-delete_by_self k (x ∷ xs) = ground (arith, find_by-delete_by_self k xs)

  select_by-delete_by_ne :
      (k j : K) (xs : List A) → k ≢ j → select_by j (delete_by k xs) ≡ select_by j xs
  unfolding select_by delete_by
  select_by-delete_by_ne k j [] h = refl
  select_by-delete_by_ne k j (x ∷ xs) h = ground (arith, select_by-delete_by_ne k j xs h)

  select_by-delete_by_self : (k : K) (xs : List A) → select_by k (delete_by k xs) ≡ []
  unfolding select_by delete_by
  select_by-delete_by_self k [] = refl
  select_by-delete_by_self k (x ∷ xs) = ground (arith, select_by-delete_by_self k xs)

  select_by-append_ne :
      (j : K) (x : A) (xs : List A) → column x ≢ j → select_by j (xs ++ x ∷ []) ≡ select_by j xs
  unfolding select_by
  select_by-append_ne j x [] h = ground arith
  select_by-append_ne j x (y ∷ ys) h = ground (arith, select_by-append_ne j x ys h)

  pub find_by-update_by_ne :
      (k j : K) (g : A → A) (xs : List A)
      → ((x : A) → column (g x) ≡ column x)
      → k ≢ j
      → find_by j (update_by k g xs) ≡ find_by j xs
  unfolding find_by update_by
  find_by-update_by_ne k j g [] same h = refl
  find_by-update_by_ne k j g (x ∷ xs) same h =
      ground (arith, same x, find_by-update_by_ne k j g xs same h)

  pub find_by-update_by_self :
      (k : K) (g : A → A) (a : A) (xs : List A)
      → ((x : A) → column (g x) ≡ column x)
      → find_by k xs ≡ some a
      → find_by k (update_by k g xs) ≡ some (g a)
  unfolding find_by update_by
  find_by-update_by_self k g a [] same h = ground arith
  find_by-update_by_self k g a (x ∷ xs) same h =
      ground (arith, same x, find_by-update_by_self k g a xs same)

  pub count_by-none : (k : K) (xs : List A) → find_by k xs ≡ none → count_by k xs ≡ 0
  unfolding find_by count_by
  count_by-none k [] h = refl
  count_by-none k (x ∷ xs) h = ground (arith, count_by-none k xs)

  pub update_by-none :
      (k : K) (g : A → A) (xs : List A) → find_by k xs ≡ none → update_by k g xs ≡ xs
  unfolding find_by update_by
  update_by-none k g [] h = refl
  update_by-none k g (x ∷ xs) h = ground (arith, update_by-none k g xs)

  pub delete_by_none : (k : K) (xs : List A) → All (λ x. column x ≢ k) xs → delete_by k xs ≡ xs
  unfolding delete_by
  delete_by_none k [] h = refl
  delete_by_none k (x ∷ xs) h =
      if_neg (eq (column x) k) h.0 _ _ ∙ ap (λ ys. x ∷ ys) (delete_by_none k xs h.1)

  pub count_by_unique :
      (k : K) (a : A) (xs : List A) → IsUnique xs → find_by k xs ≡ some a → count_by k xs ≡ 1
  unfolding find_by count_by
  count_by_unique k a [] u h = ground arith
  count_by_unique k a (x ∷ xs) u h = elim (eq (column x) k) [
    | yes p ↦ ground (arith, count_by-none k xs (rw p at u.0))
    | no p ↦ ground (arith, count_by_unique k a xs u.1)
  ]
