-- ===== src/Prelude/Table/Columns.antt =====
-- Statements on a table that test one column, and what they keep of another.
use token_weasel.Prelude.{
  ◌≡◌, refl, ◌≢◌, if_pos, if_neg, List, [], ◌∷◌, none, some, All, is_some, arith, subst,
}
use token_weasel.Prelude.Table.{find_by, delete_by, update_by, IsUnique}

-- Two columns: a statement that tests one keeps what the other promises.
module _ {A K J : Type 0} (eq : Discrete K) (column : A → K) (eq' : Discrete J)
    (other : A → J) where
  pub find_by-delete_by-none :
      (k : K) (j : J) (xs : List A)
      → find_by eq' other j xs ≡ none
      → find_by eq' other j (delete_by eq column k xs) ≡ none
  unfolding find_by delete_by
  find_by-delete_by-none k j [] h = refl
  find_by-delete_by-none k j (x ∷ xs) h = ground (arith, find_by-delete_by-none k j xs)

  pub IsUnique-delete_by :
      (k : K) (xs : List A) → IsUnique eq' other xs → IsUnique eq' other (delete_by eq column k xs)
  unfolding delete_by
  IsUnique-delete_by k [] u = tt
  IsUnique-delete_by k (x ∷ xs) u = elim (eq (column x) k) [
    | yes p ↦ rw (if_pos (eq (column x) k) p) (IsUnique-delete_by k xs u.1)
    | no p ↦
        rw (if_neg (eq (column x) k) p)
          (find_by-delete_by-none k (other x) xs u.0, IsUnique-delete_by k xs u.1)
  ]

  find_by-update_by-none :
      (k : K) (j : J) (g : A → A) (xs : List A)
      → ((x : A) → other (g x) ≡ other x)
      → find_by eq' other j xs ≡ none
      → find_by eq' other j (update_by eq column k g xs) ≡ none
  unfolding find_by update_by
  find_by-update_by-none k j g [] same h = refl
  find_by-update_by-none k j g (x ∷ xs) same h =
      ground (arith, same x, find_by-update_by-none k j g xs same)

  pub IsUnique-update_by :
      (k : K) (g : A → A) (xs : List A)
      → ((x : A) → other (g x) ≡ other x)
      → IsUnique eq' other xs
      → IsUnique eq' other (update_by eq column k g xs)
  unfolding update_by
  IsUnique-update_by k g [] same u = tt
  IsUnique-update_by k g (x ∷ xs) same u = elim (eq (column x) k) [
    | yes p ↦
        rw (if_pos (eq (column x) k) p, same x)
          (find_by-update_by-none k (other x) g xs same u.0, IsUnique-update_by k g xs same u.1)
    | no p ↦
        rw (if_neg (eq (column x) k) p)
          (find_by-update_by-none k (other x) g xs same u.0, IsUnique-update_by k g xs same u.1)
  ]

  pub find_by-delete_by-some :
      (k : K) (j : J) (a : A) (xs : List A)
      → find_by eq' other j xs ≡ some a
      → column a ≢ k
      → find_by eq' other j (delete_by eq column k xs) ≡ some a
  unfolding find_by delete_by
  find_by-delete_by-some k j a [] h d = ground arith
  find_by-delete_by-some k j a (x ∷ xs) h d = ground (arith, find_by-delete_by-some k j a xs)

  pub find_by-delete_by_gone :
      (k : K) (j : J) (a : A) (xs : List A)
      → IsUnique eq' other xs
      → find_by eq' other j xs ≡ some a
      → column a ≡ k
      → find_by eq' other j (delete_by eq column k xs) ≡ none
  unfolding find_by delete_by
  find_by-delete_by_gone k j a [] u h d = refl
  find_by-delete_by_gone k j a (x ∷ xs) u h d = elim (eq' (other x) j) [
    | yes p ↦ ground (arith, find_by-delete_by-none k j xs (rw p at u.0))
    | no p ↦ ground (arith, find_by-delete_by_gone k j a xs u.1)
  ]

  pub is_some-find_by-update_by :
      (k : K) (j : J) (g : A → A) (xs : List A)
      → ((x : A) → other (g x) ≡ other x)
      → is_some (find_by eq' other j (update_by eq column k g xs))
        ≡ is_some (find_by eq' other j xs)
  unfolding find_by update_by
  is_some-find_by-update_by k j g [] same = refl
  is_some-find_by-update_by k j g (x ∷ xs) same =
      ground (arith, same x, is_some-find_by-update_by k j g xs same)

module _ {A : Type 0} where
  pub All-map {ℓ κ} :
      (P : A → Type ℓ) (Q : A → Type κ) (xs : List A) → ((x : A) → P x → Q x) → All P xs → All Q xs
  All-map P Q [] f h = tt
  All-map P Q (x ∷ xs) f h = (f x h.0, All-map P Q xs f h.1)

  pub All-update_by {ℓ} :
      {K : Type 0} (eq : Discrete K) (column : A → K) (P : A → Type ℓ) (k : K) (g : A → A)
      (xs : List A)
      → ((x : A) → P x → P (g x))
      → All P xs
      → All P (update_by eq column k g xs)
  unfolding update_by
  All-update_by eq column P k g [] f h = tt
  All-update_by eq column P k g (x ∷ xs) f h = elim (eq (column x) k) [
    | yes p ↦ rw (if_pos (eq (column x) k) p) (f x h.0, All-update_by eq column P k g xs f h.1)
    | no p ↦ rw (if_neg (eq (column x) k) p) (h.0, All-update_by eq column P k g xs f h.1)
  ]

  pub All-find_by {ℓ} :
      {K : Type 0} (eq : Discrete K) (column : A → K) (P : A → Type ℓ) (k : K) (a : A) (xs : List A)
      → All P xs
      → find_by eq column k xs ≡ some a
      → P a × (column a ≡ k)
  unfolding find_by
  All-find_by eq column P k a [] h e = absurd (ground arith)
  All-find_by eq column P k a (x ∷ xs) h e = elim (eq (column x) k) [
    | yes p ↦
        let same : x ≡ a = ground arith in (subst P same h.0, subst (λ y. column y ≡ k) same p)
    | no p ↦ All-find_by eq column P k a xs h.1 (ground arith)
  ]
