-- ===== src/Tests/Sorting.antt =====
-- A sort of scored candidates that keeps what the standard library promises.
use token_weasel.Prelude.{
  ℕ, ◌+◌, ◌≤◌, ◌≡◌, refl, inl, inr, Bool, List, [], ◌∷◌, leb, if◌then◌else◌, All, arith, Bool-cases,
}
use token_weasel.Backends.Placement.Order.{count, Descends, SortsScores}

abbrev insert_score : ℕ × ℕ → List (ℕ × ℕ) → List (ℕ × ℕ)
insert_score p [] = p ∷ []
insert_score p (q ∷ qs) = if leb q.0 p.0 then p ∷ q ∷ qs else q ∷ insert_score p qs

abbrev pub sort_scores : List (ℕ × ℕ) → List (ℕ × ℕ)
sort_scores [] = []
sort_scores (p ∷ ps) = insert_score p (sort_scores ps)

count-insert_score :
    (t : ℕ × ℕ → Bool) (p : ℕ × ℕ) (qs : List (ℕ × ℕ))
    → count t (insert_score p qs) ≡ (if t p then 1 else 0) + count t qs
count-insert_score t p [] = refl
count-insert_score t p (q ∷ qs) = ground (arith, count-insert_score t p qs)

count-sort_scores : (ps : List (ℕ × ℕ)) (t : ℕ × ℕ → Bool) → count t (sort_scores ps) ≡ count t ps
count-sort_scores [] t = refl
count-sort_scores (p ∷ ps) t =
    omega (arith, count-insert_score t p (sort_scores ps), count-sort_scores ps t)

All-le_trans : (m n : ℕ) (qs : List (ℕ × ℕ)) → m ≤ n → All (λ q. q.0 ≤ m) qs → All (λ q. q.0 ≤ n) qs
All-le_trans m n [] h a = tt
All-le_trans m n (q ∷ qs) h (b, a) = (omega arith, All-le_trans m n qs h a)

All-insert_score :
    (m : ℕ) (p : ℕ × ℕ) (qs : List (ℕ × ℕ))
    → p.0 ≤ m
    → All (λ q. q.0 ≤ m) qs
    → All (λ q. q.0 ≤ m) (insert_score p qs)
All-insert_score m p [] h a = (h, tt)
All-insert_score m p (q ∷ qs) h (b, a) = elim (Bool-cases (leb q.0 p.0)) [
  | inl e ↦ rw (e, insert_score) (h, (b, a))
  | inr e ↦ rw (e, insert_score) (b, All-insert_score m p qs h a)
]

insert_score-Descends : (p : ℕ × ℕ) (qs : List (ℕ × ℕ)) → Descends qs → Descends (insert_score p qs)
insert_score-Descends p [] d = (tt, tt)
insert_score-Descends p (q ∷ qs) (a, d) = elim (Bool-cases (leb q.0 p.0)) [
  | inl e ↦ rw (e, insert_score) ((ground arith, All-le_trans q.0 p.0 qs (ground arith) a), (a, d))
  | inr e ↦
      rw (e, insert_score)
        (All-insert_score q.0 p qs (ground arith) a, insert_score-Descends p qs d)
]

sort_scores-Descends : (ps : List (ℕ × ℕ)) → Descends (sort_scores ps)
sort_scores-Descends [] = tt
sort_scores-Descends (p ∷ ps) = insert_score-Descends p (sort_scores ps) (sort_scores-Descends ps)

pub sort_scores-SortsScores : SortsScores sort_scores
sort_scores-SortsScores = record {
  permutes = λ ps t. count-sort_scores ps t;
  descends = λ ps. sort_scores-Descends ps;
}
