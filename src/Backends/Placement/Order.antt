-- ===== src/Backends/Placement/Order.antt =====
-- Whatever the strategy, every candidate is tried, and each once.
use token_weasel.Prelude.{
  ℕ, zero, suc, ◌+◌, ◌*◌, ◌%◌, ◌≤◌, ◌≡◌, refl, sym, ap, ◌∙◌, max, Bool, List, [], ◌∷◌, ◌++◌, Option,
  none, some, length, ◌==◌, if◌then◌else◌, All, arith,
}
use token_weasel.Backends.Placement.{
  LbStrategy, round_robin, least_loaded, take, drop, rotate_left, insert_by, sort_by_key,
  strategy_placement, spill_target, others, choose, Reads, score_all, prefix_placement,
  ordered_candidates, total_load,
}

-- how many items pass a test
abbrev pub count {ℓ} : {A : Type ℓ} → (A → Bool) → List A → ℕ
count p [] = 0
count p (x ∷ xs) = (if p x then 1 else 0) + count p xs

pub count-append {ℓ} :
    {A : Type ℓ} (p : A → Bool) (xs ys : List A) → count p (xs ++ ys) ≡ count p xs + count p ys
count-append p [] ys = omega arith
count-append p (x ∷ xs) ys = omega (arith, count-append p xs ys)

abbrev pub is : ℕ → ℕ → Bool
is i j = j == i

abbrev is_index : ℕ → ℕ × ℕ → Bool
is_index i p = p.1 == i

-- no index twice, as in a routing table
abbrev pub IsDistinct : List ℕ → Type 0
IsDistinct cs = (i : ℕ) → count (is i) cs ≤ 1

count-take-drop :
    (p : ℕ → Bool) (n : ℕ) (xs : List ℕ) → count p (take n xs) + count p (drop n xs) ≡ count p xs
unfolding take drop
count-take-drop p zero xs = omega arith
count-take-drop p (suc n) [] = omega arith
count-take-drop p (suc n) (x ∷ xs) = omega (arith, count-take-drop p n xs)

count-rotate : (p : ℕ → Bool) (n : ℕ) (xs : List ℕ) → count p (rotate_left n xs) ≡ count p xs
unfolding rotate_left
count-rotate p n xs = omega (arith, count-append p (drop n xs) (take n xs), count-take-drop p n xs)

count-insert_by :
    (p : ℕ → Bool) (load : ℕ → ℕ → ℕ) (at x : ℕ) (xs : List ℕ)
    → count p (insert_by load at x xs) ≡ (if p x then 1 else 0) + count p xs
unfolding insert_by
count-insert_by p load at x [] = refl
count-insert_by p load at x (y ∷ ys) = ground (arith, count-insert_by p load (at + 2) x ys)

count-sort_by_key :
    (p : ℕ → Bool) (load : ℕ → ℕ → ℕ) (at : ℕ) (xs : List ℕ)
    → count p (sort_by_key load at xs) ≡ count p xs
unfolding sort_by_key
count-sort_by_key p load at [] = refl
count-sort_by_key p load at (x ∷ xs) = omega (
  arith,
  count-insert_by p load (at + length xs * length xs) x (sort_by_key load at xs),
  count-sort_by_key p load at xs,
)

count-others :
    (i chosen : ℕ) (scored : List (ℕ × ℕ))
    → count (is i) (others chosen scored) ≡ (if chosen == i then 0 else count (is_index i) scored)
unfolding others
count-others i chosen [] = ground arith
count-others i chosen ((s, j) ∷ scored) = ground (arith, count-others i chosen scored)

-- the choice is the primary or one of the scored
spill_target-among :
    (load : ℕ → ℕ) (bound primary : ℕ) (scored : List (ℕ × ℕ))
    → 1
      ≤ (if primary == spill_target load bound primary scored then 1 else 0)
        + count (is_index (spill_target load bound primary scored)) scored
unfolding spill_target
spill_target-among load bound primary [] = ground arith
spill_target-among load bound primary ((s, i) ∷ scored) =
    ground (arith, spill_target-among load bound primary scored)

choose-among :
    (load_primary load_spill : ℕ → ℕ) (bound : ℕ) (p : ℕ × ℕ) (scored : List (ℕ × ℕ))
    → 1 ≤ count (is_index (choose load_primary load_spill bound p scored)) (p ∷ scored)
unfolding choose
choose-among load_primary load_spill bound (s, i) scored =
    ground (arith, spill_target-among load_spill bound i ((s, i) ∷ scored))

abbrev pub Descends : List (ℕ × ℕ) → Type 0
Descends [] = Unit {0}
Descends (p ∷ ps) = All (λ q. q.0 ≤ p.0) ps × Descends ps

-- what the standard library promises of `sort_unstable_by` with the highest score first
pub record SortsScores (sort_scored : List (ℕ × ℕ) → List (ℕ × ℕ)) : Type 0 where
  pub permutes : (xs : List (ℕ × ℕ)) (p : ℕ × ℕ → Bool) → count p (sort_scored xs) ≡ count p xs
  pub descends : (xs : List (ℕ × ℕ)) → Descends (sort_scored xs)

pub count-score_all :
    (score : ℕ → ℕ → ℕ) (h : ℕ) (p : ℕ × ℕ → Bool) (cs : List ℕ)
    → count p (score_all score h cs) ≡ count (λ j. p (score h j, j)) cs
unfolding score_all
count-score_all score h p [] = refl
count-score_all score h p (c ∷ cs) = omega (arith, count-score_all score h p cs)

module _ (score : ℕ → ℕ → ℕ) (sort_scored : List (ℕ × ℕ) → List (ℕ × ℕ)) (share : ℕ → ℕ → ℕ)
    (sorts : SortsScores sort_scored) where
  count-sorted :
      (h i : ℕ) (cs : List ℕ)
      → count (is_index i) (sort_scored (score_all score h cs)) ≡ count (is i) cs
  count-sorted h i cs =
      sorts.permutes (score_all score h cs) (is_index i) ∙ count-score_all score h (is_index i) cs

  count-prefix :
      (reads : Reads) (cs : List ℕ) (h i : ℕ)
      → IsDistinct cs
      → count (is i) (prefix_placement score sort_scored share reads cs h) ≡ count (is i) cs
  unfolding prefix_placement
  count-prefix reads cs h i d = go (sort_scored (score_all score h cs)) refl
    where
      go :
          (sorted : List (ℕ × ℕ))
          → sort_scored (score_all score h cs) ≡ sorted
          → count (is i) (prefix_placement score sort_scored share reads cs h) ≡ count (is i) cs
      go [] e = rw (e, prefix_placement) (ap (count (is_index i)) (sym e) ∙ count-sorted h i cs)
      go (p ∷ ps) e =
          let bound = max 1 (share (total_load reads.for_total cs) (length cs)) in
          let chosen = choose reads.for_primary reads.for_spill bound p ps in
          let counts : (j : ℕ) → count (is_index j) (p ∷ ps) ≡ count (is j) cs =
            λ j. ap (count (is_index j)) (sym e) ∙ count-sorted h j cs in
          rw (e, prefix_placement)
            (ground (
              arith,
              count-others i chosen (p ∷ ps),
              choose-among reads.for_primary reads.for_spill bound p ps,
              counts i,
              counts chosen,
              d chosen,
            ))

  -- Whatever the counters read each time they are read, at every comparison of the sort by load too,
  -- the order holds every candidate, and each as often as the routing table, where no candidate
  -- stands twice in the table. The sort of the scores is assumed to permute and to sort.
  pub ordered_candidates_complete :
      (strategy : LbStrategy) (reads : Reads) (cs : List ℕ) (rotation : ℕ) (prefix : Option ℕ)
      → (i : ℕ) → IsDistinct cs
      → count
          (is i)
          (ordered_candidates score sort_scored share strategy reads cs rotation prefix).0
        ≡ count (is i) cs
  unfolding ordered_candidates strategy_placement
  ordered_candidates_complete round_robin reads cs rotation none i d =
      count-rotate (is i) (rotation % length cs) cs
  ordered_candidates_complete least_loaded reads cs rotation none i d =
      count-sort_by_key (is i) reads.for_sort 0 cs
  ordered_candidates_complete strategy reads cs rotation (some h) i d = count-prefix reads cs h i d
