-- ===== src/Backends/Placement/Spill.antt =====
-- Which candidate is tried first.
use token_weasel.Prelude.{
  ℕ, zero, suc, ◌+◌, ◌*◌, ◌%◌, ◌^◌, ◌≤◌, ◌<◌, ◌≡◌, refl, sym, ap, subst, ◌∙◌, ◌⊎◌, inl, inr, max,
  Bool, true, not, ◌&&◌, List, [], ◌∷◌, ◌++◌, Option, none, some, length, ltb, leb, ◌==◌, get_elem?,
  All, arith, Bool-cases,
}
use token_weasel.Backends.Placement.{
  round_robin, least_loaded, take, drop, rotate_left, insert_by, sort_by_key, strategy_placement,
  spill_target, choose, Reads, score_all, prefix_placement, total_load,
}
use token_weasel.Backends.Placement.Order.{count, Descends, SortsScores, count-score_all}

abbrev pub first : List ℕ → Option ℕ
first [] = none
first (x ∷ xs) = some x

first-rotate :
    (n : ℕ) (xs : List ℕ) (ys : List ℕ) → n < length xs → first (drop n xs ++ ys) ≡ get_elem? xs n
unfolding drop
first-rotate n [] ys h = ground arith
first-rotate zero (x ∷ xs) ys h = refl
first-rotate (suc n) (x ∷ xs) ys h = first-rotate n xs ys (omega arith)

-- Round robin takes the candidates in turn: the counter, modulo their number, says which is first,
-- and the counter moves on by one.
strategy_placement-round_robin :
    (load : ℕ → ℕ → ℕ) (cs : List ℕ) (rotation : ℕ)
    → 0 < length cs
    → (first (strategy_placement round_robin load cs rotation).0
        ≡ get_elem? cs (rotation % length cs))
      × ((strategy_placement round_robin load cs rotation).1 ≡ (rotation + 1) % 2 ^ 32)
unfolding strategy_placement rotate_left
strategy_placement-round_robin load cs rotation h =
    (first-rotate (rotation % length cs) cs (take (rotation % length cs) cs) (omega arith), refl)

abbrev Ascends : (ℕ → ℕ) → List ℕ → Type 0
Ascends key [] = Unit {0}
Ascends key (x ∷ xs) = All (λ y. key x ≤ key y) xs × Ascends key xs

All-le :
    (key : ℕ → ℕ) (m n : ℕ) (xs : List ℕ)
    → m ≤ n
    → All (λ y. n ≤ key y) xs
    → All (λ y. m ≤ key y) xs
All-le key m n [] h a = tt
All-le key m n (x ∷ xs) h (b, a) = (omega arith, All-le key m n xs h a)

-- readings that do not change between the comparisons
abbrev constantly : (ℕ → ℕ) → ℕ → ℕ → ℕ
constantly load at i = load i

All-insert_by :
    (key : ℕ → ℕ) (at m x : ℕ) (xs : List ℕ)
    → m ≤ key x
    → All (λ y. m ≤ key y) xs
    → All (λ y. m ≤ key y) (insert_by (constantly key) at x xs)
unfolding insert_by
All-insert_by key at m x [] h a = (h, tt)
All-insert_by key at m x (y ∷ ys) h (b, a) = elim (Bool-cases (leb (key x) (key y))) [
  | inl e ↦ rw (e, insert_by) (h, (b, a))
  | inr e ↦ rw (e, insert_by) (b, All-insert_by key (at + 2) m x ys h a)
]

insert_by-Ascends :
    (key : ℕ → ℕ) (at x : ℕ) (xs : List ℕ)
    → Ascends key xs
    → Ascends key (insert_by (constantly key) at x xs)
unfolding insert_by
insert_by-Ascends key at x [] a = (tt, tt)
insert_by-Ascends key at x (y ∷ ys) (b, a) = elim (Bool-cases (leb (key x) (key y))) [
  | inl e ↦
      rw (e, insert_by) ((ground arith, All-le key (key x) (key y) ys (ground arith) b), (b, a))
  | inr e ↦
      rw (e, insert_by)
        (
          All-insert_by key (at + 2) (key y) x ys (ground arith) b,
          insert_by-Ascends key (at + 2) x ys a,
        )
]

sort_by_key-Ascends :
    (key : ℕ → ℕ) (at : ℕ) (xs : List ℕ) → Ascends key (sort_by_key (constantly key) at xs)
unfolding sort_by_key
sort_by_key-Ascends key at [] = tt
sort_by_key-Ascends key at (x ∷ xs) =
    insert_by-Ascends key (at + length xs * length xs) x (sort_by_key (constantly key) at xs)
      (sort_by_key-Ascends key at xs)

-- Least loaded tries the candidates by their load, the least loaded first, if the loads do not
-- change while they are compared.
strategy_placement-Ascends :
    (load : ℕ → ℕ) (cs : List ℕ) (rotation : ℕ)
    → Ascends load (strategy_placement least_loaded (constantly load) cs rotation).0
unfolding strategy_placement
strategy_placement-Ascends load cs rotation = sort_by_key-Ascends load 0 cs

-- The scores of a list that was scored by `f`.
abbrev Scored : (ℕ → ℕ) → List (ℕ × ℕ) → Type 0
Scored f xs = All (λ q. q.0 ≡ f q.1) xs

count-none-Scored :
    (f : ℕ → ℕ) (xs : List (ℕ × ℕ)) → count (λ q. not (q.0 == f q.1)) xs ≡ 0 → Scored f xs
count-none-Scored f [] h = tt
count-none-Scored f ((s, i) ∷ xs) h = (ground arith, count-none-Scored f xs (ground arith))

count-all : (cs : List ℕ) → count (λ j. true) cs ≡ length cs
count-all [] = refl
count-all (c ∷ cs) = omega (arith, count-all cs)

count_self : (f : ℕ → ℕ) (cs : List ℕ) → count (λ j. not (f j == f j)) cs ≡ 0
count_self f [] = refl
count_self f (c ∷ cs) = ground (arith, count_self f cs)

-- nothing in a list with no score above `s` has a score above `s`
count-above :
    (p : ℕ × ℕ → Bool) (s : ℕ) (xs : List (ℕ × ℕ))
    → All (λ q. q.0 ≤ s) xs
    → count (λ q. p q && ltb s q.0) xs ≡ 0
count-above p s [] a = refl
count-above p s (x ∷ xs) (b, a) = ground (arith, count-above p s xs a)

-- what the search for a candidate under the bound finds in a list by descending score
abbrev Best : (ℕ → ℕ) → (ℕ → ℕ) → ℕ → ℕ → List (ℕ × ℕ) → ℕ → Type 0
Best load f bound primary xs c =
    (load c < bound) × (count (λ q. ltb (load q.1) bound && ltb (f c) q.0) xs ≡ 0)
    ⊎ (count (λ q. ltb (load q.1) bound) xs ≡ 0) × (c ≡ primary)

abbrev NoneAbove : (ℕ → ℕ) → ℕ → List (ℕ × ℕ) → ℕ → Type 0
NoneAbove load bound xs s = count (λ q. ltb (load q.1) bound && ltb s q.0) xs ≡ 0

-- The first of such a list has the highest score.
count-top :
    (f : ℕ → ℕ) (s i : ℕ) (xs : List (ℕ × ℕ))
    → Descends ((s, i) ∷ xs)
    → s ≡ f i
    → count (λ q. ltb (f i) q.0) ((s, i) ∷ xs) ≡ 0
count-top f s i xs d same =
    subst (λ t. count (λ q. ltb t q.0) ((s, i) ∷ xs) ≡ 0) same
      (ground (arith, count-above (λ q. true) s xs d.0))

spill_target-Best :
    (load f : ℕ → ℕ) (bound primary : ℕ) (xs : List (ℕ × ℕ))
    → Descends xs
    → Scored f xs
    → Best load f bound primary xs (spill_target load bound primary xs)
unfolding spill_target
spill_target-Best load f bound primary [] d sc = inr (refl, refl)
spill_target-Best load f bound primary ((s, i) ∷ xs) (above, d) (same, sc) =
    elim (Bool-cases (ltb (load i) bound)) [
      | inl e ↦ subst (Best load f bound primary ((s, i) ∷ xs)) {x = i} (rw e refl) (
          inl (
            ground arith,
            subst (NoneAbove load bound ((s, i) ∷ xs)) same
                (ground (arith, count-above (λ q. ltb (load q.1) bound) s xs above)),
          ))
      | inr e ↦
          subst (Best load f bound primary ((s, i) ∷ xs)) {x = spill_target load bound primary xs}
            (rw e refl) (ground (arith, spill_target-Best load f bound primary xs d sc))
    ]

-- With readings that agree, the primary is no special case.
choose-spill :
    (load : ℕ → ℕ) (bound s i : ℕ) (xs : List (ℕ × ℕ))
    → choose load load bound (s, i) xs ≡ spill_target load bound i ((s, i) ∷ xs)
unfolding choose spill_target
choose-spill load bound s i xs = ground arith

module _ (score : ℕ → ℕ → ℕ) (sort_scored : List (ℕ × ℕ) → List (ℕ × ℕ)) (share : ℕ → ℕ → ℕ)
    (sorts : SortsScores sort_scored) where
  -- What a request with the prefix hash `h` gets for the candidate `c` that it tries first.
  abbrev pub IsPreferred : (ℕ → ℕ) → ℕ → ℕ → List ℕ → ℕ → Type 0
  IsPreferred load bound h cs c =
      (load c < bound) × (count (λ j. ltb (load j) bound && ltb (score h c) (score h j)) cs ≡ 0)
      ⊎ (count (λ j. ltb (load j) bound) cs ≡ 0) × (count (λ j. ltb (score h c) (score h j)) cs ≡ 0)

  sorted_lem :
      (h : ℕ) (cs : List ℕ) (p : ℕ × ℕ → Bool)
      → count p (sort_scored (score_all score h cs)) ≡ count (λ j. p (score h j, j)) cs
  sorted_lem h cs p = sorts.permutes (score_all score h cs) p ∙ count-score_all score h p cs

  sorted-Scored : (h : ℕ) (cs : List ℕ) → Scored (score h) (sort_scored (score_all score h cs))
  sorted-Scored h cs =
      count-none-Scored (score h) _
        (sorted_lem h cs (λ q. not (q.0 == score h q.1)) ∙ count_self (score h) cs)

  choose-IsPreferred :
      (load : ℕ → ℕ) (bound h : ℕ) (cs : List ℕ) (p : ℕ × ℕ) (ps : List (ℕ × ℕ))
      → sort_scored (score_all score h cs) ≡ p ∷ ps
      → IsPreferred load bound h cs (choose load load bound p ps)
  choose-IsPreferred load bound h cs (s, i) ps e =
      let d : Descends ((s, i) ∷ ps) = rw e at (sorts.descends (score_all score h cs)) in
      let sc : Scored (score h) ((s, i) ∷ ps) = rw e at (sorted-Scored h cs) in
      let counts : (q : ℕ × ℕ → Bool) → count q ((s, i) ∷ ps) ≡ count (λ j. q (score h j, j)) cs =
        λ q. ap (count q) (sym e) ∙ sorted_lem h cs q in
      let c = spill_target load bound i ((s, i) ∷ ps) in
      subst (IsPreferred load bound h cs) (sym (choose-spill load bound s i ps))
        (elim (spill_target-Best load (score h) bound i ((s, i) ∷ ps) d sc) [
          | inl (under, none_better) ↦
              inl (
                under,
                sym (counts (λ q. ltb (load q.1) bound && ltb (score h c) q.0)) ∙ none_better,
              )
          | inr (all_over, same) ↦ inr (
            sym (counts (λ q. ltb (load q.1) bound)) ∙ all_over,
            sym (counts (λ q. ltb (score h c) q.0))
                ∙ subst (λ k. count (λ q. ltb (score h k) q.0) ((s, i) ∷ ps) ≡ 0) (sym same)
                    (count-top (score h) s i ps d sc.0),
          )
        ])

  -- readings of the counters that agree
  abbrev pub steady : (ℕ → ℕ) → Reads
  steady load = record {
    for_total = load;
    for_primary = load;
    for_spill = load;
    for_sort = constantly load;
  }

  abbrev pub bound_of : (ℕ → ℕ) → List ℕ → ℕ
  bound_of load cs = max 1 (share (total_load load cs) (length cs))

  -- While the counters do not change, a request with a prefix first tries, of the candidates under
  -- the load bound, one with the highest score; if none is under the bound, one with the highest
  -- score of all. There is always such a first candidate.
  pub prefix_placement-IsPreferred :
      (load : ℕ → ℕ) (cs : List ℕ) (h : ℕ)
      → 0 < length cs
      → (c : ℕ) × (first (prefix_placement score sort_scored share (steady load) cs h) ≡ some c)
        × IsPreferred load (bound_of load cs) h cs c
  unfolding prefix_placement
  prefix_placement-IsPreferred load cs h n = go (sort_scored (score_all score h cs)) refl
    where
      go :
          (sorted : List (ℕ × ℕ))
          → sort_scored (score_all score h cs) ≡ sorted
          → (c : ℕ) × (first (prefix_placement score sort_scored share (steady load) cs h) ≡ some c)
            × IsPreferred load (bound_of load cs) h cs c
      go [] e = absurd (
          omega
            (arith, n, count-all cs, sym (sorted_lem h cs (λ q. true)) ∙ ap (count (λ q. true)) e))
      go (p ∷ ps) e = (
        choose load load (bound_of load cs) p ps,
        rw (e, prefix_placement) refl,
        choose-IsPreferred load (bound_of load cs) h cs p ps e,
      )
