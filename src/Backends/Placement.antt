-- ===== src/Backends/Placement.antt =====
-- The order in which crates/twl-backends/src/lib.rs tries the candidates of a model. The counters
-- are atomics that other requests change: each place that reads them has its own function. Parameters:
-- `score` is the hash of a prefix and an index, `sort_scored` is `sort_unstable_by` on the scores,
-- `share` is the rounded-up `overload_factor * (total + 1) / n`.
pub mod Order
pub mod Spill
use token_weasel.Prelude.{
  ℕ, zero, suc, ◌+◌, ◌*◌, ◌%◌, ◌^◌, max, Bool, true, false, not, List, [], ◌∷◌, ◌++◌, Option, none,
  some, length, map, ltb, leb, ◌==◌, if◌then◌else◌, unwrap_or,
}

pub data LbStrategy : Type 0 where
  round_robin least_loaded : LbStrategy

-- `result.rotate_left(pos)`
unfoldable pub take : ℕ → List ℕ → List ℕ
take zero xs = []
take (suc n) [] = []
take (suc n) (x ∷ xs) = x ∷ take n xs

unfoldable pub drop : ℕ → List ℕ → List ℕ
drop zero xs = xs
drop (suc n) [] = []
drop (suc n) (x ∷ xs) = drop n xs

unfoldable pub rotate_left : ℕ → List ℕ → List ℕ
rotate_left pos xs = drop pos xs ++ take pos xs

-- `sort_by_key`, stable, by insertion. Its key reads the counter of an index again at every
-- comparison: `load` gives the reading at a moment, and no two readings share one. The sort of the
-- standard library compares in an order of its own. Where the readings contradict each other it
-- leaves the elements in an unspecified order, or panics, which is not modelled.
unfoldable pub insert_by : (ℕ → ℕ → ℕ) → ℕ → ℕ → List ℕ → List ℕ
insert_by load at x [] = x ∷ []
insert_by load at x (y ∷ ys) =
    if leb (load at x) (load (at + 1) y) then x ∷ y ∷ ys else y ∷ insert_by load (at + 2) x ys

-- Sorting `n` elements makes at most `n * (n - 1)` readings.
unfoldable pub sort_by_key : (ℕ → ℕ → ℕ) → ℕ → List ℕ → List ℕ
sort_by_key load at [] = []
sort_by_key load at (x ∷ xs) =
    insert_by load (at + length xs * length xs) x (sort_by_key load at xs)

-- The order, and the counter after `fetch_add`.
unfoldable pub strategy_placement : LbStrategy → (ℕ → ℕ → ℕ) → List ℕ → ℕ → List ℕ × ℕ
strategy_placement round_robin load candidates rotation =
    (rotate_left (rotation % length candidates) candidates, (rotation + 1) % 2 ^ 32)
strategy_placement least_loaded load candidates rotation = (sort_by_key load 0 candidates, rotation)

-- `find` on the load, and the primary where there is none
unfoldable pub spill_target : (ℕ → ℕ) → ℕ → ℕ → List (ℕ × ℕ) → ℕ
spill_target load bound primary [] = primary
spill_target load bound primary ((s, i) ∷ scored) =
    if ltb (load i) bound then i else spill_target load bound primary scored

-- `sum`, of u32 values
unfoldable pub total_load : (ℕ → ℕ) → List ℕ → ℕ
total_load load [] = 0
total_load load (i ∷ is) = (load i + total_load load is) % 2 ^ 32

unfoldable pub others : ℕ → List (ℕ × ℕ) → List ℕ
others chosen [] = []
others chosen ((s, i) ∷ scored) =
    if i == chosen then others chosen scored else i ∷ others chosen scored

-- the primary while it is under the bound
unfoldable pub choose : (ℕ → ℕ) → (ℕ → ℕ) → ℕ → ℕ × ℕ → List (ℕ × ℕ) → ℕ
choose load_primary load_spill bound (s, primary) scored =
    if ltb (load_primary primary) bound
    then primary
    else spill_target load_spill bound primary ((s, primary) ∷ scored)

-- the readings of the counters, in the order in which they are taken
pub record Reads : Type 0 where
  pub for_total : ℕ → ℕ
  pub for_primary : ℕ → ℕ
  pub for_spill : ℕ → ℕ
  pub for_sort : ℕ → ℕ → ℕ

unfoldable pub score_all : (ℕ → ℕ → ℕ) → ℕ → List ℕ → List (ℕ × ℕ)
score_all score h [] = []
score_all score h (i ∷ is) = (score h i, i) ∷ score_all score h is

module _ (score : ℕ → ℕ → ℕ) (sort_scored : List (ℕ × ℕ) → List (ℕ × ℕ)) (share : ℕ → ℕ → ℕ) where
  -- `scored[0]` fails on no candidate; the callers pass at least two.
  unfoldable pub prefix_placement : Reads → List ℕ → ℕ → List ℕ
  prefix_placement reads candidates h = elim (sort_scored (score_all score h candidates)) [
    | [] ↦ []
    | primary ∷ scored ↦
        let bound = max 1 (share (total_load reads.for_total candidates) (length candidates)) in
        let chosen = choose reads.for_primary reads.for_spill bound primary scored in
        chosen ∷ others chosen (primary ∷ scored)
  ]

  unfoldable pub ordered_candidates : LbStrategy → Reads → List ℕ → ℕ → Option ℕ → List ℕ × ℕ
  ordered_candidates strategy reads candidates rotation none =
      strategy_placement strategy reads.for_sort candidates rotation
  ordered_candidates strategy reads candidates rotation (some h) =
      (prefix_placement reads candidates h, rotation)
