-- ===== src/Backends/Registry/Reach.antt =====
-- What holds of a registry in use: its table, and its counters of requests in flight.
use mathlib.Core.Option.{none-ne-some, some-injective}
use token_weasel.Prelude.{
  ℕ, zero, suc, ◌+◌, ◌-◌, ◌%◌, ◌^◌, ◌≤◌, ◌<◌, ◌≡◌, refl, sym, ap, subst, ◌∙◌, inl, inr, false, List,
  [], ◌∷◌, ◌++◌, some, length, ◌==◌, if◌then◌else◌, get_elem?, set, All, arith, Option-cases,
  Bool-cases,
}
use token_weasel.Backends.Placement.Order.{count, is, count-append}
use token_weasel.Backends.Registry.{begin_load, drop_load}
use token_weasel.Backends.Registry.Refresh.{get_elem?-set}

-- the registry's counters, and the load guards that exist, each by its backend
pub record Loads : Type 0 where
  pub inflight : List ℕ
  pub guards : List ℕ

-- A guard is created with a count, and dropped with one, in any order.
pub data LoadStep (w : Loads) : Loads → Type 0 where
  begins :
      (idx : ℕ) {inflight : List ℕ}
      → begin_load idx w.inflight ≡ some inflight
      → LoadStep w (record { inflight = inflight; guards = idx ∷ w.guards })
  ends :
      (idx : ℕ) (before after : List ℕ) {inflight : List ℕ}
      → w.guards ≡ before ++ idx ∷ after
      → drop_load idx w.inflight ≡ some inflight
      → LoadStep w (record { inflight = inflight; guards = before ++ after })

pub data LoadReach (n : ℕ) : Loads → Type 0 where
  start :
      (zeros : List ℕ)
      → length zeros ≡ n
      → All (λ c. c ≡ 0) zeros
      → LoadReach n (record { inflight = zeros; guards = [] })
  next : {w v : Loads} → LoadReach n w → LoadStep w v → LoadReach n v

-- The counter of a backend is the number of its guards, as a u32, and every guard has a counter.
pub record Counted (n : ℕ) (w : Loads) : Type 0 where
  pub sized : length w.inflight ≡ n
  pub counters : (k c : ℕ) → get_elem? w.inflight k ≡ some c → c ≡ count (is k) w.guards % 2 ^ 32
  pub in_range : All (λ i. i < n) w.guards

pub length-set : {A : Type 0} (xs : List A) (i : ℕ) (v : A) → length (set xs i v) ≡ length xs
length-set [] i v = refl
length-set (x ∷ xs) zero v = refl
length-set (x ∷ xs) (suc i) v = omega (arith, length-set xs i v)

pub get_elem?-lt :
    {A : Type 0} (xs : List A) (i : ℕ) (v : A) → get_elem? xs i ≡ some v → i < length xs
get_elem?-lt [] i v e = absurd (none-ne-some _ e)
get_elem?-lt (x ∷ xs) zero v e = omega arith
get_elem?-lt (x ∷ xs) (suc i) v e = omega (arith, get_elem?-lt xs i v e)

get_elem?-some : (xs : List ℕ) (i : ℕ) → i < length xs → (v : ℕ) × (get_elem? xs i ≡ some v)
get_elem?-some [] i h = ground arith
get_elem?-some (x ∷ xs) zero h = (x, refl)
get_elem?-some (x ∷ xs) (suc i) h = get_elem?-some xs i (omega arith)

All-drop :
    (P : ℕ → Type 0) (xs : List ℕ) (i : ℕ) (ys : List ℕ)
    → All P (xs ++ i ∷ ys)
    → P i × All P (xs ++ ys)
All-drop P [] i ys a = a
All-drop P (x ∷ xs) i ys (p, a) = ((All-drop P xs i ys a).0, (p, (All-drop P xs i ys a).1))

-- a counter that is written at `idx`, under a change of its number of guards
write_counter :
    (w : Loads) (n idx c c' : ℕ) (guards : List ℕ)
    → Counted n w
    → get_elem? w.inflight idx ≡ some c
    → c' ≡ count (is idx) guards % 2 ^ 32
    → ((k : ℕ) → (k == idx) ≡ false → count (is k) guards ≡ count (is k) w.guards)
    → All (λ i. i < n) guards
    → Counted n (record { inflight = set w.inflight idx c'; guards = guards })
write_counter w n idx c c' guards v e same others a = record {
  sized = length-set w.inflight idx c' ∙ v.sized;
  counters = λ k d f.
      let at_k = get_elem?-set w.inflight idx k c' (get_elem?-lt w.inflight idx c e) in
      elim (Bool-cases (k == idx)) [
        | inl here ↦
            let same_key : k ≡ idx = ground arith in
            some-injective d c' (sym f ∙ at_k ∙ rw here refl)
            ∙ same
            ∙ ap (λ j. count (is j) guards % 2 ^ 32) (sym same_key)
        | inr there ↦
            v.counters k d (sym (at_k ∙ rw there refl) ∙ f)
            ∙ ap (λ m. m % 2 ^ 32) (sym (others k there))
      ];
  in_range = a;
}

begins-Counted :
    (w : Loads) (n idx : ℕ) (inflight : List ℕ)
    → begin_load idx w.inflight ≡ some inflight
    → Counted n w
    → Counted n (record { inflight = inflight; guards = idx ∷ w.guards })
unfolding begin_load
begins-Counted w n idx inflight e v = elim (Option-cases (get_elem? w.inflight idx)) [
  | inl out ↦ absurd (none-ne-some _ (rw (out, begin_load) at e))
  | inr (c, at_idx) ↦
      subst (λ fl. Counted n (record { inflight = fl; guards = idx ∷ w.guards }))
        (some-injective _ _ (rw (at_idx, begin_load) at e))
        (write_counter w n idx c ((c + 1) % 2 ^ 32) (idx ∷ w.guards) v at_idx
          (one_more c (v.counters idx c at_idx)) (λ k other. ground arith)
          (omega (arith, v.sized, get_elem?-lt w.inflight idx c at_idx), v.in_range))
]
  where
    one_more :
        (c : ℕ)
        → c ≡ count (is idx) w.guards % 2 ^ 32
        → (c + 1) % 2 ^ 32 ≡ count (is idx) (idx ∷ w.guards) % 2 ^ 32
    one_more c h = ground arith

ends-Counted :
    (w : Loads) (n idx : ℕ) (before after inflight : List ℕ)
    → w.guards ≡ before ++ idx ∷ after
    → drop_load idx w.inflight ≡ some inflight
    → Counted n w
    → Counted n (record { inflight = inflight; guards = before ++ after })
unfolding drop_load
ends-Counted w n idx before after inflight g e v = elim (Option-cases (get_elem? w.inflight idx)) [
  | inl out ↦ absurd (none-ne-some _ (rw (out, drop_load) at e))
  | inr (c, at_idx) ↦
      subst (λ fl. Counted n (record { inflight = fl; guards = before ++ after }))
        (some-injective _ _ (rw (at_idx, drop_load) at e))
        (write_counter w n idx c ((c + (2 ^ 32 - 1)) % 2 ^ 32) (before ++ after) v at_idx
          (one_less c (v.counters idx c at_idx)) (λ k other. ground (arith, counts k))
          (All-drop (λ i. i < n) before idx after (rw g at v.in_range)).1)
]
  where
    counts :
        (k : ℕ)
        → count (is k) w.guards ≡ (if idx == k then 1 else 0) + count (is k) (before ++ after)
    counts k =
        ap (count (is k)) g
        ∙ omega (arith, count-append (is k) before (idx ∷ after), count-append (is k) before after)

    one_less :
        (c : ℕ)
        → c ≡ count (is idx) w.guards % 2 ^ 32
        → (c + (2 ^ 32 - 1)) % 2 ^ 32 ≡ count (is idx) (before ++ after) % 2 ^ 32
    one_less c h = ground (arith, counts idx)

zeros-count :
    (zeros : List ℕ) (k c : ℕ) → All (λ c. c ≡ 0) zeros → get_elem? zeros k ≡ some c → c ≡ 0
zeros-count [] k c a e = absurd (none-ne-some _ e)
zeros-count (z ∷ zs) zero c a e = sym (some-injective _ _ e) ∙ a.0
zeros-count (z ∷ zs) (suc k) c a e = zeros-count zs k c a.1 e

-- However requests to the backends begin and end, the counter of each backend is the number of its
-- guards that exist, as a u32, and every guard has a counter.
LoadReach-Counted : (n : ℕ) {w : Loads} → LoadReach n w → Counted n w
LoadReach-Counted n (start zeros sized all_zero) = record {
  sized = sized;
  counters = λ k c e. zeros-count zeros k c all_zero e;
  in_range = tt;
}
LoadReach-Counted n (next {w} r (begins idx {inflight} e)) =
    begins-Counted w n idx inflight e (LoadReach-Counted n r)
LoadReach-Counted n (next {w} r (ends idx before after {inflight} g e)) =
    ends-Counted w n idx before after inflight g e (LoadReach-Counted n r)

-- In every state that requests can bring about with fewer than 2 ^ 32 guards, the counter of each
-- backend, by which requests are placed, is exactly the number of its guards.
pub LoadReach-exact :
    (n : ℕ) {w : Loads} (idx : ℕ)
    → LoadReach n w
    → idx < n
    → length w.guards < 2 ^ 32
    → get_elem? w.inflight idx ≡ some (count (is idx) w.guards)
LoadReach-exact n {w} idx r h few =
    let v = LoadReach-Counted n r in
    let (c, e) = get_elem?-some w.inflight idx (omega (arith, v.sized)) in
    e ∙ ap some (omega (arith, v.counters idx c e, count-le idx w.guards))
  where
    count-le : (i : ℕ) (xs : List ℕ) → count (is i) xs ≤ length xs
    count-le i [] = omega arith
    count-le i (x ∷ xs) = ground (arith, count-le i xs)
