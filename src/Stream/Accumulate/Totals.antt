-- ===== src/Stream/Accumulate/Totals.antt =====
-- What accumulation makes of a whole response: each count is the largest that was reported.
use mathlib.Core.Path.{◌≡⟨◌⟩◌, ◌∎}
use mathlib.Core.Option.{some-injective}
use token_weasel.Prelude.{◌≡◌, refl, sym, ap, subst, ◌∙◌, none, some, List, [], ◌∷◌, All, arith}
use token_weasel.Prelude.Int.{
  ℤ, pos, ◌≤ℤ◌, IsCount, max_ℤ, saturating_add, max_ℤ-IsCount, saturating_add-IsCount,
}
use token_weasel.Provider.Usage.{Usage}
use token_weasel.Provider.Usage.Valid.{IsValid}
use token_weasel.Stream.Accumulate.{merge_usage, accumulate_usage}
use token_weasel.Stream.Accounting.Chunking.{accumulated}

-- the largest value of a field, 0 for no usage at all
unfoldable pub largest : (Usage → ℤ) → List Usage → ℤ
largest f [] = pos 0
largest f (u ∷ us) = max_ℤ (f u) (largest f us)

max_ℤ_assoc : (a b c : ℤ) → max_ℤ (max_ℤ a b) c ≡ max_ℤ a (max_ℤ b c)
unfolding max_ℤ
max_ℤ_assoc a b c = ground arith

max_ℤ-zero : (a : ℤ) → IsCount a → max_ℤ a (pos 0) ≡ a
unfolding max_ℤ
max_ℤ-zero a h = ground arith

max_ℤ-eq_left : (a b : ℤ) → b ≤ℤ a → max_ℤ a b ≡ a
unfolding max_ℤ
max_ℤ-eq_left a b h = ground arith

max_ℤ_comm : (a b : ℤ) → max_ℤ a b ≡ max_ℤ b a
unfolding max_ℤ
max_ℤ_comm a b = ground arith

saturating_add_mono :
    (a b c d : ℤ)
    → IsCount a
    → IsCount b
    → a ≤ℤ c
    → b ≤ℤ d
    → saturating_add a b ≤ℤ saturating_add c d
unfolding saturating_add
saturating_add_mono (pos a) (pos b) (pos c) (pos d) h k p q = ground arith
saturating_add_mono _ _ _ _ h k p q = ground arith

le-max_ℤ_left : (a b : ℤ) → a ≤ℤ max_ℤ a b
unfolding max_ℤ
le-max_ℤ_left a b = ground arith

le-max_ℤ_right : (a b : ℤ) → b ≤ℤ max_ℤ a b
unfolding max_ℤ
le-max_ℤ_right a b = ground arith

max_ℤ_mono : (a b c d : ℤ) → a ≤ℤ c → b ≤ℤ d → max_ℤ a b ≤ℤ max_ℤ c d
unfolding max_ℤ
max_ℤ_mono a b c d h k = ground arith

max_ℤ_absorb : (s l t : ℤ) → s ≤ℤ t → max_ℤ (max_ℤ s l) t ≡ max_ℤ l t
unfolding max_ℤ
max_ℤ_absorb s l t h = ground arith

-- the total after one more usage
total_step :
    (a b s l t : ℤ)
    → s ≤ℤ t
    → max_ℤ (max_ℤ (max_ℤ (max_ℤ a b) s) l) t ≡ max_ℤ (max_ℤ a (max_ℤ b l)) t
total_step a b s l t h =
    max_ℤ (max_ℤ (max_ℤ (max_ℤ a b) s) l) t
    ≡⟨ ap (λ x. max_ℤ x t) (max_ℤ_assoc (max_ℤ a b) s l) ⟩ max_ℤ (max_ℤ (max_ℤ a b) (max_ℤ s l)) t
    ≡⟨ max_ℤ_assoc (max_ℤ a b) (max_ℤ s l) t ⟩ max_ℤ (max_ℤ a b) (max_ℤ (max_ℤ s l) t)
    ≡⟨ ap (max_ℤ (max_ℤ a b)) (max_ℤ_absorb s l t h) ⟩ max_ℤ (max_ℤ a b) (max_ℤ l t)
    ≡⟨ sym (max_ℤ_assoc (max_ℤ a b) l t) ⟩ max_ℤ (max_ℤ (max_ℤ a b) l) t
    ≡⟨ ap (λ x. max_ℤ x t) (max_ℤ_assoc a b l) ⟩ max_ℤ (max_ℤ a (max_ℤ b l)) t ∎

-- the largest reported input and output, together
abbrev largest_sum : List Usage → ℤ
largest_sum us =
    saturating_add (largest (λ u. u.input_tokens) us) (largest (λ u. u.output_tokens) us)

-- `total` is at least the sum of the two counts: so it is after a merge.
abbrev Sums : Usage → Type 0
Sums u = saturating_add u.input_tokens u.output_tokens ≤ℤ u.total_tokens

-- What `r` owes to `e` and the usages that came after it.
record Largest (e : Usage) (us : List Usage) (r : Usage) : Type 0 where
  input : r.input_tokens ≡ max_ℤ e.input_tokens (largest (λ u. u.input_tokens) us)
  output : r.output_tokens ≡ max_ℤ e.output_tokens (largest (λ u. u.output_tokens) us)
  cached : r.cached_tokens ≡ max_ℤ e.cached_tokens (largest (λ u. u.cached_tokens) us)
  total :
      r.total_tokens
      ≡ max_ℤ
          (max_ℤ e.total_tokens (largest (λ u. u.total_tokens) us))
          (saturating_add r.input_tokens r.output_tokens)

merge_usage-IsValid : (e u : Usage) → IsValid e → IsValid u → IsValid (merge_usage e u)
unfolding merge_usage
merge_usage-IsValid e u h k = record {
  input = max_ℤ-IsCount _ _ h.input k.input;
  output = max_ℤ-IsCount _ _ h.output k.output;
  cached = max_ℤ-IsCount _ _ h.cached k.cached;
  total = max_ℤ-IsCount _ _ (max_ℤ-IsCount _ _ h.total k.total) (
      saturating_add-IsCount _ _ (max_ℤ-IsCount _ _ h.input k.input)
        (max_ℤ-IsCount _ _ h.output k.output));
  within = max_ℤ_mono _ _ _ _ h.within k.within;
}

merge_usage-Sums : (e u : Usage) → Sums (merge_usage e u)
unfolding merge_usage
merge_usage-Sums e u = le-max_ℤ_right _ _

Largest-start : (e : Usage) → IsValid e → Sums e → Largest e [] e
unfolding largest
Largest-start e h s = record {
  input = sym (max_ℤ-zero _ h.input);
  output = sym (max_ℤ-zero _ h.output);
  cached = sym (max_ℤ-zero _ h.cached);
  total = sym (
      ap (λ x. max_ℤ x (saturating_add e.input_tokens e.output_tokens)) (max_ℤ-zero _ h.total)
      ∙ max_ℤ-eq_left _ _ s);
}

Largest-step :
    (e u r : Usage) (us : List Usage)
    → IsValid e
    → IsValid u
    → Largest (merge_usage e u) us r
    → Largest e (u ∷ us) r
unfolding largest merge_usage
Largest-step e u r us h k l = record {
  input = l.input ∙ max_ℤ_assoc _ _ _;
  output = l.output ∙ max_ℤ_assoc _ _ _;
  cached = l.cached ∙ max_ℤ_assoc _ _ _;
  total = l.total ∙ total_step _ _ _ _ _ grown;
}
  where
    grown :
        saturating_add (max_ℤ e.input_tokens u.input_tokens) (max_ℤ e.output_tokens u.output_tokens)
        ≤ℤ saturating_add r.input_tokens r.output_tokens
    grown =
        saturating_add_mono _ _ _ _ (max_ℤ-IsCount _ _ h.input k.input)
          (max_ℤ-IsCount _ _ h.output k.output) (rw l.input (le-max_ℤ_left _ _))
          (rw l.output (le-max_ℤ_left _ _))

accumulated-Largest :
    (us : List Usage) (e r : Usage)
    → IsValid e
    → Sums e
    → All IsValid us
    → accumulated (some e) us ≡ some r
    → Largest e us r
unfolding accumulated accumulate_usage
accumulated-Largest [] e r h s all eq =
    subst (Largest e []) (some-injective e r eq) (Largest-start e h s)
accumulated-Largest (u ∷ us) e r h s all eq = Largest-step e u r us h all.0 (
    accumulated-Largest us (merge_usage e u) r (merge_usage-IsValid e u h all.0)
      (merge_usage-Sums e u) all.1 eq)

accumulated_total : (us : List Usage) (e : Usage) → (r : Usage) × (accumulated (some e) us ≡ some r)
unfolding accumulated accumulate_usage
accumulated_total [] e = (e, refl)
accumulated_total (u ∷ us) e = accumulated_total us (merge_usage e u)

-- The accumulation of at least two well-formed usages is well defined, and its input, output and
-- cached tokens are each the largest that was reported; its total is the largest reported total
-- or the sum of the largest input and output, whichever is more. So the order of the usages, and
-- usages that are reported again, make no difference to the counts.
accumulated-largest :
    (u v : Usage) (us : List Usage)
    → IsValid u
    → IsValid v
    → All IsValid us
    → (r : Usage) × (accumulated none (u ∷ v ∷ us) ≡ some r)
      × (r.input_tokens ≡ largest (λ w. w.input_tokens) (u ∷ v ∷ us))
      × (r.output_tokens ≡ largest (λ w. w.output_tokens) (u ∷ v ∷ us))
      × (r.cached_tokens ≡ largest (λ w. w.cached_tokens) (u ∷ v ∷ us))
      × (r.total_tokens
          ≡ max_ℤ (largest (λ w. w.total_tokens) (u ∷ v ∷ us)) (largest_sum (u ∷ v ∷ us)))
unfolding accumulated accumulate_usage largest
accumulated-largest u v us hu hv hus =
    let (r, eq) = accumulated_total us (merge_usage u v) in
    let l = Largest-step u v r us hu hv (
      accumulated-Largest us (merge_usage u v) r (merge_usage-IsValid u v hu hv)
        (merge_usage-Sums u v) hus eq) in
    (r, eq, l.input, l.output, l.cached, rw (← l.input, ← l.output) l.total)
