-- ===== src/Provider/Usage/Scavenged.antt =====
-- The last resort of crates/twl-provider/src/usage.rs, `scavenge_usage`, keeps to the same rules.
use Prim.Native.String.{String}
use mathlib.Core.Option.{none-ne-some, some-injective}
use token_weasel.Prelude.{
  subst, ◌≡◌, Option, none, some, arith, and_then, or_else, unwrap_or, ◌||◌, is_some, if◌then◌else◌,
}
use token_weasel.Prelude.Int.{
  ℤ, pos, IsI64, max_ℤ-zero-IsCount, min_ℤ-IsCount, min_ℤ-le_right, saturating_add-IsCount,
}
use token_weasel.Json.{Value, arr, obj, Items, nil, cons, Fields, end, field}
use token_weasel.Provider.Usage.{Usage}
use token_weasel.Provider.Usage.Scavenge.{
  Counts, look, prompt_keys, completion_keys, total_keys, cached_keys, object_counts,
  scavenge_counts, scavenge_items, scavenge_fields, usage_of_counts, scavenge_usage,
}
use token_weasel.Provider.Usage.Valid.{IsValid, OptI64, find_i64-OptI64}

abbrev OptCounts : Option Counts → Type 0
OptCounts none = Unit {0}
OptCounts (some c) = IsI64 c.prompt × IsI64 c.completion × IsI64 c.total × IsI64 c.cached

unwrap_or-I64 : (o : Option ℤ) → OptI64 o → IsI64 (unwrap_or o (pos 0))
unwrap_or-I64 none h = omega arith
unwrap_or-I64 (some z) h = h

or_else-OptI64 : (o p : Option ℤ) → OptI64 o → OptI64 p → OptI64 (or_else o p)
or_else-OptI64 none p h k = k
or_else-OptI64 (some z) p h k = h

and_then-OptI64 :
    {A : Type 0} (o : Option A) (f : A → Option ℤ)
    → ((a : A) → OptI64 (f a))
    → OptI64 (and_then o f)
and_then-OptI64 none f h = tt
and_then-OptI64 (some a) f h = h a

or_else-OptCounts : (o p : Option Counts) → OptCounts o → OptCounts p → OptCounts (or_else o p)
or_else-OptCounts none p h k = k
or_else-OptCounts (some z) p h k = h

counts-I64_of :
    (p c t k : Option ℤ)
    → OptI64 p
    → OptI64 c
    → OptI64 t
    → OptI64 k
    → OptCounts (
        if is_some p || is_some c || is_some t
        then some (record {
          prompt = unwrap_or p (pos 0);
          completion = unwrap_or c (pos 0);
          total = unwrap_or t (pos 0);
          cached = unwrap_or k (pos 0);
        })
        else none)
counts-I64_of p c t k hp hc ht hk =
    ground (arith, unwrap_or-I64 p hp, unwrap_or-I64 c hc, unwrap_or-I64 t ht, unwrap_or-I64 k hk)

object_counts-I64 : (fs : Fields) → OptCounts (object_counts fs)
unfolding object_counts
object_counts-I64 fs =
    counts-I64_of _ _ _ _ (find_i64-OptI64 (look fs) prompt_keys)
      (find_i64-OptI64 (look fs) completion_keys) (find_i64-OptI64 (look fs) total_keys)
      (or_else-OptI64 _ _ (find_i64-OptI64 (look fs) cached_keys)
        (and_then-OptI64 _ _ (λ d. find_i64-OptI64 (look d) cached_keys)))

mutual
  unfolding scavenge_counts

  counts-I64 : (v : Value) → OptCounts (scavenge_counts v)
  counts-I64 (arr xs) = items-I64 xs
  counts-I64 (obj fs) =
      or_else-OptCounts (object_counts fs) (scavenge_fields fs) (object_counts-I64 fs)
        (fields-I64 fs)
  counts-I64 _ = tt

  items-I64 : (xs : Items) → OptCounts (scavenge_items xs)
  items-I64 nil = tt
  items-I64 (cons v xs) =
      or_else-OptCounts (scavenge_counts v) (scavenge_items xs) (counts-I64 v) (items-I64 xs)

  fields-I64 : (fs : Fields) → OptCounts (scavenge_fields fs)
  fields-I64 end = tt
  fields-I64 (field k v fs) =
      or_else-OptCounts (scavenge_counts v) (scavenge_fields fs) (counts-I64 v) (fields-I64 fs)

usage_of_counts-IsValid :
    (c : Counts) (model endpoint : String)
    → OptCounts (some c)
    → IsValid (usage_of_counts c model endpoint)
unfolding usage_of_counts
usage_of_counts-IsValid c model endpoint (p, q, t, k) =
    let prompt = max_ℤ-zero-IsCount c.prompt p in
    let completion = max_ℤ-zero-IsCount c.completion q in
    let total = max_ℤ-zero-IsCount c.total t in
    record {
      input = prompt;
      output = completion;
      cached = min_ℤ-IsCount _ _ (max_ℤ-zero-IsCount c.cached k) prompt;
      total = ground (arith, total, saturating_add-IsCount _ _ prompt completion);
      within = min_ℤ-le_right _ _;
    }

scavenged-IsValid :
    (o : Option Counts) (model endpoint : String) {u : Usage}
    → OptCounts o
    → and_then o (λ c. some (usage_of_counts c model endpoint)) ≡ some u
    → IsValid u
scavenged-IsValid none model endpoint h e = absurd (none-ne-some _ e)
scavenged-IsValid (some c) model endpoint h e =
    subst IsValid (some-injective _ _ e) (usage_of_counts-IsValid c model endpoint h)

-- Whatever the response holds, and wherever its counts are found, the counts of a scavenged usage
-- record are `i64` values that are not negative, and its cached tokens are at most its input.
scavenge_usage-IsValid :
    (v : Value) (endpoint : String) (req_model : Option String) {u : Usage}
    → scavenge_usage v endpoint req_model ≡ some u
    → IsValid u
unfolding scavenge_usage
scavenge_usage-IsValid v endpoint req_model e =
    scavenged-IsValid (scavenge_counts v) _ endpoint (counts-I64 v) e
