-- ===== src/Provider/Usage/Valid.antt =====
-- Every usage record that is read from a response is well formed, whatever the response holds.
use Prim.Native.String.{String}
use token_weasel.Prelude.{
  ◌≡◌, Bool, inl, inr, Option, none, some, List, [], ◌∷◌, arith, and_then, unwrap_or, or_else,
  Bool-cases, Option-cases, is_none, ◌&&◌,
}
use token_weasel.Prelude.Int.{
  ℤ, pos, ◌≤ℤ◌, IsI64, IsCount, max_ℤ-zero-IsCount, max_ℤ-IsCount, min_ℤ-IsCount, min_ℤ-le_right,
  saturating_add-IsCount,
}
use token_weasel.Json.{Value, num, get, as_i64}
use token_weasel.Provider.Usage.{
  Usage, find_i64, lookup_in, count_or_zero, RawCounts, nested_cached, raw_counts,
  has_recognized_count, is_non_generative, model_of, root_of, usage_block, base_prompt, prompt_of,
  total_of, cached_of, cached_count, usage_from_openai, usage_from_counts, usage_from_ollama,
  usage_from_llamacpp, extract_usage,
}

-- The counts are `i64` values that are not negative, and the cached part is within the input.
pub record IsValid (u : Usage) : Type 0 where
  pub input : IsCount u.input_tokens
  pub output : IsCount u.output_tokens
  pub cached : IsCount u.cached_tokens
  pub total : IsCount u.total_tokens
  pub within : u.cached_tokens ≤ℤ u.input_tokens

abbrev pub OptI64 : Option ℤ → Type 0
OptI64 none = Unit {0}
OptI64 (some z) = IsI64 z

as_i64-OptI64 : (v : Value) → OptI64 (as_i64 v)
unfolding as_i64
as_i64-OptI64 (num z) = ground arith
as_i64-OptI64 _ = tt

and_then-OptI64 : (o : Option Value) → OptI64 (and_then o as_i64)
and_then-OptI64 none = tt
and_then-OptI64 (some v) = as_i64-OptI64 v

pub find_i64-OptI64 : (look : String → Option Value) (ks : List String) → OptI64 (find_i64 look ks)
unfolding find_i64
find_i64-OptI64 look [] = tt
find_i64-OptI64 look (k ∷ ks) = ground (arith, and_then-OptI64 (look k), find_i64-OptI64 look ks)

count_or_zero-IsCount : (o : Option ℤ) → OptI64 o → IsCount (count_or_zero o)
count_or_zero-IsCount none h = max_ℤ-zero-IsCount (pos 0) (omega arith)
count_or_zero-IsCount (some z) h = max_ℤ-zero-IsCount z h

record CountsAreI64 (c : RawCounts) : Type 0 where
  prompt : OptI64 c.prompt
  completion : OptI64 c.completion
  total : OptI64 c.total
  cache_creation : OptI64 c.cache_creation
  cache_read : OptI64 c.cache_read
  nested : OptI64 c.nested_cached
  cache_hit : OptI64 c.cache_hit

raw_counts-I64 : (usage : Value) → CountsAreI64 (raw_counts usage)
unfolding raw_counts nested_cached
raw_counts-I64 usage = record {
  prompt = find_i64-OptI64 (lookup_in usage) ("prompt_tokens" ∷ "input_tokens" ∷ []);
  completion = find_i64-OptI64 (lookup_in usage) ("completion_tokens" ∷ "output_tokens" ∷ []);
  total = find_i64-OptI64 (lookup_in usage) ("total_tokens" ∷ []);
  cache_creation = find_i64-OptI64 (lookup_in usage) ("cache_creation_input_tokens" ∷ []);
  cache_read = find_i64-OptI64 (lookup_in usage) ("cache_read_input_tokens" ∷ []);
  nested = and_then-OptI64 (
      and_then (or_else (get "prompt_tokens_details" usage) (get "input_tokens_details" usage))
        (get "cached_tokens"));
  cache_hit = and_then-OptI64 (get "prompt_cache_hit_tokens" usage);
}

unwrap_or-I64 : (o : Option ℤ) (d : ℤ) → OptI64 o → IsI64 d → IsI64 (unwrap_or o d)
unwrap_or-I64 none d h k = k
unwrap_or-I64 (some z) d h k = h

prompt_of-IsCount : (b : Bool) (c : RawCounts) → CountsAreI64 c → IsCount (prompt_of b c)
unfolding prompt_of base_prompt
prompt_of-IsCount b c h =
    saturating_add-IsCount _ _
      (saturating_add-IsCount _ _
        (max_ℤ-zero-IsCount _ (
          unwrap_or-I64 c.prompt _ h.prompt
            (ground (arith, count_or_zero-IsCount c.total h.total))))
        (count_or_zero-IsCount c.cache_creation h.cache_creation))
      (count_or_zero-IsCount c.cache_read h.cache_read)

total_of-IsCount :
    (o : Option ℤ) (p q : ℤ) → OptI64 o → IsCount p → IsCount q → IsCount (total_of o p q)
unfolding total_of
total_of-IsCount none p q h i j = saturating_add-IsCount p q i j
total_of-IsCount (some t) p q h i j = ground (arith, saturating_add-IsCount p q i j)

zero_I64 : IsI64 (pos 0)
zero_I64 = omega arith

cached_of-IsCount : (c : RawCounts) (p : ℤ) → CountsAreI64 c → IsCount p → IsCount (cached_of c p)
unfolding cached_of
cached_of-IsCount c p h i = elim (Bool-cases c.is_anthropic) [
  | inl e ↦ rw e (
      min_ℤ-IsCount _ p
        (max_ℤ-IsCount _ (pos 0) (count_or_zero-IsCount c.cache_read h.cache_read) (omega arith)) i)
  | inr e ↦ rw e (
      min_ℤ-IsCount _ p
        (max_ℤ-zero-IsCount _ (
          unwrap_or-I64 c.nested_cached (unwrap_or c.cache_hit (pos 0)) h.nested
            (unwrap_or-I64 c.cache_hit (pos 0) h.cache_hit zero_I64)))
        i)
]

-- what `Some` holds is well formed
abbrev OptValid : Option Usage → Type 0
OptValid none = Unit {0}
OptValid (some u) = IsValid u

usage_from_openai-OptValid :
    (usage : Value) (model endpoint : String) → OptValid (usage_from_openai usage model endpoint)
unfolding usage_from_openai
usage_from_openai-OptValid usage model endpoint = elim (Bool-cases (has_recognized_count usage)) [
  | inl e ↦
      rw (e, usage_from_openai)
        (record {
          input = prompt;
          output = completion;
          cached = cached_of-IsCount c _ counts prompt;
          total = total_of-IsCount c.total _ _ counts.total prompt completion;
          within = min_ℤ-le_right _ _;
        })
  | inr e ↦ rw (e, usage_from_openai) tt
]
  where
    c : RawCounts
    c = raw_counts usage

    counts : CountsAreI64 c
    counts = raw_counts-I64 usage

    prompt : IsCount (prompt_of (is_non_generative endpoint) c)
    prompt = prompt_of-IsCount (is_non_generative endpoint) c counts

    completion : IsCount (count_or_zero c.completion)
    completion = count_or_zero-IsCount c.completion counts.completion

zero_cached : (p : ℤ) → IsCount p → IsCount (pos 0) × (pos 0 ≤ℤ p)
zero_cached p h = (omega arith, omega arith)

cached_count-IsCount :
    (v : Value) (k : Option String) (p : ℤ)
    → IsCount p
    → IsCount (cached_count v k p) × (cached_count v k p ≤ℤ p)
unfolding cached_count
cached_count-IsCount v none p h = zero_cached p h
cached_count-IsCount v (some k) p h =
    let o = and_then (get k v) as_i64 in
    (
      min_ℤ-IsCount (count_or_zero o) p (count_or_zero-IsCount o (and_then-OptI64 (get k v))) h,
      min_ℤ-le_right (count_or_zero o) p,
    )

usage_from_counts-OptValid :
    (v : Value) (p c : String) (k : Option String) (model endpoint : String)
    → OptValid (usage_from_counts v p c k model endpoint)
unfolding usage_from_counts
usage_from_counts-OptValid v p c k model endpoint =
    elim (Bool-cases (is_none (and_then (get p v) as_i64) && is_none (and_then (get c v) as_i64))) [
      | inl e ↦ rw (e, usage_from_counts) tt
      | inr e ↦
          rw (e, usage_from_counts)
            (record {
              input = prompt;
              output = completion;
              cached = (cached_count-IsCount v k _ prompt).0;
              total = saturating_add-IsCount _ _ prompt completion;
              within = (cached_count-IsCount v k _ prompt).1;
            })
    ]
  where
    prompt : IsCount (count_or_zero (and_then (get p v) as_i64))
    prompt = count_or_zero-IsCount _ (and_then-OptI64 (get p v))

    completion : IsCount (count_or_zero (and_then (get c v) as_i64))
    completion = count_or_zero-IsCount _ (and_then-OptI64 (get c v))

extract_usage-OptValid :
    (v : Value) (endpoint : String) (req_model : Option String)
    → OptValid (extract_usage v endpoint req_model)
unfolding extract_usage usage_from_ollama usage_from_llamacpp
extract_usage-OptValid v endpoint req_model = elim (Option-cases (usage_block (root_of v))) [
  | inl e ↦ rw (e, extract_usage) (ground (arith, native, ollama))
  | inr (usage, e) ↦ rw (e, extract_usage) (usage_from_openai-OptValid usage model endpoint)
]
  where
    model : String
    model = model_of (root_of v) req_model

    native : OptValid (usage_from_llamacpp v model endpoint)
    native =
        usage_from_counts-OptValid v "tokens_evaluated" "tokens_predicted" (some "tokens_cached")
          model endpoint

    ollama : OptValid (usage_from_ollama v model endpoint)
    ollama = usage_from_counts-OptValid v "prompt_eval_count" "eval_count" none model endpoint

-- Whatever the response and the endpoint, the counts of an extracted usage record are `i64` values
-- that are not negative, and its cached tokens are at most its input tokens.
pub extract_usage-IsValid :
    (v : Value) (endpoint : String) (req_model : Option String) {u : Usage}
    → extract_usage v endpoint req_model ≡ some u
    → IsValid u
extract_usage-IsValid v endpoint req_model e = rw e at (extract_usage-OptValid v endpoint req_model)
