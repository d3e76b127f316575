-- ===== src/Provider/Usage.antt =====
-- crates/twl-provider/src/usage.rs, and `Usage` of crates/twl-types/src/lib.rs.
pub mod Valid
pub mod Lines
pub mod Scavenge
pub mod Scavenged
use Prim.Native.String.{String}
use token_weasel.Prelude.{
  ◌≡◌, Bool, true, false, not, ◌&&◌, ◌||◌, Option, none, some, List, [], ◌∷◌, if◌then◌else◌,
  and_then, or_else, unwrap_or, is_some, is_none,
}
use token_weasel.Prelude.Int.{ℤ, pos, ltb_ℤ, eq_ℤ, max_ℤ, min_ℤ, saturating_add}
use token_weasel.Prelude.Text.{◌=ₛ◌, ends_with, contains, trim, strip_prefix, is_empty}
use token_weasel.Json.{
  Value, null, bool, num, float, str, arr, obj, Items, nil, cons, Fields, end, field, field_get,
  get, as_i64, as_str, as_bool, as_object, is_null,
}

pub record Usage : Type 0 where
  pub model : String
  pub endpoint : String
  pub input_tokens : ℤ
  pub output_tokens : ℤ
  pub cached_tokens : ℤ
  pub total_tokens : ℤ
  pub api_key_id : Option ℤ

-- `keys.iter().find_map(|k| get(k).and_then(as_i64))`
unfoldable pub find_i64 : (String → Option Value) → List String → Option ℤ
find_i64 look [] = none
find_i64 look (k ∷ ks) = or_else (and_then (look k) as_i64) (find_i64 look ks)

abbrev pub lookup_in : Value → String → Option Value
lookup_in v k = get k v

-- `n.unwrap_or(0).max(0)`
abbrev pub count_or_zero : Option ℤ → ℤ
count_or_zero n = max_ℤ (unwrap_or n (pos 0)) (pos 0)

-- the keys of `has_recognized_count`
abbrev recognized_keys : List String
recognized_keys =
    "prompt_tokens" ∷ "input_tokens" ∷ "completion_tokens" ∷ "output_tokens" ∷ "total_tokens"
    ∷ "cache_creation_input_tokens" ∷ "cache_read_input_tokens" ∷ "prompt_cache_hit_tokens" ∷ []

-- the counts read from an OpenAI-shaped usage block
pub record RawCounts : Type 0 where
  pub prompt : Option ℤ
  pub completion : Option ℤ
  pub total : Option ℤ
  pub cache_creation : Option ℤ
  pub cache_read : Option ℤ
  pub nested_cached : Option ℤ
  pub cache_hit : Option ℤ
  pub is_anthropic : Bool

unfoldable pub nested_cached : Value → Option ℤ
nested_cached usage =
    and_then
      (and_then (or_else (get "prompt_tokens_details" usage) (get "input_tokens_details" usage))
        (get "cached_tokens"))
      as_i64

unfoldable pub raw_counts : Value → RawCounts
unfolding find_i64 nested_cached
raw_counts usage = record {
  prompt = find_i64 (lookup_in usage) ("prompt_tokens" ∷ "input_tokens" ∷ []);
  completion = find_i64 (lookup_in usage) ("completion_tokens" ∷ "output_tokens" ∷ []);
  total = find_i64 (lookup_in usage) ("total_tokens" ∷ []);
  cache_creation = find_i64 (lookup_in usage) ("cache_creation_input_tokens" ∷ []);
  cache_read = find_i64 (lookup_in usage) ("cache_read_input_tokens" ∷ []);
  nested_cached = nested_cached usage;
  cache_hit = and_then (get "prompt_cache_hit_tokens" usage) as_i64;
  is_anthropic =
      is_some (get "cache_creation_input_tokens" usage)
      || is_some (get "cache_read_input_tokens" usage);
}

unfoldable pub has_recognized_count : Value → Bool
unfolding find_i64 nested_cached
has_recognized_count usage =
    is_some (find_i64 (lookup_in usage) recognized_keys) || is_some (nested_cached usage)

unfoldable pub is_non_generative : String → Bool
is_non_generative endpoint =
    ends_with endpoint "/rerank" || ends_with endpoint "/score" || ends_with endpoint "/pooling"

-- `base_prompt`: the reported input, or the total of an endpoint that generates nothing
unfoldable pub base_prompt : Bool → RawCounts → ℤ
base_prompt non_generative c =
    let total_only_input =
      if non_generative && is_none c.prompt && is_none c.completion
      then count_or_zero c.total
      else pos 0 in
    max_ℤ (unwrap_or c.prompt total_only_input) (pos 0)

unfoldable pub prompt_of : Bool → RawCounts → ℤ
unfolding base_prompt
prompt_of non_generative c =
    saturating_add (saturating_add (base_prompt non_generative c) (count_or_zero c.cache_creation))
      (count_or_zero c.cache_read)

-- `match raw_total`
unfoldable pub total_of : Option ℤ → ℤ → ℤ → ℤ
total_of none prompt completion = saturating_add prompt completion
total_of (some t) prompt completion =
    if ltb_ℤ (pos 0) t
    then t
    else if eq_ℤ t (pos 0) && eq_ℤ prompt (pos 0) && eq_ℤ completion (pos 0)
    then pos 0
    else saturating_add prompt completion

unfoldable pub cached_of : RawCounts → ℤ → ℤ
cached_of c prompt =
    min_ℤ
      (max_ℤ
        (if c.is_anthropic
          then count_or_zero c.cache_read
          else unwrap_or c.nested_cached (unwrap_or c.cache_hit (pos 0)))
        (pos 0))
      prompt

unfoldable pub usage_from_openai : Value → String → String → Option Usage
unfolding raw_counts has_recognized_count is_non_generative prompt_of total_of cached_of
usage_from_openai usage model endpoint =
    if not (has_recognized_count usage)
    then none
    else let c = raw_counts usage in
      let prompt = prompt_of (is_non_generative endpoint) c in
      let completion = count_or_zero c.completion in
      some (record {
        model = model;
        endpoint = endpoint;
        input_tokens = prompt;
        output_tokens = completion;
        cached_tokens = cached_of c prompt;
        total_tokens = total_of c.total prompt completion;
        api_key_id = none;
      })

-- `match cached_key`: no key means that the provider has no cached prompts.
unfoldable pub cached_count : Value → Option String → ℤ → ℤ
cached_count v none prompt = pos 0
cached_count v (some k) prompt = min_ℤ (count_or_zero (and_then (get k v) as_i64)) prompt

unfoldable pub usage_from_counts :
    Value → String → String → Option String → String → String → Option Usage
unfolding cached_count
usage_from_counts v prompt_key completion_key cached_key model endpoint =
    let raw_prompt = and_then (get prompt_key v) as_i64 in
    let raw_completion = and_then (get completion_key v) as_i64 in
    if is_none raw_prompt && is_none raw_completion
    then none
    else let prompt = count_or_zero raw_prompt in
      let completion = count_or_zero raw_completion in
      some (record {
        model = model;
        endpoint = endpoint;
        input_tokens = prompt;
        output_tokens = completion;
        cached_tokens = cached_count v cached_key prompt;
        total_tokens = saturating_add prompt completion;
        api_key_id = none;
      })

unfoldable pub usage_from_ollama : Value → String → String → Option Usage
usage_from_ollama v = usage_from_counts v "prompt_eval_count" "eval_count" none

unfoldable pub usage_from_llamacpp : Value → String → String → Option Usage
usage_from_llamacpp v =
    usage_from_counts v "tokens_evaluated" "tokens_predicted" (some "tokens_cached")

-- `filter(|r| r.get("usage").is_some())`
abbrev with_usage : Option Value → Option Value
with_usage o = and_then o (λ r. if is_some (get "usage" r) then some r else none)

-- The container of `usage` and `model`.
unfoldable pub root_of : Value → Value
root_of v = unwrap_or (or_else (with_usage (get "response" v)) (with_usage (get "message" v))) v

unfoldable pub model_of : Value → Option String → String
model_of root req_model =
    unwrap_or (or_else (and_then (get "model" root) as_str) req_model) "unknown"

-- a usage block that is present and not null
abbrev pub usage_block : Value → Option Value
usage_block root = and_then (get "usage" root) (λ u. if is_null u then none else some u)

abbrev is_true : Option Bool → Bool
is_true none = false
is_true (some b) = b

-- `v.get("stop").and_then(as_bool) == Some(true)`
abbrev is_terminal : Value → Bool
is_terminal v = is_true (and_then (get "stop" v) as_bool)

unfoldable pub extract_usage : Value → String → Option String → Option Usage
extract_usage v endpoint req_model =
    let root = root_of v in
    let model = model_of root req_model in
    elim (usage_block root) [
      | some usage ↦ usage_from_openai usage model endpoint
      | none ↦
          if is_terminal v
          then usage_from_llamacpp v model endpoint
          else if is_some (get "prompt_eval_count" v) || is_some (get "eval_count" v)
          then usage_from_ollama v model endpoint
          else none
    ]

unfoldable pub expects_usage : String → Bool
expects_usage endpoint =
    if ends_with endpoint "/api/embeddings"
    then false
    else contains endpoint "chat/completions"
      || ends_with endpoint "/completions"
      || ends_with endpoint "/completion"
      || ends_with endpoint "/infill"
      || ends_with endpoint "/embeddings"
      || ends_with endpoint "/responses"
      || ends_with endpoint "/messages"
      || ends_with endpoint "/rerank"
      || ends_with endpoint "/score"
      || ends_with endpoint "/pooling"
      || ends_with endpoint "/api/chat"
      || ends_with endpoint "/api/generate"
      || ends_with endpoint "/api/embed"
