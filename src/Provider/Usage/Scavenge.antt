-- ===== src/Provider/Usage/Scavenge.antt =====
-- `scavenge_usage` of crates/twl-provider/src/usage.rs.
use Prim.Native.String.{String}
use token_weasel.Prelude.{
  ◌||◌, Option, none, some, List, [], ◌∷◌, if◌then◌else◌, and_then, or_else, unwrap_or, is_some,
}
use token_weasel.Prelude.Int.{ℤ, pos, ltb_ℤ, max_ℤ, min_ℤ, saturating_add}
use token_weasel.Json.{
  Value, null, bool, num, float, str, arr, obj, Items, nil, cons, Fields, end, field, field_get,
  as_str, as_object,
}
use token_weasel.Provider.Usage.{Usage, find_i64}

abbrev pub prompt_keys : List String
prompt_keys =
    "prompt_tokens" ∷ "input_tokens" ∷ "tokens_evaluated" ∷ "prompt_eval_count"
    ∷ "prompt_token_count" ∷ []

abbrev pub completion_keys : List String
completion_keys =
    "completion_tokens" ∷ "output_tokens" ∷ "tokens_predicted" ∷ "eval_count"
    ∷ "completion_token_count" ∷ "candidates_token_count" ∷ []

abbrev pub total_keys : List String
total_keys = "total_tokens" ∷ "total_token_count" ∷ []

abbrev pub cached_keys : List String
cached_keys = "cached_tokens" ∷ "tokens_cached" ∷ "cache_read_input_tokens" ∷ []

pub record Counts : Type 0 where
  pub prompt : ℤ
  pub completion : ℤ
  pub total : ℤ
  pub cached : ℤ

abbrev pub look : Fields → String → Option Value
look map k = field_get k map

-- the counts of one object, if it has a prompt, completion or total count
unfoldable pub object_counts : Fields → Option Counts
unfolding find_i64
object_counts map =
    let prompt = find_i64 (look map) prompt_keys in
    let completion = find_i64 (look map) completion_keys in
    let total = find_i64 (look map) total_keys in
    if is_some prompt || is_some completion || is_some total
    then some (record {
      prompt = unwrap_or prompt (pos 0);
      completion = unwrap_or completion (pos 0);
      total = unwrap_or total (pos 0);
      cached =
          unwrap_or
            (or_else (find_i64 (look map) cached_keys) (
              and_then
                (and_then
                  (or_else (look map "prompt_tokens_details") (look map "input_tokens_details"))
                  as_object)
                (λ d. find_i64 (look d) cached_keys)))
            (pos 0);
    })
    else none

-- the model of one object
unfoldable pub object_model : Fields → Option String
object_model map =
    or_else (and_then (look map "model") as_str)
      (or_else (and_then (look map "model_name") as_str) (and_then (look map "model_id") as_str))

-- Depth first, the object itself before its values: `values().find_map`, `iter().find_map`.
unfoldable mutual
  unfolding object_counts

  pub scavenge_counts : Value → Option Counts
  scavenge_counts null = none
  scavenge_counts (bool b) = none
  scavenge_counts (num z) = none
  scavenge_counts (float t) = none
  scavenge_counts (str s) = none
  scavenge_counts (arr xs) = scavenge_items xs
  scavenge_counts (obj fs) = or_else (object_counts fs) (scavenge_fields fs)

  pub scavenge_items : Items → Option Counts
  scavenge_items nil = none
  scavenge_items (cons v xs) = or_else (scavenge_counts v) (scavenge_items xs)

  pub scavenge_fields : Fields → Option Counts
  scavenge_fields end = none
  scavenge_fields (field k v fs) = or_else (scavenge_counts v) (scavenge_fields fs)

unfoldable mutual
  unfolding object_model

  scavenge_model : Value → Option String
  scavenge_model null = none
  scavenge_model (bool b) = none
  scavenge_model (num z) = none
  scavenge_model (float t) = none
  scavenge_model (str s) = none
  scavenge_model (arr xs) = model_items xs
  scavenge_model (obj fs) = or_else (object_model fs) (model_fields fs)

  model_items : Items → Option String
  model_items nil = none
  model_items (cons v xs) = or_else (scavenge_model v) (model_items xs)

  model_fields : Fields → Option String
  model_fields end = none
  model_fields (field k v fs) = or_else (scavenge_model v) (model_fields fs)

-- the usage of what was found
unfoldable pub usage_of_counts : Counts → String → String → Usage
usage_of_counts c model endpoint =
    let prompt = max_ℤ c.prompt (pos 0) in
    let completion = max_ℤ c.completion (pos 0) in
    let total = max_ℤ c.total (pos 0) in
    record {
      model = model;
      endpoint = endpoint;
      input_tokens = prompt;
      output_tokens = completion;
      cached_tokens = min_ℤ (max_ℤ c.cached (pos 0)) prompt;
      total_tokens = if ltb_ℤ (pos 0) total then total else saturating_add prompt completion;
      api_key_id = none;
    }

unfoldable pub scavenge_usage : Value → String → Option String → Option Usage
unfolding scavenge_counts scavenge_model usage_of_counts
scavenge_usage v endpoint req_model = and_then (scavenge_counts v) λ c.
    some (usage_of_counts c (unwrap_or (or_else (scavenge_model v) req_model) "unknown") endpoint)
