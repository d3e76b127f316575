-- ===== src/Tests/Streaming.antt =====
-- The streams of crates/twl-server/src/proxy/stream.rs and the usage records that they account.
use token_weasel.Prelude.{
  ℕ, ◌≡◌, ◌≤◌, refl, true, false, Option, none, some, List, [], ◌∷◌, arith, concat, if◌then◌else◌,
  leb, length, ltb, ◌&&◌,
}
use token_weasel.Prelude.Int.{pos, max_ℤ, min_ℤ, saturating_add}
use token_weasel.Prelude.Text.{ends_with}
use token_weasel.Json.{
  Value, num, arr, obj, nil, cons, end, field, get, field_get, as_i64, as_str, as_object, is_null,
}
use token_weasel.Provider.Usage.{Usage, extract_usage, root_of, model_of, usage_from_openai}
use token_weasel.Stream.Accumulate.{accumulate_usage, merge_usage}
use token_weasel.Provider.Usage.Scavenge.{scavenge_usage}
use token_weasel.Provider.Usage.Valid.{IsValid, extract_usage-IsValid}
use token_weasel.Stream.LineBuffer
use token_weasel.Stream.LineBuffer.{Bytes, remainder}
use token_weasel.Stream.LineBuffer.Spec.{within, lines_of, tail_of}
use token_weasel.Stream.LineBuffer.Chunks.{feed-lines_of}
use token_weasel.Stream.Accounting.{
  Item, chunk, failed, record_usage, drop_meter, drop_load, drop_fair_queue, drop_recorder,
  line_accounting_stream, buffered_accounting_stream, finalize_buffered_usage,
}
use token_weasel.Stream.Accounting.Chunking.{chunks_of, until_failure}
use token_weasel.Stream.Accounting.Buffered.{buffered_accounting_stream-bytes}

-- two chunks that cut a line: "a\nb" and "c\nd"
abbrev cut_chunks : List Bytes
cut_chunks = (97 ∷ 10 ∷ 98 ∷ []) ∷ (99 ∷ 10 ∷ 100 ∷ []) ∷ []

feed_cut :
    LineBuffer.feed 4 LineBuffer.empty cut_chunks
    ≡ (record { buf = 100 ∷ []; discarding = false }, (97 ∷ 10 ∷ []) ∷ (98 ∷ 99 ∷ 10 ∷ []) ∷ [])
unfolding LineBuffer.feed
feed_cut = refl

-- an oversized line is dropped up to its newline
feed_long :
    LineBuffer.feed 2 LineBuffer.empty ((1 ∷ 2 ∷ 3 ∷ []) ∷ (4 ∷ 10 ∷ 5 ∷ 10 ∷ []) ∷ [])
    ≡ (LineBuffer.empty, (5 ∷ 10 ∷ []) ∷ [])
unfolding LineBuffer.feed
feed_long = refl

feed-lines_of_example :
    ((LineBuffer.feed 4 LineBuffer.empty cut_chunks).1 ≡ within 4 (lines_of (concat cut_chunks)))
    × (remainder (LineBuffer.feed 4 LineBuffer.empty cut_chunks).0 ≡ (
        if ltb 4 (length (tail_of (concat cut_chunks))) then [] else tail_of (concat cut_chunks)))
feed-lines_of_example = feed-lines_of 4 cut_chunks

abbrev report_of : ℕ → ℕ → Usage
report_of input output = record {
  model = "m";
  endpoint = "/v1/completions";
  input_tokens = pos input;
  output_tokens = pos output;
  cached_tokens = pos 0;
  total_tokens = pos 0;
  api_key_id = none;
}

-- a parser that reads the first byte of a line as a report
abbrev first_byte : Bytes → Option Usage
first_byte [] = none
first_byte (c ∷ cs) = some (report_of c 1)

abbrev cut_items : List Item
cut_items = chunk (97 ∷ 10 ∷ 98 ∷ []) ∷ chunk (99 ∷ 10 ∷ []) ∷ failed "reset" ∷ []

line_stream_run : line_accounting_stream first_byte 4 (some (pos 7)) cut_items ≡ (
  cut_items,
  record_usage (record (report_of 98 1) { total_tokens = pos 99; api_key_id = some (pos 7) })
      ∷ drop_meter
      ∷ drop_load
      ∷ drop_fair_queue
      ∷ [],
  false,
)
unfolding line_accounting_stream accumulate_usage merge_usage max_ℤ saturating_add
    LineBuffer.remainder LineBuffer.push
line_stream_run = refl

abbrev usage_value : Value
usage_value = obj (
    field "usage"
      (obj (field "completion_tokens" (num (pos 5)) (field "prompt_tokens" (num (pos 12)) end)))
      end)

abbrev usage_read : Usage
usage_read = record {
  model = "unknown";
  endpoint = "/v1/completions";
  input_tokens = pos 12;
  output_tokens = pos 5;
  cached_tokens = pos 0;
  total_tokens = pos 17;
  api_key_id = none;
}

usage_value_read : extract_usage usage_value "/v1/completions" none ≡ some usage_read
unfolding extract_usage root_of model_of usage_from_openai get as_i64 as_str is_null ends_with max_ℤ
    min_ℤ saturating_add
usage_value_read = refl

extract_usage-IsValid_example : IsValid usage_read
extract_usage-IsValid_example =
    extract_usage-IsValid usage_value "/v1/completions" none usage_value_read

usage_value_scavenged :
    scavenge_usage (arr (cons usage_value nil)) "/v1/completions" none ≡ some usage_read
unfolding scavenge_usage field_get as_i64 as_str as_object max_ℤ min_ℤ saturating_add
usage_value_scavenged = refl

buffered_accounting_stream-bytes_example :
    buffered_accounting_stream (λ b. some usage_value) 9 true "/v1/completions" none none cut_items
    ≡ (
      until_failure cut_items,
      drop_recorder
          (if true && leb (length (concat (chunks_of cut_items))) 9
            then finalize_buffered_usage
                (λ b. some usage_value)
                (concat (chunks_of cut_items))
                "/v1/completions"
                none
            else none)
          none,
    )
buffered_accounting_stream-bytes_example =
    buffered_accounting_stream-bytes (λ b. some usage_value) 9 true "/v1/completions" none none
      cut_items

report_of-IsValid : (i o : ℕ) → i ≤ 1000 → o ≤ 1000 → IsValid (report_of i o)
report_of-IsValid i o h k = record {
  input = omega arith;
  output = omega arith;
  cached = omega arith;
  total = omega arith;
  within = omega arith;
}

abbrev more_reports : List Usage
more_reports = report_of 9 8 ∷ report_of 30 2 ∷ []
