-- ===== src/Provider/Usage/Lines.antt =====
-- `parse_sse_line` and `parse_ndjson_line` of crates/twl-provider/src/usage.rs. Decoding a line
-- and parsing JSON are the parameters `from_utf8_lossy` and `from_str`.
use Prim.Native.String.{String}
use token_weasel.Prelude.{ℕ, Option, none, List, if◌then◌else◌, and_then}
use token_weasel.Prelude.Text.{◌=ₛ◌, trim, strip_prefix, is_empty}
use token_weasel.Json.{Value}
use token_weasel.Provider.Usage.{Usage, extract_usage}

module _ (from_utf8_lossy : List ℕ → String) (from_str : String → Option Value) where
  unfoldable pub parse_sse_line : List ℕ → String → Option String → Option Usage
  unfolding trim strip_prefix extract_usage
  parse_sse_line line endpoint req_model =
      and_then (strip_prefix "data:" (trim (from_utf8_lossy line))) λ rest.
        let sent = trim rest in
        if sent =ₛ "[DONE]"
        then none
        else and_then (from_str sent) (λ v. extract_usage v endpoint req_model)

  unfoldable pub parse_ndjson_line : List ℕ → String → Option String → Option Usage
  unfolding trim is_empty extract_usage
  parse_ndjson_line line endpoint req_model =
      let sent = trim (from_utf8_lossy line) in
      if is_empty sent
      then none
      else and_then (from_str sent) (λ v. extract_usage v endpoint req_model)
