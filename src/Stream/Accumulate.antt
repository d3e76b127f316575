-- ===== src/Stream/Accumulate.antt =====
-- `accumulate_usage` of crates/twl-server/src/proxy/stream.rs.
pub mod Totals
use token_weasel.Prelude.{Option, none, some, List, [], ◌∷◌, if◌then◌else◌}
use token_weasel.Prelude.Int.{ℤ, max_ℤ, saturating_add}
use token_weasel.Prelude.Text.{◌=ₛ◌}
use token_weasel.Provider.Usage.{Usage}

-- the second part, on the usage seen before
unfoldable pub merge_usage : Usage → Usage → Usage
merge_usage existing next =
    let input = max_ℤ existing.input_tokens next.input_tokens in
    let output = max_ℤ existing.output_tokens next.output_tokens in
    record existing {
      model = if existing.model =ₛ "unknown" then next.model else existing.model;
      input_tokens = input;
      output_tokens = output;
      cached_tokens = max_ℤ existing.cached_tokens next.cached_tokens;
      total_tokens =
          max_ℤ (max_ℤ existing.total_tokens next.total_tokens) (saturating_add input output);
    }

unfoldable pub accumulate_usage : Option Usage → Usage → Usage
accumulate_usage none next = next
accumulate_usage (some existing) next = merge_usage existing next
