-- ===== src/Stream/Accounting.antt =====
-- The accounting streams of crates/twl-server/src/proxy/stream.rs, as functions of what the
-- upstream delivers. A line parser and the JSON parser are parameters.
pub mod Chunking
pub mod Buffered
use Prim.Native.String.{String}
use token_weasel.Prelude.{
  ℕ, Bool, true, false, not, List, [], ◌∷◌, ◌++◌, Option, none, some, if◌then◌else◌, and_then,
}
use token_weasel.Prelude.Int.{ℤ}
use token_weasel.Json.{Value}
use token_weasel.Provider.Usage.{Usage, extract_usage, expects_usage}
use token_weasel.Provider.Usage.Scavenge.{scavenge_usage}
use token_weasel.Stream.LineBuffer
use token_weasel.Stream.LineBuffer.{LineBuffer, remainder}
use token_weasel.Stream.BoundedBuffer
use token_weasel.Stream.BoundedBuffer.{BoundedBuffer, complete}
use token_weasel.Stream.Accumulate.{accumulate_usage}

abbrev pub Bytes : Type 0
Bytes = List ℕ

-- `MAX_LINE` and `MAX_ACCOUNTING_BUFFER`
abbrev max_line : ℕ
max_line = 1_048_576

abbrev max_accounting_buffer : ℕ
max_accounting_buffer = 8_388_608

-- an item of the upstream stream, and of the stream that the client reads
pub data Item : Type 0 where
  chunk : Bytes → Item
  failed : String → Item

-- the variables of `line_accounting_stream`
pub record LineState : Type 0 where
  pub usage : Option Usage
  pub lines : LineBuffer
  pub saw_usage : Bool

abbrev pub initial : LineState
initial = record { usage = none; lines = LineBuffer.empty; saw_usage = false }

-- what the drop of `UsageRecorder` does, in order
pub data Effect : Type 0 where
  record_usage : Usage → Effect
  drop_meter drop_load drop_fair_queue : Effect

unfoldable pub drop_recorder : Option Usage → Option ℤ → List Effect
drop_recorder none api_key_id = drop_meter ∷ drop_load ∷ drop_fair_queue ∷ []
drop_recorder (some u) api_key_id =
    record_usage (record u { api_key_id = api_key_id })
    ∷ drop_meter
    ∷ drop_load
    ∷ drop_fair_queue
    ∷ []

module _ (parse_line : Bytes → Option Usage) where
  -- the callback of `lines.push`
  unfoldable pub observe : LineState → Bytes → LineState
  observe st line = elim (parse_line line) [
    | none ↦ st
    | some u ↦ record st { usage = some (accumulate_usage st.usage u); saw_usage = true }
  ]

  unfoldable pub observe_all : LineState → List Bytes → LineState
  unfolding observe
  observe_all st [] = st
  observe_all st (line ∷ lines) = observe_all (observe st line) lines

  -- one `Ok(chunk)`
  unfoldable pub on_chunk : ℕ → LineState → Bytes → LineState
  unfolding observe_all
  on_chunk limit st c =
      let (lines', complete_lines) = LineBuffer.push limit st.lines c in
      record (observe_all st complete_lines) { lines = lines' }

  -- the loop over the upstream: the state at its end and the items that were yielded
  unfoldable pub line_loop : ℕ → LineState → List Item → LineState × List Item
  unfolding on_chunk
  line_loop limit st [] = (st, [])
  line_loop limit st (failed e ∷ items) = (st, failed e ∷ [])
  line_loop limit st (chunk c ∷ items) =
      let (last, yielded) = line_loop limit (on_chunk limit st c) items in (last, chunk c ∷ yielded)

  -- the trailing line, when the loop is over
  unfoldable pub flush : LineState → LineState
  unfolding observe
  flush st = observe st (remainder st.lines)

  -- The items that the client reads, the effects of the end, and whether a warning is logged.
  unfoldable pub line_accounting_stream : ℕ → Option ℤ → List Item → List Item × List Effect × Bool
  unfolding line_loop flush drop_recorder
  line_accounting_stream limit api_key_id items =
      let (st, yielded) = line_loop limit initial items in
      let final = flush st in (yielded, drop_recorder final.usage api_key_id, not final.saw_usage)

  -- A client that goes away after reading `items`: the loop is dropped at its last `yield`.
  unfoldable pub disconnected : ℕ → Option ℤ → List Item → List Effect
  unfolding line_loop drop_recorder
  disconnected limit api_key_id items =
      drop_recorder (line_loop limit initial items).0.usage api_key_id

module _ (from_slice : Bytes → Option Value) where
  unfoldable pub finalize_buffered_usage : Bytes → String → Option String → Option Usage
  finalize_buffered_usage bytes endpoint req_model = elim (from_slice bytes) [
    | none ↦ none
    | some v ↦ elim (extract_usage v endpoint req_model) [
      | some u ↦ some u
      | none ↦ scavenge_usage v endpoint req_model
    ]
  ]

  unfoldable pub buffered_loop : ℕ → Bool → BoundedBuffer → List Item → BoundedBuffer × List Item
  buffered_loop limit parse body [] = (body, [])
  buffered_loop limit parse body (failed e ∷ items) = (body, failed e ∷ [])
  buffered_loop limit parse body (chunk c ∷ items) =
      let (last, yielded) =
        buffered_loop limit parse (if parse then BoundedBuffer.push limit body c else body) items in
      (last, chunk c ∷ yielded)

  unfoldable pub buffered_accounting_stream :
      ℕ → Bool → String → Option String → Option ℤ → List Item → List Item × List Effect
  unfolding buffered_loop finalize_buffered_usage drop_recorder
  buffered_accounting_stream limit parse endpoint req_model api_key_id items =
      let (body, yielded) = buffered_loop limit parse BoundedBuffer.empty items in
      let usage =
        and_then (and_then (complete body) (λ b. if parse then some b else none))
          (λ b. finalize_buffered_usage b endpoint req_model) in
      (yielded, drop_recorder usage api_key_id)
