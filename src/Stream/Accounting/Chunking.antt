-- ===== src/Stream/Accounting/Chunking.antt =====
-- The line accounting of crates/twl-server/src/proxy/stream.rs depends on the bytes of the
-- response, and not on how they arrive.
use token_weasel.Prelude.{
  ℕ, ◌≡◌, refl, sym, ap, ◌∙◌, Bool, true, false, not, ◌||◌, inl, inr, List, [], ◌∷◌, ◌++◌, Option,
  none, some, length, concat, ltb, if◌then◌else◌, Option-cases, arith,
}
use token_weasel.Prelude.Int.{ℤ}
use token_weasel.Provider.Usage.{Usage}
use token_weasel.Stream.LineBuffer.{LineBuffer, feed, push}
use token_weasel.Stream.LineBuffer
use token_weasel.Stream.LineBuffer.Spec.{lines_of, tail_of, within}
use token_weasel.Stream.LineBuffer.Chunks.{feed-lines_of}
use token_weasel.Stream.Accumulate.{accumulate_usage}
use token_weasel.Stream.Accounting.{
  Bytes, Item, chunk, failed, LineState, initial, drop_recorder, observe, observe_all, on_chunk,
  line_loop, disconnected,
}

-- the chunks in front of the first failure
abbrev pub chunks_of : List Item → List Bytes
chunks_of [] = []
chunks_of (failed e ∷ items) = []
chunks_of (chunk c ∷ items) = c ∷ chunks_of items

-- the items up to the first failure, that one included
abbrev pub until_failure : List Item → List Item
until_failure [] = []
until_failure (failed e ∷ items) = failed e ∷ []
until_failure (chunk c ∷ items) = chunk c ∷ until_failure items

-- the lines of a whole response that are read for usage: the complete ones within the limit, and
-- the unterminated end, which is empty where it is beyond the limit
abbrev pub read_lines : ℕ → Bytes → List Bytes
read_lines limit body =
    within limit (lines_of body)
    ++ (if ltb limit (length (tail_of body)) then [] else tail_of body) ∷ []

module _ (parse_line : Bytes → Option Usage) where
  -- the usages that the lines report
  unfoldable pub reported : List Bytes → List Usage
  reported [] = []
  reported (l ∷ ls) = elim (parse_line l) [ none ↦ reported ls | some u ↦ u ∷ reported ls ]

-- the accumulation of usages, in order
unfoldable pub accumulated : Option Usage → List Usage → Option Usage
accumulated o [] = o
accumulated o (u ∷ us) = accumulated (some (accumulate_usage o u)) us

abbrev pub is_nil : List Usage → Bool
is_nil [] = true
is_nil (u ∷ us) = false

module _ (parse_line : Bytes → Option Usage) where
  observe_all-append :
      (st : LineState) (xs ys : List Bytes)
      → observe_all parse_line st (xs ++ ys)
        ≡ observe_all parse_line (observe_all parse_line st xs) ys
  unfolding observe_all
  observe_all-append st [] ys = refl
  observe_all-append st (x ∷ xs) ys = observe_all-append (observe parse_line st x) xs ys

  with_lines : LineBuffer → LineState → LineState
  with_lines l st = record st { lines = l }

  observe-with_lines :
      (l : LineBuffer) (st : LineState) (x : Bytes)
      → observe parse_line (with_lines l st) x ≡ with_lines l (observe parse_line st x)
  unfolding observe with_lines
  observe-with_lines l st x = elim (Option-cases (parse_line x)) [
    | inl e ↦ rw (e, observe)
    | inr (u, e) ↦ rw (e, observe)
  ]

  observe_all-with_lines :
      (l : LineBuffer) (st : LineState) (xs : List Bytes)
      → observe_all parse_line (with_lines l st) xs ≡ with_lines l (observe_all parse_line st xs)
  unfolding observe_all
  observe_all-with_lines l st [] = refl
  observe_all-with_lines l st (x ∷ xs) =
      rw (observe-with_lines l st x) (observe_all-with_lines l (observe parse_line st x) xs)

  line_loop_lem :
      (limit : ℕ) (st : LineState) (items : List Item)
      → line_loop parse_line limit st items ≡ (
        with_lines
            (feed limit st.lines (chunks_of items)).0
            (observe_all parse_line st (feed limit st.lines (chunks_of items)).1),
        until_failure items,
      )
  unfolding line_loop feed with_lines observe_all on_chunk
  line_loop_lem limit st [] = refl
  line_loop_lem limit st (failed e ∷ items) = refl
  line_loop_lem limit st (chunk c ∷ items) =
      let (b, ls) = push limit st.lines c in
      let (b', fs) = feed limit b (chunks_of items) in
      let later : observe_all parse_line (with_lines b (observe_all parse_line st ls)) fs
          ≡ with_lines b (observe_all parse_line st (ls ++ fs)) =
        observe_all-with_lines b (observe_all parse_line st ls) fs
        ∙ ap (with_lines b) (sym (observe_all-append st ls fs)) in
      rw (line_loop_lem limit (on_chunk parse_line limit st c) items)
        (ap (λ s. (with_lines b' s, chunk c ∷ until_failure items)) later)

  observe_some : LineState → Usage → LineState
  observe_some st u = record st { usage = some (accumulate_usage st.usage u); saw_usage = true }

  -- Usage and warning after the lines, from any state.
  observe_all-usage :
      (st : LineState) (xs : List Bytes)
      → ((observe_all parse_line st xs).usage ≡ accumulated st.usage (reported parse_line xs))
        × ((observe_all parse_line st xs).saw_usage
            ≡ (st.saw_usage || not (is_nil (reported parse_line xs))))
  unfolding observe_all observe reported accumulated observe_some
  observe_all-usage st [] = (refl, ground arith)
  observe_all-usage st (x ∷ xs) = elim (Option-cases (parse_line x)) [
    | inl e ↦ rw (e, observe_all, observe, reported) (observe_all-usage st xs)
    | inr (u, e) ↦
        rw (e, observe_all, observe, reported)
          (let (p, q) = observe_all-usage (observe_some st u) xs in (p, ground (arith, q)))
  ]

  -- A client that goes away after it has read `items` is charged for the complete lines of the
  -- bytes sent to it, however they were cut into chunks, and every guard is released.
  disconnected-bytes :
      (limit : ℕ) (api_key_id : Option ℤ) (items : List Item)
      → disconnected parse_line limit api_key_id items
        ≡ drop_recorder
            (accumulated none
              (reported parse_line (within limit (lines_of (concat (chunks_of items))))))
            api_key_id
  unfolding disconnected with_lines
  disconnected-bytes limit api_key_id items =
      ap (λ o. drop_recorder o api_key_id)
        (ap (λ r. r.0.usage) (line_loop_lem limit initial items)
          ∙ (observe_all-usage initial (feed limit LineBuffer.empty (chunks_of items)).1).0
          ∙ ap (λ ls. accumulated none (reported parse_line ls))
              (feed-lines_of limit (chunks_of items)).0)
