-- ===== src/Stream/LineBuffer.antt =====
-- `LineBuffer` of crates/twl-server/src/proxy/stream.rs. `limit` stands for `MAX_LINE`; the
-- callback `on_line` is the list of the lines that it is called with, in order.
pub mod Spec
pub mod Chunks
use token_weasel.Prelude.{
  ℕ, Bool, true, false, Option, none, some, List, [], ◌∷◌, ◌++◌, length, ltb, ◌==◌, if◌then◌else◌,
}

abbrev pub Bytes : Type 0
Bytes = List ℕ

pub record LineBuffer : Type 0 where
  pub buf : Bytes
  pub discarding : Bool

abbrev pub empty : LineBuffer
empty = record { buf = []; discarding = false }

-- The discard loop: what stands behind the first newline, if there is one.
unfoldable pub after_newline : Bytes → Option Bytes
after_newline [] = none
after_newline (c ∷ cs) = if c == b'\n' then some cs else after_newline cs

-- The forward scan. `line` is `buf[next_start..i]`; the result is the bytes left in the buffer
-- and the lines handed to the callback. A line longer than the limit is skipped.
unfoldable pub scan : ℕ → Bytes → Bytes → Bytes × List Bytes
scan limit line [] = (line, [])
scan limit line (c ∷ cs) = elim (c == b'\n') [
  | true ↦
      let (rest, lines) = scan limit [] cs in
      (rest, if ltb limit (length (line ++ c ∷ [])) then lines else (line ++ c ∷ []) ∷ lines)
  | false ↦ scan limit (line ++ c ∷ []) cs
]

-- What follows the scan: an unterminated line beyond the limit is dropped.
unfoldable pub close_scan : ℕ → Bytes × List Bytes → LineBuffer × List Bytes
close_scan limit (rest, lines) =
    if ltb limit (length rest)
    then (record { buf = []; discarding = true }, lines)
    else (record { buf = rest; discarding = false }, lines)

unfoldable pub push : ℕ → LineBuffer → Bytes → LineBuffer × List Bytes
unfolding scan close_scan after_newline
push limit b chunk =
    let buf = b.buf ++ chunk in
    if b.discarding
    then elim (after_newline buf) [
      | none ↦ (record { buf = if ltb limit (length buf) then [] else buf; discarding = true }, [])
      | some rest ↦ close_scan limit (scan limit [] rest)
    ]
    else close_scan limit (scan limit [] buf)

unfoldable pub remainder : LineBuffer → Bytes
remainder b = if b.discarding then [] else b.buf

-- The pushes of a whole response, one for each chunk.
unfoldable pub feed : ℕ → LineBuffer → List Bytes → LineBuffer × List Bytes
unfolding push
feed limit b [] = (b, [])
feed limit b (chunk ∷ chunks) =
    let (b', lines) = push limit b chunk in
    let (last, later) = feed limit b' chunks in (last, lines ++ later)
