-- ===== src/Stream/BoundedBuffer.antt =====
-- `BoundedBuffer` of crates/twl-server/src/proxy/stream.rs. `limit` stands for
-- `MAX_ACCOUNTING_BUFFER`.
use token_weasel.Prelude.{
  ℕ, ◌+◌, ◌≤◌, ◌≡◌, refl, ◌∙◌, Bool, true, false, inl, inr, List, [], ◌∷◌, ◌++◌, Option, none, some,
  append_assoc, append-nil, arith, length, length-append, concat, ltb, leb, if◌then◌else◌,
  Bool-cases,
}

abbrev pub Bytes : Type 0
Bytes = List ℕ

pub record BoundedBuffer : Type 0 where
  pub buf : Bytes
  pub overflowed : Bool

abbrev pub empty : BoundedBuffer
empty = record { buf = []; overflowed = false }

unfoldable pub push : ℕ → BoundedBuffer → Bytes → BoundedBuffer
push limit b chunk =
    if b.overflowed
    then b
    else if ltb limit (length b.buf + length chunk)
    then record { buf = []; overflowed = true }
    else record b { buf = b.buf ++ chunk }

unfoldable pub complete : BoundedBuffer → Option Bytes
complete b = if b.overflowed then none else some b.buf

unfoldable pub feed : ℕ → BoundedBuffer → List Bytes → BoundedBuffer
unfolding push
feed limit b [] = b
feed limit b (chunk ∷ chunks) = feed limit (push limit b chunk) chunks

feed_overflowed :
    (limit : ℕ) (buf : Bytes) (chunks : List Bytes)
    → complete (feed limit (record { buf = buf; overflowed = true }) chunks) ≡ none
unfolding feed push complete
feed_overflowed limit buf [] = refl
feed_overflowed limit buf (chunk ∷ chunks) = feed_overflowed limit buf chunks

complete-feed_from :
    (limit : ℕ) (buf : Bytes) (chunks : List Bytes)
    → length buf ≤ limit
    → complete (feed limit (record { buf = buf; overflowed = false }) chunks)
      ≡ (if leb (length (buf ++ concat chunks)) limit then some (buf ++ concat chunks) else none)
unfolding feed push complete
complete-feed_from limit buf [] k = rw (append-nil buf) (ground arith)
complete-feed_from limit buf (chunk ∷ chunks) k =
    elim (Bool-cases (ltb limit (length buf + length chunk))) [
      | inl e ↦
          rw (e, feed, push)
            (feed_overflowed limit [] chunks
              ∙ ground (
                arith,
                length-append buf (chunk ++ concat chunks),
                length-append chunk (concat chunks),
              ))
      | inr e ↦
          rw (e, feed, push)
            (complete-feed_from limit (buf ++ chunk) chunks
                (ground (arith, length-append buf chunk))
              ∙ rw (append_assoc buf chunk (concat chunks)))
    ]

-- However a body is cut into chunks, `complete` is the whole body if it is within the limit, and
-- nothing if it is larger.
pub complete-feed :
    (limit : ℕ) (chunks : List Bytes)
    → complete (feed limit empty chunks)
      ≡ (if leb (length (concat chunks)) limit then some (concat chunks) else none)
complete-feed limit chunks = complete-feed_from limit [] chunks (omega arith)
