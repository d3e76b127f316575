-- ===== src/Stream/LineBuffer/Spec.antt =====
-- What accounting should see of a byte sequence, with no buffer and no chunks: its complete lines
-- and its unterminated end.
use mathlib.Core.List.{filter, filter-append}
use token_weasel.Prelude.{
  ℕ, ◌<◌, ◌≡◌, refl, sym, ap, ◌∙◌, true, false, inl, inr, List, [], ◌∷◌, ◌++◌, none, some,
  append_assoc, append-nil, arith, length, length-append, concat, ◌==◌, Bool-cases, dec_le,
}
use token_weasel.Stream.LineBuffer.{Bytes, after_newline}

-- The lines that end in `s`, newlines included, where `line` stands in front of `s`.
unfoldable pub lines_from : Bytes → Bytes → List Bytes
lines_from line [] = []
lines_from line (c ∷ cs) = elim (c == b'\n') [
  | true ↦ (line ++ c ∷ []) ∷ lines_from [] cs
  | false ↦ lines_from (line ++ c ∷ []) cs
]

-- What follows the last newline.
unfoldable pub tail_from : Bytes → Bytes → Bytes
tail_from line [] = line
tail_from line (c ∷ cs) = elim (c == b'\n') [
  | true ↦ tail_from [] cs
  | false ↦ tail_from (line ++ c ∷ []) cs
]

abbrev pub lines_of : Bytes → List Bytes
lines_of = lines_from []

abbrev pub tail_of : Bytes → Bytes
tail_of = tail_from []

-- The lines within the limit.
unfoldable pub within : ℕ → List Bytes → List Bytes
within limit = filter (λ l. dec_le (length l) limit)

within-long :
    (limit : ℕ) (l : Bytes) (ls : List Bytes)
    → limit < length l
    → within limit (l ∷ ls) ≡ within limit ls
unfolding within
within-long limit l ls h = ground arith

pub within-append :
    (limit : ℕ) (xs ys : List Bytes) → within limit (xs ++ ys) ≡ within limit xs ++ within limit ys
unfolding within
within-append limit xs ys = filter-append (λ l. dec_le (length l) limit) xs ys

pub lines_from-append :
    (line s t : Bytes)
    → lines_from line (s ++ t) ≡ lines_from line s ++ lines_from (tail_from line s) t
unfolding lines_from tail_from
lines_from-append line [] t = refl
lines_from-append line (c ∷ s) t =
    ground (arith, lines_from-append [] s t, lines_from-append (line ++ c ∷ []) s t)

pub tail_from-append : (line s t : Bytes) → tail_from line (s ++ t) ≡ tail_from (tail_from line s) t
unfolding tail_from
tail_from-append line [] t = refl
tail_from-append line (c ∷ s) t =
    ground (arith, tail_from-append [] s t, tail_from-append (line ++ c ∷ []) s t)

-- The lines and the end together are the bytes, in order.
concat-lines_from : (line s : Bytes) → concat (lines_from line s) ++ tail_from line s ≡ line ++ s
unfolding lines_from tail_from
concat-lines_from line [] = sym (append-nil line)
concat-lines_from line (c ∷ s) = elim (Bool-cases (c == b'\n')) [
  | inl e ↦
      rw (e, lines_from, tail_from)
        (rw (append_assoc (line ++ c ∷ []) (concat (lines_from [] s)) (tail_from [] s))
          (rw (concat-lines_from [] s) (append_assoc line (c ∷ []) s)))
  | inr e ↦
      rw (e, lines_from, tail_from)
        (concat-lines_from (line ++ c ∷ []) s ∙ append_assoc line (c ∷ []) s)
]

-- A byte sequence with no newline only grows the end.
pub tail_from_plain : (line s : Bytes) → after_newline s ≡ none → tail_from line s ≡ line ++ s
unfolding tail_from after_newline
tail_from_plain line [] h = sym (append-nil line)
tail_from_plain line (c ∷ s) h = elim (Bool-cases (c == b'\n')) [
  | inl e ↦ ground arith
  | inr e ↦
      rw (e, tail_from)
        (tail_from_plain (line ++ c ∷ []) s (ground arith) ∙ append_assoc line (c ∷ []) s)
]

pub lines_from_plain : (line s : Bytes) → after_newline s ≡ none → lines_from line s ≡ []
unfolding lines_from after_newline
lines_from_plain line [] h = refl
lines_from_plain line (c ∷ s) h = ground (arith, lines_from_plain (line ++ c ∷ []) s)

-- The end of a sequence holds no newline.
pub after_newline-append_plain :
    (s t : Bytes) → after_newline s ≡ none → after_newline (s ++ t) ≡ after_newline t
unfolding after_newline
after_newline-append_plain [] t h = refl
after_newline-append_plain (c ∷ s) t h = ground (arith, after_newline-append_plain s t)

pub after_newline-tail_from :
    (line s : Bytes) → after_newline line ≡ none → after_newline (tail_from line s) ≡ none
unfolding after_newline tail_from
after_newline-tail_from line [] h = h
after_newline-tail_from line (c ∷ s) h = elim (Bool-cases (c == b'\n')) [
  | inl e ↦ rw (e, tail_from) (after_newline-tail_from [] s refl)
  | inr e ↦
      rw (e, tail_from)
        (after_newline-tail_from (line ++ c ∷ []) s
          (after_newline-append_plain line (c ∷ []) h ∙ rw (e, after_newline)))
]

-- A newline behind an oversized end: its line is beyond the limit, and reading starts afresh.
pub within-lines_from_long :
    (limit : ℕ) (line s rest : Bytes)
    → limit < length line
    → after_newline s ≡ some rest
    → within limit (lines_from line s) ≡ within limit (lines_from [] rest)
unfolding lines_from after_newline
within-lines_from_long limit line [] rest h e = ground arith
within-lines_from_long limit line (c ∷ s) rest h e = elim (Bool-cases (c == b'\n')) [
  | inl t ↦
      rw (t, lines_from)
        (within-long limit (line ++ c ∷ []) (lines_from [] s)
            (omega (arith, length-append line (c ∷ [])))
          ∙ ap (λ x. within limit (lines_from [] x)) {x = s} {y = rest} (ground arith))
  | inr t ↦
      rw (t, lines_from)
        (within-lines_from_long limit (line ++ c ∷ []) s rest
          (omega (arith, length-append line (c ∷ []))) (ground arith))
]

pub tail_from_long :
    (line s rest : Bytes) → after_newline s ≡ some rest → tail_from line s ≡ tail_from [] rest
unfolding tail_from after_newline
tail_from_long line [] rest e = ground arith
tail_from_long line (c ∷ s) rest e = ground (arith, tail_from_long (line ++ c ∷ []) s rest)
