-- ===== src/Stream/LineBuffer/Chunks.antt =====
-- The lines that `LineBuffer` reports do not depend on how the response is cut into chunks.
use token_weasel.Prelude.{
  ℕ, ◌≤◌, ◌<◌, ◌≡◌, refl, sym, ap, ◌∙◌, true, false, inl, inr, List, [], ◌∷◌, ◌++◌, none, some,
  append_assoc, append-nil, arith, length, length-append, concat, ltb, ◌==◌, if◌then◌else◌,
  Bool-cases, Option-cases,
}
use token_weasel.Stream.LineBuffer.{
  Bytes, LineBuffer, empty, after_newline, scan, close_scan, push, remainder, feed,
}
use token_weasel.Stream.LineBuffer.Spec.{
  lines_from, tail_from, lines_of, tail_of, within, within-append, lines_from-append,
  tail_from-append, tail_from_plain, lines_from_plain, after_newline-append_plain,
  after_newline-tail_from, within-lines_from_long, tail_from_long,
}

-- `b` is the buffer after the bytes `s`: it holds their unterminated end, or discards it when it
-- is beyond the limit.
pub record Models (limit : ℕ) (b : LineBuffer) (s : Bytes) : Type 0 where
  pub keeps : b.discarding ≡ false → (b.buf ≡ tail_of s) × (length (tail_of s) ≤ limit)
  pub drops : b.discarding ≡ true → (limit < length (tail_of s)) × (after_newline b.buf ≡ none)
  pub bounded : length b.buf ≤ limit

scan_lem :
    (limit : ℕ) (line s : Bytes)
    → scan limit line s ≡ (tail_from line s, within limit (lines_from line s))
unfolding scan tail_from lines_from within
scan_lem limit line [] = refl
scan_lem limit line (c ∷ s) = elim (Bool-cases (c == b'\n')) [
  | inl e ↦ rw (e, scan, tail_from, lines_from) (rw (scan_lem limit [] s) (ground arith))
  | inr e ↦ rw (e, scan, tail_from, lines_from) (scan_lem limit (line ++ c ∷ []) s)
]

close_scan-Models :
    (limit : ℕ) (s : Bytes) (ls : List Bytes) → Models limit (close_scan limit (tail_of s, ls)).0 s
unfolding close_scan after_newline
close_scan-Models limit s ls = record {
  keeps = λ e. ground arith;
  drops = λ e. ground arith;
  bounded = ground arith;
}

close_scan-lines :
    (limit : ℕ) (rest : Bytes) (ls : List Bytes) → (close_scan limit (rest, ls)).1 ≡ ls
unfolding close_scan
close_scan-lines limit rest ls = ground arith

plain_tail : (s : Bytes) → after_newline (tail_of s) ≡ none
unfolding after_newline
plain_tail s = after_newline-tail_from [] s refl

tail_of_resume : (s t : Bytes) → tail_of (tail_of s ++ t) ≡ tail_of (s ++ t)
tail_of_resume s t =
    tail_from-append [] (tail_of s) t
    ∙ rw (tail_from_plain [] (tail_of s) (plain_tail s)) (sym (tail_from-append [] s t))

lines_of_resume : (s t : Bytes) → lines_of (tail_of s ++ t) ≡ lines_from (tail_of s) t
lines_of_resume s t =
    lines_from-append [] (tail_of s) t
    ∙ rw
        (
          lines_from_plain [] (tail_of s) (plain_tail s),
          tail_from_plain [] (tail_of s) (plain_tail s),
        )
        refl

within_more :
    (limit : ℕ) (s t : Bytes)
    → within limit (lines_of (s ++ t))
      ≡ within limit (lines_of s) ++ within limit (lines_from (tail_of s) t)
within_more limit s t =
    ap (within limit) (lines_from-append [] s t)
    ∙ within-append limit (lines_of s) (lines_from (tail_of s) t)

-- What one push owes: the new buffer, and the lines that the bytes so far have gained.
abbrev Pushes : ℕ → Bytes → Bytes → LineBuffer × List Bytes → Type 0
Pushes limit s chunk r =
    Models limit r.0 (s ++ chunk) × (r.1 ≡ within limit (lines_from (tail_of s) chunk))

close_scan-Pushes :
    (limit : ℕ) (s chunk rest : Bytes) (ls : List Bytes)
    → rest ≡ tail_of (s ++ chunk)
    → ls ≡ within limit (lines_from (tail_of s) chunk)
    → Pushes limit s chunk (close_scan limit (rest, ls))
close_scan-Pushes limit s chunk rest ls e f =
    (rw e (close_scan-Models limit (s ++ chunk) ls), close_scan-lines limit rest ls ∙ f)

push_kept :
    (limit : ℕ) (s chunk buf : Bytes)
    → buf ≡ tail_of s
    → Pushes limit s chunk (close_scan limit (scan limit [] (buf ++ chunk)))
push_kept limit s chunk buf e =
    rw (scan_lem limit [] (buf ++ chunk), e)
      (close_scan-Pushes limit s chunk _ _ (tail_of_resume s chunk)
        (ap (within limit) (lines_of_resume s chunk)))

push_resumes :
    (limit : ℕ) (s chunk rest : Bytes)
    → limit < length (tail_of s)
    → after_newline chunk ≡ some rest
    → Pushes limit s chunk (close_scan limit (scan limit [] rest))
push_resumes limit s chunk rest long e = rw (scan_lem limit [] rest) (
    close_scan-Pushes limit s chunk _ _
      (sym (tail_from-append [] s chunk ∙ tail_from_long (tail_of s) chunk rest e))
      (sym (within-lines_from_long limit (tail_of s) chunk rest long e)))

push_still_dropping :
    (limit : ℕ) (s chunk buf : Bytes)
    → limit < length (tail_of s)
    → after_newline buf ≡ none
    → after_newline chunk ≡ none
    → Pushes limit s chunk (
      record {
        buf = if ltb limit (length (buf ++ chunk)) then [] else buf ++ chunk;
        discarding = true;
      },
      [],
    )
unfolding after_newline within
push_still_dropping limit s chunk buf long plain h = (
  record {
    keeps = λ e. cc;
    drops = λ _. (longer, ground (arith, after_newline-append_plain buf chunk plain));
    bounded = ground arith;
  },
  rw (lines_from_plain (tail_of s) chunk h),
)
  where
    longer : limit < length (tail_of (s ++ chunk))
    longer =
        rw (tail_from-append [] s chunk, tail_from_plain (tail_of s) chunk h)
          (omega (arith, length-append (tail_of s) chunk))

push_dropping :
    (limit : ℕ) (s chunk buf : Bytes)
    → limit < length (tail_of s)
    → after_newline buf ≡ none
    → Pushes limit s chunk (push limit (record { buf = buf; discarding = true }) chunk)
unfolding push
push_dropping limit s chunk buf long plain = elim (Option-cases (after_newline chunk)) [
  | inl h ↦
      rw (after_newline-append_plain buf chunk plain ∙ h, push)
        (push_still_dropping limit s chunk buf long plain h)
  | inr (rest, h) ↦
      rw (after_newline-append_plain buf chunk plain ∙ h, push)
        (push_resumes limit s chunk rest long h)
]

push-Pushes :
    (limit : ℕ) (b : LineBuffer) (s chunk : Bytes)
    → Models limit b s
    → Pushes limit s chunk (push limit b chunk)
unfolding push
push-Pushes limit b s chunk m = elim (Bool-cases b.discarding) [
  | inl e ↦ rw e (push_dropping limit s chunk b.buf (m.drops e).0 (m.drops e).1)
  | inr e ↦ rw e (push_kept limit s chunk b.buf (m.keeps e).0)
]

feed-Models :
    (limit : ℕ) (b : LineBuffer) (s : Bytes) (chunks : List Bytes)
    → Models limit b s
    → Models limit (feed limit b chunks).0 (s ++ concat chunks)
      × (within limit (lines_of (s ++ concat chunks))
          ≡ within limit (lines_of s) ++ (feed limit b chunks).1)
unfolding feed
feed-Models limit b s [] m = rw (append-nil s) (m, sym (append-nil (within limit (lines_of s))))
feed-Models limit b s (chunk ∷ chunks) m =
    let (m', e) = push-Pushes limit b s chunk m in
    let (m'', f) = feed-Models limit (push limit b chunk).0 (s ++ chunk) chunks m' in
    rw (← append_assoc s chunk (concat chunks)) (
      m'',
      f
          ∙ rw (within_more limit s chunk, ← e)
              (append_assoc (within limit (lines_of s)) (push limit b chunk).1
                (feed limit (push limit b chunk).0 chunks).1),
    )

empty-Models : (limit : ℕ) → Models limit empty []
unfolding tail_from
empty-Models limit = record {
  keeps = λ _. (refl, omega arith);
  drops = λ e. cc;
  bounded = omega arith;
}

remainder_lem :
    (limit : ℕ) (b : LineBuffer) (s : Bytes)
    → Models limit b s
    → remainder b ≡ (if ltb limit (length (tail_of s)) then [] else tail_of s)
unfolding remainder
remainder_lem limit b s m = elim (Bool-cases b.discarding) [
  | inl e ↦ ground (arith, m.drops e)
  | inr e ↦ ground (arith, m.keeps e)
]

-- However a response is cut into chunks, the callback of `push` gets exactly the complete lines
-- of the whole response that are within the limit, newlines included, in their order, and
-- `remainder` is what follows the last newline, or nothing where that is beyond the limit.
pub feed-lines_of :
    (limit : ℕ) (chunks : List Bytes)
    → ((feed limit empty chunks).1 ≡ within limit (lines_of (concat chunks)))
      × (remainder (feed limit empty chunks).0
          ≡ (if ltb limit (length (tail_of (concat chunks))) then [] else tail_of (concat chunks)))
unfolding within lines_from
feed-lines_of limit chunks =
    let (m, e) = feed-Models limit empty [] chunks (empty-Models limit) in
    (sym e, remainder_lem limit _ (concat chunks) m)

-- The buffer never holds more than the limit between two pushes.
length-feed-le : (limit : ℕ) (chunks : List Bytes) → length (feed limit empty chunks).0.buf ≤ limit
length-feed-le limit chunks = (feed-Models limit empty [] chunks (empty-Models limit)).0.bounded
