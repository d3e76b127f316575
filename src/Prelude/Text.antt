-- ===== src/Prelude/Text.antt =====
-- The operations of `str` that the program uses, over the native text.
use Prim.Native.Char.{Char, code}
use Prim.Native.String.{String}
use text.Mathlib.Text
use mathlib.Core.Bool.{true≢false}
use text.Mathlib.TextEquality.{eq_iff}
use token_weasel.Prelude.{
  ℕ, Bool, true, false, ◌&&◌, ◌||◌, Option, none, some, leb, ◌==◌, if◌then◌else◌, ◌≡◌, refl, sym,
  ◌∙◌, zero, suc, ◌-◌, List, [], ◌∷◌,
}

infix 50 ◌=ₛ◌
abbrev pub ◌=ₛ◌ : String → String → Bool
s =ₛ t = Text.◌==◌ s t

unfoldable pub is_empty : String → Bool
is_empty String.[] = true
is_empty (String.◌∷◌ c s) = false

unfoldable pub ends_with : String → String → Bool
ends_with String.[] t = t =ₛ ""
ends_with (String.◌∷◌ c s) t = String.◌∷◌ c s =ₛ t || ends_with s t

unfoldable pub contains : String → String → Bool
contains String.[] t = t =ₛ ""
contains (String.◌∷◌ c s) t = Text.starts_with (String.◌∷◌ c s) t || contains s t

-- `char::is_whitespace`
unfoldable pub is_whitespace : ℕ → Bool
is_whitespace c =
    (leb 9 c && leb c 13)
    || c == 32
    || c == 0x85
    || c == 0xa0
    || c == 0x1680
    || (leb 0x2000 c && leb c 0x200a)
    || c == 0x2028
    || c == 0x2029
    || c == 0x202f
    || c == 0x205f
    || c == 0x3000

unfoldable pub trim_start : String → String
unfolding is_whitespace
trim_start String.[] = ""
trim_start (String.◌∷◌ c s) = if is_whitespace (code c) then trim_start s else String.◌∷◌ c s

unfoldable pub trim_end : String → String
unfolding is_whitespace is_empty
trim_end String.[] = ""
trim_end (String.◌∷◌ c s) =
    let rest = trim_end s in
    if is_empty rest && is_whitespace (code c) then "" else String.◌∷◌ c rest

unfoldable pub trim : String → String
unfolding trim_start trim_end
trim s = trim_end (trim_start s)

unfoldable pub strip_prefix : String → String → Option String
strip_prefix String.[] s = some s
strip_prefix (String.◌∷◌ c p) String.[] = none
strip_prefix (String.◌∷◌ c p) (String.◌∷◌ d s) = if code c == code d then strip_prefix p s else none

abbrev String-dec : (s t : String) (b : Bool) → (s =ₛ t) ≡ b → Dec (s ≡ t)
String-dec s t true e = yes ((eq_iff s t).0 e)
String-dec s t false e = no (λ p. true≢false (sym ((eq_iff s t).1 p) ∙ e))

unfoldable pub String-discrete : Discrete String
String-discrete s t = String-dec s t (s =ₛ t) refl

-- the character at a place of a string
abbrev char_at : ℕ → String → Char → Char
char_at n String.[] d = d
char_at zero (String.◌∷◌ c s) d = c
char_at (suc n) (String.◌∷◌ c s) d = char_at n s d

unfoldable pub to_ascii_lowercase : String → String
to_ascii_lowercase String.[] = ""
to_ascii_lowercase (String.◌∷◌ c s) =
    String.◌∷◌
      (if leb 65 (code c) && leb (code c) 90
        then char_at (code c - 65) "abcdefghijklmnopqrstuvwxyz" c
        else c)
      (to_ascii_lowercase s)

-- the part in front of the first separator, or the whole
unfoldable pub before_sep : ℕ → String → String
before_sep sep String.[] = ""
before_sep sep (String.◌∷◌ c s) = if code c == sep then "" else String.◌∷◌ c (before_sep sep s)

abbrev push_front : Char → List String → List String
push_front c [] = String.◌∷◌ c "" ∷ []
push_front c (p ∷ ps) = String.◌∷◌ c p ∷ ps

-- `split` at a character: always at least one piece
unfoldable pub split : ℕ → String → List String
split sep String.[] = "" ∷ []
split sep (String.◌∷◌ c s) =
    let rest = split sep s in if code c == sep then "" ∷ rest else push_front c rest

-- `trim_end_matches` and `trim_start_matches`
unfoldable pub trim_end_matches : (ℕ → Bool) → String → String
unfolding is_empty
trim_end_matches p String.[] = ""
trim_end_matches p (String.◌∷◌ c s) =
    let rest = trim_end_matches p s in if is_empty rest && p (code c) then "" else String.◌∷◌ c rest

unfoldable pub trim_start_matches : (ℕ → Bool) → String → String
trim_start_matches p String.[] = ""
trim_start_matches p (String.◌∷◌ c s) =
    if p (code c) then trim_start_matches p s else String.◌∷◌ c s

abbrev push_first : Char → Option (String × String) → Option (String × String)
push_first c none = none
push_first c (some (a, b)) = some (String.◌∷◌ c a, b)

-- `split_once` at a character
unfoldable pub split_once : ℕ → String → Option (String × String)
split_once sep String.[] = none
split_once sep (String.◌∷◌ c s) =
    let rest = split_once sep s in if code c == sep then some ("", s) else push_first c rest

-- `chars().any`
unfoldable pub any_char : (ℕ → Bool) → String → Bool
any_char p String.[] = false
any_char p (String.◌∷◌ c s) = p (code c) || any_char p s

-- `push_str`
unfoldable pub append : String → String → String
append String.[] t = t
append (String.◌∷◌ c s) t = String.◌∷◌ c (append s t)
