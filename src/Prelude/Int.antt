-- ===== src/Prelude/Int.antt =====
-- `i64` values: signed integers over the native numbers, with the machine's range and the
-- operations on it that the program uses.
use token_weasel.Prelude.{
  ℕ, suc, ◌+◌, ◌-◌, ◌≤◌, ◌≡◌, Bool, leb, ltb, if◌then◌else◌, ℕ_discrete, arith, ◌&&◌,
}

-- `negsuc n` is -(n + 1).
pub data ℤ : Type 0 where
  pos : ℕ → ℤ
  negsuc : ℕ → ℤ

unfoldable pub ℤ-discrete : Discrete ℤ
unfolding ℕ_discrete
ℤ-discrete = hlevel ℕ_discrete

abbrev pub pos_part : ℤ → ℕ
pos_part (pos n) = n
pos_part (negsuc n) = 0

abbrev pub neg_part : ℤ → ℕ
neg_part (pos n) = 0
neg_part (negsuc n) = suc n

-- a - b, as an integer.
abbrev sub_ℕ : ℕ → ℕ → ℤ
sub_ℕ a b = if leb b a then pos (a - b) else negsuc (b - a - 1)

infixl 65 ◌+ℤ◌ ◌-ℤ◌
infix 50 ◌≤ℤ◌
abbrev pub ◌+ℤ◌ : ℤ → ℤ → ℤ
a +ℤ b = sub_ℕ (pos_part a + pos_part b) (neg_part a + neg_part b)

abbrev pub ◌-ℤ◌ : ℤ → ℤ → ℤ
a -ℤ b = sub_ℕ (pos_part a + neg_part b) (neg_part a + pos_part b)

abbrev pub ◌≤ℤ◌ : ℤ → ℤ → Type 0
a ≤ℤ b = pos_part a + neg_part b ≤ pos_part b + neg_part a

abbrev pub leb_ℤ : ℤ → ℤ → Bool
leb_ℤ a b = leb (pos_part a + neg_part b) (pos_part b + neg_part a)

abbrev pub ltb_ℤ : ℤ → ℤ → Bool
ltb_ℤ a b = ltb (pos_part a + neg_part b) (pos_part b + neg_part a)

abbrev pub eq_ℤ : ℤ → ℤ → Bool
eq_ℤ a b = leb_ℤ a b && leb_ℤ b a

-- `i64::MAX`
abbrev pub i64_max : ℕ
i64_max = 9_223_372_036_854_775_807

-- the values of an `i64`
abbrev pub IsI64 : ℤ → Type 0
IsI64 a = (pos_part a ≤ i64_max) × (neg_part a ≤ i64_max + 1)

abbrev pub is_i64 : ℤ → Bool
is_i64 a = leb (pos_part a) i64_max && leb (neg_part a) (i64_max + 1)

unfoldable pub max_ℤ : ℤ → ℤ → ℤ
max_ℤ a b = if leb_ℤ a b then b else a

unfoldable pub min_ℤ : ℤ → ℤ → ℤ
min_ℤ a b = if leb_ℤ a b then a else b

-- `i64::MIN..=i64::MAX` by clamping, for `saturating_add` and `saturating_sub`
abbrev saturate : ℤ → ℤ
saturate a =
    if ltb i64_max (pos_part a)
    then pos i64_max
    else if ltb (i64_max + 1) (neg_part a)
    then negsuc i64_max
    else a

unfoldable pub saturating_add : ℤ → ℤ → ℤ
saturating_add a b = saturate (a +ℤ b)

unfoldable pub saturating_sub : ℤ → ℤ → ℤ
saturating_sub a b = saturate (a -ℤ b)

-- a count: an `i64` that is not negative
abbrev pub IsCount : ℤ → Type 0
IsCount a = (neg_part a ≡ 0) × (pos_part a ≤ i64_max)

pub max_ℤ-zero-IsCount : (a : ℤ) → IsI64 a → IsCount (max_ℤ a (pos 0))
unfolding max_ℤ
max_ℤ-zero-IsCount a h = ground arith

pub max_ℤ-IsCount : (a b : ℤ) → IsCount a → IsCount b → IsCount (max_ℤ a b)
unfolding max_ℤ
max_ℤ-IsCount a b h k = ground arith

pub min_ℤ-IsCount : (a b : ℤ) → IsCount a → IsCount b → IsCount (min_ℤ a b)
unfolding min_ℤ
min_ℤ-IsCount a b h k = ground arith

pub min_ℤ-le_right : (a b : ℤ) → min_ℤ a b ≤ℤ b
unfolding min_ℤ
min_ℤ-le_right a b = ground arith

pub saturating_add-IsCount : (a b : ℤ) → IsCount a → IsCount b → IsCount (saturating_add a b)
unfolding saturating_add
saturating_add-IsCount a b h k = ground arith

saturating_add-le : (a b : ℤ) → IsCount a → IsCount b → a ≤ℤ saturating_add a b
unfolding saturating_add
saturating_add-le a b h k = ground arith
