-- ===== src/Usage/Buckets.antt =====
-- `fill_288_buckets` of crates/twl-store/src/usage.rs.
use token_weasel.Prelude.{
  ℕ, zero, suc, ◌+◌, ◌≤◌, ◌<◌, ◌≡◌, refl, sym, ap, subst, ◌∙◌, true, List, [], ◌∷◌, some, ◌==◌,
  if◌then◌else◌, get_elem?, length, arith, Bool-cases, inl, inr,
}
use token_weasel.Usage.{TodayBucket, empty_bucket, fill_buckets, fill_288_buckets}

-- in the order of the query, from the bucket `i` on
abbrev Ascend : ℕ → List TodayBucket → Type 0
Ascend i [] = Unit {0}
Ascend i (b ∷ bs) = (i ≤ b.bucket) × Ascend (suc b.bucket) bs

-- the row of a bucket, or an empty one
abbrev pub bucket_at : ℕ → List TodayBucket → TodayBucket
bucket_at i [] = empty_bucket i
bucket_at i (b ∷ bs) = if b.bucket == i then b else bucket_at i bs

length-fill_buckets : (n i : ℕ) (sparse : List TodayBucket) → length (fill_buckets n i sparse) ≡ n
unfolding fill_buckets
length-fill_buckets zero i sparse = refl
length-fill_buckets (suc n) i [] = ground (arith, length-fill_buckets n (suc i) [])
length-fill_buckets (suc n) i (b ∷ bs) =
    ground (arith, length-fill_buckets n (suc i) bs, length-fill_buckets n (suc i) (b ∷ bs))

bucket_at-later :
    (i j : ℕ) (bs : List TodayBucket) → Ascend j bs → i < j → bucket_at i bs ≡ empty_bucket i
bucket_at-later i j [] h k = refl
bucket_at-later i j (b ∷ bs) h k = ground (arith, h.0, bucket_at-later i (suc b.bucket) bs h.1)

zero_left : (i : ℕ) → 0 + i ≡ i
zero_left i = omega arith

zero_right : (i : ℕ) → i ≡ i + 0
zero_right i = omega arith

first_bucket :
    (i : ℕ) (b : TodayBucket) (bs : List TodayBucket)
    → Ascend i (b ∷ bs)
    → (if b.bucket == i then b else empty_bucket i) ≡ bucket_at i (b ∷ bs)
first_bucket i b bs h = elim (Bool-cases (b.bucket == i)) [
  | inl here ↦ rw here refl
  | inr later ↦ rw later (sym (bucket_at-later i (suc b.bucket) bs h.1 (ground arith)))
]

suc_left : (i k : ℕ) → suc i + k ≡ i + suc k
suc_left i k = omega arith

from_next :
    (i : ℕ) (b : TodayBucket) (bs : List TodayBucket)
    → Ascend i (b ∷ bs)
    → (b.bucket == i) ≡ true
    → Ascend (suc i) bs
from_next i b bs h here = subst (λ j. Ascend (suc j) bs) (ground arith) h.1

skipped :
    (i k : ℕ) (b : TodayBucket) (bs : List TodayBucket)
    → (b.bucket == i) ≡ true
    → bucket_at (i + suc k) (b ∷ bs) ≡ bucket_at (i + suc k) bs
skipped i k b bs here = ground arith

first_filled :
    (n i : ℕ) (b : TodayBucket) (bs : List TodayBucket)
    → get_elem? (fill_buckets (suc n) i (b ∷ bs)) 0
      ≡ some (if b.bucket == i then b else empty_bucket i)
unfolding fill_buckets
first_filled n i b bs = elim (Bool-cases (b.bucket == i)) [
  | inl here ↦ rw here refl
  | inr later ↦ rw later refl
]

get_elem?-fill_buckets :
    (n i k : ℕ) (sparse : List TodayBucket)
    → Ascend i sparse
    → k < n
    → get_elem? (fill_buckets n i sparse) k ≡ some (bucket_at (i + k) sparse)
unfolding fill_buckets
get_elem?-fill_buckets zero i k sparse h l = ground arith
get_elem?-fill_buckets (suc n) i zero [] h l = ap (λ j. some (empty_bucket j)) (omega arith)
get_elem?-fill_buckets (suc n) i zero (b ∷ bs) h l =
    first_filled n i b bs
    ∙ ap some (first_bucket i b bs h)
    ∙ ap (λ j. some (bucket_at j (b ∷ bs))) (zero_right i)
get_elem?-fill_buckets (suc n) i (suc k) [] h l =
    get_elem?-fill_buckets n (suc i) k [] tt (omega arith)
    ∙ ap (λ j. some (empty_bucket j)) (omega arith)
get_elem?-fill_buckets (suc n) i (suc k) (b ∷ bs) h l = elim (Bool-cases (b.bucket == i)) [
  | inl here ↦ rw here (
      get_elem?-fill_buckets n (suc i) k bs (from_next i b bs h here) (omega arith)
      ∙ ap some (ap (λ j. bucket_at j bs) (suc_left i k) ∙ sym (skipped i k b bs here)))
  | inr later ↦ rw later (
      get_elem?-fill_buckets n (suc i) k (b ∷ bs) (ground arith, h.1) (omega arith)
      ∙ ap (λ j. some (bucket_at j (b ∷ bs))) (suc_left i k))
]

-- Of the rows of a query that are in order, one per bucket and none from bucket 288 on, the chart
-- has the row of each bucket in its place, and an empty one for each bucket without a row: none is
-- lost, doubled or moved.
pub get_elem?-fill_288_buckets :
    (sparse : List TodayBucket) (i : ℕ)
    → Ascend 0 sparse
    → i < 288
    → (length (fill_288_buckets sparse) ≡ 288)
      × (get_elem? (fill_288_buckets sparse) i ≡ some (bucket_at i sparse))
unfolding fill_288_buckets
get_elem?-fill_288_buckets sparse i h l = (
  length-fill_buckets 288 0 sparse,
  get_elem?-fill_buckets 288 0 i sparse h l ∙ ap (λ j. some (bucket_at j sparse)) (zero_left i),
)
