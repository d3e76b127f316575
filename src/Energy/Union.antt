-- ===== src/Energy/Union.antt =====
-- The recorded time is the time during which at least one request was active.
use token_weasel.Prelude.{
  ℕ, ◌+◌, ◌-◌, ◌≤◌, ◌<◌, ◌≡◌, refl, subst, ◌⊎◌, inl, inr, Bool, true, false, List, [], ◌∷◌, Option,
  none, some, ltb, ◌==◌, if◌then◌else◌, arith, Bool-cases,
}
use token_weasel.Energy.{State, idle, begin, drop_guard, Event, begins, ends, run, push_record}

abbrev pub total : List ℕ → ℕ
total [] = 0
total (r ∷ rs) = r + total rs

-- The busy time from `t` on, with `c` requests active: a stretch counts once, however many share it.
abbrev pub busy_time : ℕ → ℕ → List Event → ℕ
busy_time c t [] = 0
busy_time c t (begins s ∷ es) = (if ltb 0 c then s - t else 0) + busy_time (c + 1) s es
busy_time c t (ends s ∷ es) = (if ltb 0 c then s - t else 0) + busy_time (c - 1) s es

-- Time does not run backwards, only an active request ends, and in the end all have ended.
abbrev pub IsBalanced : ℕ → ℕ → List Event → Type 0
IsBalanced c t [] = c ≡ 0
IsBalanced c t (begins s ∷ es) = (t ≤ s) × IsBalanced (c + 1) s es
IsBalanced c t (ends s ∷ es) = (t ≤ s) × (0 < c) × IsBalanced (c - 1) s es

-- the meter with `c` active requests at time `t`, and the busy time not yet recorded
abbrev Meters : ℕ → ℕ → State → Type 0
Meters c t st =
    (st.active_count ≡ c)
    × ((c ≡ 0) × (st.busy_since ≡ none) ⊎ (0 < c) × ((b : ℕ) × (st.busy_since ≡ some b) × (b ≤ t)))

abbrev pending : ℕ → Option ℕ → ℕ
pending t none = 0
pending t (some b) = t - b

abbrev Records : Bool → ℕ → Option (State × List ℕ) → Type 0
Records positive n none = ⊥
Records positive n (some (st, rs)) = (st ≡ idle) × (if positive then total rs ≡ n else rs ≡ [])

abbrev value : Option ℕ → ℕ
value none = 0
value (some r) = r

begin-Meters :
    (c t s : ℕ) (st : State)
    → Meters c t st
    → t ≤ s
    → Meters (c + 1) s (begin s st)
      × (pending s (begin s st).busy_since
          ≡ pending t st.busy_since + (if ltb 0 c then s - t else 0))
unfolding begin
begin-Meters c t s st (e, inl (z, n)) h = (ground arith, ground arith)
begin-Meters c t s st (e, inr (p, (b, n, k))) h =
    ((ground arith, inr (omega arith, (b, ground arith, omega arith))), ground arith)

-- what the drop of a guard owes to a busy meter
abbrev Drops : Bool → ℕ → ℕ → ℕ → State → State × Option ℕ → Type 0
Drops positive c t s st (st', rec) =
    Meters (c - 1) s st'
    × (if positive
        then value rec + pending s st'.busy_since ≡ pending t st.busy_since + (s - t)
        else rec ≡ none)

drop_guard-Drops :
    (positive : Bool) (c t s : ℕ) (st : State)
    → Meters c t st
    → 0 < c
    → t ≤ s
    → (r : State × Option ℕ) × (drop_guard positive s st ≡ some r) × Drops positive c t s st r
unfolding drop_guard
drop_guard-Drops positive c t s st (e, inl (z, n)) p h = absurd (omega arith)
drop_guard-Drops true c t s st (e, inr (p, (b, n, k))) q h = elim (Bool-cases (c == 1)) [
  | inl one ↦ ((idle, some (s - b)), ground arith, (ground arith, ground arith))
  | inr more ↦ (
    (record st { active_count = st.active_count - 1 }, none),
    ground arith,
    ((ground arith, inr (ground arith, (b, n, omega arith))), ground arith),
  )
]
drop_guard-Drops false c t s st (e, inr (p, (b, n, k))) q h = elim (Bool-cases (c == 1)) [
  | inl one ↦ ((idle, none), ground arith, (ground arith, refl))
  | inr more ↦ (
    (record st { active_count = st.active_count - 1 }, none),
    ground arith,
    ((ground arith, inr (ground arith, (b, n, omega arith))), refl),
  )
]

abbrev with_record : Option ℕ → Option (State × List ℕ) → Option (State × List ℕ)
with_record rec r = elim r [ none ↦ none | some (last, rs) ↦ some (last, push_record rec rs) ]

Records-push :
    (positive : Bool) (rec : Option ℕ) (n m : ℕ) (r : Option (State × List ℕ))
    → (if positive then value rec + n ≡ m else rec ≡ none)
    → Records positive n r
    → Records positive m (with_record rec r)
Records-push positive rec n m none h k = k
Records-push true none n m (some (st, rs)) h k = (k.0, omega arith)
Records-push true (some x) n m (some (st, rs)) h k = (k.0, omega arith)
Records-push false none n m (some (st, rs)) h k = k
Records-push false (some x) n m (some (st, rs)) h k = cc

run-Records :
    (positive : Bool) (es : List Event) (c t : ℕ) (st : State)
    → Meters c t st
    → IsBalanced c t es
    → Records positive (pending t st.busy_since + busy_time c t es) (run positive st es)
unfolding run
run-Records true [] c t st m b = ground arith
run-Records false [] c t st m b = ground arith
run-Records positive (begins s ∷ es) c t st m b =
    let (m', e) = begin-Meters c t s st m b.0 in
    subst (λ n. Records positive n (run positive (begin s st) es)) (omega arith)
      (run-Records positive es (c + 1) s (begin s st) m' b.1)
run-Records positive (ends s ∷ es) c t st m b =
    let (r, e, (m', v)) = drop_guard-Drops positive c t s st m b.1 b.0 in
    rw (e, run)
      (Records-push positive r.1 (pending s r.0.busy_since + busy_time (c - 1) s es) _
        (run positive r.0 es) (ground arith) (run-Records positive es (c - 1) s r.0 m' b.2))

from_Records :
    (positive : Bool) (n : ℕ) (r : Option (State × List ℕ))
    → Records positive (0 + n) r
    → (rs : List ℕ) × (r ≡ some (idle, rs)) × (if positive then total rs ≡ n else rs ≡ [])
from_Records positive n none h = absurd h
from_Records true n (some (st, rs)) h = (rs, cc (h.0), omega (arith, h.1))
from_Records false n (some (st, rs)) h = (rs, cc (h.0), h.1)

-- Of a meter that starts idle, and of requests that begin and end in any overlapping fashion until
-- all have ended: the count never underflows, the meter is idle again, and the recorded times add
-- up to the time during which at least one request was active. A meter of no watts records nothing.
pub run-busy_time :
    (positive : Bool) (t : ℕ) (es : List Event)
    → IsBalanced 0 t es
    → (rs : List ℕ) × (run positive idle es ≡ some (idle, rs))
      × (if positive then total rs ≡ busy_time 0 t es else rs ≡ [])
run-busy_time positive t es b =
    from_Records positive (busy_time 0 t es) (run positive idle es)
      (run-Records positive es 0 t idle (refl, inl (refl, refl)) b)
