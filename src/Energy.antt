-- ===== src/Energy.antt =====
-- crates/twl-backends/src/energy.rs. Instants are numbers of a monotonic clock; `positive` is
-- `watts > 0.0`; what reaches the sink is the elapsed time of each record.
pub mod Union
use token_weasel.Prelude.{
  ℕ, ◌+◌, ◌-◌, Bool, true, false, List, [], ◌∷◌, Option, none, some, ltb, ◌==◌, if◌then◌else◌,
}

pub record State : Type 0 where
  pub active_count : ℕ
  pub busy_since : Option ℕ

abbrev pub idle : State
idle = record { active_count = 0; busy_since = none }

unfoldable pub begin : ℕ → State → State
begin now st = record {
  active_count = st.active_count + 1;
  busy_since = if st.active_count == 0 then some now else st.busy_since;
}

-- `busy_since.take().and_then(…)`
unfoldable pub completed : Bool → ℕ → Option ℕ → Option ℕ
completed positive now none = none
completed positive now (some since) = if positive then some (now - since) else none

-- The drop of a `MeterGuard`; `none` is the underflow of the count.
unfoldable pub drop_guard : Bool → ℕ → State → Option (State × Option ℕ)
unfolding completed
drop_guard positive now st =
    if ltb 0 st.active_count
    then (if st.active_count == 1
        then some
            (record { active_count = 0; busy_since = none }, completed positive now st.busy_since)
        else some (record st { active_count = st.active_count - 1 }, none))
    else none

-- What concurrent requests do to the meter, each at its time.
pub data Event : Type 0 where
  begins ends : ℕ → Event

abbrev push_record : Option ℕ → List ℕ → List ℕ
push_record none rs = rs
push_record (some r) rs = r ∷ rs

-- the records of a sequence of events, and the state behind it
unfoldable pub run : Bool → State → List Event → Option (State × List ℕ)
unfolding begin drop_guard
run positive st [] = some (st, [])
run positive st (begins t ∷ es) = run positive (begin t st) es
run positive st (ends t ∷ es) = elim (drop_guard positive t st) [
  | none ↦ none
  | some (st', rec) ↦ elim (run positive st' es) [
    | none ↦ none
    | some (last, rs) ↦ some (last, push_record rec rs)
  ]
]
