-- ===== src/Tests/Queueing.antt =====
-- The fair queue of crates/twl-server/src/fair_queue.rs and the meter of
-- crates/twl-backends/src/energy.rs.
use token_weasel.Prelude.{
  ℕ, ◌+◌, ◌≡◌, ◌⊎◌, refl, true, false, none, some, List, [], ◌∷◌, arith, if◌then◌else◌, length,
}
use token_weasel.Prelude.Int.{pos}
use token_weasel.Prelude.Assoc.{lookup, insert}
use token_weasel.FairQueue.{
  UserId-discrete, Waiter, Inner, Settings, new_queue, acquire, release, admit_one, prune, usage,
  push_grant, record_grant, retain_recent,
}
use token_weasel.FairQueue.Safety.{World, Reach, Inv, enters, start, next, Reach-Inv, release_safe}
use token_weasel.FairQueue.Order.{Round, admit_one-Round}
use token_weasel.FairQueue.Course.{Course, made, entered, freed}
use token_weasel.Energy.{Event, begins, ends, run, idle}
use token_weasel.Energy.Union.{total, busy_time, run-busy_time}

abbrev one_permit : Settings
one_permit = record { capacity = 1; window = 10; enabled = false }

abbrev one_fair : Settings
one_fair = record { capacity = 1; window = 10; enabled = true }

-- two requests at one permit: the first is admitted, the second waits
abbrev waiter_two : Waiter
waiter_two = record { user = some (pos 2); sequence = 0; listening = true }

abbrev two_in : World
two_in = record {
  inner = record { in_flight = 1; next_sequence = 1; grants = []; waiters = waiter_two ∷ [] };
  guards = 1;
}

two_in-Reach : Reach one_permit two_in
unfolding acquire
two_in-Reach = next (next start (enters 5 (some (pos 1)))) (enters 6 (some (pos 2)))

Reach-Inv_example : Inv one_permit two_in
Reach-Inv_example = Reach-Inv one_permit two_in-Reach

release_safe_example :
    (inner : Inner) × (served : List Waiter) × (release one_permit (λ n. 7) two_in.inner
      ≡ some (inner, served))
    × (inner.in_flight + 1 ≡ two_in.inner.in_flight + length served)
    × ((inner.waiters ≡ []) ⊎ (inner.in_flight ≡ one_permit.capacity))
release_safe_example = release_safe one_permit (λ n. 7) two_in-Reach (omega arith)

abbrev waiter_three : Waiter
waiter_three = record { user = none; sequence = 1; listening = true }

-- a user that was admitted at 5 waits with an anonymous request, and the permit is free again
abbrev waiting : Inner
waiting = record {
  in_flight = 0;
  next_sequence = 2;
  grants = (some (pos 2), 5 ∷ []) ∷ [];
  waiters = waiter_two ∷ waiter_three ∷ [];
}

waiting-Course : Course one_fair 7 waiting
unfolding new_queue acquire record_grant prune retain_recent push_grant lookup insert
    UserId-discrete
waiting-Course =
    freed
      (entered 7 none
        (entered 6 (some (pos 2)) (entered 5 (some (pos 2)) (made 1 true 10 refl) (omega arith))
          (omega arith))
        (omega arith))
      (omega arith)

-- the anonymous request has no admission in the window and goes first
admit_one_run : (admit_one one_fair 8 waiting waiter_two (waiter_three ∷ [])).0 ≡ waiter_three
unfolding admit_one usage prune lookup push_grant UserId-discrete
admit_one_run = refl

admit_one-Round_example :
    Round one_fair 8 waiting (admit_one one_fair 8 waiting waiter_two (waiter_three ∷ []))
admit_one-Round_example =
    admit_one-Round 8 waiter_two (waiter_three ∷ []) waiting-Course (omega arith) refl refl

-- two requests that overlap, and one later
abbrev overlapping : List Event
overlapping = begins 2 ∷ begins 3 ∷ ends 5 ∷ ends 9 ∷ begins 20 ∷ ends 21 ∷ []

run-overlapping : run true idle overlapping ≡ some (idle, 7 ∷ 1 ∷ [])
unfolding run
run-overlapping = refl

run-busy_time_example :
    (rs : List ℕ) × (run true idle overlapping ≡ some (idle, rs))
    × (if true then total rs ≡ busy_time 0 0 overlapping else rs ≡ [])
run-busy_time_example = run-busy_time true 0 overlapping (
  omega arith,
  (
    omega arith,
    (
      omega arith,
      omega arith,
      (omega arith, omega arith, (omega arith, (omega arith, omega arith, refl))),
    ),
  ),
)
