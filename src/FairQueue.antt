-- ===== src/FairQueue.antt =====
-- crates/twl-server/src/fair_queue.rs. Instants are numbers; `clock` gives the readings of
-- `Instant::now()` inside a loop, one for each round. A waiter's `ready` sender is seen through
-- what its `send` depends on: whether the receiver is still there.
pub mod Safety
pub mod Order
pub mod Window
pub mod History
pub mod Course
use token_weasel.Prelude.{
  ℕ, zero, suc, ◌+◌, ◌-◌, ◌%◌, ◌^◌, Bool, true, false, not, ◌&&◌, ◌||◌, List, [], ◌∷◌, ◌++◌, Option,
  none, some, length, ltb, leb, ◌==◌, if◌then◌else◌, ℕ_discrete, unwrap_or,
}
use token_weasel.Prelude.Int.{ℤ, ℤ-discrete}
use token_weasel.Prelude.Assoc.{lookup, insert}

-- `None` is all anonymous traffic.
abbrev pub UserId : Type 0
UserId = Option ℤ

unfoldable pub UserId-discrete : Discrete UserId
unfolding ℤ-discrete
UserId-discrete = hlevel ℤ-discrete

abbrev pub Grants : Type 0
Grants = List (UserId × List ℕ)

pub record Waiter : Type 0 where
  pub user : UserId
  pub sequence : ℕ
  pub listening : Bool

pub record Inner : Type 0 where
  pub in_flight : ℕ
  pub next_sequence : ℕ
  pub grants : Grants
  pub waiters : List Waiter

-- the fields of `FairQueue` that never change
pub record Settings : Type 0 where
  pub capacity : ℕ
  pub window : ℕ
  pub enabled : Bool

abbrev pub fresh : Inner
fresh = record { in_flight = 0; next_sequence = 0; grants = []; waiters = [] }

-- `FairQueue::new`; `none` is the failed assertion.
unfoldable pub new_queue : ℕ → Bool → ℕ → Option (Settings × Inner)
new_queue capacity enabled window =
    if ltb 0 capacity
    then some (record { capacity = capacity; window = window; enabled = enabled }, fresh)
    else none

-- `while grants.front() <= cutoff { pop_front }`
unfoldable pub drop_expired : ℕ → List ℕ → List ℕ
drop_expired cutoff [] = []
drop_expired cutoff (t ∷ ts) = if leb t cutoff then drop_expired cutoff ts else t ∷ ts

abbrev pub is_nil : List ℕ → Bool
is_nil [] = true
is_nil (t ∷ ts) = false

-- the `retain`: a user with no grant left is forgotten
unfoldable pub retain_recent : ℕ → Grants → Grants
unfolding drop_expired
retain_recent cutoff [] = []
retain_recent cutoff ((u, ts) ∷ gs) =
    let recent = drop_expired cutoff ts in
    if is_nil recent then retain_recent cutoff gs else (u, recent) ∷ retain_recent cutoff gs

-- With no representable cutoff nothing is pruned.
unfoldable pub prune : Grants → ℕ → ℕ → Grants
unfolding retain_recent
prune grants now window = if leb window now then retain_recent (now - window) grants else grants

-- `grants.entry(user).or_default().push_back(now)`
unfoldable pub push_grant : Grants → UserId → ℕ → Grants
push_grant grants user now =
    insert UserId-discrete user (unwrap_or (lookup UserId-discrete user grants) [] ++ now ∷ [])
      grants

unfoldable pub record_grant : Grants → UserId → ℕ → ℕ → Grants
record_grant grants user now window = push_grant (prune grants now window) user now

pub data Outcome : Type 0 where
  admitted : Outcome
  queued : ℕ → Outcome

abbrev pub no_waiters : List Waiter → Bool
no_waiters [] = true
no_waiters (w ∷ ws) = false

-- The part of `acquire` that runs under the lock: a guard, or a place in the queue.
unfoldable pub acquire : Settings → ℕ → UserId → Inner → Inner × Outcome
acquire q now user inner =
    if ltb inner.in_flight q.capacity && no_waiters inner.waiters
    then (
      record inner {
        in_flight = inner.in_flight + 1;
        grants = if q.enabled then record_grant inner.grants user now q.window else inner.grants;
      },
      admitted,
    )
    else (
      record inner {
        next_sequence = (inner.next_sequence + 1) % 2 ^ 64;
        waiters =
            inner.waiters
            ++ (record { user = user; sequence = inner.next_sequence; listening = true }) ∷ [];
      },
      queued inner.next_sequence,
    )

-- a user's admissions in the window
unfoldable pub usage : Grants → UserId → ℕ
usage grants user = length (unwrap_or (lookup UserId-discrete user grants) [])

-- `(usage, sequence)` in lexicographic order
unfoldable pub before : Grants → Waiter → Waiter → Bool
unfolding usage
before grants v w =
    ltb (usage grants v.user) (usage grants w.user)
    || (usage grants v.user == usage grants w.user && leb v.sequence w.sequence)

-- `min_by_key` and `remove`: the first least waiter, and the others in their order
unfoldable pub select : Grants → Waiter → List Waiter → Waiter × List Waiter
unfolding before
select grants w [] = (w, [])
select grants w (v ∷ vs) =
    let (best, others) = select grants v vs in
    if before grants w best then (w, v ∷ vs) else (best, w ∷ others)

-- `waiter.ready.send(guard)` and what follows: a permit for a waiter that still listens
unfoldable pub serve : Bool → ℕ → Inner → Grants → Waiter × List Waiter → Waiter × Inner
serve enabled now inner grants (chosen, others) =
    if chosen.listening
    then (
      chosen,
      record inner {
        in_flight = inner.in_flight + 1;
        grants = if enabled then push_grant grants chosen.user now else grants;
        waiters = others;
      },
    )
    else (chosen, record inner { grants = grants; waiters = others })

-- one round of `admit_waiters` at a non-empty queue: the waiter that was chosen, and the queue
unfoldable pub admit_one : Settings → ℕ → Inner → Waiter → List Waiter → Waiter × Inner
unfolding select serve
admit_one q now inner w ws =
    if q.enabled
    then serve true now inner (prune inner.grants now q.window)
        (select (prune inner.grants now q.window) w ws)
    else serve false now inner inner.grants (w, ws)

abbrev pub delivered : Waiter → List Waiter
delivered w = if w.listening then w ∷ [] else []

-- The loop, with fuel: the queue at its end, and the waiters that got a guard, in order.
unfoldable pub admit_waiters : ℕ → Settings → (ℕ → ℕ) → Inner → Inner × List Waiter
unfolding admit_one
admit_waiters zero q clock inner = (inner, [])
admit_waiters (suc fuel) q clock inner = elim (ltb inner.in_flight q.capacity) [
  | false ↦ (inner, [])
  | true ↦ elim inner.waiters [
    | [] ↦ (inner, [])
    | w ∷ ws ↦
        let (chosen, inner') = admit_one q (clock fuel) inner w ws in
        let (last, later) = admit_waiters fuel q clock inner' in (last, delivered chosen ++ later)
  ]
]

-- `release`; `none` is the failed assertion. Each round takes a waiter, so their number is enough
-- fuel.
unfoldable pub release : Settings → (ℕ → ℕ) → Inner → Option (Inner × List Waiter)
unfolding admit_waiters
release q clock inner =
    if ltb 0 inner.in_flight
    then some (
        admit_waiters (suc (length inner.waiters)) q clock
          (record inner { in_flight = inner.in_flight - 1 }))
    else none

-- The receiver of a queued `acquire` is dropped: its waiter's `send` will fail.
unfoldable pub hang_up : ℕ → List Waiter → List Waiter
hang_up s [] = []
hang_up s (w ∷ ws) =
    if w.sequence == s then record w { listening = false } ∷ hang_up s ws else w ∷ hang_up s ws

-- the drop of an armed `WaiterRegistration`: `position` and `remove`
unfoldable pub deregister : ℕ → List Waiter → List Waiter
deregister s [] = []
deregister s (w ∷ ws) = if w.sequence == s then ws else w ∷ deregister s ws
