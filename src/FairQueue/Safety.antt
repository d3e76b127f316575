-- ===== src/FairQueue/Safety.antt =====
-- Permits are neither lost nor made up, and nobody waits while a permit is free.
use mathlib.Core.Option.{some-injective}
use token_weasel.Prelude.{
  ℕ, zero, suc, ◌+◌, ◌-◌, ◌≤◌, ◌<◌, ◌≡◌, refl, sym, ◌∙◌, ◌⊎◌, inl, inr, List, [], ◌∷◌, ◌++◌, some,
  length, length-append, ltb, lt→ltb, Bool-cases, arith,
}
use token_weasel.FairQueue.{
  UserId, Waiter, Inner, Settings, fresh, acquire, Outcome, admitted, queued, select, admit_one,
  delivered, admit_waiters, release, hang_up, deregister, Grants, prune,
}

-- The queue, and the number of guards that exist: held by a request, or on the way to one.
pub record World : Type 0 where
  pub inner : Inner
  pub guards : ℕ

abbrev after_acquire : World → Inner × Outcome → World
after_acquire w (inner, admitted) = record { inner = inner; guards = w.guards + 1 }
after_acquire w (inner, queued s) = record w { inner = inner }

-- What requests do to the queue, in any order. A guard is dropped when its response ends, or with
-- the receiver that it was sent to; a queued request that is cancelled hangs up, then deregisters.
pub data Step (q : Settings) (w : World) : World → Type 0 where
  enters : (now : ℕ) (user : UserId) → Step q w (after_acquire w (acquire q now user w.inner))
  leaves :
      (clock : ℕ → ℕ) {inner : Inner} {served : List Waiter}
      → 0 < w.guards
      → release q clock w.inner ≡ some (inner, served)
      → Step q w (record { inner = inner; guards = w.guards - 1 + length served })
  hangs_up :
      (s : ℕ)
      → Step q w (record w { inner = record w.inner { waiters = hang_up s w.inner.waiters } })
  deregisters :
      (s : ℕ)
      → Step q w (record w { inner = record w.inner { waiters = deregister s w.inner.waiters } })

pub data Reach (q : Settings) : World → Type 0 where
  start : Reach q (record { inner = fresh; guards = 0 })
  next : {w v : World} → Reach q w → Step q w v → Reach q v

pub record Inv (q : Settings) (w : World) : Type 0 where
  pub counted : w.inner.in_flight ≡ w.guards
  pub bounded : w.inner.in_flight ≤ q.capacity
  pub busy : (w.inner.waiters ≡ []) ⊎ (w.inner.in_flight ≡ q.capacity)

length-select : (g : Grants) (w : Waiter) (ws : List Waiter) → length (select g w ws).1 ≡ length ws
unfolding select
length-select g w [] = refl
length-select g w (v ∷ vs) = ground (arith, length-select g v vs)

-- A round takes one waiter out, and a permit exactly for a waiter that listens.
admit_one_counts :
    (q : Settings) (now : ℕ) (inner : Inner) (w : Waiter) (ws : List Waiter)
    → let (chosen, inner') = admit_one q now inner w ws in
      (length inner'.waiters ≡ length ws)
      × (inner'.in_flight ≡ inner.in_flight + length (delivered chosen))
      × (length (delivered chosen) ≤ 1)
unfolding admit_one
admit_one_counts q now inner w ws =
    ground (arith, length-select (prune inner.grants now q.window) w ws)

-- What the loop makes of a queue: `served` got the permits that it took.
abbrev Admits : Settings → Inner → Inner × List Waiter → Type 0
Admits q inner (last, served) =
    (last.in_flight ≡ inner.in_flight + length served)
    × (last.in_flight ≤ q.capacity)
    × ((last.waiters ≡ []) ⊎ (last.in_flight ≡ q.capacity))

admit_waiters_round :
    (q : Settings) (inner inner' : Inner) (chosen : Waiter) (r : Inner × List Waiter)
    → inner'.in_flight ≡ inner.in_flight + length (delivered chosen)
    → Admits q inner' r
    → Admits q inner (r.0, delivered chosen ++ r.1)
admit_waiters_round q inner inner' chosen (last, served) e (a, b, c) =
    (omega (arith, length-append {0} (delivered chosen) served), b, c)

-- With a round for each waiter and one to spare, the loop ends because the permits are used up or
-- the queue is empty.
admit_waiters-Admits :
    (fuel : ℕ) (q : Settings) (clock : ℕ → ℕ) (inner : Inner) (ws : List Waiter)
    → inner.waiters ≡ ws
    → length ws < fuel
    → inner.in_flight ≤ q.capacity
    → Admits q inner (admit_waiters fuel q clock inner)
unfolding admit_waiters
admit_waiters-Admits zero q clock inner ws e h k = elim h [ ]
admit_waiters-Admits (suc fuel) q clock inner [] e h k = ground arith
admit_waiters-Admits (suc fuel) q clock inner (w ∷ ws) e h k =
    elim (Bool-cases (ltb inner.in_flight q.capacity)) [
      | inr full ↦ rw (full, admit_waiters) (ground arith)
      | inl free ↦
          let (chosen, inner') = admit_one q (clock fuel) inner w ws in
          let (shorter, more, one) = admit_one_counts q (clock fuel) inner w ws in
          rw (free, e, admit_waiters)
            (admit_waiters_round q inner inner' chosen (admit_waiters fuel q clock inner') more (
              admit_waiters-Admits fuel q clock inner' inner'.waiters refl (omega arith)
                (ground arith)))
    ]

release-Admits :
    (q : Settings) (clock : ℕ → ℕ) (inner : Inner)
    → 0 < inner.in_flight
    → inner.in_flight ≤ q.capacity
    → (r : Inner × List Waiter) × (release q clock inner ≡ some r)
      × Admits q (record inner { in_flight = inner.in_flight - 1 }) r
unfolding release
release-Admits q clock inner h k = (
  admit_waiters (suc (length inner.waiters)) q clock
      (record inner { in_flight = inner.in_flight - 1 }),
  rw (lt→ltb 0 inner.in_flight h),
  admit_waiters-Admits (suc (length inner.waiters)) q clock
      (record inner { in_flight = inner.in_flight - 1 }) inner.waiters refl (omega arith)
      (omega arith),
)

enters-Inv :
    (q : Settings) (w : World) (now : ℕ) (user : UserId)
    → Inv q w
    → Inv q (after_acquire w (acquire q now user w.inner))
unfolding acquire
enters-Inv q w now user v = ground arith

nil-hang_up : (s : ℕ) (ws : List Waiter) → ws ≡ [] → hang_up s ws ≡ []
unfolding hang_up
nil-hang_up s ws e = rw e

nil-deregister : (s : ℕ) (ws : List Waiter) → ws ≡ [] → deregister s ws ≡ []
unfolding deregister
nil-deregister s ws e = rw e

leaves-Inv :
    (q : Settings) (w : World) (clock : ℕ → ℕ) (inner : Inner) (served : List Waiter)
    → 0 < w.guards
    → release q clock w.inner ≡ some (inner, served)
    → Inv q w
    → Inv q (record { inner = inner; guards = w.guards - 1 + length served })
leaves-Inv q w clock inner served g e v =
    let (r, e', adm) = release-Admits q clock w.inner (omega arith) v.bounded in
    let same : r ≡ (inner, served) = some-injective r (inner, served) (sym e' ∙ e) in
    let (sum, bound, ends) = rw same at adm in
    record { counted = omega arith; bounded = bound; busy = ends }

Step-Inv : (q : Settings) {w v : World} → Step q w v → Inv q w → Inv q v
Step-Inv q {w} (enters now user) v = enters-Inv q w now user v
Step-Inv q {w} (leaves clock {inner} {served} g e) v = leaves-Inv q w clock inner served g e v
Step-Inv q {w} (hangs_up s) v = ground (arith, nil-hang_up s w.inner.waiters)
Step-Inv q {w} (deregisters s) v = ground (arith, nil-deregister s w.inner.waiters)

-- In every state that requests can bring about, in whatever order they enter, leave and are
-- cancelled: the permits in use are the guards that exist, they are at most the capacity, and a
-- request waits only while all permits are in use.
pub Reach-Inv : (q : Settings) {w : World} → Reach q w → Inv q w
Reach-Inv q start = record { counted = refl; bounded = omega arith; busy = inl refl }
Reach-Inv q (next r st) = Step-Inv q st (Reach-Inv q r)

-- In every such state in which a guard exists, its drop does not hit the failed assertion of
-- `release`, and the loop that follows ends: with all permits in use, or with an empty queue.
pub release_safe :
    (q : Settings) (clock : ℕ → ℕ) {w : World}
    → Reach q w
    → 0 < w.guards
    → (inner : Inner) × (served : List Waiter) × (release q clock w.inner ≡ some (inner, served))
      × (inner.in_flight + 1 ≡ w.inner.in_flight + length served)
      × ((inner.waiters ≡ []) ⊎ (inner.in_flight ≡ q.capacity))
release_safe q clock {w} r g =
    let v = Reach-Inv q r in
    let (s, e, adm) = release-Admits q clock w.inner (omega (arith, v.counted)) v.bounded in
    (s.0, s.1, e, omega (arith, adm.0, v.counted), adm.2)
