-- ===== src/FairQueue/Course.antt =====
-- The courses that a queue of crates/twl-server/src/fair_queue.rs can take while its clock does not
-- run backwards, in every order of its operations; and that its history stays well formed.
use mathlib.Core.Option.{some-injective, none-ne-some}
use token_weasel.Prelude.{
  Bool, ◌&&◌, ℕ, zero, suc, ◌-◌, ◌≤◌, ◌<◌, ◌≡◌, refl, sym, ap, subst, inl, inr, true, false, List,
  [], ◌∷◌, some, ltb, arith, Bool-cases,
}
use token_weasel.FairQueue.{
  UserId, Grants, Waiter, Inner, Settings, new_queue, no_waiters, acquire, admit_one, admit_waiters,
  serve, select, prune, record_grant, hang_up, deregister,
}
use token_weasel.FairQueue.History.{Recorded, Recorded-later, prune-Recorded, push_grant-Recorded}

-- What a queue has gone through since it was made, with the last reading of its clock. A call of
-- `release` is several of these steps: it frees a permit, and admits in rounds.
pub data Course : Settings → ℕ → Inner → Type 0 where
  made :
      {q : Settings} {inner : Inner} (capacity : ℕ) (enabled : Bool) (window : ℕ)
      → new_queue capacity enabled window ≡ some (q, inner)
      → Course q 0 inner
  entered :
      {q : Settings} {before : ℕ} {inner : Inner} (now : ℕ) (user : UserId)
      → Course q before inner
      → before ≤ now
      → Course q now (acquire q now user inner).0
  freed :
      {q : Settings} {before : ℕ} {inner : Inner}
      → Course q before inner
      → 0 < inner.in_flight
      → Course q before (record inner { in_flight = inner.in_flight - 1 })
  admitted :
      {q : Settings} {before : ℕ} {inner : Inner} (now : ℕ) (w : Waiter) (ws : List Waiter)
      → Course q before inner
      → before ≤ now
      → inner.waiters ≡ w ∷ ws
      → Course q now (admit_one q now inner w ws).1
  hung_up :
      {q : Settings} {before : ℕ} {inner : Inner} (s : ℕ)
      → Course q before inner
      → Course q before (record inner { waiters = hang_up s inner.waiters })
  deregistered :
      {q : Settings} {before : ℕ} {inner : Inner} (s : ℕ)
      → Course q before inner
      → Course q before (record inner { waiters = deregister s inner.waiters })

acquire-Recorded :
    (q : Settings) (now : ℕ) (user : UserId) (inner : Inner)
    → Recorded now inner.grants
    → Recorded now (acquire q now user inner).0.grants
unfolding acquire record_grant
acquire-Recorded q now user inner r =
    elim (Bool-cases (ltb inner.in_flight q.capacity && no_waiters inner.waiters)) [
      | inr full ↦ rw (full, acquire) r
      | inl room ↦ elim (Bool-cases q.enabled) [
        | inr off ↦ rw (room, off, acquire) r
        | inl on ↦
            rw (room, on, acquire)
              (push_grant-Recorded (prune inner.grants now q.window) user now
                (prune-Recorded inner.grants now q.window r))
      ]
    ]

serve-Recorded :
    (enabled : Bool) (now : ℕ) (inner : Inner) (g : Grants) (w : Waiter) (ws : List Waiter)
    → Recorded now g
    → Recorded now (serve enabled now inner g (w, ws)).1.grants
unfolding serve
serve-Recorded enabled now inner g w ws r = elim (Bool-cases w.listening) [
  | inr gone ↦ rw (gone, serve) r
  | inl there ↦ elim (Bool-cases enabled) [
    | inr off ↦ rw (there, off, serve) r
    | inl on ↦ rw (there, on, serve) (push_grant-Recorded g w.user now r)
  ]
]

pub admit_one-Recorded :
    (q : Settings) (now : ℕ) (inner : Inner) (w : Waiter) (ws : List Waiter)
    → Recorded now inner.grants
    → Recorded now (admit_one q now inner w ws).1.grants
unfolding admit_one
admit_one-Recorded q now inner w ws r =
    let g = prune inner.grants now q.window in
    elim (Bool-cases q.enabled) [
      | inr off ↦ rw (off, admit_one) (serve-Recorded false now inner inner.grants w ws r)
      | inl on ↦
          rw (on, admit_one)
            (serve-Recorded true now inner g (select g w ws).0 (select g w ws).1
              (prune-Recorded inner.grants now q.window r))
    ]

new_queue-grants :
    (capacity : ℕ) (enabled : Bool) (window : ℕ) (q : Settings) (inner : Inner)
    → new_queue capacity enabled window ≡ some (q, inner)
    → inner.grants ≡ []
unfolding new_queue
new_queue-grants capacity enabled window q inner h = elim (Bool-cases (ltb 0 capacity)) [
  | inl ok ↦ ap (λ p. p.1.grants) (sym (some-injective _ _ (rw (ok, new_queue) at h)))
  | inr bad ↦ absurd (none-ne-some _ (rw (bad, new_queue) at h))
]

pub Course-Recorded :
    {q : Settings} {last : ℕ} {inner : Inner} → Course q last inner → Recorded last inner.grants
Course-Recorded (made {q} {inner} capacity enabled window h) =
    subst (Recorded 0) (sym (new_queue-grants capacity enabled window q inner h)) (tt, tt)
Course-Recorded (entered {q} {before} {inner} now user c later) =
    acquire-Recorded q now user inner
      (Recorded-later before now inner.grants later (Course-Recorded c))
Course-Recorded (freed c some_in) = Course-Recorded c
Course-Recorded (admitted {q} {before} {inner} now w ws c later e) =
    admit_one-Recorded q now inner w ws
      (Recorded-later before now inner.grants later (Course-Recorded c))
Course-Recorded (hung_up s c) = Course-Recorded c
Course-Recorded (deregistered s c) = Course-Recorded c

-- the readings of a loop, of which those of a smaller fuel come later
abbrev IsForward : (ℕ → ℕ) → Type 0
IsForward clock = (i j : ℕ) → i ≤ j → clock j ≤ clock i

-- The loop of `admit_waiters` is such a course, whatever the fuel.
admit_waiters-Course :
    (fuel : ℕ) (q : Settings) (clock : ℕ → ℕ) (last : ℕ) (inner : Inner) (ws : List Waiter)
    → IsForward clock
    → Course q last inner
    → inner.waiters ≡ ws
    → ((i : ℕ) → i < fuel → last ≤ clock i)
    → (last' : ℕ) × Course q last' (admit_waiters fuel q clock inner).0
unfolding admit_waiters
admit_waiters-Course zero q clock last inner ws forward c e h = (last, c)
admit_waiters-Course (suc fuel) q clock last inner [] forward c e h =
    elim (Bool-cases (ltb inner.in_flight q.capacity)) [
      | inr full ↦ rw (full, admit_waiters) (last, c)
      | inl room ↦ rw (room, e, admit_waiters) (last, c)
    ]
admit_waiters-Course (suc fuel) q clock last inner (w ∷ ws) forward c e h =
    let inner' = (admit_one q (clock fuel) inner w ws).1 in
    elim (Bool-cases (ltb inner.in_flight q.capacity)) [
      | inr full ↦ rw (full, admit_waiters) (last, c)
      | inl room ↦
          rw (room, e, admit_waiters)
            (admit_waiters-Course fuel q clock (clock fuel) inner' inner'.waiters forward
              (admitted (clock fuel) w ws c (h fuel (omega arith)) e) refl
              (λ i below. forward i fuel (omega arith)))
    ]
