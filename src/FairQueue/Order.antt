-- ===== src/FairQueue/Order.antt =====
-- Who is served next: the least used user when fairness is on, the first in line when it is off.
use mathlib.Core.List.{Perm}
use mathlib.Core.List.Perm
use token_weasel.Prelude.{
  ℕ, zero, suc, ◌+◌, ◌≤◌, ◌<◌, ◌≡◌, refl, sym, ap, ◌∙◌, subst, length, ite, append-nil, ◌⊎◌, inl,
  inr, Bool, true, false, List, [], ◌∷◌, ◌++◌, All, if◌then◌else◌, Bool-cases, arith,
}
use token_weasel.FairQueue.{
  UserId, UserId-discrete, Grants, Waiter, Inner, Settings, usage, before, select, prune,
  push_grant, serve, admit_one, admit_waiters,
}
use token_weasel.FairQueue.Window.{in_window, history_of, history_of-prune, history_of-push_grant}
use token_weasel.FairQueue.History.{Recorded, Recorded-later}
use token_weasel.FairQueue.Course.{Course, Course-Recorded}

-- `w` goes no later than `v`: a smaller rank of its user, or the same and an earlier arrival.
abbrev pub NoLater : (UserId → ℕ) → Waiter → Waiter → Type 0
NoLater rank w v =
    (rank w.user < rank v.user) ⊎ (rank w.user ≡ rank v.user) × (w.sequence ≤ v.sequence)

before-NoLater : (g : Grants) (w v : Waiter) → before g w v ≡ true → NoLater (usage g) w v
unfolding before
before-NoLater g w v h = ground arith

not-before-NoLater : (g : Grants) (w v : Waiter) → before g w v ≡ false → NoLater (usage g) v w
unfolding before
not-before-NoLater g w v h = ground arith

NoLater-trans :
    (rank : UserId → ℕ) (u v w : Waiter) → NoLater rank u v → NoLater rank v w → NoLater rank u w
NoLater-trans rank u v w p q = omega arith

NoLater-refl : (rank : UserId → ℕ) (w : Waiter) → NoLater rank w w
NoLater-refl rank w = omega arith

All-NoLater :
    (rank : UserId → ℕ) (u v : Waiter) (ws : List Waiter)
    → NoLater rank u v
    → All (NoLater rank v) ws
    → All (NoLater rank u) ws
All-NoLater rank u v [] h a = tt
All-NoLater rank u v (w ∷ ws) h a = (NoLater-trans rank u v w h a.0, All-NoLater rank u v ws h a.1)

-- what the choice owes to the queue
abbrev pub Least : Grants → List Waiter → Waiter × List Waiter → Type 0
Least g ws (best, others) = Perm ws (best ∷ others) × All (NoLater (usage g) best) ws

select_step :
    (g : Grants) (w : Waiter) (vs : List Waiter) (best : Waiter) (others : List Waiter) (b : Bool)
    → before g w best ≡ b
    → Least g vs (best, others)
    → Least g (w ∷ vs) (if b then (w, vs) else (best, w ∷ others))
select_step g w vs best others true e (p, a) = (
  Perm.refl (w ∷ vs),
  (NoLater-refl (usage g) w, All-NoLater (usage g) w best vs (before-NoLater g w best e) a),
)
select_step g w vs best others false e (p, a) =
    (Perm.trans (Perm.cons w p) (Perm.swap best w others), (not-before-NoLater g w best e, a))

select-Least : (g : Grants) (w : Waiter) (ws : List Waiter) → Least g (w ∷ ws) (select g w ws)
unfolding select
select-Least g w [] = (Perm.refl (w ∷ []), (NoLater-refl (usage g) w, tt))
select-Least g w (v ∷ vs) =
    let (best, others) = select g v vs in
    select_step g w (v ∷ vs) best others (before g w best) refl (select-Least g v vs)

-- a user's admissions that are less than a window old, in the history before the round
abbrev pub admissions : Settings → ℕ → Inner → UserId → List ℕ
admissions q now inner u = in_window now q.window (history_of inner.grants u)

-- what a round owes to the queue
abbrev pub Round : Settings → ℕ → Inner → Waiter × Inner → Type 0
Round q now inner (chosen, inner') =
    Perm inner.waiters (chosen ∷ inner'.waiters)
    × All (NoLater (λ u. length (admissions q now inner u)) chosen) inner.waiters
    × (inner'.in_flight ≡ (if chosen.listening then inner.in_flight + 1 else inner.in_flight))
    × ((u : UserId)
        → history_of inner'.grants u
          ≡ admissions q now inner u
            ++ (if chosen.listening then ite (UserId-discrete chosen.user u) (now ∷ []) [] else []))

serve-counts :
    (now : ℕ) (inner : Inner) (g : Grants) (best : Waiter) (others : List Waiter)
    → let out = serve true now inner g (best, others) in
      (out ≡ (best, out.1))
      × (out.1.waiters ≡ others)
      × (out.1.in_flight ≡ (if best.listening then inner.in_flight + 1 else inner.in_flight))
      × (out.1.grants ≡ (if best.listening then push_grant g best.user now else g))
unfolding serve
serve-counts now inner g best others = elim (Bool-cases best.listening) [
  | inl e ↦ rw (e, serve) (refl, refl, refl, refl)
  | inr e ↦ rw (e, serve) (refl, refl, refl, refl)
]

history_of-served :
    (g : Grants) (best : Waiter) (now : ℕ) (u : UserId)
    → history_of (if best.listening then push_grant g best.user now else g) u
      ≡ history_of g u
        ++ (if best.listening then ite (UserId-discrete best.user u) (now ∷ []) [] else [])
history_of-served g best now u = elim (Bool-cases best.listening) [
  | inl e ↦ rw e (history_of-push_grant g best.user u now)
  | inr e ↦ rw e (sym (append-nil (history_of g u)))
]

served-Round :
    (q : Settings) (now : ℕ) (inner : Inner) (best : Waiter) (others : List Waiter)
    → Recorded now inner.grants
    → Least (prune inner.grants now q.window) inner.waiters (best, others)
    → Round q now inner (serve true now inner (prune inner.grants now q.window) (best, others))
unfolding usage
served-Round q now inner best others (history, early) (p, a) =
    let g = prune inner.grants now q.window in
    let inner' = (serve true now inner g (best, others)).1 in
    let (same, waiters, in_flight, grants) = serve-counts now inner g best others in
    let pruned : (u : UserId) → history_of g u ≡ admissions q now inner u =
      λ u. history_of-prune inner.grants now q.window u history in
    subst (Round q now inner) {x = (best, inner')} (sym same) (
      subst (λ ws. Perm inner.waiters (best ∷ ws)) (sym waiters) p,
      subst (λ rank. All (NoLater rank best) inner.waiters) (λ i u. length (pruned u i)) a,
      in_flight,
      λ u.
          ap (λ h. history_of h u) grants
          ∙ history_of-served g best now u
          ∙ ap
              (λ h.
                h
                ++ (if best.listening then ite (UserId-discrete best.user u) (now ∷ []) [] else []))
              (pruned u),
    )

-- With fairness on, in any queue that came about while its clock did not run backwards: a round
-- picks a waiter that goes no later than any other, by the number of its user's recorded admissions
-- that are less than a window old and then by its sequence number, and the others stay queued. The
-- pick is given a permit exactly if it still listens. Afterwards the history of each user is its
-- admissions that are less than a window old, followed, for the pick's user and if it still listens,
-- by this one.
pub admit_one-Round :
    {q : Settings} {last : ℕ} {inner : Inner} (now : ℕ) (w : Waiter) (ws : List Waiter)
    → Course q last inner
    → last ≤ now
    → inner.waiters ≡ w ∷ ws
    → q.enabled ≡ true
    → Round q now inner (admit_one q now inner w ws)
unfolding admit_one
admit_one-Round {q} {last} {inner} now w ws c later queue on =
    let g = prune inner.grants now q.window in
    let (best, others) = select g w ws in
    rw (on, admit_one)
      (served-Round q now inner best others
        (Recorded-later last now inner.grants later (Course-Recorded c))
        (subst (λ vs. Least g vs (best, others)) (sym queue) (select-Least g w ws)))

-- the waiters that a guard can still reach
abbrev pub listening : List Waiter → List Waiter
listening [] = []
listening (w ∷ ws) = if w.listening then w ∷ listening ws else listening ws

-- With fairness off, guards are handed out in the order of arrival: those served, followed by
-- those who still listen in the queue, are those who listened before, and no history is kept.
admit_waiters_fifo :
    (fuel : ℕ) (q : Settings) (clock : ℕ → ℕ) (inner : Inner) (ws : List Waiter)
    → inner.waiters ≡ ws
    → q.enabled ≡ false
    → let (last, served) = admit_waiters fuel q clock inner in
      (served ++ listening last.waiters ≡ listening inner.waiters) × (last.grants ≡ inner.grants)
unfolding admit_waiters admit_one
admit_waiters_fifo zero q clock inner ws e off = (refl, refl)
admit_waiters_fifo (suc fuel) q clock inner [] e off = ground arith
admit_waiters_fifo (suc fuel) q clock inner (w ∷ ws) e off =
    let inner' = (admit_one q (clock fuel) inner w ws).1 in
    ground (arith, admit_waiters_fifo fuel q clock inner' inner'.waiters refl off)
