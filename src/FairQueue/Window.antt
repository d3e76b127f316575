-- ===== src/FairQueue/Window.antt =====
-- What the history of crates/twl-server/src/fair_queue.rs holds: for each user, the times of its
-- admissions; and what pruning it, recording in it and reading it do, user by user.
use token_weasel.Prelude.{
  ℕ, ◌+◌, ◌-◌, ◌≤◌, ◌<◌, ◌≡◌, refl, sym, ap, List, [], ◌∷◌, ◌++◌, none, some, true, All, ltb, ite,
  if◌then◌else◌, arith, unwrap_or, append-nil,
}
use token_weasel.Prelude.Assoc.{lookup, lookup-insert}
use token_weasel.FairQueue.{
  UserId, UserId-discrete, Grants, prune, push_grant, drop_expired, retain_recent, is_nil,
}

-- Each user has one entry, and its grants stand in the order of time.
abbrev pub IsSorted : List ℕ → Type 0
IsSorted [] = Unit {0}
IsSorted (t ∷ ts) = All (λ s. t ≤ s) ts × IsSorted ts

abbrev pub IsHistory : Grants → Type 0
IsHistory [] = Unit {0}
IsHistory ((u, ts) ∷ g) = (lookup UserId-discrete u g ≡ none) × IsSorted ts × IsHistory g

-- nothing is recorded after the time
abbrev pub RecordedBy : ℕ → Grants → Type 0
RecordedBy now [] = Unit {0}
RecordedBy now ((u, ts) ∷ g) = All (λ s. s ≤ now) ts × RecordedBy now g

-- the recorded admissions of a user
abbrev pub history_of : Grants → UserId → List ℕ
history_of g u = unwrap_or (lookup UserId-discrete u g) []

-- the times that are less than a window before `now`
abbrev pub in_window : ℕ → ℕ → List ℕ → List ℕ
in_window now window [] = []
in_window now window (t ∷ ts) =
    if ltb now (t + window) then t ∷ in_window now window ts else in_window now window ts

in_window-All :
    (now window t : ℕ) (ts : List ℕ)
    → now < t + window
    → All (λ s. t ≤ s) ts
    → in_window now window ts ≡ ts
in_window-All now window t [] h a = refl
in_window-All now window t (s ∷ ts) h a = ground (arith, in_window-All now window t ts h a.1, a.0)

-- a window that reaches back before the first instant holds everything
in_window-early : (now window : ℕ) (ts : List ℕ) → now < window → in_window now window ts ≡ ts
in_window-early now window [] h = refl
in_window-early now window (t ∷ ts) h = ground (arith, in_window-early now window ts h)

drop_expired-in_window :
    (now window : ℕ) (ts : List ℕ)
    → window ≤ now
    → IsSorted ts
    → drop_expired (now - window) ts ≡ in_window now window ts
unfolding drop_expired
drop_expired-in_window now window [] h s = refl
drop_expired-in_window now window (t ∷ ts) h s =
    ground (arith, in_window-All now window t ts, s.0, drop_expired-in_window now window ts h s.1)

pub lookup-retain_none :
    (cutoff : ℕ) (u : UserId) (g : Grants)
    → lookup UserId-discrete u g ≡ none
    → lookup UserId-discrete u (retain_recent cutoff g) ≡ none
unfolding lookup retain_recent
lookup-retain_none cutoff u [] h = refl
lookup-retain_none cutoff u ((v, ts) ∷ g) h = ground (arith, lookup-retain_none cutoff u g)

nil-is_nil : (ts : List ℕ) → is_nil ts ≡ true → ts ≡ []
nil-is_nil [] h = refl
nil-is_nil (t ∷ ts) h = ground arith

history_of-retain :
    (cutoff : ℕ) (u : UserId) (g : Grants)
    → IsHistory g
    → history_of (retain_recent cutoff g) u ≡ drop_expired cutoff (history_of g u)
unfolding lookup retain_recent drop_expired
history_of-retain cutoff u [] h = refl
history_of-retain cutoff u ((v, ts) ∷ g) (fresh, sorted, rest) = ground (
  arith,
  nil-is_nil (drop_expired cutoff ts),
  lookup-retain_none cutoff u g,
  history_of-retain cutoff u g rest,
)

pub history_of-IsSorted : (u : UserId) (g : Grants) → IsHistory g → IsSorted (history_of g u)
unfolding lookup
history_of-IsSorted u [] h = tt
history_of-IsSorted u ((v, ts) ∷ g) (fresh, sorted, rest) =
    elim (UserId-discrete v u)
      as (λ d. IsSorted (unwrap_or (ite d (some ts) (lookup UserId-discrete u g)) [])) [
        | yes p ↦ sorted
        | no p ↦ history_of-IsSorted u g rest
      ]

pub history_of-RecordedBy :
    (now : ℕ) (u : UserId) (g : Grants) → RecordedBy now g → All (λ s. s ≤ now) (history_of g u)
unfolding lookup
history_of-RecordedBy now u [] h = tt
history_of-RecordedBy now u ((v, ts) ∷ g) (a, rest) =
    elim (UserId-discrete v u)
      as (λ d. All (λ s. s ≤ now) (unwrap_or (ite d (some ts) (lookup UserId-discrete u g)) [])) [
        | yes p ↦ a
        | no p ↦ history_of-RecordedBy now u g rest
      ]

-- Pruning leaves of each user's admissions those in the window.
pub history_of-prune :
    (g : Grants) (now window : ℕ) (u : UserId)
    → IsHistory g
    → history_of (prune g now window) u ≡ in_window now window (history_of g u)
unfolding prune
history_of-prune g now window u h = ground (
  arith,
  history_of-retain (now - window) u g h,
  drop_expired-in_window now window (history_of g u),
  in_window-early now window (history_of g u),
  history_of-IsSorted u g h,
)

-- Recording an admission appends it to the user's history and leaves the others.
pub history_of-push_grant :
    (g : Grants) (v u : UserId) (now : ℕ)
    → history_of (push_grant g v now) u ≡ history_of g u ++ ite (UserId-discrete v u) (now ∷ []) []
unfolding push_grant
history_of-push_grant g v u now =
    rw (lookup-insert UserId-discrete v u (history_of g v ++ now ∷ []) g)
      (appended (UserId-discrete v u))
  where
    appended :
        (d : Dec (v ≡ u))
        → unwrap_or (ite d (some (history_of g v ++ now ∷ [])) (lookup UserId-discrete u g)) []
          ≡ history_of g u ++ ite d (now ∷ []) []
    appended (yes p) = ap (λ x. history_of g x ++ now ∷ []) p
    appended (no p) = sym (append-nil (history_of g u))
