-- ===== src/FairQueue/History.antt =====
-- That pruning and recording keep the admission history of crates/twl-server/src/fair_queue.rs well
-- formed.
use token_weasel.Prelude.{
  ℕ, ◌-◌, ◌≤◌, ◌≡◌, refl, sym, subst, ◌∙◌, inl, inr, List, [], ◌∷◌, ◌++◌, none, All, leb, if_neg,
  ite, arith, Bool-cases,
}
use token_weasel.Prelude.Assoc.{lookup, insert, lookup-insert}
use token_weasel.FairQueue.{
  UserId, UserId-discrete, Grants, prune, push_grant, drop_expired, retain_recent, is_nil,
}
use token_weasel.FairQueue.Window.{
  IsSorted, IsHistory, RecordedBy, history_of, lookup-retain_none, history_of-IsSorted,
  history_of-RecordedBy,
}

-- the history is well formed, and nothing in it is later than the time
abbrev pub Recorded : ℕ → Grants → Type 0
Recorded now g = IsHistory g × RecordedBy now g

All-later : (s t : ℕ) (ts : List ℕ) → s ≤ t → All (λ r. r ≤ s) ts → All (λ r. r ≤ t) ts
All-later s t [] h a = tt
All-later s t (r ∷ ts) h a = (omega (arith, a.0), All-later s t ts h a.1)

RecordedBy-later : (s t : ℕ) (g : Grants) → s ≤ t → RecordedBy s g → RecordedBy t g
RecordedBy-later s t [] h a = tt
RecordedBy-later s t ((u, ts) ∷ g) h (a, rest) =
    (All-later s t ts h a, RecordedBy-later s t g h rest)

pub Recorded-later : (s t : ℕ) (g : Grants) → s ≤ t → Recorded s g → Recorded t g
Recorded-later s t g h (i, r) = (i, RecordedBy-later s t g h r)

All-append : (p : ℕ → Type 0) (ts : List ℕ) (now : ℕ) → All p ts → p now → All p (ts ++ now ∷ [])
All-append p [] now a h = (h, tt)
All-append p (t ∷ ts) now a h = (a.0, All-append p ts now a.1 h)

append-IsSorted :
    (now : ℕ) (ts : List ℕ) → IsSorted ts → All (λ s. s ≤ now) ts → IsSorted (ts ++ now ∷ [])
append-IsSorted now [] s a = (tt, tt)
append-IsSorted now (t ∷ ts) (b, s) a =
    (All-append (λ r. t ≤ r) ts now b a.0, append-IsSorted now ts s a.1)

drop_expired-All :
    (p : ℕ → Type 0) (cutoff : ℕ) (ts : List ℕ) → All p ts → All p (drop_expired cutoff ts)
unfolding drop_expired
drop_expired-All p cutoff [] a = tt
drop_expired-All p cutoff (t ∷ ts) a = elim (Bool-cases (leb t cutoff)) [
  | inl e ↦ rw (e, drop_expired) (drop_expired-All p cutoff ts a.1)
  | inr e ↦ rw (e, drop_expired) a
]

drop_expired-IsSorted : (cutoff : ℕ) (ts : List ℕ) → IsSorted ts → IsSorted (drop_expired cutoff ts)
unfolding drop_expired
drop_expired-IsSorted cutoff [] s = tt
drop_expired-IsSorted cutoff (t ∷ ts) s = elim (Bool-cases (leb t cutoff)) [
  | inl e ↦ rw (e, drop_expired) (drop_expired-IsSorted cutoff ts s.1)
  | inr e ↦ rw (e, drop_expired) s
]

retain_recent-Recorded :
    (cutoff now : ℕ) (g : Grants) → Recorded now g → Recorded now (retain_recent cutoff g)
unfolding retain_recent
retain_recent-Recorded cutoff now [] r = (tt, tt)
retain_recent-Recorded cutoff now ((u, ts) ∷ g) ((fresh, sorted, i), (a, r)) =
    let (i', r') = retain_recent-Recorded cutoff now g (i, r) in
    elim (Bool-cases (is_nil (drop_expired cutoff ts))) [
      | inl e ↦ rw (e, retain_recent) (i', r')
      | inr e ↦
          rw (e, retain_recent)
            (
              (lookup-retain_none cutoff u g fresh, drop_expired-IsSorted cutoff ts sorted, i'),
              (drop_expired-All (λ s. s ≤ now) cutoff ts a, r'),
            )
    ]

pub prune-Recorded :
    (g : Grants) (now window : ℕ) → Recorded now g → Recorded now (prune g now window)
unfolding prune
prune-Recorded g now window r = elim (Bool-cases (leb window now)) [
  | inl e ↦ rw (e, prune) (retain_recent-Recorded (now - window) now g r)
  | inr e ↦ rw (e, prune) r
]

insert-Recorded :
    (now : ℕ) (u : UserId) (ts : List ℕ) (g : Grants)
    → IsSorted ts
    → All (λ s. s ≤ now) ts
    → Recorded now g
    → Recorded now (insert UserId-discrete u ts g)
unfolding insert lookup
insert-Recorded now u ts [] s a r = ((refl, s, tt), (a, tt))
insert-Recorded now u ts ((v, vs) ∷ g) s a ((fresh, sorted, i), (b, r)) =
    let (i', r') = insert-Recorded now u ts g s a (i, r) in
    elim (UserId-discrete v u)
      as (λ d. Recorded now (ite d ((u, ts) ∷ g) ((v, vs) ∷ insert UserId-discrete u ts g))) [
        | yes p ↦ ((subst (λ x. lookup UserId-discrete x g ≡ none) p fresh, s, i), (a, r))
        | no p ↦ (
          (
            lookup-insert UserId-discrete u v ts g
                ∙ if_neg (UserId-discrete u v) (λ q. p (sym q)) _ _
                ∙ fresh,
            sorted,
            i',
          ),
          (b, r'),
        )
      ]

pub push_grant-Recorded :
    (g : Grants) (u : UserId) (now : ℕ) → Recorded now g → Recorded now (push_grant g u now)
unfolding push_grant
push_grant-Recorded g u now (i, r) =
    let sorted = history_of-IsSorted u g i in
    let early = history_of-RecordedBy now u g r in
    insert-Recorded now u (history_of g u ++ now ∷ []) g
      (append-IsSorted now (history_of g u) sorted early)
      (All-append (λ s. s ≤ now) (history_of g u) now early (omega arith)) (i, r)
