-- ===== src/Proxy/Failover.antt =====
-- Which backends are called, and what the client gets.
use token_weasel.Prelude.{
  ℕ, ◌<◌, ◌≡◌, refl, Bool, true, false, List, [], ◌∷◌, Option, none, some, if◌then◌else◌, arith,
  length,
}
use token_weasel.Backends.Placement.Order.{count}
use token_weasel.Proxy.{
  Attempt, build_failure, connect_failure, other_failure, completed, Effect, connect, exchange,
  begin_load, begin_meter, Chosen, chosen, unavailable, exhausted, preceded_by, attempt, failover,
  guards_dropped,
}

-- a call that may have been executed
abbrev exchanges : Effect → Bool
exchanges (exchange i) = true
exchanges _ = false

abbrev fails_to_connect : Attempt → Bool
fails_to_connect connect_failure = true
fails_to_connect a = false

-- the first candidate whose connection does not fail
abbrev pub reached : (ℕ → Attempt) → List ℕ → Option ℕ
reached upstream [] = none
reached upstream (c ∷ cs) = if fails_to_connect (upstream c) then reached upstream cs else some c

abbrev end_of : ℕ → Attempt → Chosen
end_of c (completed status) = chosen c status
end_of c _ = unavailable

abbrev exchanged : Attempt → ℕ
exchanged (completed status) = 1
exchanged other_failure = 1
exchanged _ = 0

-- What the loop owes to the candidates: `c` is the one that is reached.
abbrev pub Settles : (ℕ → Attempt) → Option ℕ → List Effect × Chosen → Type 0
Settles upstream none (es, end) = (end ≡ unavailable) × (count exchanges es ≡ 0)
Settles upstream (some c) (es, end) =
    (end ≡ end_of c (upstream c)) × (count exchanges es ≡ exchanged (upstream c))

preceded_by-Settles :
    (upstream : ℕ → Attempt) (r : Option ℕ) (c : ℕ) (rest : List Effect × Chosen)
    → Settles upstream r rest
    → Settles upstream r
        (preceded_by (begin_load c ∷ begin_meter c ∷ connect c ∷ guards_dropped c) rest)
preceded_by-Settles upstream none c rest h = (h.0, omega (arith, h.1))
preceded_by-Settles upstream (some i) c rest h = (h.0, omega (arith, h.1))

attempt-Settles_last :
    (upstream : ℕ → Attempt) (a : Attempt) (c : ℕ) (rest : List Effect × Chosen)
    → upstream c ≡ a
    → Settles upstream (if fails_to_connect a then none else some c) (attempt a c [] rest)
unfolding attempt
attempt-Settles_last upstream build_failure c rest e = rw e (refl, omega arith)
attempt-Settles_last upstream connect_failure c rest e = (refl, omega arith)
attempt-Settles_last upstream other_failure c rest e = rw e (refl, omega arith)
attempt-Settles_last upstream (completed status) c rest e = rw e (refl, omega arith)

attempt-Settles_more :
    (upstream : ℕ → Attempt) (a : Attempt) (c d : ℕ) (cs : List ℕ) (r : Option ℕ)
    → (rest : List Effect × Chosen) → upstream c ≡ a
    → Settles upstream r rest
    → Settles upstream (if fails_to_connect a then r else some c) (attempt a c (d ∷ cs) rest)
unfolding attempt
attempt-Settles_more upstream build_failure c d cs r rest e h = rw e (refl, omega arith)
attempt-Settles_more upstream connect_failure c d cs r rest e h =
    preceded_by-Settles upstream r c rest h
attempt-Settles_more upstream other_failure c d cs r rest e h = rw e (refl, omega arith)
attempt-Settles_more upstream (completed status) c d cs r rest e h = rw e (refl, omega arith)

-- The loop goes on only past connections that failed, so that at most one backend can have
-- executed the request. The first candidate whose connection does not fail decides: its answer is
-- the chosen one, whatever its status, and its failure is final. With no such candidate the
-- upstream is unavailable. The loop never runs into its failed `expect`.
pub failover-Settles :
    (upstream : ℕ → Attempt) (cs : List ℕ)
    → 0 < length cs
    → Settles upstream (reached upstream cs) (failover upstream cs)
unfolding failover
failover-Settles upstream [] h = ground arith
failover-Settles upstream (c ∷ []) h =
    attempt-Settles_last upstream (upstream c) c ([], exhausted) refl
failover-Settles upstream (c ∷ d ∷ cs) h =
    attempt-Settles_more upstream (upstream c) c d cs (reached upstream (d ∷ cs))
      (failover upstream (d ∷ cs)) refl (failover-Settles upstream (d ∷ cs) (omega arith))
