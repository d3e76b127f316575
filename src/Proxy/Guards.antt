-- ===== src/Proxy/Guards.antt =====
-- Every guard that a request creates is dropped, or goes into the body of its response.
use token_weasel.Prelude.{
  ℕ, ◌+◌, ◌≡◌, refl, Bool, true, false, List, [], ◌∷◌, Option, none, some, ◌==◌, if◌then◌else◌,
  arith,
}
use token_weasel.Prelude.Int.{ℤ}
use token_weasel.Backends.Registry.{Routed, routed, refused, missing_model, unknown_model}
use token_weasel.Backends.Placement.Order.{count, count-append}
use token_weasel.Proxy.{
  ClientKeyResult, not_present, invalid, error, valid, Attempt, build_failure, connect_failure,
  other_failure, completed, Effect, admit, leave, begin_load, begin_meter, drop_load, drop_meter,
  Reply, forwarded, Chosen, chosen, unavailable, exhausted, attempt, failover, reply_of, serve,
  proxy_handler,
}

-- the effects that create and end a guard: of the load of a backend, of its meter, of the queue
abbrev begins_load : ℕ → Effect → Bool
begins_load i (begin_load j) = j == i
begins_load i _ = false

abbrev ends_load : ℕ → Effect → Bool
ends_load i (drop_load j) = j == i
ends_load i _ = false

abbrev begins_meter : ℕ → Effect → Bool
begins_meter i (begin_meter j) = j == i
begins_meter i _ = false

abbrev ends_meter : ℕ → Effect → Bool
ends_meter i (drop_meter j) = j == i
ends_meter i _ = false

abbrev pub admits : Effect → Bool
admits (admit u) = true
admits _ = false

abbrev pub leaves : Effect → Bool
leaves leave = true
leaves _ = false

-- the guards of backend `i` that a response holds
abbrev pub held : ℕ → Option Reply → ℕ
held i (some (forwarded status c key)) = if c == i then 1 else 0
held i _ = 0

abbrev held_place : Option Reply → ℕ
held_place (some (forwarded status c key)) = 1
held_place _ = 0

abbrev chosen_at : ℕ → Chosen → ℕ
chosen_at i (chosen c status) = if c == i then 1 else 0
chosen_at i _ = 0

-- Of a part of the loop: the guards that it begins end, but for those of the chosen backend.
abbrev LoopBalanced : ℕ → List Effect × Chosen → Type 0
LoopBalanced i (es, end) =
    (count (begins_load i) es ≡ count (ends_load i) es + chosen_at i end)
    × (count (begins_meter i) es ≡ count (ends_meter i) es + chosen_at i end)
    × (count admits es ≡ 0)
    × (count leaves es ≡ 0)

attempt-balanced :
    (a : Attempt) (c : ℕ) (cs : List ℕ) (rest : List Effect × Chosen) (i : ℕ)
    → LoopBalanced i rest
    → LoopBalanced i (attempt a c cs rest)
unfolding attempt
attempt-balanced build_failure c cs rest i h = ground arith
attempt-balanced connect_failure c cs rest i h = ground (arith, h)
attempt-balanced other_failure c cs rest i h = ground arith
attempt-balanced (completed status) c cs rest i h = ground arith

failover-balanced :
    (upstream : ℕ → Attempt) (cs : List ℕ) (i : ℕ) → LoopBalanced i (failover upstream cs)
unfolding failover
failover-balanced upstream [] i = (refl, refl, refl, refl)
failover-balanced upstream (c ∷ cs) i =
    attempt-balanced (upstream c) c cs (failover upstream cs) i (failover-balanced upstream cs i)

-- Nothing of what was begun is lost: what is not in the response is dropped.
abbrev pub IsBalanced : ℕ → List Effect × Option Reply → Type 0
IsBalanced i (es, reply) =
    (count (begins_load i) es ≡ count (ends_load i) es + held i reply)
    × (count (begins_meter i) es ≡ count (ends_meter i) es + held i reply)
    × (count admits es ≡ count leaves es + held_place reply)

reply_of-balanced :
    (key : Option ℤ) (r : List Effect × Chosen) (i : ℕ)
    → (count (begins_load i) r.0 ≡ count (ends_load i) r.0 + chosen_at i r.1)
    → (count (begins_meter i) r.0 ≡ count (ends_meter i) r.0 + chosen_at i r.1)
    → (count admits r.0 ≡ 0)
    → (count leaves r.0 ≡ 0)
    → let (es, reply) = reply_of key r in
      (count (begins_load i) es ≡ count (ends_load i) es + held i reply)
      × (count (begins_meter i) es ≡ count (ends_meter i) es + held i reply)
      × (count admits es + 1 ≡ count leaves es + held_place reply)
unfolding reply_of
reply_of-balanced key (es, chosen c status) i a b u v = (a, b, omega arith)
reply_of-balanced key (es, unavailable) i a b u v = omega (
  arith,
  count-append (begins_load i) es (leave ∷ []),
  count-append (ends_load i) es (leave ∷ []),
  count-append (begins_meter i) es (leave ∷ []),
  count-append (ends_meter i) es (leave ∷ []),
  count-append admits es (leave ∷ []),
  count-append leaves es (leave ∷ []),
)
reply_of-balanced key (es, exhausted) i a b u v = omega (
  arith,
  count-append (begins_load i) es (leave ∷ []),
  count-append (ends_load i) es (leave ∷ []),
  count-append (begins_meter i) es (leave ∷ []),
  count-append (ends_meter i) es (leave ∷ []),
  count-append admits es (leave ∷ []),
  count-append leaves es (leave ∷ []),
)

serve-balanced :
    (read : Bool) (answer : Routed) (upstream : ℕ → Attempt) (key : Option ℤ) (i : ℕ)
    → let (es, reply) = serve read answer upstream key in
      (count (begins_load i) es ≡ count (ends_load i) es + held i reply)
      × (count (begins_meter i) es ≡ count (ends_meter i) es + held i reply)
      × (count admits es + 1 ≡ count leaves es + held_place reply)
unfolding serve
serve-balanced false answer upstream key i = (refl, refl, refl)
serve-balanced true (refused missing_model) upstream key i = (refl, refl, refl)
serve-balanced true (refused (unknown_model m)) upstream key i = (refl, refl, refl)
serve-balanced true (routed cs) upstream key i =
    let (a, b, u, v) = failover-balanced upstream cs i in
    reply_of-balanced key (failover upstream cs) i a b u v

-- On every path of the handler, errors included: each load guard, each meter guard and each place
-- in the fair queue that was taken is dropped exactly once, except those of the backend that
-- answered, which go into the response.
pub proxy_handler-IsBalanced :
    (require : Bool) (key : ClientKeyResult) (read : Bool) (answer : Routed)
    → (upstream : ℕ → Attempt) (i : ℕ)
    → IsBalanced i (proxy_handler require key read answer upstream)
unfolding proxy_handler
proxy_handler-IsBalanced require (valid k) read answer upstream i =
    let (a, b, d) = serve-balanced read answer upstream (some k.key_id) i in
    (omega arith, omega arith, omega arith)
proxy_handler-IsBalanced require invalid read answer upstream i = (refl, refl, refl)
proxy_handler-IsBalanced require (error m) read answer upstream i = (refl, refl, refl)
proxy_handler-IsBalanced true not_present read answer upstream i = (refl, refl, refl)
proxy_handler-IsBalanced false not_present read answer upstream i =
    let (a, b, d) = serve-balanced read answer upstream none i in
    (omega arith, omega arith, omega arith)
