-- ===== src/Proxy/Whole.antt =====
-- The handler of crates/twl-server/src/proxy/mod.rs over the request's bytes and the registry: the
-- body is inspected, the model routed, the candidates tried.
use Prim.Native.String.{String}
use mathlib.Core.Option.{none-ne-some, some-injective}
use token_weasel.Prelude.{
  ℕ, ◌≤◌, ◌≡◌, refl, ap, subst, ◌∙◌, ◌⊎◌, inl, inr, Bool, true, false, List, [], ◌∷◌, Option, none,
  some, arith,
}
use token_weasel.Prelude.Int.{ℤ}
use token_weasel.Json.{Value}
use token_weasel.Backends.Catalog.Served.{serving}
use token_weasel.Backends.Placement.{Reads}
use token_weasel.Backends.Placement.Order.{count, is, SortsScores}
use token_weasel.Backends.Registry.{
  Registry, Routed, routed, refused, missing_model, unknown_model, catalog_only, flat_answer,
  route_candidates,
}
use token_weasel.Backends.Registry.Routes.{IsRouted, route_candidates-serving}
use token_weasel.Proxy.Body.{Bytes, prepare_body}
use token_weasel.Proxy.{
  Attempt, build_failure, connect_failure, other_failure, completed, ClientKeyResult, not_present,
  invalid, error, valid, Effect, Reply, forwarded, Chosen, chosen, unavailable, exhausted, attempt,
  failover, reply_of, serve, proxy_handler,
}

abbrev chosen_of : Chosen → Option ℕ
chosen_of (chosen c status) = some c
chosen_of _ = none

-- the backend whose answer is forwarded
abbrev pub forwarded_to : Option Reply → Option ℕ
forwarded_to (some (forwarded status c key)) = some c
forwarded_to _ = none

abbrev Among : ℕ → Routed → Type 0
Among c (routed cs) = 1 ≤ count (is c) cs
Among c (refused e) = ⊥

attempt_chosen :
    (a : Attempt) (d c : ℕ) (cs : List ℕ) (rest : List Effect × Chosen)
    → chosen_of (attempt a d cs rest).1 ≡ some c
    → (d ≡ c) ⊎ (chosen_of rest.1 ≡ some c)
unfolding attempt
attempt_chosen build_failure d c cs rest e = absurd (none-ne-some c e)
attempt_chosen connect_failure d c [] rest e = absurd (none-ne-some c e)
attempt_chosen connect_failure d c (x ∷ cs) rest e = inr e
attempt_chosen other_failure d c cs rest e = absurd (none-ne-some c e)
attempt_chosen (completed status) d c cs rest e = inl (some-injective d c e)

failover_among :
    (upstream : ℕ → Attempt) (cs : List ℕ) (c : ℕ)
    → chosen_of (failover upstream cs).1 ≡ some c
    → 1 ≤ count (is c) cs
unfolding failover
failover_among upstream [] c e = absurd (none-ne-some c e)
failover_among upstream (d ∷ cs) c e =
    elim (attempt_chosen (upstream d) d c cs (failover upstream cs) e) [
      | inl same ↦ ground arith
      | inr later ↦ omega (arith, failover_among upstream cs c later)
    ]

reply_of_chosen :
    (key : Option ℤ) (r : List Effect × Chosen) (c : ℕ)
    → forwarded_to (reply_of key r).1 ≡ some c
    → chosen_of r.1 ≡ some c
unfolding reply_of
reply_of_chosen key (es, chosen d status) c e = e
reply_of_chosen key (es, unavailable) c e = e
reply_of_chosen key (es, exhausted) c e = e

serve-Among :
    (read : Bool) (answer : Routed) (upstream : ℕ → Attempt) (key : Option ℤ) (c : ℕ)
    → forwarded_to (serve read answer upstream key).1 ≡ some c
    → Among c answer
unfolding serve
serve-Among false answer upstream key c e = absurd (none-ne-some c e)
serve-Among true (refused missing_model) upstream key c e = absurd (none-ne-some c e)
serve-Among true (refused (unknown_model m)) upstream key c e = absurd (none-ne-some c e)
serve-Among true (routed cs) upstream key c e =
    failover_among upstream cs c (reply_of_chosen key (failover upstream cs) c e)

proxy_handler-Among :
    (require : Bool) (key : ClientKeyResult) (read : Bool) (answer : Routed)
    → (upstream : ℕ → Attempt) (c : ℕ)
    → forwarded_to (proxy_handler require key read answer upstream).1 ≡ some c
    → Among c answer
unfolding proxy_handler
proxy_handler-Among require (valid k) read answer upstream c e =
    serve-Among read answer upstream (some k.key_id) c e
proxy_handler-Among require invalid read answer upstream c e = absurd (none-ne-some c e)
proxy_handler-Among require (error m) read answer upstream c e = absurd (none-ne-some c e)
proxy_handler-Among true not_present read answer upstream c e = absurd (none-ne-some c e)
proxy_handler-Among false not_present read answer upstream c e =
    serve-Among read answer upstream none c e

-- the parsers and the hash of a request body
pub record Codec : Type 0 where
  pub as_bytes : String → Bytes
  pub hash : Bytes → ℕ
  pub from_slice : Bytes → Option Value
  pub to_vec : Value → Option Bytes

abbrev inspected : Codec → String → Bytes → Bytes × Option String × Option ℕ
inspected codec endpoint body =
    prepare_body codec.as_bytes codec.hash codec.from_slice codec.to_vec endpoint body

abbrev pub model_of : Codec → String → Bytes → Option String
model_of codec endpoint body = (inspected codec endpoint body).1

module _ (score : ℕ → ℕ → ℕ) (sort_scored : List (ℕ × ℕ) → List (ℕ × ℕ)) (share : ℕ → ℕ → ℕ) where
  -- The effects and the reply; the rotation counter that routing moves is not shown.
  unfoldable pub handle_request :
      Codec
      → Registry
      → Reads
      → Bool
      → ClientKeyResult
      → String
      → Option Bytes
      → (ℕ → Attempt)
      → List Effect × Option Reply
  handle_request codec reg reads require key endpoint none upstream =
      proxy_handler require key false (refused missing_model) upstream
  handle_request codec reg reads require key endpoint (some body) upstream =
      let (out, model, prefix) = inspected codec endpoint body in
      proxy_handler require key true
        (route_candidates score sort_scored share reg reads model prefix).1 upstream

  module _ (sorts : SortsScores sort_scored) where
    routed-Among :
        (reg : Registry) (reads : Reads) (model : Option String) (prefix : Option ℕ) (c : ℕ)
        → IsRouted reg
        → reg.routing_mode ≡ catalog_only
        → Among c (route_candidates score sort_scored share reg reads model prefix).1
        → (name : String) × (model ≡ some name) × (1 ≤ count (is c) (serving name 0 reg.entries))
    unfolding route_candidates
    routed-Among reg reads none prefix c v m a = absurd a
    routed-Among reg reads (some name) prefix c v m a =
        elim (route_candidates-serving score sort_scored share sorts reg reads name prefix v) [
          | inl (unlisted, answer) ↦
              absurd (subst (Among c) (answer ∙ ap (λ mode. flat_answer mode name) m) a)
          | inr (listed, (order, answer, same)) ↦
              (name, refl, omega (arith, same c, subst (Among c) answer a))
        ]

    -- With a catalog whose table is up to date, a client gets the answer of a backend only if the
    -- body of its request names a model, and that backend lists the model.
    pub handle_request_listed :
        (codec : Codec) (reg : Registry) (reads : Reads) (require : Bool) (key : ClientKeyResult)
        → (endpoint : String) (body : Bytes) (upstream : ℕ → Attempt) (c : ℕ) → IsRouted reg
        → reg.routing_mode ≡ catalog_only
        → forwarded_to (handle_request codec reg reads require key endpoint (some body) upstream).1
          ≡ some c
        → (name : String) × (model_of codec endpoint body ≡ some name)
          × (1 ≤ count (is c) (serving name 0 reg.entries))
    unfolding handle_request
    handle_request_listed codec reg reads require key endpoint body upstream c v m e =
        let (out, model, prefix) = inspected codec endpoint body in
        routed-Among reg reads model prefix c v m (
          proxy_handler-Among require key true
            (route_candidates score sort_scored share reg reads model prefix).1 upstream c e)
