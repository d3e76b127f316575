-- ===== src/Proxy.antt =====
-- `proxy_handler` of crates/twl-server/src/proxy/mod.rs, as the effects that a request has, in
-- order, and its reply. What the key validation, the fair queue, the body, the routing and each
-- upstream call answer are arguments. That the response can be built from the upstream's status and
-- headers, which were parsed before, is taken for granted: the answer 500 otherwise is left out.
pub mod Failover
pub mod Guards
pub mod Whole
pub mod Headers
pub mod Body
use Prim.Native.String.{String}
use token_weasel.Prelude.{
  ℕ, Bool, true, false, List, [], ◌∷◌, ◌++◌, Option, none, some, if◌then◌else◌,
}
use token_weasel.Prelude.Int.{ℤ}
use token_weasel.FairQueue.{UserId}
use token_weasel.Backends.Registry.{
  Routed, routed, refused, RouteError, missing_model, unknown_model,
}

pub record ValidatedKey : Type 0 where
  pub key_id : ℤ
  pub user_id : ℤ

pub data ClientKeyResult : Type 0 where
  not_present invalid : ClientKeyResult
  error : String → ClientKeyResult
  valid : ValidatedKey → ClientKeyResult

-- How one attempt ends: no request can be built, the connection fails, another transport failure,
-- or an HTTP exchange with its status.
pub data Attempt : Type 0 where
  build_failure connect_failure other_failure : Attempt
  completed : ℕ → Attempt

-- What happens on the way. `admit` and `begin_*` create the guards, `leave` and `drop_*` end them;
-- `connect` is a call of the upstream, `exchange` one that got past the connection.
pub data Effect : Type 0 where
  admit : UserId → Effect
  leave : Effect
  begin_load begin_meter drop_load drop_meter connect exchange : ℕ → Effect

pub data Reply : Type 0 where
  unauthorized internal_error payload_too_large missing_model_error bad_gateway : Reply
  model_not_found : String → Reply
  -- the status, the backend, and the key that is charged; the guards are in the response's body
  forwarded : ℕ → ℕ → Option ℤ → Reply

-- the end of the failover loop; `exhausted` is the failed `expect` behind it
pub data Chosen : Type 0 where
  chosen : ℕ → ℕ → Chosen
  unavailable exhausted : Chosen

abbrev no_more : List ℕ → Bool
no_more [] = true
no_more (c ∷ cs) = false

-- the guards of a failed attempt, in the order of their drop
abbrev pub guards_dropped : ℕ → List Effect
guards_dropped c = drop_meter c ∷ drop_load c ∷ []

abbrev pub preceded_by : List Effect → List Effect × Chosen → List Effect × Chosen
preceded_by es (later, end) = (es ++ later, end)

-- one pass of the loop, with the rest of the loop at hand
unfoldable pub attempt : Attempt → ℕ → List ℕ → List Effect × Chosen → List Effect × Chosen
attempt build_failure c cs rest = (begin_load c ∷ begin_meter c ∷ guards_dropped c, unavailable)
attempt connect_failure c cs rest =
    if no_more cs
    then (begin_load c ∷ begin_meter c ∷ connect c ∷ guards_dropped c, unavailable)
    else preceded_by (begin_load c ∷ begin_meter c ∷ connect c ∷ guards_dropped c) rest
attempt other_failure c cs rest =
    (begin_load c ∷ begin_meter c ∷ connect c ∷ exchange c ∷ guards_dropped c, unavailable)
attempt (completed status) c cs rest =
    (begin_load c ∷ begin_meter c ∷ connect c ∷ exchange c ∷ [], chosen c status)

unfoldable pub failover : (ℕ → Attempt) → List ℕ → List Effect × Chosen
failover upstream [] = ([], exhausted)
failover upstream (c ∷ cs) = let rest = failover upstream cs in attempt (upstream c) c cs rest

-- `none` is the panic of the `expect`.
unfoldable pub reply_of : Option ℤ → List Effect × Chosen → List Effect × Option Reply
reply_of key_id (es, chosen c status) = (es, some (forwarded status c key_id))
reply_of key_id (es, unavailable) = (es ++ leave ∷ [], some bad_gateway)
reply_of key_id (es, exhausted) = (es ++ leave ∷ [], none)

-- what follows admission: the body, the route, the failover
unfoldable pub serve : Bool → Routed → (ℕ → Attempt) → Option ℤ → List Effect × Option Reply
serve false answer upstream key_id = (leave ∷ [], some payload_too_large)
serve true (refused missing_model) upstream key_id = (leave ∷ [], some missing_model_error)
serve true (refused (unknown_model m)) upstream key_id = (leave ∷ [], some (model_not_found m))
serve true (routed candidates) upstream key_id = reply_of key_id (failover upstream candidates)

abbrev after_admission : UserId → List Effect × Option Reply → List Effect × Option Reply
after_admission user (es, reply) = (admit user ∷ es, reply)

-- `body_read` says whether the body was read within the limit.
unfoldable pub proxy_handler :
    Bool → ClientKeyResult → Bool → Routed → (ℕ → Attempt) → List Effect × Option Reply
proxy_handler require_api_key (valid k) body_read answer upstream =
    after_admission (some k.user_id) (serve body_read answer upstream (some k.key_id))
proxy_handler require_api_key invalid body_read answer upstream = ([], some unauthorized)
proxy_handler require_api_key (error m) body_read answer upstream = ([], some internal_error)
proxy_handler require_api_key not_present body_read answer upstream =
    if require_api_key
    then ([], some unauthorized)
    else after_admission none (serve body_read answer upstream none)
