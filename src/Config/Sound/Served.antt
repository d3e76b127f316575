-- ===== src/Config/Sound/Served.antt =====
-- The backends that `resolve_backends` of crates/twl-config/src/config.rs accepts.
use Prim.Native.String.{String}
use token_weasel.Prelude.{
  ℕ, suc, ◌≤◌, ◌≡◌, ◌≢◌, subst, ◌∙◌, inl, inr, Bool, true, false, not, ◌&&◌, List, [], ◌∷◌, Option,
  none, some, Bool-cases, All, ltb, unwrap_or, is_some, is_none, arith,
}
use token_weasel.Prelude.Result.{
  ok, guard, map_err, map_err-ok, >>=-eq-ok, guard-eq-ok, ok-injective,
}
use token_weasel.Config.{ConfigError, BackendConfigFile, BackendConfig, Outside}
use token_weasel.Config.Scalars.{validate_gpu_watts, resolve_gpu_watts}
use token_weasel.Config.Backends.{
  display, backend_error, has_header, check_poll, check_model_filter, required_upstream,
  resolve_api_key, resolve_backend_headers, resolve_backend, resolve_entries, resolve_backends,
}
use token_weasel.Config.Sound.{HasLimits}
use token_weasel.Config.Sound.Lists.{IsAllowlist, model_filter-ok}

abbrev IsPoll : Option ℕ → Type 0
IsPoll none = Unit {0}
IsPoll (some n) = 1 ≤ n

check_poll-ok :
    (at : String → ConfigError) (print : ℕ → String) (cfg r : Option ℕ)
    → check_poll at print cfg ≡ ok r
    → IsPoll r
check_poll-ok at print none r h = subst IsPoll (ok-injective h) tt
check_poll-ok at print (some v) r h = elim (Bool-cases (ltb v 1)) [
  | inl small ↦ absurd (ground arith)
  | inr large ↦ subst IsPoll (ok-injective (rw large at h)) (ground arith)
]

module _ {F Ip : Type 0} (w : Outside F Ip) where
  abbrev IsPower : F → Type 0
  IsPower v = (w.floats.is_finite v ≡ true) × (w.floats.is_negative v ≡ false)

  watts-ok : (v r : F) → validate_gpu_watts w v ≡ ok r → IsPower v × (v ≡ r)
  unfolding validate_gpu_watts
  watts-ok v r h = ground arith

  pub gpu_watts-ok :
      (cfg : Option F) (v : F) → HasLimits w → resolve_gpu_watts w cfg ≡ ok v → IsPower v
  unfolding resolve_gpu_watts
  gpu_watts-ok none v k h = subst IsPower (ok-injective h) (k.zero_finite, k.zero_sign)
  gpu_watts-ok (some c) v k h = let (p, same) = watts-ok c v h in subst IsPower same p

  -- Its power is a finite number that is not negative, it polls with a period or has static models,
  -- no authorization header competes with its key, and its allowlist, if there is one, is not empty
  -- and names each model once.
  pub record IsServable (b : BackendConfig F) : Type 0 where
    pub power : IsPower b.gpu_watts
    pub poll : IsPoll b.models_poll_secs
    pub authorization : (is_some b.api_key && has_header "authorization" b.extra_headers) ≡ false
    pub allowlist : IsAllowlist b.model_filter

  not-eq-true : (b : Bool) → not b ≡ true → b ≡ false
  not-eq-true b h = ground arith

  backend-ok :
      (i : ℕ) (e : BackendConfigFile F) (b : BackendConfig F)
      → resolve_backend w i e ≡ ok b
      → IsServable b
  unfolding resolve_backend
  backend-ok i e b h =
      let (upstream, e1, h1) = >>=-eq-ok (required_upstream w i e.upstream) _ h in
      let (u2, e2, h2) =
        >>=-eq-ok (guard (not (is_some e.api_key && is_some e.api_key_env)) _) _ h1 in
      let (api_key, e3, h3) = >>=-eq-ok (resolve_api_key w i e.api_key e.api_key_env) _ h2 in
      let (watts, e4, h4) =
        >>=-eq-ok
          (map_err (λ x. backend_error w i (display x))
            (validate_gpu_watts w (unwrap_or e.gpu_watts w.floats.zero)))
          _ h3 in
      let (poll, e5, h5) =
        >>=-eq-ok (check_poll (backend_error w i) w.print_u64 e.models_poll_secs) _ h4 in
      let (u6, e6, h6) =
        >>=-eq-ok (guard (not (is_none e.models && is_none e.models_poll_secs)) _) _ h5 in
      let (headers, e7, h7) =
        >>=-eq-ok
          (map_err (λ x. backend_error w i (display x)) (resolve_backend_headers w e.headers)) _
          h6 in
      let (u8, e8, h8) =
        >>=-eq-ok (guard (not (is_some api_key && has_header "authorization" headers)) _) _ h7 in
      let (u9, e9, h9) = >>=-eq-ok (check_model_filter (backend_error w i) e.model_filter) _ h8 in
      subst IsServable (ok-injective h9) (record {
        power = (watts-ok _ watts (map_err-ok _ _ watts e4)).0;
        poll = check_poll-ok (backend_error w i) w.print_u64 e.models_poll_secs poll e5;
        authorization = not-eq-true _ (guard-eq-ok _ _ e8);
        allowlist = model_filter-ok (backend_error w i) e.model_filter e9;
      })

  entries-ok :
      (i : ℕ) (es : List (BackendConfigFile F)) (bs : List (BackendConfig F))
      → resolve_entries w i es ≡ ok bs
      → All IsServable bs
  unfolding resolve_entries
  entries-ok i [] bs h = subst (All IsServable) (ok-injective h) tt
  entries-ok i (e ∷ es) bs h =
      let (b, e1, h1) = >>=-eq-ok (resolve_backend w i e) _ h in
      let (rest, e2, h2) = >>=-eq-ok (resolve_entries w (suc i) es) _ h1 in
      subst (All IsServable) (ok-injective h2) (backend-ok i e b e1, entries-ok (suc i) es rest e2)

  -- Of an accepted array there is a first backend, and all are servable.
  pub backends-ok :
      (es : List (BackendConfigFile F)) (bs : List (BackendConfig F))
      → resolve_backends w es ≡ ok bs
      → All IsServable bs × (bs ≢ [])
  unfolding resolve_backends resolve_entries
  backends-ok [] bs h = cc
  backends-ok (e ∷ es) bs h =
      let (b, e1, h1) = >>=-eq-ok (resolve_backend w 0 e) _ h in
      let (rest, e2, h2) = >>=-eq-ok (resolve_entries w 1 es) _ h1 in
      (entries-ok 0 (e ∷ es) bs h, λ empty. cons-ne-nil b rest (ok-injective h2 ∙ empty))
    where
      cons-ne-nil : (b : BackendConfig F) (rest : List (BackendConfig F)) → (b ∷ rest) ≢ []
      cons-ne-nil b rest q = ground arith
