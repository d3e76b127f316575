-- ===== src/Config/Tls/Distinct.antt =====
-- What `resolve_tls` of crates/twl-config/src/config.rs accepts.
use Prim.Native.String.{String}
use token_weasel.Prelude.{
  ◌≡◌, ◌≢◌, refl, sym, ap, subst, ◌∙◌, Bool, true, false, not, ◌||◌, List, [], ◌∷◌, Option, All,
  if_pos, and_then, if◌then◌else◌, arith,
}
use token_weasel.Prelude.Text.{is_empty}
use token_weasel.Prelude.Result.{
  ok, ◌>>◌, guard, map_err, map_err-ok, >>=-eq-ok, guard-eq-ok, ok-injective,
}
use token_weasel.Config.{
  ConfigError, validation, TlsConfigFile, TlsConfig, Component, prefix, normal, root_dir, cur_dir,
  parent_dir, Outside,
}
use token_weasel.Config.Tls.{
  Component-discrete, same_path, popped, normalize, ComparableTlsPath, any_empty, canonical_if,
  comparable_tls_path, distinct_paths, validate_distinct_paths, resolve_enabled, check_named,
  resolve_tls,
}

-- no `.` and no `..`
abbrev IsPlain : Component → Type 0
IsPlain c = (c ≢ cur_dir) × (c ≢ parent_dir)

popped-IsPlain : (cs : List Component) → All IsPlain cs → All IsPlain (popped cs)
popped-IsPlain [] h = h
popped-IsPlain (normal s ∷ cs) h = h.1
popped-IsPlain (prefix s ∷ cs) h = h
popped-IsPlain (root_dir ∷ cs) h = h
popped-IsPlain (cur_dir ∷ cs) h = h
popped-IsPlain (parent_dir ∷ cs) h = h

normalize-IsPlain : (done cs : List Component) → All IsPlain done → All IsPlain (normalize done cs)
unfolding normalize
normalize-IsPlain done [] h = h
normalize-IsPlain done (cur_dir ∷ cs) h = normalize-IsPlain done cs h
normalize-IsPlain done (parent_dir ∷ cs) h =
    normalize-IsPlain (popped done) cs (popped-IsPlain done h)
normalize-IsPlain done (normal s ∷ cs) h =
    normalize-IsPlain (normal s ∷ done) cs (((λ e. ground arith), (λ e. ground arith)), h)
normalize-IsPlain done (prefix s ∷ cs) h =
    normalize-IsPlain (prefix s ∷ done) cs (((λ e. ground arith), (λ e. ground arith)), h)
normalize-IsPlain done (root_dir ∷ cs) h =
    normalize-IsPlain (root_dir ∷ done) cs (((λ e. ground arith), (λ e. ground arith)), h)

same_path_refl : (cs : List Component) → same_path cs cs ≡ true
unfolding same_path
same_path_refl [] = refl
same_path_refl (c ∷ cs) = if_pos (Component-discrete c c) refl _ _ ∙ same_path_refl cs

differ : (a b : List Component) → same_path a b ≡ false → a ≢ b
differ a b h e = absurd-of (sym h ∙ ap (same_path a) (sym e) ∙ same_path_refl a)
  where
    absurd-of : false ≡ true → ⊥
    absurd-of p = cc

neither : (a b : Bool) → not (a || b) ≡ true → (a ≡ false) × (b ≡ false)
neither a b h = ground arith

module _ {F Ip : Type 0} (w : Outside F Ip) where
  comparable-ok :
      (path : String) (p : ComparableTlsPath)
      → comparable_tls_path w path ≡ ok p
      → (a : List Component) × (w.absolute path ≡ ok a) × (p.normalized ≡ normalize [] a)
  unfolding comparable_tls_path
  comparable-ok path p h =
      let (a, e1, h1) = >>=-eq-ok (map_err _ (w.absolute path)) _ h in
      let (ex, e2, h2) = >>=-eq-ok (map_err _ (w.try_exists path)) _ h1 in
      let (canonical, e3, h3) = >>=-eq-ok (canonical_if w path ex) _ h2 in
      (a, map_err-ok _ _ a e1, ap (λ (x : ComparableTlsPath). x.normalized) (sym (ok-injective h3)))

  -- Two paths that lexical normalisation takes to different files.
  pub data AreDistinct (cert_path key_path : String) : Type 0 where
    distinct :
        (cert key : List Component)
        → w.absolute cert_path ≡ ok cert
        → w.absolute key_path ≡ ok key
        → normalize [] cert ≢ normalize [] key
        → All IsPlain (normalize [] cert)
        → All IsPlain (normalize [] key)
        → AreDistinct cert_path key_path

  distinct_paths-ok :
      (cert_path key_path : String)
      → distinct_paths w cert_path key_path ≡ ok tt
      → AreDistinct cert_path key_path
  unfolding distinct_paths
  distinct_paths-ok cert_path key_path h =
      let (cert, e1, h1) = >>=-eq-ok (comparable_tls_path w cert_path) _ h in
      let (key, e2, h2) = >>=-eq-ok (comparable_tls_path w key_path) _ h1 in
      let (a, a-eq, a-normal) = comparable-ok cert_path cert e1 in
      let (b, b-eq, b-normal) = comparable-ok key_path key e2 in
      let apart = differ cert.normalized key.normalized (neither _ _ (guard-eq-ok _ _ h2)).0 in
      distinct a b a-eq b-eq (λ e. apart (a-normal ∙ e ∙ sym b-normal)) (normalize-IsPlain [] a tt)
        (normalize-IsPlain [] b tt)

  validated :
      (tls : TlsConfig)
      → validate_distinct_paths w tls ≡ ok tt
      → tls.enabled ≡ true
      → AreDistinct tls.cert_path tls.key_path
  unfolding validate_distinct_paths
  validated tls h on = distinct_paths-ok tls.cert_path tls.key_path (ground arith)

  pub record IsUsable (tls : TlsConfig) : Type 0 where
    cert_named : is_empty tls.cert_path ≡ false
    key_named : is_empty tls.key_path ≡ false
    hostnames_named : any_empty tls.hostnames ≡ false
    apart : AreDistinct tls.cert_path tls.key_path

  guards-ok :
      (c k n : Bool) (e1 e2 e3 : ConfigError)
      → (guard (not c) e1 >> (guard (not k) e2 >> guard (not n) e3)) ≡ ok tt
      → (c ≡ false) × (k ≡ false) × (n ≡ false)
  guards-ok c k n e1 e2 e3 h = ground arith

  if_true : {A : Type 0} {b : Bool} (x y : A) → b ≡ true → (if b then x else y) ≡ x
  if_true x y h = rw h

  usable :
      (tls : TlsConfig)
      → check_named w tls ≡ ok tt
      → AreDistinct tls.cert_path tls.key_path
      → tls.enabled ≡ true
      → IsUsable tls
  unfolding check_named
  usable tls named apart on =
      let (c, k, n) =
        guards-ok (is_empty tls.cert_path) (is_empty tls.key_path) (any_empty tls.hostnames)
          (validation "TLS is enabled but cert_path is empty")
          (validation "TLS is enabled but key_path is empty")
          (validation "TLS hostname entry must not be empty") (sym (if_true _ _ on) ∙ named) in
      record { cert_named = c; key_named = k; hostnames_named = n; apart = apart }

  checked :
      (t tls : TlsConfig)
      → (check_named w t >> (validate_distinct_paths w t >> ok t)) ≡ ok tls
      → tls.enabled ≡ true
      → IsUsable tls
  checked t tls h on =
      let (u, named, h2) = >>=-eq-ok (check_named w t) _ h in
      let (v, apart, h3) = >>=-eq-ok (validate_distinct_paths w t) _ h2 in
      let same : t ≡ tls = ok-injective h3 in
      usable tls (subst (λ x. check_named w x ≡ ok tt) same named)
        (validated tls (subst (λ x. validate_distinct_paths w x ≡ ok tt) same apart) on) on

  pub resolve_tls-distinct :
      (cli_tls : Option Bool) (cli_cert cli_key : Option String) (cfg : Option TlsConfigFile)
      (tls : TlsConfig)
      → resolve_tls w cli_tls cli_cert cli_key cfg ≡ ok tls
      → tls.enabled ≡ true
      → IsUsable tls
  unfolding resolve_tls
  resolve_tls-distinct cli_tls cli_cert cli_key cfg tls h on =
      let (enabled, e, rest) =
        >>=-eq-ok (resolve_enabled w cli_tls (and_then cfg (λ c. c.enabled))) _ h in
      checked _ tls rest on
