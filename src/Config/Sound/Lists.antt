-- ===== src/Config/Sound/Lists.antt =====
-- The lists of identifiers that `resolve_dashboard` and `resolve_backends` of
-- crates/twl-config/src/config.rs accept.
use Prim.Native.String.{String}
use token_weasel.Prelude.{
  ℕ, ◌≤◌, ◌≡◌, ◌≢◌, refl, subst, inl, inr, false, List, [], ◌∷◌, Option, none, some, Bool-cases,
  All, ltb, unwrap_or, arith,
}
use token_weasel.Prelude.Text.{is_empty, String-discrete}
use token_weasel.Prelude.Table.Columns.{All-map}
use token_weasel.Prelude.Result.{ok, >>=-eq-ok, ok-injective}
use token_weasel.Backends.Catalog.{is_in}
use token_weasel.Config.{ConfigError, DashboardConfigFile, DashboardConfig, Outside}
use token_weasel.Config.Dashboard.{
  valid_cards, valid_graphs, check_identifiers, resolve_identifiers, check_max_rows, parse_proxies,
  resolve_dashboard,
}
use token_weasel.Config.Backends.{check_filter, check_model_filter}
use token_weasel.Config.Sound.{IsDistinct, AreIdentifiers}

-- not `id`, and not in `seen`
abbrev IsUnseen : List String → String → Type 0
IsUnseen seen x = is_in x seen ≡ false

is_in-unseen :
    (id : String) (ids seen : List String) → All (IsUnseen (id ∷ seen)) ids → is_in id ids ≡ false
is_in-unseen id [] seen h = refl
is_in-unseen id (x ∷ xs) seen h = ground (arith, is_in-unseen id xs seen h.1)

IsUnseen-tail :
    (id : String) (seen : List String) (x : String) → IsUnseen (id ∷ seen) x → IsUnseen seen x
IsUnseen-tail id seen x h = ground arith

check_identifiers-ok :
    (valid : List String) (what : String) (seen ids : List String)
    → check_identifiers valid what seen ids ≡ ok tt
    → AreIdentifiers valid ids × All (IsUnseen seen) ids
unfolding check_identifiers
check_identifiers-ok valid what seen [] h = ((tt, tt), tt)
check_identifiers-ok valid what seen (id ∷ ids) h = elim (Bool-cases (is_in id valid)) [
  | inr unknown ↦ absurd (ground arith)
  | inl known ↦ elim (Bool-cases (is_in id seen)) [
    | inl twice ↦ absurd (ground arith)
    | inr once ↦
        let ((all_known, distinct), unseen) =
          check_identifiers-ok valid what (id ∷ seen) ids (ground arith) in
        (
          ((known, all_known), (is_in-unseen id ids seen unseen, distinct)),
          (once, All-map (IsUnseen (id ∷ seen)) (IsUnseen seen) ids (IsUnseen-tail id seen) unseen),
        )
  ]
]

identifiers-ok :
    (valid : List String) (what : String) (cfg : Option (List String)) (ids : List String)
    → AreIdentifiers valid valid
    → resolve_identifiers valid what cfg ≡ ok ids
    → AreIdentifiers valid ids
unfolding resolve_identifiers
identifiers-ok valid what none ids d h = subst (AreIdentifiers valid) (ok-injective h) d
identifiers-ok valid what (some list) ids d h =
    let (u, checked, same) = >>=-eq-ok (check_identifiers valid what [] list) (λ _. ok list) h in
    subst (AreIdentifiers valid) (ok-injective same)
      (check_identifiers-ok valid what [] list checked).0

abbrev IsFilter : List String → Type 0
IsFilter ids = All (λ id. is_empty id ≡ false) ids × IsDistinct ids

check_filter-ok :
    (at : String → ConfigError) (seen ids : List String)
    → check_filter at seen ids ≡ ok tt
    → IsFilter ids × All (IsUnseen seen) ids
unfolding check_filter
check_filter-ok at seen [] h = ((tt, tt), tt)
check_filter-ok at seen (id ∷ ids) h = elim (Bool-cases (is_empty id)) [
  | inl empty ↦ absurd (ground arith)
  | inr full ↦ elim (Bool-cases (is_in id seen)) [
    | inl twice ↦ absurd (ground arith)
    | inr once ↦
        let ((all_full, distinct), unseen) = check_filter-ok at (id ∷ seen) ids (ground arith) in
        (
          ((full, all_full), (is_in-unseen id ids seen unseen, distinct)),
          (once, All-map (IsUnseen (id ∷ seen)) (IsUnseen seen) ids (IsUnseen-tail id seen) unseen),
        )
  ]
]

-- A filter that is there has an entry.
abbrev pub IsAllowlist : Option (List String) → Type 0
IsAllowlist none = Unit {0}
IsAllowlist (some ids) = (ids ≢ []) × IsFilter ids

pub model_filter-ok :
    (at : String → ConfigError) (filter : Option (List String))
    → check_model_filter at filter ≡ ok tt
    → IsAllowlist filter
model_filter-ok at none h = tt
model_filter-ok at (some []) h = cc
model_filter-ok at (some (id ∷ ids)) h =
    ((λ e. ground arith), (check_filter-ok at [] (id ∷ ids) h).0)

module _ {F Ip : Type 0} (w : Outside F Ip) where
  abbrev IsRows : Option ℕ → Type 0
  IsRows none = Unit {0}
  IsRows (some n) = 1 ≤ n

  check_max_rows-ok : (cfg r : Option ℕ) → check_max_rows w cfg ≡ ok r → IsRows r
  unfolding check_max_rows
  check_max_rows-ok none r h = subst IsRows (ok-injective h) tt
  check_max_rows-ok (some v) r h = elim (Bool-cases (ltb v 1)) [
    | inl small ↦ absurd (ground arith)
    | inr large ↦ subst IsRows (ok-injective (rw large at h)) (ground arith)
  ]

  valid_cards-AreIdentifiers : AreIdentifiers valid_cards valid_cards
  unfolding String-discrete
  valid_cards-AreIdentifiers = (
    (refl, (refl, (refl, (refl, (refl, (refl, tt)))))),
    (refl, (refl, (refl, (refl, (refl, (refl, tt)))))),
  )

  valid_graphs-AreIdentifiers : AreIdentifiers valid_graphs valid_graphs
  unfolding String-discrete
  valid_graphs-AreIdentifiers = ((refl, (refl, tt)), (refl, (refl, tt)))

  abbrev pub IsDashboard : DashboardConfig Ip → Type 0
  IsDashboard d =
      AreIdentifiers valid_cards d.cards × AreIdentifiers valid_graphs d.graphs × IsRows d.max_rows

  pub resolve_dashboard-ok :
      (cfg : Option DashboardConfigFile) (d : DashboardConfig Ip)
      → resolve_dashboard w cfg ≡ ok d
      → IsDashboard d
  unfolding resolve_dashboard
  resolve_dashboard-ok none d h =
      subst IsDashboard (ok-injective h)
        (valid_cards-AreIdentifiers, valid_graphs-AreIdentifiers, tt)
  resolve_dashboard-ok (some c) d h =
      let (cards, cards_ok, h1) = >>=-eq-ok (resolve_identifiers valid_cards "card" c.cards) _ h in
      let (graphs, graphs_ok, h2) =
        >>=-eq-ok (resolve_identifiers valid_graphs "graph" c.graphs) _ h1 in
      let (rows, rows_ok, h3) = >>=-eq-ok (check_max_rows w c.max_rows) _ h2 in
      let (proxies, proxies_ok, h4) =
        >>=-eq-ok (parse_proxies w (unwrap_or c.trusted_proxies [])) _ h3 in
      subst IsDashboard (ok-injective h4) (
        identifiers-ok valid_cards "card" c.cards cards valid_cards-AreIdentifiers cards_ok,
        identifiers-ok valid_graphs "graph" c.graphs graphs valid_graphs-AreIdentifiers graphs_ok,
        check_max_rows-ok c.max_rows rows rows_ok,
      )
