-- ===== src/Config/Dashboard.antt =====
-- `resolve_dashboard` of crates/twl-config/src/config.rs.
use Prim.Native.String.{String}
use token_weasel.Prelude.{ℕ, not, List, [], ◌∷◌, Option, none, some, if◌then◌else◌, unwrap_or, ltb}
use token_weasel.Prelude.Text.{append}
use token_weasel.Prelude.Result.{Result, ok, err, ◌>>=◌, ◌>>◌}
use token_weasel.Backends.Catalog.{is_in}
use token_weasel.Config.{ConfigError, validation, DashboardConfigFile, DashboardConfig, Outside}

abbrev pub valid_cards : List String
valid_cards = "cost" ∷ "energy" ∷ "tokens" ∷ "requests" ∷ "io" ∷ "cache_hit" ∷ []

abbrev pub valid_graphs : List String
valid_graphs = "today" ∷ "over_time" ∷ []

abbrev identifier_message : String → String → String → String
identifier_message problem what id =
    append problem (append " dashboard " (append what (append " identifier: '" (append id "'"))))

-- the loop over the identifiers of one kind, with the set `seen`
unfoldable pub check_identifiers :
    List String → String → List String → List String → Result ConfigError (Unit {0})
check_identifiers valid what seen [] = ok tt
check_identifiers valid what seen (id ∷ ids) =
    let rest = check_identifiers valid what (id ∷ seen) ids in
    if not (is_in id valid)
    then err (validation (identifier_message "invalid" what id))
    else if is_in id seen
    then err (validation (identifier_message "duplicate" what id))
    else rest

unfoldable pub resolve_identifiers :
    List String → String → Option (List String) → Result ConfigError (List String)
unfolding check_identifiers
resolve_identifiers valid what none = ok valid
resolve_identifiers valid what (some list) = check_identifiers valid what [] list >> ok list

module _ {F Ip : Type 0} (w : Outside F Ip) where
  unfoldable pub check_max_rows : Option ℕ → Result ConfigError (Option ℕ)
  check_max_rows none = ok none
  check_max_rows (some v) =
      if ltb v 1
      then err (validation (append "dashboard.max_rows must be at least 1, got " (w.print_u64 v)))
      else ok (some v)

  abbrev parsed_proxy : String → Option Ip → Result ConfigError Ip
  parsed_proxy raw (some ip) = ok ip
  parsed_proxy raw none = err (
      validation
        (append "dashboard.trusted_proxies contains invalid IP address: '" (append raw "'")))

  unfoldable pub parse_proxies : List String → Result ConfigError (List Ip)
  parse_proxies [] = ok []
  parse_proxies (raw ∷ raws) = do
    ip ← parsed_proxy raw (w.parse_ip raw)
    ips ← parse_proxies raws
    ok (ip ∷ ips)

  unfoldable pub resolve_dashboard :
      Option DashboardConfigFile → Result ConfigError (DashboardConfig Ip)
  unfolding resolve_identifiers check_max_rows parse_proxies
  resolve_dashboard none =
      ok (record {
        cards = valid_cards;
        graphs = valid_graphs;
        max_rows = none;
        trusted_proxies = [];
      })
  resolve_dashboard (some d) = do
    cards ← resolve_identifiers valid_cards "card" d.cards
    graphs ← resolve_identifiers valid_graphs "graph" d.graphs
    max_rows ← check_max_rows d.max_rows
    proxies ← parse_proxies (unwrap_or d.trusted_proxies [])
    ok (record { cards = cards; graphs = graphs; max_rows = max_rows; trusted_proxies = proxies })
