-- ===== src/Watchdog/Current.antt =====
-- That the polls of crates/twl-server/src/watchdog.rs keep the table of models current, although
-- they leave out the updates that bring no new list of models.
use Prim.Native.String.{String}
use mathlib.Core.Option.{some-injective, none-ne-some}
use token_weasel.Prelude.{
  ℕ, ◌<◌, ◌≡◌, ◌≢◌, refl, sym, ap, subst, ◌∙◌, inl, inr, true, List, [], Option, none, some,
  Option-cases, Bool-cases, length, get_elem?, arith,
}
use token_weasel.Provider.Models.{ModelEntry}
use token_weasel.Backends.Catalog.{CatalogEntry}
use token_weasel.Backends.Registry.{Backend, Registry, set_backend_models}
use token_weasel.Backends.Registry.Routes.{IsRouted}
use token_weasel.Backends.Registry.Refresh.{set_backend_models-offers}
use token_weasel.Backends.Registry.Reach.{get_elem?-lt}
use token_weasel.Watchdog.{ids_of, to_catalog, is_last_seen, updated, refresh, poll}
use token_weasel.Watchdog.Offers.{
  offers, OffersAll, listings, ListsAll, offers-listings, lists-to_catalog, same_ids-eq,
  set_backend_models-sized,
}

pub record Current (idx : ℕ) (b : Backend) (last_ids : Option (List String)) (reg : Registry)
    : Type 0 where
  pub backend : get_elem? reg.backends idx ≡ some b
  pub sized : length reg.entries ≡ length reg.backends
  pub routed : IsRouted reg
  pub listed : (ids : List String) → last_ids ≡ some ids → ListsAll idx b ids reg

-- The watchdog of one backend, among those of the others: it starts on any registry.
pub data Watched (idx : ℕ) (b : Backend) : Option (List String) → Registry → Type 0 where
  started :
      (reg : Registry)
      → get_elem? reg.backends idx ≡ some b
      → length reg.entries ≡ length reg.backends
      → IsRouted reg
      → Watched idx b none reg
  polled :
      {last last' : Option (List String)} {reg reg' : Registry} (answer : Option (List ModelEntry))
      → Watched idx b last reg
      → poll idx answer last reg ≡ some (last', reg')
      → Watched idx b last' reg'
  elsewhere :
      {last : Option (List String)} {reg reg' : Registry} (k : ℕ) (entries : List CatalogEntry)
      → Watched idx b last reg
      → k ≢ idx
      → set_backend_models k entries reg ≡ some reg'
      → Watched idx b last reg'

module _ (idx : ℕ) (b : Backend) where
  fits :
      {last : Option (List String)} {reg : Registry}
      → Current idx b last reg
      → idx < length reg.entries
  fits {reg} c = subst (λ n. idx < n) (sym c.sized) (get_elem?-lt reg.backends idx b c.backend)

  set_own-Current :
      (last : Option (List String)) (entries : List ModelEntry) (reg : Registry)
      → Current idx b last reg
      → (reg' : Registry) × (set_backend_models idx (to_catalog entries) reg ≡ some reg')
        × Current idx b (some (ids_of entries)) reg'
        × ListsAll idx b (ids_of entries) reg'
        × ((id : String) (k : ℕ) → k ≢ idx → listings k id reg' ≡ listings k id reg)
  set_own-Current last entries reg c =
      let (reg', done, routed, table) =
        set_backend_models-offers idx (to_catalog entries) reg b c.backend (fits c) in
      let (backends, sized) =
        set_backend_models-sized idx (to_catalog entries) reg reg' done c.sized in
      let all : ListsAll idx b (ids_of entries) reg' =
        λ id. table id idx ∙ ground (arith, lists-to_catalog id entries) in
      (
        reg',
        done,
        record {
          backend = ap (λ bs. get_elem? bs idx) backends ∙ c.backend;
          sized = sized;
          routed = routed;
          listed = λ ids e. subst (λ is. ListsAll idx b is reg') (some-injective _ _ e) all;
        },
        all,
        λ id k d. table id k ∙ ground arith,
      )

  -- the models of an answer; none without one
  abbrev answer_ids : Option (List ModelEntry) → List String
  answer_ids none = []
  answer_ids (some entries) = ids_of entries

  abbrev Refreshed : List String → Registry → Option (Option (List String) × Registry) → Type 0
  Refreshed ids reg out =
      (last' : Option (List String)) × (reg' : Registry) × (out ≡ some (last', reg'))
      × Current idx b last' reg'
      × ListsAll idx b ids reg'
      × ((id : String) (k : ℕ) → k ≢ idx → listings k id reg' ≡ listings k id reg)

  unchanged :
      (ids : List String) (last : Option (List String)) (reg : Registry)
      → Current idx b last reg
      → is_last_seen last ids ≡ true
      → Refreshed ids reg (some (last, reg))
  unchanged ids none reg c h = ground arith
  unchanged ids (some js) reg c h = (
    some js,
    reg,
    refl,
    c,
    subst (λ is. ListsAll idx b is reg) (same_ids-eq js ids h) (c.listed js refl),
    λ id k d. refl,
  )

  refreshed :
      (entries : List ModelEntry) (last : Option (List String)) (reg : Registry)
      → Current idx b last reg
      → Refreshed
          (ids_of entries)
          reg
          (updated (ids_of entries) (set_backend_models idx (to_catalog entries) reg))
  refreshed entries last reg c =
      let (reg', done, current, all, others) = set_own-Current last entries reg c in
      (some (ids_of entries), reg', ap (updated (ids_of entries)) done, current, all, others)

  poll-Current :
      (answer : Option (List ModelEntry)) (last : Option (List String)) (reg : Registry)
      → Current idx b last reg
      → Refreshed (answer_ids answer) reg (poll idx answer last reg)
  unfolding poll refresh
  poll-Current none last reg c = elim (Bool-cases (is_last_seen last [])) [
    | inl same ↦ rw same (unchanged [] last reg c same)
    | inr new ↦ rw new (refreshed [] last reg c)
  ]
  poll-Current (some entries) last reg c = elim (Bool-cases (is_last_seen last (ids_of entries))) [
    | inl same ↦ rw same (unchanged (ids_of entries) last reg c same)
    | inr new ↦ rw new (refreshed entries last reg c)
  ]

  elsewhere-Current :
      (k : ℕ) (entries : List CatalogEntry) (last : Option (List String)) (reg reg' : Registry)
      → k ≢ idx
      → set_backend_models k entries reg ≡ some reg'
      → Current idx b last reg
      → Current idx b last reg'
  unfolding set_backend_models
  elsewhere-Current k entries last reg reg' d h c = elim (Option-cases (get_elem? reg.backends k)) [
    | inl gone ↦ absurd (none-ne-some _ (rw (gone, set_backend_models) at h))
    | inr (bk, found) ↦
        let below : k < length reg.entries =
          subst (λ n. k < n) (sym c.sized) (get_elem?-lt reg.backends k bk found) in
        let (r, done, routed, table) = set_backend_models-offers k entries reg bk found below in
        let same : r ≡ reg' = some-injective _ _ (sym done ∙ h) in
        let (backends, sized) = set_backend_models-sized k entries reg reg' h c.sized in
        record {
          backend = ap (λ bs. get_elem? bs idx) backends ∙ c.backend;
          sized = sized;
          routed = subst IsRouted same routed;
          listed = λ ids e id.
              ap (listings idx id) (sym same) ∙ table id idx ∙ ground (arith, d, c.listed ids e id);
        }
  ]

  Watched-Current :
      {last : Option (List String)} {reg : Registry}
      → Watched idx b last reg
      → Current idx b last reg
  Watched-Current (started reg e n ok) = record {
    backend = e;
    sized = n;
    routed = ok;
    listed = λ ids h. absurd (none-ne-some _ h);
  }
  Watched-Current (polled {last} {last'} {reg} {reg'} answer w h) =
      let (l, r, done, current, all, others) = poll-Current answer last reg (Watched-Current w) in
      let same : (l, r) ≡ (last', reg') = some-injective _ _ (sym done ∙ h) in
      subst (λ p. Current idx b p.0 p.1) same current
  Watched-Current (elsewhere {last} {reg} {reg'} k entries w d h) =
      elsewhere-Current k entries last reg reg' d h (Watched-Current w)

  -- The watchdog of a backend has started on a registry whose table is up to date, and polled with
  -- any answers, while those of other backends updated theirs. Then one more round does not panic,
  -- and after it the routing table has the backend as a candidate, once, of exactly the models of
  -- the answer that its filter allows, and of none if there was no usable answer; for every other
  -- backend the table is as before. This holds also for a round that leaves out its update.
  pub poll-offers :
      {last : Option (List String)} {reg : Registry} (answer : Option (List ModelEntry))
      → Watched idx b last reg
      → (last' : Option (List String)) × (reg' : Registry) × (poll idx answer last reg
          ≡ some (last', reg'))
        × OffersAll idx b (answer_ids answer) reg'
        × ((id : String) (k : ℕ) → k ≢ idx → offers k id reg' ≡ offers k id reg)
  poll-offers {last} {reg} answer w =
      let c = Watched-Current w in
      let (last', reg', done, current, all, others) = poll-Current answer last reg c in
      (
        last',
        reg',
        done,
        λ id. offers-listings idx id reg' current.routed ∙ all id,
        λ id k d.
            offers-listings k id reg' current.routed
            ∙ others id k d
            ∙ sym (offers-listings k id reg c.routed),
      )
