-- ===== src/Throttle/Lockout.antt =====
-- Who is locked out, for how long, and who is not.
use token_weasel.Prelude.{
  ℕ, ◌+◌, ◌-◌, ◌≤◌, ◌<◌, ◌≡◌, refl, ap, ◌∙◌, ◌⊎◌, ◌≢◌, inl, inr, List, [], ◌∷◌, Option, none, some,
  length, ltb, if◌then◌else◌, Option-cases, unwrap_or, arith, if_pos, if_neg, All, min,
}
use token_weasel.Prelude.Assoc.{lookup, insert, remove, lookup-insert}
use token_weasel.Throttle.{
  Entry, cap_clients, u32_max, backoff_for_failures, check, least_blocked, evict_least,
  retain_active, make_room, fail_entry, new_entry, record_failure, record_success, run_logins,
}
use token_weasel.Throttle.Backoff.{backoff_for_failures_mono}

module _ {K : Type 0} (eq : Discrete K) where
  lookup-retain_none :
      (now : ℕ) (k : K) (map : List (K × Entry))
      → lookup eq k map ≡ none
      → lookup eq k (retain_active now map) ≡ none
  unfolding lookup retain_active
  lookup-retain_none now k [] h = refl
  lookup-retain_none now k ((j, e) ∷ map) h = ground (arith, lookup-retain_none now k map)

  lookup-remove-none :
      (k j : K) (map : List (K × Entry))
      → lookup eq k map ≡ none
      → lookup eq k (remove eq j map) ≡ none
  unfolding lookup remove
  lookup-remove-none k j [] h = refl
  lookup-remove-none k j ((i, e) ∷ map) h = ground (arith, lookup-remove-none k j map)

  lookup-evict_none :
      (k : K) (map : List (K × Entry))
      → lookup eq k map ≡ none
      → lookup eq k (evict_least eq map) ≡ none
  unfolding evict_least
  lookup-evict_none k [] h = h
  lookup-evict_none k (e ∷ map) h = lookup-remove-none k (least_blocked eq e map).0 (e ∷ map) h

  -- Making room for a key leaves what is known of that key.
  lookup-make_room_self :
      (now : ℕ) (k : K) (map : List (K × Entry))
      → lookup eq k (make_room eq now k map) ≡ lookup eq k map
  unfolding make_room
  lookup-make_room_self now k map =
      ground (arith, lookup-retain_none now k map, lookup-evict_none k (retain_active now map))

  pub lookup-record_failure_self :
      (now : ℕ) (k : K) (map : List (K × Entry))
      → lookup eq k (record_failure eq now k map)
        ≡ some (fail_entry now (unwrap_or (lookup eq k map) new_entry))
  unfolding record_failure
  lookup-record_failure_self now k map =
      lookup-insert eq k k _ (make_room eq now k map)
      ∙ if_pos (eq k k) refl _ _
      ∙ ap (λ o. some (fail_entry now (unwrap_or o new_entry))) (lookup-make_room_self now k map)

  -- After a failure at `now` its client is blocked until the end of the backoff for its failures so
  -- far, this one included, or, while the attempts are free, as before; and `check` reports the
  -- time that is left.
  pub check-record_failure :
      (now later : ℕ) (k : K) (map : List (K × Entry))
      → let old = unwrap_or (lookup eq k map) new_entry in
        let bk = backoff_for_failures (min (old.failures + 1) u32_max) in
        let until = if ltb 0 bk then now + bk else old.blocked_until in
        check eq later k (record_failure eq now k map)
        ≡ (if ltb later until then some (until - later) else none)
  unfolding check
  check-record_failure now later k map = rw (lookup-record_failure_self now k map, check) refl

  lookup-record_failure_ne :
      (now : ℕ) (k j : K) (map : List (K × Entry))
      → k ≢ j
      → lookup eq j (record_failure eq now k map) ≡ lookup eq j (make_room eq now k map)
  unfolding record_failure
  lookup-record_failure_ne now k j map h =
      lookup-insert eq k j _ (make_room eq now k map) ∙ if_neg (eq k j) h _ _

  lookup-retain_active :
      (now : ℕ) (j : K) (e : Entry) (map : List (K × Entry))
      → lookup eq j map ≡ some e
      → now < e.blocked_until
      → lookup eq j (retain_active now map) ≡ some e
  unfolding lookup retain_active
  lookup-retain_active now j e [] h b = ground arith
  lookup-retain_active now j e ((i, v) ∷ map) h b = ground (arith, lookup-retain_active now j e map)

  -- A failure of one client does not touch another, unless the map is full. Then it forgets those
  -- that are not blocked; one that is blocked only if `CAP` clients are blocked at once.
  pub record_failure_others :
      (now : ℕ) (k j : K) (e : Entry) (map : List (K × Entry))
      → k ≢ j
      → lookup eq j map ≡ some e
      → (length map < cap_clients)
        ⊎ (now < e.blocked_until) × (length (retain_active now map) < cap_clients)
      → lookup eq j (record_failure eq now k map) ≡ some e
  unfolding make_room
  record_failure_others now k j e map ne h room =
      lookup-record_failure_ne now k j map ne ∙ ground (arith, lookup-retain_active now j e map h)

  abbrev UntilAtMost : ℕ → List (K × Entry) → Type 0
  UntilAtMost t map = All (λ e. e.1.blocked_until ≤ t) map

  lookup-UntilAtMost :
      (t : ℕ) (j : K) (e : Entry) (map : List (K × Entry))
      → UntilAtMost t map
      → lookup eq j map ≡ some e
      → e.blocked_until ≤ t
  unfolding lookup
  lookup-UntilAtMost t j e [] a h = ground arith
  lookup-UntilAtMost t j e ((i, v) ∷ map) a h =
      ground (arith, a.0, lookup-UntilAtMost t j e map a.1)

  insert-UntilAtMost :
      (t : ℕ) (j : K) (e : Entry) (map : List (K × Entry))
      → UntilAtMost t map
      → e.blocked_until ≤ t
      → UntilAtMost t (insert eq j e map)
  unfolding insert
  insert-UntilAtMost t j e [] a h = (h, tt)
  insert-UntilAtMost t j e ((i, v) ∷ map) a h = ground (arith, insert-UntilAtMost t j e map a.1 h)

  remove-UntilAtMost :
      (t : ℕ) (j : K) (map : List (K × Entry)) → UntilAtMost t map → UntilAtMost t (remove eq j map)
  unfolding remove
  remove-UntilAtMost t j [] a = tt
  remove-UntilAtMost t j ((i, v) ∷ map) a = ground (arith, remove-UntilAtMost t j map a.1)

  evict-UntilAtMost :
      (t : ℕ) (map : List (K × Entry)) → UntilAtMost t map → UntilAtMost t (evict_least eq map)
  unfolding evict_least
  evict-UntilAtMost t [] a = tt
  evict-UntilAtMost t (e ∷ map) a = remove-UntilAtMost t (least_blocked eq e map).0 (e ∷ map) a

  retain-UntilAtMost :
      (t now : ℕ) (map : List (K × Entry))
      → UntilAtMost t map
      → UntilAtMost t (retain_active now map)
  unfolding retain_active
  retain-UntilAtMost t now [] a = tt
  retain-UntilAtMost t now ((i, v) ∷ map) a = ground (arith, retain-UntilAtMost t now map a.1)

  make_room-UntilAtMost :
      (t now : ℕ) (k : K) (map : List (K × Entry))
      → UntilAtMost t map
      → UntilAtMost t (make_room eq now k map)
  unfolding make_room
  make_room-UntilAtMost t now k map a =
      ground (arith, retain-UntilAtMost t now map a, evict-UntilAtMost t (retain_active now map))

  old-UntilAtMost :
      (t : ℕ) (k : K) (map : List (K × Entry))
      → UntilAtMost t map
      → (unwrap_or (lookup eq k map) new_entry).blocked_until ≤ t
  old-UntilAtMost t k map a = elim (Option-cases (lookup eq k map)) [
    | inl e ↦ rw e (omega arith)
    | inr (v, e) ↦ rw e (lookup-UntilAtMost t k v map a e)
  ]

  record_failure-UntilAtMost :
      (t now : ℕ) (k : K) (map : List (K × Entry))
      → now + 60 ≤ t
      → UntilAtMost t map
      → UntilAtMost t (record_failure eq now k map)
  unfolding record_failure
  record_failure-UntilAtMost t now k map h a =
      let room = make_room eq now k map in
      let old = unwrap_or (lookup eq k room) new_entry in
      let f = min (old.failures + 1) u32_max in
      let b = make_room-UntilAtMost t now k map a in
      insert-UntilAtMost t k (fail_entry now old) room b (
        ground (arith, old-UntilAtMost t k room b, (backoff_for_failures_mono f f (omega arith)).1))

  -- the failures up to a time
  abbrev FailuresBy : ℕ → List (Option ℕ × K) → Type 0
  FailuresBy t [] = Unit {0}
  FailuresBy t ((some now, k) ∷ logins) = (now ≤ t) × FailuresBy t logins
  FailuresBy t ((none, k) ∷ logins) = FailuresBy t logins

  run_logins-UntilAtMost :
      (t : ℕ) (logins : List (Option ℕ × K)) (map : List (K × Entry))
      → FailuresBy t logins
      → UntilAtMost (t + 60) map
      → UntilAtMost (t + 60) (run_logins eq logins map)
  unfolding run_logins record_success
  run_logins-UntilAtMost t [] map h a = a
  run_logins-UntilAtMost t ((some now, k) ∷ logins) map h a =
      run_logins-UntilAtMost t logins (record_failure eq now k map) h.1
        (record_failure-UntilAtMost (t + 60) now k map (omega arith) a)
  run_logins-UntilAtMost t ((none, k) ∷ logins) map h a =
      run_logins-UntilAtMost t logins (remove eq k map) h (remove-UntilAtMost (t + 60) k map a)

  -- However many failures there are and whoever causes them: a minute after the last of them no
  -- client is blocked, so that a correct credential is never locked out for good.
  pub check-run_logins :
      (t later : ℕ) (k : K) (logins : List (Option ℕ × K))
      → FailuresBy t logins
      → t + 60 ≤ later
      → check eq later k (run_logins eq logins []) ≡ none
  unfolding check
  check-run_logins t later k logins h late =
      let a = run_logins-UntilAtMost t logins [] h tt in
      elim (Option-cases (lookup eq k (run_logins eq logins []))) [
        | inl e ↦ rw (e, check)
        | inr (v, e) ↦ rw (e, check) (ground (arith, lookup-UntilAtMost (t + 60) k v _ a e))
      ]
