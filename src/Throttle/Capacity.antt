-- ===== src/Throttle/Capacity.antt =====
-- The number of tracked clients stays within the cap.
use token_weasel.Prelude.{
  ℕ, suc, ◌≤◌, ◌<◌, ◌≡◌, refl, ◌∙◌, ◌⊎◌, inl, inr, List, [], ◌∷◌, some, length, leb, Bool-cases,
  Option-cases, unwrap_or, arith, if_pos, if_neg,
}
use token_weasel.Prelude.Assoc.{lookup, length-insert-le, length-insert_old, length-remove}
use token_weasel.Throttle.{
  Entry, cap_clients, least_blocked, evict_least, retain_active, make_room, fail_entry, new_entry,
  record_failure,
}

length-retain-le :
    {K : Type 0} (now : ℕ) (map : List (K × Entry)) → length (retain_active now map) ≤ length map
unfolding retain_active
length-retain-le now [] = omega arith
length-retain-le now ((k, e) ∷ map) = ground (arith, length-retain-le now map)

module _ {K : Type 0} (eq : Discrete K) where
  lookup-cons :
      (k j : K) (v w : Entry) (map : List (K × Entry))
      → lookup eq j map ≡ some w
      → (u : Entry) × (lookup eq j ((k, v) ∷ map) ≡ some u)
  unfolding lookup
  lookup-cons k j v w map h = elim (eq k j) [
    | yes same ↦ (v, if_pos (eq k j) same (some v) (lookup eq j map))
    | no other ↦ (w, if_neg (eq k j) other (some v) (lookup eq j map) ∙ h)
  ]

  lookup-cons_self :
      (k : K) (v : Entry) (map : List (K × Entry)) → lookup eq k ((k, v) ∷ map) ≡ some v
  unfolding lookup
  lookup-cons_self k v map = if_pos (eq k k) refl (some v) (lookup eq k map)

  -- the chosen entry is tracked
  lookup-least :
      (e : K × Entry) (map : List (K × Entry))
      → (v : Entry) × (lookup eq (least_blocked eq e map).0 (e ∷ map) ≡ some v)
  unfolding least_blocked
  lookup-least (k, v) [] = (v, lookup-cons_self k v [])
  lookup-least (k, v) (f ∷ map) =
      let rest = least_blocked eq f map in
      let (w, found) = lookup-least f map in
      elim (Bool-cases (leb v.blocked_until rest.1.blocked_until)) [
        | inl e ↦ rw e (v, lookup-cons_self k v (f ∷ map))
        | inr e ↦ rw e (lookup-cons k rest.0 v w (f ∷ map) found)
      ]

  length-evict :
      (map : List (K × Entry)) → 0 < length map → suc (length (evict_least eq map)) ≡ length map
  unfolding evict_least
  length-evict [] h = elim h [ ]
  length-evict (e ∷ map) h =
      let (v, found) = lookup-least e map in
      length-remove eq (least_blocked eq e map).0 v (e ∷ map) found

  length-evict-le : (map : List (K × Entry)) → length (evict_least eq map) ≤ length map
  length-evict-le [] = unfold evict_least in omega arith
  length-evict-le (e ∷ map) = omega (arith, length-evict (e ∷ map))

  -- A tracked key needs no room; for a new key there is room after the eviction.
  make_room_lem :
      (now : ℕ) (key : K) (map : List (K × Entry))
      → length map ≤ cap_clients
      → (length (make_room eq now key map) < cap_clients)
        ⊎ (v : Entry) × (lookup eq key map ≡ some v) × (make_room eq now key map ≡ map)
  unfolding make_room
  make_room_lem now key map h = elim (Option-cases (lookup eq key map)) [
    | inr (v, e) ↦ inr (v, e, ground arith)
    | inl e ↦ inl (ground (arith, length-retain-le now map, length-evict (retain_active now map)))
  ]

  -- Whatever the times and the keys, a failure leaves at most `CAP` tracked clients.
  record_failure-capacity :
      (now : ℕ) (key : K) (map : List (K × Entry))
      → length map ≤ cap_clients
      → length (record_failure eq now key map) ≤ cap_clients
  unfolding record_failure
  record_failure-capacity now key map h = elim (make_room_lem now key map h) [
    | inl room ↦ omega (
      arith,
      length-insert-le eq key
          (fail_entry now (unwrap_or (lookup eq key (make_room eq now key map)) new_entry))
          (make_room eq now key map),
    )
    | inr (v, e, same) ↦ rw same (
        omega (
          arith,
          length-insert_old eq key (fail_entry now (unwrap_or (lookup eq key map) new_entry)) v map
              e,
        ))
  ]
