-- ===== src/Scheduler/Pool/Disconnect.antt =====
-- What the pool of src/scheduler/pool.rs does when a transport is lost.
use share_dash.Common.{
  ℕ, ◌==◌, ◌≡◌, ◌↔◌, refl, sym, ap, ◌∙◌, if◌then◌else◌, Bool, true, false, not, ◌&&◌, ◌||◌, List,
  [], ◌∷◌, Option, none, some, Text, text_eq, text_eq→eq, text_eq_refl, arith, contains, lookup,
  IsMap, lookup-remove, Bool-cases, inl, inr,
}
use share_dash.Scheduler.Pool.{
  Pool, InFlightInfo, return_to_pool, return_all, held_by, return_all_from_transport,
}
use share_dash.Scheduler.Pool.Invariant.{held_by-known}

return_to_pool-in_flight :
    (p : Pool) (id j : ℕ)
    → lookup j (return_to_pool p id).in_flight ≡ (if id == j then none else lookup j p.in_flight)
unfolding return_to_pool
return_to_pool-in_flight p id j = ground (arith, lookup-remove id j p.in_flight)

return_to_pool-unassigned :
    (p : Pool) (id j : ℕ)
    → contains j (return_to_pool p id).unassigned
      ≡ (contains j p.unassigned || (id == j && not (contains j p.completed)))
unfolding return_to_pool
return_to_pool-unassigned p id j = ground arith

pub return_to_pool-completed : (p : Pool) (id : ℕ) → (return_to_pool p id).completed ≡ p.completed
unfolding return_to_pool
return_to_pool-completed p id = ground arith

return_all-in_flight :
    (p : Pool) (xs : List ℕ) (j : ℕ)
    → lookup j (return_all p xs).in_flight ≡ (if contains j xs then none else lookup j p.in_flight)
unfolding return_all
return_all-in_flight p [] j = refl
return_all-in_flight p (id ∷ xs) j =
    ground (arith, return_all-in_flight (return_to_pool p id) xs j, return_to_pool-in_flight p id j)

return_all-unassigned :
    (p : Pool) (xs : List ℕ) (j : ℕ)
    → contains j (return_all p xs).unassigned
      ≡ (contains j p.unassigned || (contains j xs && not (contains j p.completed)))
unfolding return_all
return_all-unassigned p [] j = ground arith
return_all-unassigned p (id ∷ xs) j = ground (
  arith,
  return_all-unassigned (return_to_pool p id) xs j,
  return_to_pool-unassigned p id j,
  return_to_pool-completed p id,
)

pub return_all-completed : (p : Pool) (xs : List ℕ) → (return_all p xs).completed ≡ p.completed
unfolding return_all
return_all-completed p [] = refl
return_all-completed p (id ∷ xs) =
    return_all-completed (return_to_pool p id) xs ∙ return_to_pool-completed p id

-- The transport alone is fetching the chunk of this entry.
abbrev no_second : Option Text → Bool
no_second none = true
no_second (some t) = false

abbrev is_sole : Text → Option InFlightInfo → Bool
is_sole t none = false
is_sole t (some info) = text_eq info.primary_transport_id t && no_second info.secondary_transport_id

contains-held_by :
    (t : Text) (m : List (ℕ × InFlightInfo)) (id : ℕ)
    → IsMap m
    → contains id (held_by t m) ≡ is_sole t (lookup id m)
unfolding held_by lookup
contains-held_by t [] id h = refl
contains-held_by t ((j, info) ∷ m) id h = elim (Bool-cases (j == id)) [
  | inl hit ↦ ground (arith, held_by-known t m id)
  | inr miss ↦ ground (arith, contains-held_by t m id h.1)
]

no_second-none : (o : Option Text) → (no_second o ≡ true) ↔ (o ≡ none)
no_second-none none = (λ h. refl, λ h. refl)
no_second-none (some t) = (λ h. cc, λ h. cc)

sole_iff :
    (t : Text) (o : Option InFlightInfo)
    → (is_sole t o ≡ true) ↔ (
        (info : InFlightInfo) × (o ≡ some info)
        × (info.primary_transport_id ≡ t)
        × (info.secondary_transport_id ≡ none))
sole_iff t none = (λ e. absurd (cc e), λ (info, k, _, _). absurd (cc k))
sole_iff t (some i) = (
  λ e. (
    i,
    refl,
    text_eq→eq i.primary_transport_id t (ground arith),
    (no_second-none i.secondary_transport_id).0 (ground arith),
  ),
  λ (info, k, first, second). ap (is_sole t) k ∙ rw (first, second, text_eq_refl t) refl,
)

-- When a transport is lost, an identifier is returned exactly if its entry in flight has this
-- transport as the first one, and no second one. The entries of those that are returned are taken
-- off, and all others stay as they are; those of them that are not completed join the queue, no
-- other chunk joins or leaves it, and the completed set is unchanged. No chunk has two entries.
pub return_all_from_transport_lem :
    (p : Pool) (t : Text) (id : ℕ)
    → IsMap p.in_flight
    → let q = (return_all_from_transport p t).0 in
      let returned = (return_all_from_transport p t).1 in
      ((contains id returned ≡ true) ↔ (
        (info : InFlightInfo) × (lookup id p.in_flight ≡ some info)
        × (info.primary_transport_id ≡ t)
        × (info.secondary_transport_id ≡ none)))
      × (lookup id q.in_flight ≡ (if contains id returned then none else lookup id p.in_flight))
      × (contains id q.unassigned
          ≡ (contains id p.unassigned || (contains id returned && not (contains id p.completed))))
      × (q.completed ≡ p.completed)
return_all_from_transport_lem p t id h =
    unfold return_all_from_transport in
    (
      (
        λ e. (sole_iff t (lookup id p.in_flight)).0 (sym (contains-held_by t p.in_flight id h) ∙ e),
        λ k. contains-held_by t p.in_flight id h ∙ (sole_iff t (lookup id p.in_flight)).1 k,
      ),
      return_all-in_flight p (held_by t p.in_flight) id,
      return_all-unassigned p (held_by t p.in_flight) id,
      return_all-completed p (held_by t p.in_flight),
    )
