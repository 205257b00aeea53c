-- ===== src/Policy/Validate/Order.antt =====
-- The sort of the routes by priority.
use xsr.Prelude.{
  All, All-append, All-weaken, Bool, Bool-cases, List, [], arith, inl, inr, keep, leb_ℤ, ltb_ℤ,
  refl, ℤ, ◌&&◌, ◌++◌, ◌∙◌, ◌∷◌, ◌≡◌, ◌≤ℤ◌,
}
use xsr.Policy.Validate.{Route, insert_route, sort_routes}

-- Each route has at least the priority of every route behind it.
abbrev pub Descending : List Route → Type 0
Descending [] = Unit
Descending (r ∷ routes) = All (λ s. s.priority ≤ℤ r.priority) routes × Descending routes

insert_route-All :
    (P : Route → Type 0) (r : Route) (routes : List Route)
    → P r
    → All P routes
    → All P (insert_route r routes)
unfolding insert_route
insert_route-All P r [] p h = (p, tt)
insert_route-All P r (s ∷ routes) p h = elim (Bool-cases (ltb_ℤ r.priority s.priority)) [
  | inl e ↦ rw e (h.0, insert_route-All P r routes p h.1)
  | inr e ↦ rw e (p, h)
]

pub sort_routes-All :
    (P : Route → Type 0) (routes : List Route) → All P routes → All P (sort_routes routes)
unfolding sort_routes
sort_routes-All P [] h = tt
sort_routes-All P (r ∷ routes) h =
    insert_route-All P r (sort_routes routes) h.0 (sort_routes-All P routes h.1)

insert_route-Descending :
    (r : Route) (routes : List Route) → Descending routes → Descending (insert_route r routes)
unfolding insert_route
insert_route-Descending r [] h = (tt, tt)
insert_route-Descending r (s ∷ routes) h = elim (Bool-cases (ltb_ℤ r.priority s.priority)) [
  | inl e ↦ rw e (
    insert_route-All (λ t. t.priority ≤ℤ s.priority) r routes (ground (arith, e)) h.0,
    insert_route-Descending r routes h.1,
  )
  | inr e ↦
      let below : s.priority ≤ℤ r.priority = ground (arith, e) in
      rw e ((below, All-weaken (λ t. t.priority ≤ℤ r.priority) (λ t q. omega arith) routes h.0), h)
]

pub sort_routes-Descending : (routes : List Route) → Descending (sort_routes routes)
unfolding sort_routes
sort_routes-Descending [] = tt
sort_routes-Descending (r ∷ routes) =
    insert_route-Descending r (sort_routes routes) (sort_routes-Descending routes)

-- The routes of one priority, in the order in which they stand.
abbrev eq_ℤ : ℤ → ℤ → Bool
eq_ℤ a b = leb_ℤ a b && leb_ℤ b a

abbrev pub with_priority : ℤ → List Route → List Route
with_priority p = keep (λ r. eq_ℤ r.priority p)

insert_route-stable :
    (p : ℤ) (r : Route) (routes : List Route)
    → with_priority p (insert_route r routes) ≡ with_priority p (r ∷ routes)
unfolding insert_route
insert_route-stable p r [] = refl
insert_route-stable p r (s ∷ routes) = elim (Bool-cases (ltb_ℤ r.priority s.priority)) [
  | inl e ↦ rw e (ground (arith, e, insert_route-stable p r routes))
  | inr e ↦ rw e
]

-- Sorting puts the routes in descending order of their priority and keeps the order of the routes of
-- each priority, none of them lost or repeated.
pub sort_routes-stable :
    (routes : List Route) (p : ℤ)
    → Descending (sort_routes routes)
      × (with_priority p (sort_routes routes) ≡ with_priority p routes)
unfolding sort_routes
sort_routes-stable [] p = (tt, refl)
sort_routes-stable (r ∷ routes) p = (
  sort_routes-Descending (r ∷ routes),
  insert_route-stable p r (sort_routes routes) ∙ ground (arith, (sort_routes-stable routes p).1),
)

-- A relation that holds between each route of a list and those behind it.
abbrev pub Pairs : (Route → Route → Type 0) → List Route → Type 0
Pairs R [] = Unit
Pairs R (r ∷ routes) = All (R r) routes × Pairs R routes

module _ (R : Route → Route → Type 0) (symmetric : (r s : Route) → R r s → R s r) where
  insert_route-Pairs :
      (r : Route) (routes : List Route)
      → All (R r) routes
      → Pairs R routes
      → Pairs R (insert_route r routes)
  unfolding insert_route
  insert_route-Pairs r [] h p = (tt, tt)
  insert_route-Pairs r (s ∷ routes) h p = elim (Bool-cases (ltb_ℤ r.priority s.priority)) [
    | inl e ↦ rw e (
      insert_route-All (R s) r routes (symmetric r s h.0) p.0,
      insert_route-Pairs r routes h.1 p.1,
    )
    | inr e ↦ rw e (h, p)
  ]

  pub sort_routes-Pairs : (routes : List Route) → Pairs R routes → Pairs R (sort_routes routes)
  unfolding sort_routes
  sort_routes-Pairs [] p = tt
  sort_routes-Pairs (r ∷ routes) p =
      insert_route-Pairs r (sort_routes routes) (sort_routes-All (R r) routes p.0)
        (sort_routes-Pairs routes p.1)

  pub Pairs-snoc :
      (routes : List Route) (r : Route)
      → Pairs R routes
      → All (λ s. R s r) routes
      → Pairs R (routes ++ r ∷ [])
  Pairs-snoc [] r p h = (tt, tt)
  Pairs-snoc (s ∷ routes) r p h =
      (All-append (R s) routes (r ∷ []) p.0 (h.0, tt), Pairs-snoc routes r p.1 h.1)
