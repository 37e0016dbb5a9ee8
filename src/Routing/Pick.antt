-- ===== src/Routing/Pick.antt =====
-- What a pick returns: a replica of the list that may serve, whenever there is one.
use ruscker.Prelude.{
  ℕ, zero, suc, ◌≡◌, refl, sym, ◌∙◌, subst, inl, inr, Bool, true, false, Option, none, some, List,
  [], ◌∷◌, Memᴰ, arith, ltb, leb, Bool-cases, Option-cases, is_some, eq_of_some, length, keep_if,
  any, All, keep_if-All, nat_key, string_key, pair_key, All-mem, any_complete,
}
use ruscker.Replica.{Replica, is_accepting}
use ruscker.Spec.{RoutingStrategy, round_robin, least_connections, weighted_random, resource_aware}
use ruscker.Routing.{max_by_key, min_by_key, nth, select, pick_accepting, serves, pick_replica}

-- A property of every candidate holds of the choice.
module _ {κ} (P : Replica → Type κ) where
  min_by_key-All :
      (key : Replica → ℕ) (best : Replica) (rs : List Replica)
      → P best
      → All P rs
      → P (min_by_key key best rs)
  min_by_key-All key best [] b h = b
  min_by_key-All key best (r ∷ rs) b h = elim (Bool-cases (ltb (key r) (key best))) [
    | inl e ↦ rw (e, min_by_key) (min_by_key-All key r rs h.0 h.1)
    | inr e ↦ rw (e, min_by_key) (min_by_key-All key best rs b h.1)
  ]

  max_by_key-All :
      (key : Replica → ℕ) (best : Replica) (rs : List Replica)
      → P best
      → All P rs
      → P (max_by_key key best rs)
  max_by_key-All key best [] b h = b
  max_by_key-All key best (r ∷ rs) b h = elim (Bool-cases (leb (key best) (key r))) [
    | inl e ↦ rw (e, max_by_key) (max_by_key-All key r rs h.0 h.1)
    | inr e ↦ rw (e, max_by_key) (max_by_key-All key best rs b h.1)
  ]

  nth-All : (i : ℕ) (first : Replica) (rs : List Replica) → P first → All P rs → P (nth i first rs)
  nth-All i first [] b h = b
  nth-All zero first (r ∷ rs) b h = h.0
  nth-All (suc i) first (r ∷ rs) b h = nth-All i first rs b h.1

  -- `select` returns none of an empty list only, and otherwise one of the candidates.
  abbrev Chosen : Option Replica → Type κ
  Chosen none = Unit
  Chosen (some r) = P r

  Chosen-some : (o : Option Replica) (r : Replica) → Chosen o → o ≡ some r → P r
  Chosen-some none r c h = absurd (ground arith)
  Chosen-some (some q) r c h = subst P (eq_of_some q r h) c

  select-All :
      (inflight : ℕ → ℕ) (routing : RoutingStrategy) (api : Bool) (ticket : ℕ) (cs : List Replica)
      → All P cs
      → Chosen (select inflight routing api ticket cs).choice
  unfolding select
  select-All inflight routing api ticket [] h = tt
  select-All inflight round_robin api ticket (r ∷ rs) h = nth-All _ r (r ∷ rs) h.0 h
  select-All inflight least_connections true ticket (r ∷ rs) h = min_by_key-All _ r rs h.0 h.1
  select-All inflight least_connections false ticket (r ∷ rs) h = max_by_key-All _ r rs h.0 h.1
  select-All inflight weighted_random true ticket (r ∷ rs) h = min_by_key-All _ r rs h.0 h.1
  select-All inflight weighted_random false ticket (r ∷ rs) h = max_by_key-All _ r rs h.0 h.1
  select-All inflight resource_aware true ticket (r ∷ rs) h = min_by_key-All _ r rs h.0 h.1
  select-All inflight resource_aware false ticket (r ∷ rs) h = max_by_key-All _ r rs h.0 h.1

select-is_some :
    (inflight : ℕ → ℕ) (routing : RoutingStrategy) (api : Bool) (ticket : ℕ) (cs : List Replica)
    → is_some (select inflight routing api ticket cs).choice ≡ ltb 0 (length cs)
unfolding select
select-is_some inflight routing api ticket [] = refl
select-is_some inflight round_robin api ticket (r ∷ rs) = ground arith
select-is_some inflight least_connections api ticket (r ∷ rs) = ground arith
select-is_some inflight weighted_random api ticket (r ∷ rs) = ground arith
select-is_some inflight resource_aware api ticket (r ∷ rs) = ground arith

any-length-keep_if :
    (p : Replica → Bool) (rs : List Replica) → ltb 0 (length (keep_if p rs)) ≡ any p rs
any-length-keep_if p [] = refl
any-length-keep_if p (r ∷ rs) = ground (arith, any-length-keep_if p rs)

-- What `select` makes of a filtered pool.
select-keep_if :
    (p : Replica → Bool) (inflight : ℕ → ℕ) (routing : RoutingStrategy) (api : Bool) (ticket : ℕ)
    (rs : List Replica) (r : Replica)
    → (select inflight routing api ticket (keep_if p rs)).choice ≡ some r
    → Memᴰ r rs × (p r ≡ true)
select-keep_if p inflight routing api ticket rs r h =
    Chosen-some (λ q. Memᴰ q rs × (p q ≡ true)) _ r
      (select-All (λ q. Memᴰ q rs × (p q ≡ true)) inflight routing api ticket (keep_if p rs)
        (keep_if-All (λ q. Memᴰ q rs) p rs (All-mem rs)))
      h

serves-any : (qs : List Replica) → any is_accepting qs ≡ true → any serves qs ≡ true
serves-any [] h = h
serves-any (q ∷ qs) h = ground (arith, serves-any qs)

module _ (inflight : ℕ → ℕ) (routing : RoutingStrategy) (api : Bool) (ticket : ℕ)
    (rs : List Replica) where
  pub pick_accepting-is_some :
      is_some (pick_accepting inflight routing api ticket rs).choice ≡ any is_accepting rs
  unfolding pick_accepting
  pick_accepting-is_some =
      select-is_some inflight routing api ticket (keep_if is_accepting rs)
      ∙ any-length-keep_if is_accepting rs

  -- The strict pick finds a replica exactly when one is ready with a free seat, and returns such a
  -- replica of the pool.
  pub pick_accepting_lem :
      (is_some (pick_accepting inflight routing api ticket rs).choice ≡ any is_accepting rs)
      × ((r : Replica)
          → (pick_accepting inflight routing api ticket rs).choice ≡ some r
          → Memᴰ r rs × (is_accepting r ≡ true))
  unfolding pick_accepting
  pick_accepting_lem =
      (pick_accepting-is_some, select-keep_if is_accepting inflight routing api ticket rs)

  pub pick_replica-is_some :
      is_some (pick_replica inflight routing api ticket rs).choice ≡ any serves rs
  unfolding pick_replica
  pick_replica-is_some = ground (
    arith,
    pick_accepting-is_some,
    serves-any rs,
    select-is_some inflight routing api (pick_accepting inflight routing api ticket rs).ticket
        (keep_if serves rs),
    any-length-keep_if serves rs,
  )

  strict-choice :
      (r : Replica)
      → (pick_accepting inflight routing api ticket rs).choice ≡ some r
      → Memᴰ r rs × (serves r ≡ true) × (is_accepting r ≡ any is_accepting rs)
  strict-choice r h =
      let (m, a) = pick_accepting_lem.1 r h in
      (m, ground arith, ground (arith, any_complete is_accepting r rs m a))

  fallback-choice :
      (r : Replica) (t : ℕ)
      → any is_accepting rs ≡ false
      → (select inflight routing api t (keep_if serves rs)).choice ≡ some r
      → Memᴰ r rs × (serves r ≡ true) × (is_accepting r ≡ any is_accepting rs)
  fallback-choice r t none_free h =
      let (m, s) = select-keep_if serves inflight routing api t rs r h in
      (
        m,
        s,
        elim (Bool-cases (is_accepting r)) [
          | inl a ↦ absurd (ground (arith, any_complete is_accepting r rs m a))
          | inr a ↦ a ∙ sym none_free
        ],
      )

  -- The pick finds a replica exactly when one is ready; what it returns is a ready replica of the
  -- pool, and it is full only when every ready replica is.
  pub pick_replica_lem :
      (is_some (pick_replica inflight routing api ticket rs).choice ≡ any serves rs)
      × ((r : Replica)
          → (pick_replica inflight routing api ticket rs).choice ≡ some r
          → Memᴰ r rs × (serves r ≡ true) × (is_accepting r ≡ any is_accepting rs))
  unfolding pick_replica
  pick_replica_lem = (
    pick_replica-is_some,
    λ r h. elim (Option-cases (pick_accepting inflight routing api ticket rs).choice) [
      | inr (q, e) ↦ strict-choice r (ground arith)
      | inl e ↦
          fallback-choice r (pick_accepting inflight routing api ticket rs).ticket
            (ground (arith, pick_accepting-is_some)) (ground arith)
    ],
  )
