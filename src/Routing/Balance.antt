-- ===== src/Routing/Balance.antt =====
-- Which candidate the load-based strategies choose.
use ruscker.Prelude.{
  ℕ, ◌≤◌, ◌≡◌, refl, sym, ap, ◌∙◌, subst, ◌≢◌, inl, inr, Bool, true, false, some, List, [], ◌∷◌,
  ◌++◌, arith, ltb, leb, if◌then◌else◌, le→leb, Bool-cases, eq_of_some, All, All-map, nat_key,
  string_key, pair_key,
}
use ruscker.Replica.{Replica, available_seats}
use ruscker.Spec.{RoutingStrategy, round_robin, least_connections, weighted_random, resource_aware}
use ruscker.Routing.{select, min_by_key, max_by_key, least_loaded}

max_by_key-ge :
    (key : Replica → ℕ) (best : Replica) (rs : List Replica)
    → key best ≤ key (max_by_key key best rs)
max_by_key-ge key best [] = omega arith
max_by_key-ge key best (r ∷ rs) = ground (arith, max_by_key-ge key r rs, max_by_key-ge key best rs)

max_by_key-max :
    (key : Replica → ℕ) (best : Replica) (rs : List Replica) (m : ℕ)
    → key (max_by_key key best rs) ≤ m
    → All (λ q. key q ≤ m) rs
max_by_key-max key best [] m h = tt
max_by_key-max key best (r ∷ rs) m h =
    let next = if leb (key best) (key r) then r else best in
    (ground (arith, max_by_key-ge key next rs), max_by_key-max key next rs m h)

min_by_key-le :
    (key : Replica → ℕ) (best : Replica) (rs : List Replica)
    → key (min_by_key key best rs) ≤ key best
min_by_key-le key best [] = omega arith
min_by_key-le key best (r ∷ rs) = ground (arith, min_by_key-le key r rs, min_by_key-le key best rs)

min_by_key-min :
    (key : Replica → ℕ) (best : Replica) (rs : List Replica) (m : ℕ)
    → m ≤ key (min_by_key key best rs)
    → All (λ q. m ≤ key q) rs
min_by_key-min key best [] m h = tt
min_by_key-min key best (r ∷ rs) m h =
    let next = if ltb (key r) (key best) then r else best in
    (ground (arith, min_by_key-le key next rs), min_by_key-min key next rs m h)

-- `q` is loaded no less than `r`: by free seats for sessions, by requests in flight for APIs.
abbrev pub NoLessLoaded : Bool → (ℕ → ℕ) → Replica → Replica → Type 0
NoLessLoaded true inflight r q = inflight r.id ≤ inflight q.id
NoLessLoaded false inflight r q = available_seats q ≤ available_seats r

least_loaded-All :
    (api : Bool) (inflight : ℕ → ℕ) (c : Replica) (cs : List Replica)
    → All (NoLessLoaded api inflight (least_loaded api inflight c cs)) (c ∷ cs)
least_loaded-All true inflight c cs =
    let key = λ (q : Replica). inflight q.id in
    (min_by_key-le key c cs, min_by_key-min key c cs _ (omega arith))
least_loaded-All false inflight c cs =
    (max_by_key-ge available_seats c cs, max_by_key-max available_seats c cs _ (omega arith))

choose-load :
    (inflight : ℕ → ℕ) (routing : RoutingStrategy) (api : Bool) (ticket : ℕ) (c : Replica)
    (cs : List Replica)
    → routing ≢ round_robin
    → (select inflight routing api ticket (c ∷ cs)).choice ≡ some (least_loaded api inflight c cs)
unfolding select
choose-load inflight round_robin api ticket c cs h = absurd (h refl)
choose-load inflight least_connections api ticket c cs h = refl
choose-load inflight weighted_random api ticket c cs h = refl
choose-load inflight resource_aware api ticket c cs h = refl

-- Every strategy but round robin chooses a replica that is no more loaded than any other
-- candidate: by in-flight requests for an API, by free seats otherwise.
pub select-least_loaded :
    (inflight : ℕ → ℕ) (routing : RoutingStrategy) (api : Bool) (ticket : ℕ) (cs : List Replica)
    (r : Replica)
    → routing ≢ round_robin
    → (select inflight routing api ticket cs).choice ≡ some r
    → All (NoLessLoaded api inflight r) cs
select-least_loaded inflight routing api ticket [] r n h = tt
select-least_loaded inflight routing api ticket (c ∷ cs) r n h =
    subst (λ (q : Replica). All (NoLessLoaded api inflight q) (c ∷ cs))
      (eq_of_some (least_loaded api inflight c cs) r
        (sym (choose-load inflight routing api ticket c cs n) ∙ h))
      (least_loaded-All api inflight c cs)

max_by_key-last :
    (key : Replica → ℕ) (best : Replica) (cs : List Replica) (r : Replica)
    → key best ≤ key r
    → All (λ q. key q ≤ key r) cs
    → max_by_key key best (cs ++ r ∷ []) ≡ r
max_by_key-last key best [] r b h = rw (le→leb _ _ b)
max_by_key-last key best (c ∷ cs) r b h = elim (Bool-cases (leb (key best) (key c))) [
  | inl e ↦ rw (e, max_by_key) (max_by_key-last key c cs r h.0 h.1)
  | inr e ↦ rw (e, max_by_key) (max_by_key-last key best cs r b h.1)
]

-- Among candidates with equally many free seats, any strategy but round robin chooses the last
-- one.
pub select_tie_last :
    (inflight : ℕ → ℕ) (routing : RoutingStrategy) (ticket : ℕ) (c : Replica) (cs : List Replica)
    (r : Replica)
    → routing ≢ round_robin
    → All (λ q. available_seats q ≡ available_seats r) (c ∷ cs)
    → (select inflight routing false ticket (c ∷ cs ++ r ∷ [])).choice ≡ some r
select_tie_last inflight routing ticket c cs r n h =
    choose-load inflight routing false ticket c (cs ++ r ∷ []) n
    ∙ ap some (
        max_by_key-last available_seats c cs r (omega (arith, h.0)) (
          All-map (λ q. available_seats q ≡ available_seats r)
            (λ q. available_seats q ≤ available_seats r) cs (λ q e. omega arith) h.1))
