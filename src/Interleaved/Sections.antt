-- ===== src/Interleaved/Sections.antt =====
-- What one critical section does to a pool: its size, and which ids it holds.
use ruscker.Prelude.{
  ℕ, ◌+◌, ◌≤◌, String, ◌≡◌, refl, inl, inr, Bool, true, false, ◌||◌, not, some, List, [], ◌∷◌,
  arith, leb, if◌then◌else◌, Bool-cases, Option-cases, length, find, string_key, nat_key, pair_key,
  ◌==◌, list_key,
}
use ruscker.Replica.{Replica}
use ruscker.Registry.Recount.{
  occurrences-set_session_counts, replicas_of-set_session_counts, recount_lem,
}
use ruscker.Spec.{Spec, is_api, kind, effective_max_replicas}
use ruscker.Routing.{
  Proxy, Picked, is_coming, accepting_of, any_of, overload, fast_path, slow_path, admit,
  reserve_seat,
}
use ruscker.Interleaved.{is_known}
use ruscker.Registry.{
  ReplicaRegistry, replicas_of, modify, modify_in, drop_from, remove, add, inc_sessions,
  set_session_counts, seated, all,
}
use ruscker.Registry.Counting.{
  IsUnique, occurrences, occurrences-modify, remove-IsUnique, add-IsUnique,
}
use ruscker.Registry.Lookup.{
  replicas_of-add, replicas_of-modify, replicas_of-remove, length-modify_in, length-drop_from,
}

-- The next registry holds distinct ids, and the pool of `s` is no larger, also when the replica `r`
-- is counted that the pool may not hold yet.
abbrev pub room_for : Replica → List Replica → ℕ
room_for r rs = length rs + (if is_known r rs then 0 else 1)

pub record Fits (s : String) (reg next : ReplicaRegistry) : Type 0 where
  pub distinct : IsUnique next
  pub size : length (replicas_of next s) ≤ length (replicas_of reg s)
  pub room : (r : Replica) → room_for r (replicas_of next s) ≤ room_for r (replicas_of reg s)

pub same-Fits : (s : String) (reg : ReplicaRegistry) → IsUnique reg → Fits s reg reg
same-Fits s reg u = record { distinct = u; size = omega arith; room = λ r. omega arith }

is_known-modify_in :
    (r : Replica) (i : ℕ) (f : Replica → Replica) (rs : List Replica)
    → ((q : Replica) → (f q).id ≡ q.id)
    → is_known r (modify_in i f rs) ≡ is_known r rs
is_known-modify_in r i f [] h = refl
is_known-modify_in r i f (q ∷ rs) h = ground (arith, h q, is_known-modify_in r i f rs h)

pub modify-Fits :
    (s : String) (reg : ReplicaRegistry) (i : ℕ) (f : Replica → Replica)
    → ((r : Replica) → (f r).id ≡ r.id)
    → IsUnique reg
    → Fits s reg (modify reg i f)
modify-Fits s reg i f h u =
    let e = replicas_of-modify reg i f s (u i) in
    let n = length-modify_in i f (replicas_of reg s) in
    record {
      distinct = λ j. omega (arith, occurrences-modify j i f reg h, u j);
      size = rw e (omega (arith, n));
      room = λ r. rw e (ground (arith, n, is_known-modify_in r i f (replicas_of reg s) h));
    }

pub recount-Fits :
    (s : String) (reg : ReplicaRegistry) (counts : List (ℕ × ℕ))
    → IsUnique reg
    → Fits s reg (set_session_counts reg counts)
recount-Fits s reg counts u =
    let e = replicas_of-set_session_counts counts s reg in
    record {
      distinct = λ j. omega (arith, occurrences-set_session_counts counts j reg, u j);
      size = rw e (omega (arith, (recount_lem counts 0 (replicas_of reg s)).0));
      room = λ r. rw e (ground (arith, recount_lem counts r.id (replicas_of reg s)));
    }

room_for-drop_from :
    (r : Replica) (i : ℕ) (rs : List Replica)
    → (room_for r (drop_from i rs) ≤ room_for r rs) × (length (drop_from i rs) ≤ length rs)
room_for-drop_from r i [] = (omega arith, omega arith)
room_for-drop_from r i (q ∷ rs) = ground (arith, room_for-drop_from r i rs)

pub remove-Fits :
    (s : String) (reg : ReplicaRegistry) (i : ℕ) → IsUnique reg → Fits s reg (remove reg i).0
remove-Fits s reg i u =
    let e = replicas_of-remove reg i s (u i) in
    record {
      distinct = remove-IsUnique reg i u;
      size = rw e (ground (arith, length-drop_from i (replicas_of reg s)));
      room = λ r. rw e (room_for-drop_from r i (replicas_of reg s)).0;
    }

pub add_elsewhere-Fits :
    (s : String) (reg : ReplicaRegistry) (r : Replica)
    → occurrences r.id (all reg) ≡ 0
    → (r.spec_id == s) ≡ false
    → IsUnique reg
    → Fits s reg (add reg r)
add_elsewhere-Fits s reg r fresh other u =
    let e : replicas_of (add reg r) s ≡ replicas_of reg s =
      ground (arith, replicas_of-add reg r s) in
    record {
      distinct = add-IsUnique reg r u fresh;
      size = rw e (omega arith);
      room = λ q. rw e (omega arith);
    }

pub inc_sessions-Fits :
    (s : String) (reg : ReplicaRegistry) (i : ℕ) → IsUnique reg → Fits s reg (inc_sessions reg i)
unfolding inc_sessions
inc_sessions-Fits s reg i u = modify-Fits s reg i seated (λ r. refl) u

pub reserve_seat-Fits :
    (s : String) (reg : ReplicaRegistry) (b : Bool) (i : ℕ)
    → IsUnique reg
    → Fits s reg (reserve_seat b reg i)
reserve_seat-Fits s reg true i u = inc_sessions-Fits s reg i u
reserve_seat-Fits s reg false i u = same-Fits s reg u

admit-Fits :
    (s : String) (spec : Spec) (p : Proxy) (picked : Picked)
    → IsUnique p.registry
    → Fits s p.registry (admit spec p picked).0.registry
admit-Fits s spec p picked u = elim (Option-cases picked.choice) [
  | inl e ↦ rw (e, admit) (same-Fits s p.registry u)
  | inr (r, e) ↦ rw (e, admit) (reserve_seat-Fits s p.registry (not (is_api (kind spec))) r.id u)
]

module _ (inflight : ℕ → ℕ) (s : String) (spec : Spec) where
  pub fast_path-Fits :
      (p : Proxy) → IsUnique p.registry → Fits s p.registry (fast_path inflight spec p).0.registry
  unfolding fast_path
  fast_path-Fits p u = admit-Fits s spec p (accepting_of inflight spec p) u

  overload-Fits :
      (p : Proxy) → IsUnique p.registry → Fits s p.registry (overload inflight spec p).0.registry
  overload-Fits p u =
      elim (Bool-cases (
        is_api (kind spec)
        || leb (effective_max_replicas spec) (length (replicas_of p.registry spec.id)))) [
          | inl e ↦ rw (e, overload) (admit-Fits s spec p (any_of inflight spec p) u)
          | inr e ↦ rw (e, overload) (same-Fits s p.registry u)
        ]

  pub slow_path-Fits :
      (p : Proxy) → IsUnique p.registry → Fits s p.registry (slow_path inflight spec p).0.registry
  unfolding slow_path
  slow_path-Fits p u =
      let strict = accepting_of inflight spec p in
      let rest : Proxy = record p { ticket = strict.ticket } in
      elim (Option-cases strict.choice) [
        | inr (r, e) ↦
            rw (e, slow_path) (reserve_seat-Fits s p.registry (not (is_api (kind spec))) r.id u)
        | inl e ↦ elim (Option-cases (find is_coming (replicas_of p.registry spec.id))) [
          | inl n ↦ rw (e, slow_path) (rw (n, slow_path) (overload-Fits rest u))
          | inr (r, n) ↦
              rw (e, slow_path)
                (rw (n, slow_path)
                  (admit-Fits s spec rest (record { choice = some r; ticket = rest.ticket }) u))
        ]
      ]
