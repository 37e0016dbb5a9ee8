-- ===== src/Hosts/Unanswered.antt =====
-- When a replica counts as missing although some hosts may not answer
-- (crates/ruscker-docker/src/multihost.rs, `classify_multihost_liveness`).
use ruscker.Prelude.{
  ℕ, String, ◌≡◌, refl, sym, ap, subst, inl, inr, Bool, false, none, some, List, [], ◌∷◌, Memᴰ,
  arith, Bool-cases, Option-cases, any, find, find-mem, string_key, nat_key, pair_key, ◌==◌,
}
use ruscker.Scaler.Liveness.{ManagedContainer, missing}
use ruscker.Hosts.{
  ReplicaLivenessQuery, Reported, state_of, in_inventory, all_managed, owner_of, owned, unowned,
  liveness_of, classify_multihost_liveness,
}

abbrev runs : ReplicaLivenessQuery → List ManagedContainer → Bool
runs q cs = any (λ c. c.id == q.container_id) cs

-- The hosts that could hold the container have answered, and none of them has it.
pub data IsGone (reported : Reported) (failed_hosts : List String)
    (placement : List (ℕ × (String × String))) (q : ReplicaLivenessQuery) : Type 0 where
  from_owner :
      (owner : String) (cs : List ManagedContainer)
      → owner_of placement q ≡ some owner
      → any (λ h. h == owner) failed_hosts ≡ false
      → Memᴰ (owner, cs) reported
      → runs q cs ≡ false
      → IsGone reported failed_hosts placement q
  from_all :
      owner_of placement q ≡ none
      → failed_hosts ≡ []
      → runs q (all_managed reported) ≡ false
      → IsGone reported failed_hosts placement q

find-none : {A : Type 0} (p : A → Bool) (xs : List A) → find p xs ≡ none → any p xs ≡ false
find-none p [] h = refl
find-none p (x ∷ xs) h = ground (arith, find-none p xs)

state_of-found : (c : ManagedContainer) → ¬ (state_of c ≡ missing)
state_of-found c h = ground arith

in_inventory-missing :
    (q : ReplicaLivenessQuery) (cs : List ManagedContainer)
    → in_inventory q cs ≡ missing
    → runs q cs ≡ false
in_inventory-missing q cs h =
    elim (Option-cases (find (λ (c : ManagedContainer). c.id == q.container_id) cs)) [
      | inl e ↦ find-none (λ (c : ManagedContainer). c.id == q.container_id) cs e
      | inr (c, e) ↦ absurd (state_of-found c (rw (e, in_inventory) at h))
    ]

owned-missing :
    (reported : Reported) (failed_hosts : List String) (placement : List (ℕ × (String × String)))
    (q : ReplicaLivenessQuery) (owner : String)
    → owner_of placement q ≡ some owner
    → owned reported failed_hosts q owner ≡ missing
    → IsGone reported failed_hosts placement q
owned-missing reported failed_hosts placement q owner o h =
    elim (Bool-cases (any (λ h. h == owner) failed_hosts)) [
      | inl f ↦ absurd (ground arith)
      | inr f ↦
          elim (Option-cases
            (find (λ (r : String × List ManagedContainer). r.0 == owner) reported)) [
              | inl e ↦ absurd (ground arith)
              | inr (r, e) ↦
                  let (m, k) =
                    find-mem (λ (r : String × List ManagedContainer). r.0 == owner) reported r e in
                  let same = (string_key.same_iff r.0 owner).0 k in
                  from_owner owner r.1 o f (subst (λ x. Memᴰ (x, r.1) reported) same m)
                    (in_inventory-missing q r.1 (rw (f, e, owned) at h))
            ]
    ]

unowned-missing :
    (reported : Reported) (failed_hosts : List String) (placement : List (ℕ × (String × String)))
    (q : ReplicaLivenessQuery)
    → owner_of placement q ≡ none
    → unowned reported failed_hosts q ≡ missing
    → IsGone reported failed_hosts placement q
unowned-missing reported failed_hosts placement q o h =
    elim (Option-cases
      (find (λ (c : ManagedContainer). c.id == q.container_id) (all_managed reported))) [
        | inl e ↦
            from_all o (ground arith) (
              find-none (λ (c : ManagedContainer). c.id == q.container_id) (all_managed reported) e)
        | inr (c, e) ↦ absurd (state_of-found c (rw (e, unowned) at h))
      ]

liveness_of-missing :
    (reported : Reported) (failed_hosts : List String) (placement : List (ℕ × (String × String)))
    (q : ReplicaLivenessQuery)
    → liveness_of reported failed_hosts placement q ≡ missing
    → IsGone reported failed_hosts placement q
liveness_of-missing reported failed_hosts placement q h =
    elim (Option-cases (owner_of placement q)) [
      | inl o ↦ unowned-missing reported failed_hosts placement q o (rw (o, liveness_of) at h)
      | inr (owner, o) ↦
          owned-missing reported failed_hosts placement q owner o (rw (o, liveness_of) at h)
    ]

-- A replica is reported missing only if every host that could hold its container has answered
-- without it: the owner, where one is known, is not among the failed hosts, has answered, and does
-- not list the container; where none is known, no host failed and no answer lists it.
pub classify_multihost_liveness-missing :
    (known : List ReplicaLivenessQuery) (reported : Reported) (failed_hosts : List String)
    (placement : List (ℕ × (String × String))) (i : ℕ)
    → Memᴰ (i, missing) (classify_multihost_liveness known reported failed_hosts placement)
    → (q : ReplicaLivenessQuery) × Memᴰ q known
      × (q.replica_id ≡ i)
      × IsGone reported failed_hosts placement q
unfolding classify_multihost_liveness
classify_multihost_liveness-missing [] reported failed_hosts placement i m = elim m [ ]
classify_multihost_liveness-missing (q ∷ qs) reported failed_hosts placement i (Memᴰ.head e) = (
  q,
  Memᴰ.head refl,
  sym (ap (λ p. p.0) e),
  liveness_of-missing reported failed_hosts placement q (sym (ap (λ p. p.1) e)),
)
classify_multihost_liveness-missing (q ∷ qs) reported failed_hosts placement i (Memᴰ.tail m) =
    let (p, k, e, gone) =
      classify_multihost_liveness-missing qs reported failed_hosts placement i m in
    (p, Memᴰ.tail k, e, gone)
