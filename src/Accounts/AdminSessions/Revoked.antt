-- ===== src/Accounts/AdminSessions/Revoked.antt =====
-- A revoked account has no session until it logs in again.
use ruscker.Prelude.{
  ℕ, ◌+◌, String, ◌≡◌, subst, inl, inr, Bool, true, false, ◌&&◌, not, Option, none, some, List, [],
  ◌∷◌, arith, ltb, Bool-cases, Option-cases, eq_of_some, string_key, nat_key, pair_key, ◌==◌,
  list_key,
}
use ruscker.Prelude.Assoc
use ruscker.Accounts.AdminSessions.{
  SessionInfo, SessionEntry, Sessions, create, validate_entry, validate, remove, is_actor,
  revoke_by_actor, Operation, creates, validates, removes, revokes, perform, perform_all,
}

module _ (actor : String) where
  abbrev pub IsFree : Sessions → Type 0
  IsFree [] = Unit {0}
  IsFree ((id, e) ∷ st) = (is_actor actor e.actor ≡ false) × IsFree st

  IsFree-insert :
      (id : String) (e : SessionEntry) (st : Sessions)
      → is_actor actor e.actor ≡ false
      → IsFree st
      → IsFree (Assoc.insert id e st)
  IsFree-insert id e [] h k = (h, tt)
  IsFree-insert id e ((j, d) ∷ st) h k = elim (Bool-cases (j == id)) [
    | inl q ↦ rw (q, Assoc.insert) (h, k.1)
    | inr q ↦ rw (q, Assoc.insert) (k.0, IsFree-insert id e st h k.1)
  ]

  IsFree-remove : (id : String) (st : Sessions) → IsFree st → IsFree (Assoc.remove id st)
  IsFree-remove id [] k = tt
  IsFree-remove id ((j, d) ∷ st) k = elim (Bool-cases (j == id)) [
    | inl q ↦ rw (q, Assoc.remove) (IsFree-remove id st k.1)
    | inr q ↦ rw (q, Assoc.remove) (k.0, IsFree-remove id st k.1)
  ]

  IsFree-retain :
      (p : String → SessionEntry → Bool) (st : Sessions) → IsFree st → IsFree (Assoc.retain p st)
  IsFree-retain p [] k = tt
  IsFree-retain p ((j, d) ∷ st) k = elim (Bool-cases (p j d)) [
    | inl q ↦ rw (q, Assoc.retain) (k.0, IsFree-retain p st k.1)
    | inr q ↦ rw (q, Assoc.retain) (IsFree-retain p st k.1)
  ]

  IsFree-validate_entry :
      (now : ℕ) (id : String) (o : Option SessionEntry) (st : Sessions)
      → IsFree st
      → IsFree (validate_entry now id o st).0
  IsFree-validate_entry now id none st k = k
  IsFree-validate_entry now id (some e) st k = elim (Bool-cases (ltb now e.expiry)) [
    | inl q ↦ rw (q, validate_entry) k
    | inr q ↦ rw (q, validate_entry) (IsFree-remove id st k)
  ]

  revoke_by_actor-IsFree : (st : Sessions) → IsFree (revoke_by_actor actor st)
  unfolding revoke_by_actor
  revoke_by_actor-IsFree [] = tt
  revoke_by_actor-IsFree ((j, d) ∷ st) = elim (Bool-cases (is_actor actor d.actor)) [
    | inl q ↦ rw (q, Assoc.retain) (revoke_by_actor-IsFree st)
    | inr q ↦ rw (q, Assoc.retain) (q, revoke_by_actor-IsFree st)
  ]

  -- No login of the actor.
  abbrev pub no_login : List Operation → Bool
  no_login [] = true
  no_login (creates now id role a ∷ os) = not (is_actor actor a) && no_login os
  no_login (validates now id ∷ os) = no_login os
  no_login (removes id ∷ os) = no_login os
  no_login (revokes a ∷ os) = no_login os

  perform_all-IsFree :
      (ttl : ℕ) (os : List Operation) (st : Sessions)
      → no_login os ≡ true
      → IsFree st
      → IsFree (perform_all ttl os st)
  unfolding perform_all perform validate revoke_by_actor
  perform_all-IsFree ttl [] st h k = k
  perform_all-IsFree ttl (creates now id role a ∷ os) st h k =
      perform_all-IsFree ttl os (create ttl now id role a st) (ground arith) (
        IsFree-insert id (record { expiry = now + ttl; role = role; actor = a }) st (ground arith)
          k)
  perform_all-IsFree ttl (validates now id ∷ os) st h k =
      perform_all-IsFree ttl os (validate now id st).0 h
        (IsFree-validate_entry now id (Assoc.lookup id st) st k)
  perform_all-IsFree ttl (removes id ∷ os) st h k =
      perform_all-IsFree ttl os (remove id st) h (IsFree-remove id st k)
  perform_all-IsFree ttl (revokes a ∷ os) st h k =
      perform_all-IsFree ttl os (revoke_by_actor a st) h
        (IsFree-retain (λ i e. not (is_actor a e.actor)) st k)

  lookup-IsFree :
      (id : String) (e : SessionEntry) (st : Sessions)
      → IsFree st
      → Assoc.lookup id st ≡ some e
      → is_actor actor e.actor ≡ false
  lookup-IsFree id e [] k h = absurd (ground arith)
  lookup-IsFree id e ((j, d) ∷ st) k h = elim (Bool-cases (j == id)) [
    | inl q ↦
        subst (λ (x : SessionEntry). is_actor actor x.actor ≡ false)
          (eq_of_some d e (rw (q, Assoc.lookup) at h)) k.0
    | inr q ↦ lookup-IsFree id e st k.1 (rw (q, Assoc.lookup) at h)
  ]

-- After all sessions of an account are revoked, no session id validates as that account, through
-- any further requests in which the account does not log in.
pub validate-revoke_by_actor :
    (actor : String) (ttl now : ℕ) (os : List Operation) (st : Sessions) (id : String)
    (info : SessionInfo)
    → no_login actor os ≡ true
    → (validate now id (perform_all ttl os (revoke_by_actor actor st))).1 ≡ some info
    → is_actor actor info.actor ≡ false
unfolding validate
validate-revoke_by_actor actor ttl now os st id info h v =
    let later = perform_all ttl os (revoke_by_actor actor st) in
    let free =
      perform_all-IsFree actor ttl os (revoke_by_actor actor st) h
        (revoke_by_actor-IsFree actor st) in
    elim (Option-cases (Assoc.lookup id later)) [
      | inl e ↦ absurd (ground arith)
      | inr (e, q) ↦ ground (arith, lookup-IsFree actor id e later free q)
    ]
