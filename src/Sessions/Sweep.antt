-- ===== src/Sessions/Sweep.antt =====
-- The idle sweep: which sessions it evicts, and that it keeps the seat accounting.
use ruscker.Prelude.{
  ℕ, String, ◌≡◌, refl, inl, inr, Bool, true, false, Option, none, some, List, [], ◌∷◌, arith,
  if◌then◌else◌, Bool-cases, Option-cases, ◌==◌, nat_key, string_key, ℤ,
}
use ruscker.Prelude.Assoc
use ruscker.Registry.{ReplicaRegistry, dec_sessions}
use ruscker.Sessions.{Store, sweep, evict, SessionEntry, victims, expired, timeout_of}
use ruscker.Sessions.Seats.{IsBalanced, release-IsBalanced}

-- Each victim names the replica that its session is bound to, if the session is still there.
abbrev Matches : List (ℕ × ℕ) → Store → Type 0
Matches [] st = Unit {0}
Matches ((sid, rid) ∷ vs) st =
    ((x : SessionEntry) → Assoc.lookup sid st ≡ some x → x.replica_id ≡ rid) × Matches vs st

remove-Matches :
    (vs : List (ℕ × ℕ)) (sid : ℕ) (st : Store) → Matches vs st → Matches vs (Assoc.remove sid st)
remove-Matches [] sid st h = tt
remove-Matches ((s, rid) ∷ vs) sid st h =
    (λ x e. ground (arith, Assoc.lookup-remove sid s st, h.0 x), remove-Matches vs sid st h.1)

evict-IsBalanced :
    (vs : List (ℕ × ℕ)) (reg : ReplicaRegistry) (st : Store) (pending : ℕ → ℕ)
    → Assoc.IsMap st
    → Matches vs st
    → IsBalanced reg st pending
    → IsBalanced (evict vs st reg).registry (evict vs st reg).store pending
unfolding evict
evict-IsBalanced [] reg st pending m v b = b
evict-IsBalanced ((sid, rid) ∷ vs) reg st pending m v b =
    elim (Option-cases (Assoc.lookup sid st)) [
      | inl e ↦ rw (e, evict) (evict-IsBalanced vs reg st pending m v.1 b)
      | inr (x, e) ↦
          rw (e, evict)
            (evict-IsBalanced vs (dec_sessions reg rid) (Assoc.remove sid st) pending
              (Assoc.remove-IsMap sid st m) (remove-Matches vs sid st v.1)
              (rw (v.0 x e) at (release-IsBalanced reg st pending sid x m e b)))
    ]

-- Every entry of a map is what its key finds.
abbrev FindsAll : Store → Store → Type 0
FindsAll st [] = Unit {0}
FindsAll st ((k, x) ∷ m) = (Assoc.lookup k st ≡ some x) × FindsAll st m

FindsAll-cons :
    (k : ℕ) (x : SessionEntry) (st m : Store)
    → Assoc.entries k st ≡ 0
    → FindsAll st m
    → FindsAll ((k, x) ∷ st) m
FindsAll-cons k x st [] h f = tt
FindsAll-cons k x st ((j, y) ∷ m) h f = (
  ground (arith, f.0, Assoc.entries-none j st, Assoc.lookup-none k st),
  FindsAll-cons k x st m h f.1,
)

FindsAll-self : (st : Store) → Assoc.IsMap st → FindsAll st st
FindsAll-self [] m = tt
FindsAll-self ((k, x) ∷ st) m = (
  ground arith,
  FindsAll-cons k x st st (ground (arith, m k)) (FindsAll-self st (λ j. ground (arith, m j))),
)

victims-Matches :
    (old : SessionEntry → Bool) (st m : Store) → FindsAll st m → Matches (victims old m) st
victims-Matches old st [] f = tt
victims-Matches old st ((k, x) ∷ m) f = elim (Bool-cases (old x)) [
  | inl e ↦ rw (e, victims) ((λ y h. ground (arith, f.0)), victims-Matches old st m f.1)
  | inr e ↦ rw (e, victims) (victims-Matches old st m f.1)
]

-- A sweep keeps the seat accounting: it gives back the seat of each session that it evicts, and no
-- other. The tracker has a session id at most once.
pub sweep-IsBalanced :
    (reg : ReplicaRegistry) (st : Store) (pending : ℕ → ℕ) (now : ℕ) (global_ms : ℤ)
    (overrides : List (String × ℤ))
    → Assoc.IsMap st
    → IsBalanced reg st pending
    → let swept = sweep st reg now global_ms overrides in
      IsBalanced swept.registry swept.store pending
unfolding sweep
sweep-IsBalanced reg st pending now global_ms overrides m b =
    evict-IsBalanced _ reg st pending m (victims-Matches _ st st (FindsAll-self st m)) b

abbrev has_key : ℕ → List (ℕ × ℕ) → Bool
has_key sid [] = false
has_key sid ((k, rid) ∷ vs) = if k == sid then true else has_key sid vs

evict-lookup :
    (vs : List (ℕ × ℕ)) (sid : ℕ) (st : Store) (reg : ReplicaRegistry)
    → Assoc.lookup sid (evict vs st reg).store
      ≡ (if has_key sid vs then none else Assoc.lookup sid st)
unfolding evict
evict-lookup [] sid st reg = refl
evict-lookup ((k, rid) ∷ vs) sid st reg = elim (Option-cases (Assoc.lookup k st)) [
  | inl e ↦ rw (e, evict) (ground (arith, evict-lookup vs sid st reg))
  | inr (x, e) ↦
      rw (e, evict)
        (ground (
          arith,
          evict-lookup vs sid (Assoc.remove k st) (dec_sessions reg rid),
          Assoc.lookup-remove k sid st,
        ))
]

abbrev passes {ℓ} : {A : Type ℓ} → (A → Bool) → Option A → Bool
passes p none = false
passes p (some a) = p a

has_key_absent :
    (old : SessionEntry → Bool) (sid : ℕ) (m : Store)
    → Assoc.entries sid m ≡ 0
    → has_key sid (victims old m) ≡ false
has_key_absent old sid [] h = refl
has_key_absent old sid ((k, x) ∷ m) h = ground (arith, has_key_absent old sid m)

has_key-victims :
    (old : SessionEntry → Bool) (sid : ℕ) (m : Store)
    → Assoc.IsMap m
    → has_key sid (victims old m) ≡ passes old (Assoc.lookup sid m)
has_key-victims old sid [] u = refl
has_key-victims old sid ((k, x) ∷ m) u =
    ground
      (arith, u k, has_key_absent old sid m, has_key-victims old sid m (λ j. ground (arith, u j)))

abbrev pub unless {ℓ} : {A : Type ℓ} → (A → Bool) → Option A → Option A
unless p none = none
unless p (some a) = if p a then none else some a

-- A sweep evicts exactly the sessions whose timeout (their spec's own, else the global one) has
-- passed, and leaves every other session as it was; a negative timeout never passes. The tracker
-- has a session id at most once.
pub sweep-lookup :
    (reg : ReplicaRegistry) (st : Store) (sid now : ℕ) (global_ms : ℤ)
    (overrides : List (String × ℤ))
    → Assoc.IsMap st
    → Assoc.lookup sid (sweep st reg now global_ms overrides).store
      ≡ unless (λ x. expired (timeout_of global_ms overrides x) now x) (Assoc.lookup sid st)
unfolding sweep
sweep-lookup reg st sid now global_ms overrides m =
    ground (arith, evict-lookup (victims old st) sid st reg, has_key-victims old sid st m)
  where
    old : SessionEntry → Bool
    old x = expired (timeout_of global_ms overrides x) now x
