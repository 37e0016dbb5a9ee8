-- ===== src/Catalog/Cached.antt =====
-- The cached catalog against the uncached one.
use ruscker.Prelude.{
  ℕ, ◌≡◌, refl, ap, inl, inr, true, Option, none, some, List, [], ◌∷◌, map, arith, Bool-cases, All,
  string_key, nat_key, pair_key, list_key,
}
use ruscker.Spec.{Spec}
use ruscker.Catalog.{
  effective_specs, CatalogSignature, same_time, same_signature, CatalogCache, Answers, refill,
  validated, effective_specs_cached,
}

same_time_eq : (a b : Option ℕ) → same_time a b ≡ true → a ≡ b
same_time_eq none none h = refl
same_time_eq none (some b) h = absurd (ground arith)
same_time_eq (some a) none h = absurd (ground arith)
same_time_eq (some a) (some b) h = ap some (ground arith)

same_signature_eq : (a b : CatalogSignature) → same_signature a b ≡ true → a ≡ b
same_signature_eq a b h =
    let t = same_time_eq a.updated_at b.updated_at (ground arith) in ground arith

-- The signature says what the table holds, and the list is read whenever the signature is.
abbrev pub IsFaithful : (CatalogSignature → List Spec) → Answers → Type 0
IsFaithful table a = (sig : CatalogSignature) → a.signature ≡ some sig → a.rows ≡ some (table sig)

abbrev pub AllFaithful : (CatalogSignature → List Spec) → List Answers → Type 0
AllFaithful table calls = All (IsFaithful table) calls

-- Calls one after the other, each with what the database answers in it.
abbrev pub serve_all : List Spec → List Answers → CatalogCache → List (List Spec)
serve_all file [] cache = []
serve_all file (a ∷ calls) cache =
    let next = effective_specs_cached file (some a) cache in next.0 ∷ serve_all file calls next.1

module _ (table : CatalogSignature → List Spec) (file : List Spec) where
  abbrev pub IsCoherent : CatalogCache → Type 0
  IsCoherent none = Unit {0}
  IsCoherent (some (sig, specs)) = specs ≡ effective_specs (some (some (table sig))) file

  -- One call gives the catalog of the database's answer, and leaves a coherent cache.
  abbrev Serves : Option (List Spec) → List Spec × CatalogCache → Type 0
  Serves rows q = (q.0 ≡ effective_specs (some rows) file) × IsCoherent q.1

  refill-Serves :
      (sig : CatalogSignature) (rows : Option (List Spec)) (cache : CatalogCache)
      → rows ≡ some (table sig)
      → Serves rows (refill file sig rows cache)
  refill-Serves sig rows cache e = (refl, rw e refl)

  validated-Serves :
      (sig : CatalogSignature) (rows : Option (List Spec)) (cache : CatalogCache)
      → rows ≡ some (table sig)
      → IsCoherent cache
      → Serves rows (validated file sig rows cache)
  validated-Serves sig rows none e c = refill-Serves sig rows none e
  validated-Serves sig rows (some (old, specs)) e c = elim (Bool-cases (same_signature old sig)) [
    | inl same ↦ rw (same, validated) (kept (same_signature_eq old sig same))
    | inr moved ↦ rw (moved, validated) (refill-Serves sig rows (some (old, specs)) e)
  ]
    where
      kept : old ≡ sig → Serves rows (specs, some (old, specs))
      kept s = (rw e (rw (← s) c), c)

  served :
      (a : Answers) (cache : CatalogCache) (o : Option CatalogSignature)
      → a.signature ≡ o
      → IsFaithful table a
      → IsCoherent cache
      → Serves a.rows (effective_specs_cached file (some a) cache)
  unfolding effective_specs_cached
  served a cache none e f c = rw (e, effective_specs_cached) (refl, c)
  served a cache (some sig) e f c =
      rw (e, effective_specs_cached) (validated-Serves sig a.rows cache (f sig e) c)

  -- Calls of the cached catalog, one after the other, each give what the uncached catalog gives
  -- for the database's answer in that call, from an empty cache or one that holds the catalog of
  -- its signature. The signature determines the rows, and the list is read whenever the signature
  -- is.
  pub serve_all_lem :
      (calls : List Answers) (cache : CatalogCache)
      → AllFaithful table calls
      → IsCoherent cache
      → serve_all file calls cache ≡ map (λ a. effective_specs (some a.rows) file) calls
  serve_all_lem [] cache f c = refl
  serve_all_lem (a ∷ calls) cache (fa, f) c =
      let (here, next) = served a cache a.signature refl fa c in
      rw here (rw (serve_all_lem calls (effective_specs_cached file (some a) cache).1 f next) refl)

-- When the list fails after the signature was read, the file's specs are cached under it, and the
-- next call with the same signature serves them although the database answers.
pub effective_specs_cached-stale :
    (file rows : List Spec) (sig : CatalogSignature)
    → (effective_specs_cached file
        (some (record { signature = some sig; rows = some rows }))
        (effective_specs_cached file
          (some (record { signature = some sig; rows = none }))
          none).1).0
      ≡ file
unfolding effective_specs_cached effective_specs
effective_specs_cached-stale file rows sig = ground arith
