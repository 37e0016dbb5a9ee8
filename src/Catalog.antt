-- ===== src/Catalog.antt =====
-- The catalog that the runtime acts on (crates/ruscker-admin/src/catalog.rs): the database's specs
-- before the file's, and the cache of the admin pages. What the database answers is a parameter.
pub mod Shadowed
pub mod Cached
use ruscker.Prelude.{
  ℕ, String, Bool, true, false, ◌&&◌, Option, none, some, List, [], ◌∷◌, ◌++◌, if◌then◌else◌, any,
  string_key, nat_key, pair_key, ◌==◌, list_key,
}
use ruscker.Spec.{Spec}

abbrev pub contains : List Spec → String → Bool
contains specs id = any (λ s. s.id == id) specs

abbrev pub without_shadowed : List Spec → List Spec → List Spec
without_shadowed rows [] = []
without_shadowed rows (s ∷ file) =
    let rest = without_shadowed rows file in if contains rows s.id then rest else s ∷ rest

-- `none` for no database; the answer to `list_all` is `none` for an error.
unfoldable pub effective_specs : Option (Option (List Spec)) → List Spec → List Spec
effective_specs none file = file
effective_specs (some none) file = file
effective_specs (some (some rows)) file = rows ++ without_shadowed rows file

-- The number of rows, the sum of their versions, and the time of the last write.
pub record CatalogSignature : Type 0 where
  pub count : ℕ
  pub versions : ℕ
  pub updated_at : Option ℕ

abbrev pub same_time : Option ℕ → Option ℕ → Bool
same_time none none = true
same_time none (some b) = false
same_time (some a) none = false
same_time (some a) (some b) = a == b

abbrev pub same_signature : CatalogSignature → CatalogSignature → Bool
same_signature a b =
    a.count == b.count && a.versions == b.versions && same_time a.updated_at b.updated_at

abbrev pub CatalogCache : Type 0
CatalogCache = Option (CatalogSignature × List Spec)

-- What the database answers in one call, `none` for an error.
pub record Answers : Type 0 where
  pub signature : Option CatalogSignature
  pub rows : Option (List Spec)

module _ (file : List Spec) where
  abbrev pub refill :
      CatalogSignature → Option (List Spec) → CatalogCache → List Spec × CatalogCache
  refill sig rows cache = let specs = effective_specs (some rows) file in (specs, some (sig, specs))

  abbrev pub validated :
      CatalogSignature → Option (List Spec) → CatalogCache → List Spec × CatalogCache
  validated sig rows none = refill sig rows none
  validated sig rows (some (cached_sig, specs)) =
      if same_signature cached_sig sig
      then (specs, some (cached_sig, specs))
      else refill sig rows (some (cached_sig, specs))

  unfoldable pub effective_specs_cached : Option Answers → CatalogCache → List Spec × CatalogCache
  unfolding effective_specs
  effective_specs_cached none cache = (effective_specs none file, cache)
  effective_specs_cached (some a) cache = elim a.signature [
    | some sig ↦ validated sig a.rows cache
    | none ↦ (effective_specs (some a.rows) file, cache)
  ]
