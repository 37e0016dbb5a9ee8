-- ===== src/Examples/Cataloged.antt =====
-- Examples of the catalog: the booth is the database's version of the file's portal.
use ruscker.Prelude.{
  ℕ, ◌≡◌, refl, ap, subst, none, some, List, [], ◌∷◌, map, arith, if◌then◌else◌, eq_of_some, any,
  string_key, nat_key, pair_key, ◌==◌, list_key,
}
use ruscker.Spec.{Spec}
use ruscker.Catalog.{CatalogSignature, Answers, effective_specs}
use ruscker.Catalog.Shadowed.{under, effective_specs-under}
use ruscker.Catalog.Cached.{IsFaithful, serve_all, serve_all_lem}
use ruscker.Examples.{portal, booth}

effective_specs-under_example :
    under "portal" (effective_specs (some (some (booth ∷ []))) (portal ∷ [])) ≡ (
      if any (λ s. s.id == "portal") (booth ∷ [])
      then under "portal" (booth ∷ [])
      else under "portal" (portal ∷ []))
effective_specs-under_example = effective_specs-under (booth ∷ []) (portal ∷ []) "portal"

abbrev signature : ℕ → CatalogSignature
signature n = record { count = n; versions = n; updated_at = none }

abbrev table : CatalogSignature → List Spec
table sig = if sig.count == 0 then [] else booth ∷ []

-- Two reads of one state, a write, a failing database, and the new state twice.
abbrev calls : List Answers
calls =
    record { signature = some (signature 0); rows = some [] }
    ∷ record { signature = some (signature 0); rows = some [] }
    ∷ record { signature = none; rows = none }
    ∷ record { signature = some (signature 1); rows = some (booth ∷ []) }
    ∷ record { signature = some (signature 1); rows = some (booth ∷ []) }
    ∷ []

recorded :
    (n : ℕ) (rows : List Spec)
    → rows ≡ table (signature n)
    → IsFaithful table (record { signature = some (signature n); rows = some rows })
recorded n rows h sig e =
    subst (λ (s : CatalogSignature). some rows ≡ some (table s)) (eq_of_some (signature n) sig e)
      (ap some h)

silent : IsFaithful table (record { signature = none; rows = none })
silent sig e = absurd (ground arith)

serve_all_lem_example :
    serve_all (portal ∷ []) calls none
    ≡ map (λ a. effective_specs (some a.rows) (portal ∷ [])) calls
serve_all_lem_example =
    serve_all_lem table (portal ∷ []) calls none
      (
        recorded 0 [] refl,
        (
          recorded 0 [] refl,
          (silent, (recorded 1 (booth ∷ []) refl, (recorded 1 (booth ∷ []) refl, tt))),
        ),
      )
      tt
