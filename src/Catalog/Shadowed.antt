-- ===== src/Catalog/Shadowed.antt =====
-- Which specs the catalog has under an id.
use ruscker.Prelude.{
  String, ◌≡◌, refl, ◌∙◌, false, some, List, [], ◌∷◌, ◌++◌, arith, eq_iff, if◌then◌else◌, keep_if,
  any, string_key, nat_key, pair_key, ◌==◌, list_key,
}
use ruscker.Spec.{Spec}
use ruscker.Catalog.{contains, without_shadowed, effective_specs}

abbrev pub under : String → List Spec → List Spec
under id specs = keep_if (λ s. s.id == id) specs

under-append :
    (id : String) (rows file : List Spec) → under id (rows ++ file) ≡ under id rows ++ under id file
under-append id [] file = refl
under-append id (s ∷ rows) file = ground (arith, under-append id rows file)

under-none : (id : String) (rows : List Spec) → contains rows id ≡ false → under id rows ≡ []
under-none id [] h = refl
under-none id (s ∷ rows) h = ground (arith, under-none id rows)

append-[] : (specs : List Spec) → specs ++ [] ≡ specs
append-[] [] = refl
append-[] (s ∷ specs) = rw (append-[] specs) refl

under-without_shadowed :
    (id : String) (rows file : List Spec)
    → under id (without_shadowed rows file) ≡ (if contains rows id then [] else under id file)
under-without_shadowed id rows [] = ground arith
under-without_shadowed id rows (s ∷ file) =
    ground (arith, eq_iff s.id id, under-without_shadowed id rows file)

-- When the database lists its rows, the catalog holds under each id exactly the database's rows
-- with that id, in their order, if there is one, and else exactly the file's specs with it, in
-- theirs: a spec of the file is hidden by any row with its id, and no other is lost.
pub effective_specs-under :
    (rows file : List Spec) (id : String)
    → keep_if (λ s. s.id == id) (effective_specs (some (some rows)) file) ≡ (
        if any (λ s. s.id == id) rows
        then keep_if (λ s. s.id == id) rows
        else keep_if (λ s. s.id == id) file)
unfolding effective_specs
effective_specs-under rows file id =
    under-append id rows (without_shadowed rows file)
    ∙ rw (under-without_shadowed id rows file)
        (ground (arith, under-none id rows, append-[] (under id rows)))
