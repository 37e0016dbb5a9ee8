-- ===== src/Forward/Headers/Laws.antt =====
-- The header map as a multimap: what each operation does to the values of a name.
use ruscker.Prelude.{
  ◌≡◌, [], ◌∷◌, ◌++◌, arith, if◌then◌else◌, string_key, nat_key, pair_key, ◌==◌, same_list_iff,
  list_key,
}
use ruscker.Prelude.Text.{Text}
use ruscker.Forward.Headers.{HeaderMap, get_all, remove, insert, append}

pub get_all-remove :
    (k j : Text) (hs : HeaderMap) → get_all j (remove k hs) ≡ (if k == j then [] else get_all j hs)
get_all-remove k j [] = ground arith
get_all-remove k j ((n, v) ∷ hs) =
    ground (arith, same_list_iff k j, same_list_iff n k, same_list_iff n j, get_all-remove k j hs)

pub get_all-append :
    (k j : Text) (v : Text) (hs : HeaderMap)
    → get_all j (append k v hs) ≡ (if k == j then get_all j hs ++ v ∷ [] else get_all j hs)
get_all-append k j v [] = ground arith
get_all-append k j v ((n, w) ∷ hs) = ground (arith, get_all-append k j v hs)

pub get_all-insert :
    (k j : Text) (v : Text) (hs : HeaderMap)
    → get_all j (insert k v hs) ≡ (if k == j then v ∷ [] else get_all j hs)
get_all-insert k j v hs = ground (arith, get_all-append k j v (remove k hs), get_all-remove k j hs)
