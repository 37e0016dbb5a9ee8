-- ===== src/AccessCounter/Account.antt =====
-- No access is counted twice, and none is lost but those that the counter reports as dropped.
use ruscker.Prelude.{
  ℕ, ◌+◌, ◌≤◌, ◌<◌, ◌≡◌, refl, List, [], ◌∷◌, ◌++◌, arith, if◌then◌else◌, string_key, nat_key,
  same_pair_iff, pair_key, ◌==◌, list_key,
}
use ruscker.AccessCounter.{
  u64_mod, Bucket, Deltas, AccessCounter, add_delta, bump, merge_back, Drain, Event, access,
  flush_starts, bucket_written, bucket_refused, take_pending, write_next, give_up, handle,
  handle_all,
}

abbrev pub total : Deltas → ℕ
total [] = 0
total ((key, delta) ∷ m) = delta + total m

abbrev pub amount : Bucket → Deltas → ℕ
amount k [] = 0
amount k ((key, delta) ∷ m) = (if key == k then delta else 0) + amount k m

total-append : (m n : Deltas) → total (m ++ n) ≡ total m + total n
total-append [] n = omega arith
total-append ((k, d) ∷ m) n = omega (arith, total-append m n)

amount-append : (k : Bucket) (m n : Deltas) → amount k (m ++ n) ≡ amount k m + amount k n
amount-append k [] n = omega arith
amount-append k ((j, d) ∷ m) n = omega (arith, amount-append k m n)

total-add_delta : (k : Bucket) (d : ℕ) (m : Deltas) → total (add_delta k d m) ≡ total m + d
total-add_delta k d [] = ground arith
total-add_delta k d ((j, e) ∷ m) = ground (arith, total-add_delta k d m)

amount-add_delta :
    (k j : Bucket) (d : ℕ) (m : Deltas)
    → amount k (add_delta j d m) ≡ amount k m + (if j == k then d else 0)
amount-add_delta k j d [] = ground arith
amount-add_delta k j d ((i, e) ∷ m) =
    ground
      (arith, same_pair_iff i j, same_pair_iff i k, same_pair_iff j k, amount-add_delta k j d m)

total-merge_back : (m n : Deltas) → total (merge_back m n) ≡ total m + total n
total-merge_back [] n = omega arith
total-merge_back ((k, d) ∷ m) n =
    omega (arith, total-merge_back m (add_delta k d n), total-add_delta k d n)

amount-merge_back :
    (k : Bucket) (m n : Deltas) → amount k (merge_back m n) ≡ amount k m + amount k n
amount-merge_back k [] n = omega arith
amount-merge_back k ((j, d) ∷ m) n =
    ground (arith, amount-merge_back k m (add_delta j d n), amount-add_delta k j d n)

-- All that is counted, in the buffer, in a flush under way and in the database.
abbrev pub counted : Drain → ℕ
counted d = total d.persisted + total d.entries + total d.counter.pending

abbrev pub counted_for : Bucket → Drain → ℕ
counted_for k d = amount k d.persisted + amount k d.entries + amount k d.counter.pending

abbrev pub accesses : List Event → ℕ
accesses [] = 0
accesses (access key ∷ es) = 1 + accesses es
accesses (flush_starts ∷ es) = accesses es
accesses (bucket_written ∷ es) = accesses es
accesses (bucket_refused ∷ es) = accesses es

abbrev pub accesses_of : Bucket → List Event → ℕ
accesses_of k [] = 0
accesses_of k (access key ∷ es) = (if key == k then 1 else 0) + accesses_of k es
accesses_of k (flush_starts ∷ es) = accesses_of k es
accesses_of k (bucket_written ∷ es) = accesses_of k es
accesses_of k (bucket_refused ∷ es) = accesses_of k es

total-bump :
    (key : Bucket) (c : AccessCounter)
    → c.dropped + 1 < u64_mod
    → total (bump key c).pending + (bump key c).dropped ≡ total c.pending + c.dropped + 1
unfolding bump
total-bump key c h = ground (arith, total-add_delta key 1 c.pending)

amount-bump :
    (k key : Bucket) (c : AccessCounter)
    → amount k (bump key c).pending ≤ amount k c.pending + (if key == k then 1 else 0)
unfolding bump
amount-bump k key c = ground (arith, amount-add_delta k key 1 c.pending)

counted-take_pending :
    (es : Deltas) (d : Drain) → es ≡ d.entries → counted (take_pending es d) ≡ counted d
counted-take_pending [] d h = rw (← h) (omega arith)
counted-take_pending (e ∷ es) d h = refl

counted-write_next :
    (es : Deltas) (d : Drain) → es ≡ d.entries → counted (write_next es d) ≡ counted d
counted-write_next [] d h = refl
counted-write_next ((k, n) ∷ es) d h = rw (← h) (omega arith)

counted-give_up : (es : Deltas) (d : Drain) → es ≡ d.entries → counted (give_up es d) ≡ counted d
counted-give_up [] d h = refl
counted-give_up ((k, n) ∷ es) d h = rw (← h) (
    omega (
      arith,
      total-merge_back (es ++ (k, n) ∷ []) d.counter.pending,
      total-append es ((k, n) ∷ []),
    ))

dropped-take_pending :
    (es : Deltas) (d : Drain) → (take_pending es d).counter.dropped ≡ d.counter.dropped
dropped-take_pending [] d = refl
dropped-take_pending (e ∷ es) d = refl

dropped-write_next :
    (es : Deltas) (d : Drain) → (write_next es d).counter.dropped ≡ d.counter.dropped
dropped-write_next [] d = refl
dropped-write_next (e ∷ es) d = refl

dropped-give_up : (es : Deltas) (d : Drain) → (give_up es d).counter.dropped ≡ d.counter.dropped
dropped-give_up [] d = refl
dropped-give_up (e ∷ es) d = refl

dropped-bump : (key : Bucket) (c : AccessCounter) → (bump key c).dropped ≤ c.dropped + 1
unfolding bump
dropped-bump key c = ground arith

dropped-handle :
    (e : Event) (d : Drain) → (handle e d).counter.dropped ≤ d.counter.dropped + accesses (e ∷ [])
unfolding handle
dropped-handle (access key) d = omega (arith, dropped-bump key d.counter)
dropped-handle flush_starts d = omega (arith, dropped-take_pending d.entries d)
dropped-handle bucket_written d = omega (arith, dropped-write_next d.entries d)
dropped-handle bucket_refused d = omega (arith, dropped-give_up d.entries d)

-- What one event adds to the account.
counted-handle :
    (e : Event) (d : Drain)
    → d.counter.dropped + accesses (e ∷ []) < u64_mod
    → counted (handle e d) + (handle e d).counter.dropped
      ≡ counted d + d.counter.dropped + accesses (e ∷ [])
unfolding handle
counted-handle (access key) d h = omega (arith, total-bump key d.counter)
counted-handle flush_starts d h =
    omega (arith, counted-take_pending d.entries d refl, dropped-take_pending d.entries d)
counted-handle bucket_written d h =
    omega (arith, counted-write_next d.entries d refl, dropped-write_next d.entries d)
counted-handle bucket_refused d h =
    omega (arith, counted-give_up d.entries d refl, dropped-give_up d.entries d)

module _ (k : Bucket) where
  for-take_pending :
      (es : Deltas) (d : Drain)
      → es ≡ d.entries
      → counted_for k (take_pending es d) ≡ counted_for k d
  for-take_pending [] d h = rw (← h) (omega arith)
  for-take_pending (e ∷ es) d h = refl

  for-write_next :
      (es : Deltas) (d : Drain) → es ≡ d.entries → counted_for k (write_next es d) ≡ counted_for k d
  for-write_next [] d h = refl
  for-write_next ((j, n) ∷ es) d h = rw (← h) (omega arith)

  for-give_up :
      (es : Deltas) (d : Drain) → es ≡ d.entries → counted_for k (give_up es d) ≡ counted_for k d
  for-give_up [] d h = refl
  for-give_up ((j, n) ∷ es) d h = rw (← h) (
      omega (
        arith,
        amount-merge_back k (es ++ (j, n) ∷ []) d.counter.pending,
        amount-append k es ((j, n) ∷ []),
      ))

  counted_for-handle :
      (e : Event) (d : Drain)
      → counted_for k (handle e d) ≤ counted_for k d + accesses_of k (e ∷ [])
  unfolding handle
  counted_for-handle (access key) d = omega (arith, amount-bump k key d.counter)
  counted_for-handle flush_starts d = omega (arith, for-take_pending d.entries d refl)
  counted_for-handle bucket_written d = omega (arith, for-write_next d.entries d refl)
  counted_for-handle bucket_refused d = omega (arith, for-give_up d.entries d refl)

accesses-cons : (e : Event) (es : List Event) → accesses (e ∷ es) ≡ accesses (e ∷ []) + accesses es
accesses-cons (access key) es = omega arith
accesses-cons flush_starts es = omega arith
accesses-cons bucket_written es = omega arith
accesses-cons bucket_refused es = omega arith

accesses_of-cons :
    (k : Bucket) (e : Event) (es : List Event)
    → accesses_of k (e ∷ es) ≡ accesses_of k (e ∷ []) + accesses_of k es
accesses_of-cons k (access key) es = omega arith
accesses_of-cons k flush_starts es = omega arith
accesses_of-cons k bucket_written es = omega arith
accesses_of-cons k bucket_refused es = omega arith

handle_all-total :
    (es : List Event) (d : Drain)
    → d.counter.dropped + accesses es < u64_mod
    → counted (handle_all es d) + (handle_all es d).counter.dropped
      ≡ counted d + d.counter.dropped + accesses es
unfolding handle_all
handle_all-total [] d h = omega arith
handle_all-total (e ∷ es) d h = omega (
  arith,
  counted-handle e d,
  accesses-cons e es,
  dropped-handle e d,
  handle_all-total es (handle e d),
)

handle_all-counted_for :
    (es : List Event) (d : Drain) (k : Bucket)
    → counted_for k (handle_all es d) ≤ counted_for k d + accesses_of k es
unfolding handle_all
handle_all-counted_for [] d k = omega arith
handle_all-counted_for (e ∷ es) d k = omega (
  arith,
  counted_for-handle k e d,
  accesses_of-cons k e es,
  handle_all-counted_for es (handle e d) k,
)

-- In any sequence of accesses, flushes, accepted and refused writes, all accesses are in the
-- buffer, in the flush under way or in the database, but those that the counter reports as
-- dropped; and no bucket has more than its accesses. The dropped count stays below 2^64.
pub handle_all-counted :
    (es : List Event) (d : Drain)
    → d.counter.dropped + accesses es < u64_mod
    → (counted (handle_all es d) + (handle_all es d).counter.dropped
        ≡ counted d + d.counter.dropped + accesses es)
      × ((k : Bucket) → counted_for k (handle_all es d) ≤ counted_for k d + accesses_of k es)
handle_all-counted es d h = (handle_all-total es d h, handle_all-counted_for es d)
