-- ===== src/AccessCounter.antt =====
-- The in-memory access counter in front of the database
-- (crates/ruscker-admin/src/access_counter.rs). A delta is a number: an i64 that a process reaches
-- by counting up from zero. A flush is its critical sections: it takes the buffer, writes one bucket
-- after the other, and merges the rest back at the first refusal; accesses are counted in between.
pub mod Account
use ruscker.Prelude.{
  ℕ, ◌+◌, ◌%◌, String, Bool, true, false, ◌&&◌, not, List, [], ◌∷◌, ◌++◌, leb, if◌then◌else◌,
  is_some, unwrap_or, length, string_key, nat_key, pair_key, list_key,
}
use ruscker.Prelude.Assoc

abbrev pub max_pending_keys : ℕ
max_pending_keys = 4096

abbrev pub u64_mod : ℕ
u64_mod = 18446744073709551616

-- A spec and a day.
abbrev pub Bucket : Type 0
Bucket = String × String

abbrev pub Deltas : Type 0
Deltas = List (Bucket × ℕ)

pub record AccessCounter : Type 0 where
  pub pending : Deltas
  pub dropped : ℕ
  pub flush_failures : ℕ

-- `*entry(key).or_insert(0) += delta`.
abbrev pub add_delta : Bucket → ℕ → Deltas → Deltas
add_delta key delta m = Assoc.insert key (unwrap_or (Assoc.lookup key m) 0 + delta) m

unfoldable pub bump : Bucket → AccessCounter → AccessCounter
bump key c =
    if leb max_pending_keys (length c.pending) && not (is_some (Assoc.lookup key c.pending))
    then record c { dropped = (c.dropped + 1) % u64_mod }
    else record c { pending = add_delta key 1 c.pending }

abbrev pub merge_back : Deltas → Deltas → Deltas
merge_back [] pending = pending
merge_back ((key, delta) ∷ deltas) pending = merge_back deltas (add_delta key delta pending)

-- The counter, the buckets that a flush has still to write, and the deltas in the database.
pub record Drain : Type 0 where
  pub counter : AccessCounter
  pub entries : Deltas
  pub persisted : Deltas

pub data Event : Type 0 where
  access : Bucket → Event
  flush_starts bucket_written bucket_refused : Event

-- `mem::take`, by the only drain task: never while a flush is under way.
abbrev pub take_pending : Deltas → Drain → Drain
take_pending [] d = record d {
  counter = record d.counter { pending = [] };
  entries = d.counter.pending;
}
take_pending (e ∷ es) d = d

abbrev pub write_next : Deltas → Drain → Drain
write_next [] d = d
write_next (e ∷ es) d = record d { entries = es; persisted = e ∷ d.persisted }

-- What the flush has not written, the refused bucket included, goes back.
abbrev pub give_up : Deltas → Drain → Drain
give_up [] d = d
give_up (e ∷ es) d = record d {
  counter = record d.counter {
    pending = merge_back (es ++ e ∷ []) d.counter.pending;
    flush_failures = (d.counter.flush_failures + 1) % u64_mod;
  };
  entries = [];
}

unfoldable pub handle : Event → Drain → Drain
handle (access key) d = record d { counter = bump key d.counter }
handle flush_starts d = take_pending d.entries d
handle bucket_written d = write_next d.entries d
handle bucket_refused d = give_up d.entries d

pub handle_all : List Event → Drain → Drain
handle_all [] d = d
handle_all (e ∷ es) d = handle_all es (handle e d)

-- A whole flush with nothing in between, for the answers of the database.
abbrev pub flush_entries : (Bucket → ℕ → Bool) → Deltas → Drain → Drain
flush_entries accepts [] d = d
flush_entries accepts ((key, delta) ∷ es) d = elim (accepts key delta) [
  | true ↦ flush_entries accepts es (handle bucket_written d)
  | false ↦ handle bucket_refused d
]

unfoldable pub flush : (Bucket → ℕ → Bool) → Drain → Drain
flush accepts d = flush_entries accepts d.counter.pending (handle flush_starts d)
