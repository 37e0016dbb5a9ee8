-- ===== src/Alerts/Cooldown.antt =====
-- One alert of a kind per spec and cooldown window, whatever else is reported in between.
use ruscker.Prelude.{
  ℕ, ◌+◌, String, ◌≡◌, refl, ◌∙◌, inl, inr, true, false, some, List, [], ◌∷◌, ◌++◌, arith,
  if◌then◌else◌, Bool-cases, count_if, count_if-append, All, ◌==◌, nat_key, string_key,
  same_pair_iff, pair_key,
}
use ruscker.Prelude.Assoc
use ruscker.Alerts.{
  AlertSink, AlertEvent, AlertKind, kind_key, fresh_alert, remembered, notify, is_test,
}

abbrev key_of : AlertEvent → AlertKind × String
key_of ev = (ev.kind, ev.spec)

-- The last alert under a key is still inside its window at `now`.
abbrev pub IsQuiet : AlertKind × String → ℕ → AlertSink → Type 0
IsQuiet key last sink = Assoc.lookup key sink.recent ≡ some last

lookup-retain :
    (key : AlertKind × String) (now last : ℕ) (m : List ((AlertKind × String) × ℕ))
    → fresh_alert now last ≡ true
    → Assoc.lookup key m ≡ some last
    → Assoc.lookup key (Assoc.retain (λ _ t. fresh_alert now t) m) ≡ some last
lookup-retain key now last [] f h = absurd (ground arith)
lookup-retain key now last ((k, t) ∷ m) f h = elim (Bool-cases (k == key)) [
  | inl e ↦ ground arith
  | inr e ↦ ground (arith, lookup-retain key now last m f)
]

-- The alerts under a key that wait in the queue.
abbrev pub queued : AlertKind × String → AlertSink → ℕ
queued key sink = count_if (λ ev. key_of ev == key) sink.queue

-- The calls of `notify`, each with the time it is made at.
unfoldable pub notify_all : List (ℕ × AlertEvent) → AlertSink → AlertSink
unfolding notify
notify_all [] sink = sink
notify_all ((now, ev) ∷ evs) sink = notify_all evs (notify now ev sink).0

remembered-IsQuiet :
    (key : AlertKind × String) (now last : ℕ) (ev : AlertEvent) (sink : AlertSink)
    → fresh_alert now last ≡ true
    → (key_of ev == key) ≡ false
    → IsQuiet key last sink
    → IsQuiet key last (remembered now ev sink)
remembered-IsQuiet key now last ev sink f k h =
    lookup-retain key now last (Assoc.insert (key_of ev) now sink.recent) f
      (ground (arith, Assoc.lookup-insert (key_of ev) key now sink.recent))

queued-append :
    (key : AlertKind × String) (ev : AlertEvent) (queue : List AlertEvent)
    → count_if (λ e. key_of e == key) (queue ++ ev ∷ [])
      ≡ count_if (λ e. key_of e == key) queue + (if key_of ev == key then 1 else 0)
queued-append key ev queue = omega (arith, count_if-append (λ e. key_of e == key) queue (ev ∷ []))

-- What one call leaves of a quiet key: its window, and its alerts in the queue.
notify-IsQuiet :
    (key : AlertKind × String) (now last : ℕ) (ev : AlertEvent) (sink : AlertSink)
    → is_test key.0 ≡ false
    → fresh_alert now last ≡ true
    → IsQuiet key last sink
    → IsQuiet key last (notify now ev sink).0
      × (queued key (notify now ev sink).0 ≡ queued key sink)
unfolding notify
notify-IsQuiet key now last ev sink n f h = elim (Bool-cases (key_of ev == key)) [
  | inl e ↦
      let same : key_of ev ≡ key =
        (same_pair_iff ⦃e = kind_key⦄ ⦃f = string_key⦄ (key_of ev) key).0 e in
      (ground arith, ground arith)
  | inr e ↦ (
    ground (arith, remembered-IsQuiet key now last ev sink f e h),
    ground (arith, queued-append key ev sink.queue),
  )
]

-- While the window of the last alert under a kind (other than the test kind) and a spec runs, no
-- call of `notify` queues another alert under them, whatever other alerts are reported in between.
pub notify_all-queued :
    (key : AlertKind × String) (last : ℕ) (evs : List (ℕ × AlertEvent)) (sink : AlertSink)
    → is_test key.0 ≡ false
    → All (λ call. fresh_alert call.0 last ≡ true) evs
    → IsQuiet key last sink
    → queued key (notify_all evs sink) ≡ queued key sink
unfolding notify_all
notify_all-queued key last [] sink n f h = refl
notify_all-queued key last ((now, ev) ∷ evs) sink n f h =
    let (quiet, same) = notify-IsQuiet key now last ev sink n f.0 h in
    notify_all-queued key last evs (notify now ev sink).0 n f.1 quiet ∙ same
