-- ===== src/Alerts.antt =====
-- The alert sink (crates/ruscker-admin/src/alerts.rs, `AlertSink`): a bounded queue behind a
-- cooldown per kind and spec. The queue is the list of events that were sent and not received yet;
-- the text of an alert is left out.
pub mod Cooldown
use ruscker.Prelude.{
  ℕ, ◌-◌, String, ◌≡◌, ◌↔◌, Bool, true, false, Option, none, some, List, [], ◌∷◌, ◌++◌, arith, ltb,
  if◌then◌else◌, length, Key, ◌==◌, nat_key, string_key, pair_key,
}
use ruscker.Prelude.Assoc

pub data AlertKind : Type 0 where
  spawn_failed replica_down saturated job_failed test : AlertKind

pub record AlertEvent : Type 0 where
  pub kind : AlertKind
  pub spec : String
  pub replica : Option ℕ

abbrev kind_code : AlertKind → ℕ
kind_code spawn_failed = 0
kind_code replica_down = 1
kind_code saturated = 2
kind_code job_failed = 3
kind_code test = 4

pub same_kind_iff : (a b : AlertKind) → ((kind_code a == kind_code b) ≡ true) ↔ (a ≡ b)
same_kind_iff spawn_failed b = elim b [
  | spawn_failed ↦ ground arith
  | replica_down ↦ ground arith
  | saturated ↦ ground arith
  | job_failed ↦ ground arith
  | test ↦ ground arith
]
same_kind_iff replica_down b = elim b [
  | spawn_failed ↦ ground arith
  | replica_down ↦ ground arith
  | saturated ↦ ground arith
  | job_failed ↦ ground arith
  | test ↦ ground arith
]
same_kind_iff saturated b = elim b [
  | spawn_failed ↦ ground arith
  | replica_down ↦ ground arith
  | saturated ↦ ground arith
  | job_failed ↦ ground arith
  | test ↦ ground arith
]
same_kind_iff job_failed b = elim b [
  | spawn_failed ↦ ground arith
  | replica_down ↦ ground arith
  | saturated ↦ ground arith
  | job_failed ↦ ground arith
  | test ↦ ground arith
]
same_kind_iff test b = elim b [
  | spawn_failed ↦ ground arith
  | replica_down ↦ ground arith
  | saturated ↦ ground arith
  | job_failed ↦ ground arith
  | test ↦ ground arith
]

instance abbrev pub kind_key : Key AlertKind
kind_key = record { same = λ a b. kind_code a == kind_code b; same_iff = same_kind_iff }

abbrev pub is_test : AlertKind → Bool
is_test test = true
is_test _ = false

abbrev pub alert_cooldown : ℕ
alert_cooldown = 900000000000

abbrev pub queue_depth : ℕ
queue_depth = 64

pub record AlertSink : Type 0 where
  pub queue : List AlertEvent
  pub recent : List ((AlertKind × String) × ℕ)

-- `try_send`: the event goes behind the others, or the queue is full.
abbrev pub try_send : AlertEvent → AlertSink → AlertSink × Bool
try_send ev sink =
    if ltb (length sink.queue) queue_depth
    then (record sink { queue = sink.queue ++ ev ∷ [] }, true)
    else (sink, false)

abbrev pub fresh_alert : ℕ → ℕ → Bool
fresh_alert now t = ltb (now - t) alert_cooldown

abbrev pub suppressed : ℕ → AlertEvent → AlertSink → Bool
suppressed now ev sink = elim (Assoc.lookup (ev.kind, ev.spec) sink.recent) [
  | none ↦ false
  | some last ↦ fresh_alert now last
]

abbrev pub remembered : ℕ → AlertEvent → AlertSink → AlertSink
remembered now ev sink = record sink {
  recent =
      Assoc.retain (λ _ t. fresh_alert now t) (Assoc.insert (ev.kind, ev.spec) now sink.recent);
}

unfoldable pub notify : ℕ → AlertEvent → AlertSink → AlertSink × Bool
notify now ev sink =
    if is_test ev.kind
    then try_send ev sink
    else if suppressed now ev sink
    then (sink, false)
    else try_send ev (remembered now ev sink)
