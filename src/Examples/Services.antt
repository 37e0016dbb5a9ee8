-- ===== src/Examples/Services.antt =====
-- Examples of the alert sink, the failure log and the catalog's rules.
use ruscker.Prelude.{
  ◌≡◌, refl, ◌↔◌, true, false, none, some, [], ◌∷◌, arith, string_key, nat_key, pair_key, list_key,
}
use ruscker.Alerts.{AlertSink, saturated, replica_down}
use ruscker.Alerts.Cooldown.{notify_all, notify_all-queued, queued}
use ruscker.FailureLog.{FailureLog}
use ruscker.FailureLog.Rearm.{observe_all, observe_all-quiet}
use ruscker.Spec.Access.{access_allows}
use ruscker.Spec.Allowed.{Allowed, access_allows-Allowed}
use ruscker.Examples.{portal}

abbrev sink : AlertSink
sink = record { queue = []; recent = ((saturated, "portal"), 100) ∷ [] }

-- A saturated portal is reported twice more, a dead replica once in between.
notify_all-queued_example :
    queued
      (saturated, "portal")
      (notify_all
        ((200, record { kind = saturated; spec = "portal"; replica = none })
          ∷ (300, record { kind = replica_down; spec = "portal"; replica = some 1 })
          ∷ (400, record { kind = saturated; spec = "portal"; replica = none })
          ∷ [])
        sink)
    ≡ queued (saturated, "portal") sink
notify_all-queued_example =
    notify_all-queued (saturated, "portal") 100
      ((200, record { kind = saturated; spec = "portal"; replica = none })
        ∷ (300, record { kind = replica_down; spec = "portal"; replica = some 1 })
        ∷ (400, record { kind = saturated; spec = "portal"; replica = none })
        ∷ [])
      sink refl (refl, (refl, (refl, tt))) refl

abbrev failing : FailureLog
failing = ("portal", record { hash = 77; count = 1; next_warn = 500 }) ∷ []

observe_all-quiet_example : observe_all "portal" 77 (100 ∷ 200 ∷ 499 ∷ []) failing ≡ 0
observe_all-quiet_example =
    observe_all-quiet "portal" 77 500 (100 ∷ 200 ∷ 499 ∷ []) failing
      (omega arith, (omega arith, (omega arith, tt)))
      (record { hash = 77; count = 1; next_warn = 500 }, refl, refl, refl)

access_allows-Allowed_example :
    (access_allows portal false none ("staff" ∷ []) ≡ true)
    ↔ Allowed portal false none ("staff" ∷ [])
access_allows-Allowed_example = access_allows-Allowed portal false none ("staff" ∷ [])
