-- ===== src/Checks/Device.antt =====
-- The theorems on the guards and on the power state, at concrete inputs.
use switch_mcp.Base.{◌≡◌, ◌↔◌, refl, arith, true, false, List, [], ◌∷◌, ◌++◌, none, some, codes}
use switch_mcp.Agent.{default_config}
use switch_mcp.Guards.{Guards, Card, Gauges, preflight_checks}
use switch_mcp.Guards.Trail.{IsLow, preflight_checks_iff}
use switch_mcp.Guards.History.{Entry, Keeps, trail, lines, journal_appends, journal_appends-Kept}
use switch_mcp.Power.{
  ready_sleep, awake, PowerState, answer_requests, refused, accept_turn, accept_loop, rebuild,
}
use switch_mcp.Power.Wake.{
  by_awake, here, later, accept_turn-HasWake, failures, accept_loop-failures,
}

abbrev card : Card
card = record { opens = true; renames = λ old. true }

abbrev third_boot : Guards
third_boot = record {
  journal = some (codes "x");
  rotated = none;
  boot_file = some (codes "2");
  boot_count = 2;
}

abbrev entries : List Entry
entries = (7, codes "reboot", codes "ok") ∷ (9, codes "tweak", codes "FAILED") ∷ []

journal_appends-Kept_example :
    Keeps (trail third_boot ++ lines entries) (journal_appends card entries third_boot)
journal_appends-Kept_example = journal_appends-Kept card entries third_boot refl

abbrev gauges : Gauges
gauges = record { charge = some 12; on_charger = some true; free_bytes = none }

preflight_checks_iff_example :
    ((preflight_checks default_config gauges).0 ≡ false) ↔ IsLow (some 12)
preflight_checks_iff_example = preflight_checks_iff default_config gauges

abbrev idle_state : PowerState
idle_state = record { is_asleep = false; woke = false; acknowledged = [] }

accept_turn-HasWake_example :
    accept_turn refused 3 (answer_requests (ready_sleep ∷ awake ∷ []) idle_state)
    ≡ rebuild (record (answer_requests (ready_sleep ∷ awake ∷ []) idle_state) { woke = false })
accept_turn-HasWake_example =
    accept_turn-HasWake (ready_sleep ∷ awake ∷ []) 3 idle_state
      (later ready_sleep (awake ∷ []) (here awake [] by_awake))

accept_loop-failures_example : accept_loop (failures 20) 0 idle_state ≡ rebuild idle_state
accept_loop-failures_example = accept_loop-failures 19 0 idle_state refl refl (omega arith)
