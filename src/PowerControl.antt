-- ===== src/PowerControl.antt =====
-- The power transitions of agent/source/handlers/power.cpp: `SchedulePowerAction`, its thread, and
-- the handlers that call it; the clocks and the sleep plans. What the services return is a parameter.
pub mod Transitions
use switch_mcp.Base.{
  ℕ, ◌%◌, ◌^◌, Bool, true, false, List, [], ◌∷◌, String, Option, none, some, ◌==◌, if◌then◌else◌,
  Bytes, codes,
}
use switch_mcp.Json.Value.{
  Value, boolean, int, string, get, has, set, as_int, as_bool, empty_object,
}
use switch_mcp.Wire.Words.{to_i32, widen}
use switch_mcp.Agent.{Request, Reply, empty_reply, field_of, put, refuse, Answer, or_return}

pub data PowerAction : Type 0 where
  reboot shutdown : PowerAction

-- `g_pending_action`, and `started` of `SchedulePowerAction`.
pub record Pending : Type 0 where
  pub pending_action : PowerAction
  pub started : Bool

abbrev pub nothing_pending : Pending
nothing_pending = record { pending_action = reboot; started = false }

-- `SchedulePowerAction`; the flag is whether the thread can be created and started.
unfoldable pub schedule : PowerAction → Bool → Pending → Bool × Pending
schedule action threads p =
    if p.started
    then (true, p)
    else if threads
    then (true, record { pending_action = action; started = true })
    else (false, record p { pending_action = action })

-- What `PowerThread` does, if it has been started.
abbrev pub power_thread : Pending → Option PowerAction
power_thread p = if p.started then some p.pending_action else none

-- The handlers that schedule a transition.
pub data PowerCommand : Type 0 where
  reboot_command shutdown_command reboot_to_payload agent_restart : PowerCommand

abbrev pub action_of : PowerCommand → PowerAction
action_of shutdown_command = shutdown
action_of command = reboot

abbrev pub note_of : PowerCommand → Bytes
note_of reboot_command = codes "rebooting in ~500ms"
note_of shutdown_command = codes "powering off in ~500ms"
note_of reboot_to_payload = codes "plain reboot (bpc:ams payload reboot not wired up yet)"
note_of agent_restart = codes "rebooting to reload the agent"

abbrev pub refusal_of : PowerCommand → Answer
refusal_of shutdown_command = refuse "bpc_failed" "could not schedule shutdown"
refusal_of command = refuse "bpc_failed" "could not schedule reboot"

-- `Reboot`, `Shutdown`, `RebootToPayload` and `AgentRestart`
unfoldable pub power_command : PowerCommand → Bool → Pending → Answer × Pending
power_command command threads p =
    let (scheduled, p') = schedule (action_of command) threads p in
    if scheduled
    then ((true, put "note" (string (note_of command)) (put "ok" (boolean true) empty_reply)), p')
    else (refusal_of command, p')

-- The modules of `SetClocks`.
pub data PcvModule : Type 0 where
  cpu_bus gpu emc : PcvModule

abbrev pub clock_modules : List (Bytes × PcvModule)
clock_modules = (codes "cpu_hz", cpu_bus) ∷ (codes "gpu_hz", gpu) ∷ (codes "emc_hz", emc) ∷ []

-- The loop of `SetClocks`: what is applied, and the calls of `pcvSetClockRate`, which `works` answers.
unfoldable pub apply_clocks :
    (PcvModule → ℕ → Bool)
    → Request
    → List (Bytes × PcvModule)
    → Value
    → Value × List (PcvModule × ℕ)
apply_clocks works req [] applied = (applied, [])
apply_clocks works req ((key, pcv) ∷ rest) applied =
    let hz = to_i32 (as_int (get req.msg key) 0) in
    let skipped = apply_clocks works req rest applied in
    let set_one = apply_clocks works req rest (set applied key (int hz)) in
    if has req.msg key
    then if hz == 0
      then skipped
      else if works pcv hz
      then (set_one.0, (pcv, hz) ∷ set_one.1)
      else (skipped.0, (pcv, hz) ∷ skipped.1)
    else skipped

-- `SetClocks`
unfoldable pub set_clocks : (PcvModule → ℕ → Bool) → Request → Answer × List (PcvModule × ℕ)
set_clocks works req =
    let (applied, calls) = apply_clocks works req clock_modules empty_object in
    if req.cfg.allow_overclock
    then ((true, put "applied" applied (put "ok" (boolean true) empty_reply)), calls)
    else (refuse "disabled" "clock control disabled in config", [])

-- The plans of `SetSysSleepSettings`, as 32-bit patterns.
pub record SleepSettings : Type 0 where
  pub handheld_sleep_plan : ℕ
  pub console_sleep_plan : ℕ

-- The plans that a request asks for; `never` are the two enumerators for no sleep.
unfoldable pub asked_sleep : SleepSettings → Request → SleepSettings → SleepSettings
asked_sleep never req s = if as_bool (field_of req "disable") true then never else record {
  handheld_sleep_plan =
      if has req.msg (codes "handheld_plan")
      then to_i32 (as_int (field_of req "handheld_plan") 0)
      else s.handheld_sleep_plan;
  console_sleep_plan =
      if has req.msg (codes "console_plan")
      then to_i32 (as_int (field_of req "console_plan") 0)
      else s.console_sleep_plan;
}

-- `SetSleep`: its answer, and the settings that it writes; the flag is whether writing succeeds.
unfoldable pub set_sleep :
    SleepSettings → Option SleepSettings → Bool → Request → Answer × Option SleepSettings
set_sleep never current works req =
    or_return current (refuse "setsys_failed" "cannot read sleep settings", none)
      (λ s.
        let asked = asked_sleep never req s in
        if works
        then (
          (
            true,
            put "console_sleep_plan" (int (widen asked.console_sleep_plan)) (
                put "handheld_sleep_plan" (int (widen asked.handheld_sleep_plan))
                  (put "ok" (boolean true) empty_reply)),
          ),
          some asked,
        )
        else (refuse "setsys_failed" "cannot write sleep settings", some asked))
