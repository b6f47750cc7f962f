-- ===== src/Lockscreen.antt =====
-- agent/source/lockscreen.cpp: what the unlock thread does to the virtual pad. The waits are not
-- modelled; each nudge of the loop finds an application running or not.
pub mod Presses
use switch_mcp.Base.{
  ℕ, zero, suc, ◌*◌, ◌%◌, ◌^◌, Bool, true, false, not, ◌&&◌, List, [], ◌∷◌, ◌++◌, Option, none,
  some, ltb, ◌==◌, if◌then◌else◌,
}
use switch_mcp.Wire.Words.{widen}
use switch_mcp.Agent.{AgentConfig, Tier, control, tier_value}

abbrev pub presses : ℕ
presses = 3

-- A call on the virtual pad.
pub data PadCall : Type 0 where
  hold_b let_go release : PadCall

-- `PressB`; the flag is what `vpad::Ensure` returns.
abbrev pub press_b : Bool → List PadCall
press_b ensured = if ensured then hold_b ∷ let_go ∷ [] else []

-- `ApplicationRunning`, from the process id or the failure of the call.
abbrev pub application_running : Option ℕ → Bool
application_running none = false
application_running (some pid) = not (pid == 0)

-- The loop of the presses after the boot.
unfoldable pub boot_presses : ℕ → Bool → List PadCall
boot_presses zero ensured = []
boot_presses (suc k) ensured = press_b ensured ++ boot_presses k ensured

-- The loop of the nudges.
unfoldable pub nudges : Bool → List (Option ℕ) → List PadCall
nudges ensured [] = []
nudges ensured (application ∷ rest) =
    if application_running application
    then nudges ensured rest
    else press_b ensured ++ release ∷ nudges ensured rest

-- `Worker`, for so many nudges as there are looks at the application.
unfoldable pub worker : Bool → ℕ → List (Option ℕ) → List PadCall
worker ensured keep_awake_ns looks =
    boot_presses presses ensured
    ++ release ∷ (if keep_awake_ns == 0 then [] else nudges ensured looks)

-- `g_keep_awake_ns`
abbrev pub keep_awake_ns_of : AgentConfig → ℕ
keep_awake_ns_of cfg = (widen cfg.keep_awake_minutes * 60 * 1000000000) % 2 ^ 64

-- `ScheduleUnlock`: the worker's calls, if it is started. The flags are `g_started`, and whether the
-- thread can be created and started.
unfoldable pub schedule_unlock : Bool → Bool → AgentConfig → Bool → List (Option ℕ) → List PadCall
schedule_unlock started threads cfg ensured looks =
    if started
    then []
    else if not cfg.clear_lockscreen_on_boot && (cfg.keep_awake_minutes == 0)
    then []
    else if ltb (tier_value cfg.tier) (tier_value control)
    then []
    else if not threads
    then []
    else worker ensured (keep_awake_ns_of cfg) looks
