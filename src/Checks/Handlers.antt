-- ===== src/Checks/Handlers.antt =====
-- The theorems on the handlers that drive the console, at concrete inputs.
use switch_mcp.Base.{
  drop, take, ℕ, ◌+◌, ◌≡◌, refl, arith, true, false, List, [], ◌∷◌, none, some, codes, String,
  if◌then◌else◌, Bool, ◌==◌,
}
use switch_mcp.Json.Value.{int, string, object, end, field}
use switch_mcp.Agent.{Request, default_config, AgentConfig, control}
use switch_mcp.Saves.{MountService, SaveState, save_mount, read_only, of_system}
use switch_mcp.Saves.Mounting.{Result, save_mount-Result}
use switch_mcp.Events.{Look, Stick, Start}
use switch_mcp.Lockscreen.{schedule_unlock, keep_awake_ns_of}
use switch_mcp.Lockscreen.Presses.{holds, is_asked, idle_looks, schedule_unlock-holds}
use switch_mcp.Input.Typing.{type_keys}
use switch_mcp.Input.Typing.ReadBack.{IsTyped, type_keys-IsTyped}
use switch_mcp.Titles.{listed_records}
use switch_mcp.Titles.Paging.{listed_records-Pages}
use switch_mcp.PowerControl.{
  shutdown_command, reboot_command, PowerCommand, power_thread, nothing_pending,
}
use switch_mcp.PowerControl.Transitions.{
  power_commands, first_started, power_commands-first_started,
}

abbrev with_text : String → String → Request
with_text key text = record {
  msg = object (field (codes key) (string (codes text)) end);
  payload = [];
  cfg = default_config;
}

-- Only the save of the title 0x1f can be mounted.
abbrev mounts : MountService
mounts = record {
  mount = λ m. (elim m [
    | read_only tid u v ↦ (if tid == 31 then 0 else 514)
    | of_system s i u v ↦ 514
  ]);
  not_found = 514;
}

abbrev mounted_before : SaveState
mounted_before = record { flag = true; device = some (read_only 7 0 0) }

save_mount-Result_example :
    Result mounts mounted_before (save_mount mounts (with_text "tid" "1f") mounted_before)
save_mount-Result_example = save_mount-Result mounts mounted_before (with_text "tid" "1f") refl

abbrev centre : Stick
centre = record { x = 0; y = 0 }

-- The application 5 has started by 400 ms.
abbrev looks : ℕ → Look
looks time = record {
  application = if time == 200 then some 0 else some 5;
  handheld = none;
  full_key = some (record { buttons = 1; left = centre; right = centre });
}

abbrev start : Start
start = record { app = (false, 0); buttons = 0 }

abbrev short_recording : Request
short_recording = record {
  msg = object (field (codes "duration_ms") (int 250) end);
  payload = [];
  cfg = default_config;
}

abbrev awake_config : AgentConfig
awake_config = record default_config { tier = control; clear_lockscreen_on_boot = false }

schedule_unlock-holds_example :
    holds (schedule_unlock false true awake_config true (none ∷ some 5 ∷ some 0 ∷ [])) ≡ (
      if is_asked awake_config
      then 3
        + (if keep_awake_ns_of awake_config == 0
            then 0
            else idle_looks (none ∷ some 5 ∷ some 0 ∷ []))
      else 0)
schedule_unlock-holds_example = schedule_unlock-holds awake_config (none ∷ some 5 ∷ some 0 ∷ [])

type_keys-IsTyped_example :
    IsTyped 2
      (λ n. true)
      40
      0
      (72 ∷ 96 ∷ 33 ∷ [])
      (type_keys 2 (λ n. true) 40 0 (72 ∷ 96 ∷ 33 ∷ []))
type_keys-IsTyped_example =
    type_keys-IsTyped 2 (λ n. true) 40 refl 0 (72 ∷ 96 ∷ 33 ∷ [])
      (omega arith, (omega arith, (omega arith, tt)))

abbrev commands : List (PowerCommand × Bool)
commands = (shutdown_command, false) ∷ (reboot_command, true) ∷ (shutdown_command, true) ∷ []

power_commands-first_started_example :
    power_thread (power_commands commands nothing_pending) ≡ first_started commands
power_commands-first_started_example = power_commands-first_started commands

listed_records-Pages_example :
    listed_records 4 (λ offset. some (take 32 (drop offset (5 ∷ 6 ∷ 7 ∷ [])))) 0 ≡ 5 ∷ 6 ∷ 7 ∷ []
listed_records-Pages_example =
    listed_records-Pages (λ offset. some (take 32 (drop offset (5 ∷ 6 ∷ 7 ∷ [])))) (5 ∷ 6 ∷ 7 ∷ [])
      4 (λ offset. refl) (omega arith)
