-- ===== src/Checks/Debug.antt =====
-- The theorems on the debugger, at concrete inputs.
use switch_mcp.Base.{
  ◌+◌, List, ℕ, ◌-◌, ◌≤◌, ◌≡◌, refl, true, false, [], ◌∷◌, none, some, codes, length, take,
  if◌then◌else◌, ◌==◌,
}
use switch_mcp.Json.Value.{int, object, end, field, find, has, as_int}
use switch_mcp.Wire.Words.{to_i32}
use switch_mcp.Agent.{Request, default_config, field_of}
use switch_mcp.Debug.{HwCall, set_watchpoint}
use switch_mcp.Debug.Watching.{IsArmed, set_watchpoint-IsArmed}
use switch_mcp.Debug.Session.{Target, no_session}
use switch_mcp.Debug.Session.Handles.{
  DebugCommand, Moment, attach_command, break_command, poll_command, run_commands, open_handles,
  held, run_commands-held,
}
use switch_mcp.Debug.Backtrace.{Kernel, walk_frames, max_frames_of}
use switch_mcp.Debug.Backtrace.Links.{Chain, walk_frames-Chain}
use switch_mcp.Debug.Searching.{Memory}

abbrev request : Request
request = record {
  msg = object (field (codes "addr") (int 4100) end);
  payload = [];
  cfg = default_config;
}

no_ctl : has request.msg (codes "ctl") ≡ false
unfolding find
no_ctl = refl

abbrev svc : HwCall → ℕ
svc call = if call.which == 16 then 0 else 60417

set_watchpoint-IsSet_example :
    IsArmed svc request no_ctl
      (as_int (field_of request "addr") 0)
      (to_i32 (as_int (field_of request "size") 4))
      (to_i32 (as_int (field_of request "slot") 0))
      4101
      (set_watchpoint svc true request)
set_watchpoint-IsSet_example = set_watchpoint-IsArmed svc request no_ctl true 4101

-- Two frames, at 4096 and at 4160.
abbrev kernel : Kernel
kernel = record {
  threads = some (7 ∷ []);
  context = λ tid. some (record { pc = 64; lr = 68; fp = 4096 });
  read_pair =
      λ fp. if fp == 4096 then some (4160, 72) else if fp == 4160 then some (0, 76) else none;
}

walk_frames-Chain_example :
    let frames = walk_frames kernel (max_frames_of request - 1) 4096 0 in
    Chain kernel 4096 0 frames × (length frames ≤ 63)
walk_frames-Chain_example = walk_frames-Chain kernel request 4096

-- One writable region, of five bytes, and another behind it that cannot be written.
abbrev memory : Memory
memory = record {
  query = λ addr. some (
      if addr == 0
      then record { addr = 0; size = 5; is_mapped = true; is_writable = true }
      else record { addr = 5; size = 3; is_mapped = true; is_writable = false });
  read = λ addr n. some (take n (1 ∷ 2 ∷ 1 ∷ 2 ∷ 1 ∷ []));
}

-- A process can be debugged unless its id is 9.
abbrev target : Target
target = record {
  debug_active = λ pid. if pid == 9 then none else some (pid + 100);
  foreground = some 8;
  query = λ addr. none;
  breaks = true;
}

abbrev debug_commands : List (DebugCommand × Moment)
debug_commands =
    (attach_command request, (target, []))
    ∷ (break_command, (target, []))
    ∷ (attach_command request, (target, []))
    ∷ (poll_command request, (target, []))
    ∷ []

run_commands-held_example :
    open_handles (run_commands debug_commands no_session).1 (held no_session)
    ≡ held ((run_commands debug_commands no_session).0)
run_commands-held_example = run_commands-held debug_commands no_session
