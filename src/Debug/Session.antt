-- ===== src/Debug/Session.antt =====
-- The debug session of agent/source/handlers/debug.cpp: attaching, events, resuming and detaching. What
-- the kernel's calls return is a parameter; the calls that change the session are listed in their order.
pub mod Handles
use switch_mcp.Base.{
  ℕ, zero, suc, ◌+◌, ◌%◌, ◌^◌, Bool, true, false, not, ◌||◌, List, [], ◌∷◌, ◌++◌, Option, none,
  some, leb, ◌==◌, if◌then◌else◌, Bytes, codes,
}
use switch_mcp.Json.Value.{
  Value, boolean, int, string, as_bool, as_int, empty_object, empty_array, set, push,
}
use switch_mcp.HexText.{print_hex}
use switch_mcp.Agent.{Request, Reply, empty_reply, field_of, put, refuse, Answer, or_return}

-- `type & 0xFF` of a region.
pub data MemType : Type 0 where
  unmapped io normal code_static code_mutable heap shared_mem module_code_static module_code_mutable
        other_type :
      MemType

-- `MemoryInfo`, with the three bits of its permissions.
pub record MemoryInfo : Type 0 where
  pub addr : ℕ
  pub size : ℕ
  pub type : MemType
  pub perm_r : Bool
  pub perm_w : Bool
  pub perm_x : Bool

-- `MemTypeName`
abbrev pub mem_type_name : MemType → Bytes
mem_type_name unmapped = codes "unmapped"
mem_type_name io = codes "io"
mem_type_name normal = codes "normal"
mem_type_name code_static = codes "code"
mem_type_name code_mutable = codes "code_mutable"
mem_type_name heap = codes "heap"
mem_type_name shared_mem = codes "shared"
mem_type_name module_code_static = codes "module_code"
mem_type_name module_code_mutable = codes "module_code_mutable"
mem_type_name other_type = codes "other"

-- `PermString`
abbrev pub perm_string : MemoryInfo → Bytes
perm_string mi =
    (if mi.perm_r then b'r' else b'-')
    ∷ (if mi.perm_w then b'w' else b'-')
    ∷ (if mi.perm_x then b'x' else b'-')
    ∷ []

pub data DebugException : Type 0 where
  undefined_instruction instruction_abort data_abort alignment_fault debugger_attached breakpoint :
      DebugException
  user_break : ℕ → DebugException
  debugger_break undefined_syscall memory_system_error other_exception : DebugException

pub data EventType : Type 0 where
  create_process create_thread exit_thread unknown_event : EventType
  exit_process : ℕ → EventType
  exception : DebugException → EventType

pub record DebugEvent : Type 0 where
  pub type : EventType
  pub thread_id : ℕ

-- `DebugEventName`
abbrev pub debug_event_name : EventType → Bytes
debug_event_name create_process = codes "create_process"
debug_event_name create_thread = codes "create_thread"
debug_event_name exit_thread = codes "exit_thread"
debug_event_name unknown_event = codes "unknown"
debug_event_name (exit_process reason) = codes "exit_process"
debug_event_name (exception e) = codes "exception"

-- `ExceptionName`
abbrev pub exception_name : DebugException → Bytes
exception_name undefined_instruction = codes "undefined_instruction"
exception_name instruction_abort = codes "instruction_abort"
exception_name data_abort = codes "data_abort"
exception_name alignment_fault = codes "alignment_fault"
exception_name debugger_attached = codes "debugger_attached"
exception_name breakpoint = codes "breakpoint"
exception_name (user_break address) = codes "user_break"
exception_name debugger_break = codes "debugger_break"
exception_name undefined_syscall = codes "undefined_syscall"
exception_name memory_system_error = codes "memory_system_error"
exception_name other_exception = codes "other"

abbrev pub hex_text : ℕ → Value
hex_text n = string (codes "0x" ++ print_hex n)

-- What an event has besides its name and thread.
abbrev pub with_details : EventType → Value → Value
with_details (exception (user_break address)) e =
    set (set e (codes "exception") (string (codes "user_break"))) (codes "address")
      (hex_text address)
with_details (exception x) e = set e (codes "exception") (string (exception_name x))
with_details (exit_process reason) e = set e (codes "reason") (int reason)
with_details t e = e

-- `DrainEvents`, of the events in the queue.
unfoldable pub drain_events : List DebugEvent → Value → Value
drain_events [] arr = arr
drain_events (ev ∷ evs) arr =
    let named = set empty_object (codes "event") (string (debug_event_name ev.type)) in
    drain_events evs
      (push arr (with_details ev.type (set named (codes "thread_id") (int ev.thread_id))))

-- `g_debug`, `none` for the invalid handle, and `g_pid`.
pub record Session : Type 0 where
  pub debug : Option ℕ
  pub pid : ℕ

abbrev pub no_session : Session
no_session = record { debug = none; pid = 0 }

-- The calls that open, close, resume and stop.
pub data SvcCall : Type 0 where
  opened closed continued broke : ℕ → SvcCall

-- `svcDebugActiveProcess`, `pmdmntGetApplicationProcessId`, `svcQueryDebugProcessMemory` and whether
-- `svcBreakDebugProcess` succeeds.
pub record Target : Type 0 where
  pub debug_active : ℕ → Option ℕ
  pub foreground : Option ℕ
  pub query : ℕ → Option MemoryInfo
  pub breaks : Bool

-- A handler's answer, the session behind it, and its calls.
abbrev pub Debugging : Type 0
Debugging = Answer × Session × List SvcCall

abbrev pub is_code : MemType → Bool
is_code code_static = true
is_code module_code_static = true
is_code t = false

-- The loop for the first code region, 0 where none is found.
unfoldable pub main_base : (ℕ → Option MemoryInfo) → ℕ → ℕ → ℕ
main_base query zero addr = 0
main_base query (suc rounds) addr = or_return (query addr) 0 (λ mi.
    let next = (mi.addr + mi.size) % 2 ^ 64 in
    if is_code mi.type then mi.addr else if leb next addr then 0 else main_base query rounds next)

-- The process that `DebugAttach` takes.
abbrev pub process_of : Target → ℕ → Option ℕ
process_of t pid =
    if pid == 0
    then or_return t.foreground none (λ p. if p == 0 then none else some p)
    else some pid

-- Closing the session, if there is one.
abbrev pub close : Session → List SvcCall
close s = or_return s.debug [] (λ h. closed h ∷ [])

abbrev pub attached_reply : Target → ℕ → Bool → Reply
attached_reply t pid pause =
    put "note"
      (string (
        if pause
        then codes "target paused; detach or debug.continue to resume"
        else codes "target running while attached"))
      (put "paused" (boolean pause) (
        put "main_base" (hex_text (main_base t.query 64 0))
          (put "pid" (int pid) (put "ok" (boolean true) empty_reply))))

-- `DebugAttach`. The events that it drains are thrown away.
unfoldable pub attach : Target → Request → Session → Debugging
attach t req s =
    let dropped : Session = record s { debug = none } in
    let pause = as_bool (field_of req "pause") true in
    or_return (process_of t (as_int (field_of req "pid") 0))
      (refuse "no_app" "no pid given and no foreground app", dropped, close s)
      (λ pid.
        or_return (t.debug_active pid)
          (refuse "attach_failed" "svcDebugActiveProcess failed", dropped, close s)
          (λ h. (
            (true, attached_reply t pid pause),
            record { debug = some h; pid = pid },
            close s ++ opened h ∷ (if pause then [] else continued h ∷ []),
          )))

-- `Attached`, and the handler behind it.
abbrev pub with_session : Session → (ℕ → Debugging) → Debugging
with_session s rest =
    or_return s.debug (refuse "not_attached" "no debug session; call debug.attach first", s, [])
      rest

-- `DebugPollEvents`
unfoldable pub poll_events : List DebugEvent → Request → Session → Debugging
poll_events evs req s = with_session s (λ h. (
  (true, put "events" (drain_events evs empty_array) empty_reply),
  s,
  if as_bool (field_of req "resume") true then continued h ∷ [] else [],
))

-- `DebugContinue`
unfoldable pub continue : Session → Debugging
continue s =
    with_session s (λ h. ((true, put "ok" (boolean true) empty_reply), s, continued h ∷ []))

-- `DebugBreak`
unfoldable pub break : Target → Session → Debugging
break t s = with_session s (λ h.
    if t.breaks
    then ((true, put "ok" (boolean true) empty_reply), s, broke h ∷ [])
    else (refuse "break_failed" "svcBreakDebugProcess failed", s, broke h ∷ []))

-- `DebugDetach`
unfoldable pub detach : Session → Debugging
detach s =
    ((true, put "ok" (boolean true) empty_reply), or_return s.debug s (λ h. no_session), close s)

-- The entries of `DebugMemMap`, from an address on.
unfoldable pub map_regions : (ℕ → Option MemoryInfo) → ℕ → ℕ → List MemoryInfo
map_regions query zero addr = []
map_regions query (suc rounds) addr = or_return (query addr) [] (λ mi.
    let next = (mi.addr + mi.size) % 2 ^ 64 in
    if leb next addr then mi ∷ [] else mi ∷ map_regions query rounds next)

abbrev pub region_json : MemoryInfo → Value
region_json mi =
    set
      (set
        (set (set empty_object (codes "addr") (hex_text mi.addr)) (codes "size") (hex_text mi.size))
        (codes "type") (string (mem_type_name mi.type)))
      (codes "perm") (string (perm_string mi))

abbrev pub is_mapped : MemType → Bool
is_mapped unmapped = false
is_mapped t = true

unfoldable pub push_regions : List MemoryInfo → Value → Value
push_regions [] regions = regions
push_regions (mi ∷ rest) regions =
    push_regions rest (if is_mapped mi.type then push regions (region_json mi) else regions)

-- `DebugMemMap`
unfoldable pub mem_map : Target → Session → Answer
mem_map t s =
    or_return s.debug (refuse "not_attached" "no debug session; call debug.attach first") (λ h.
      (true, put "regions" (push_regions (map_regions t.query 512 0) empty_array) empty_reply))
