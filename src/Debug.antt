-- ===== src/Debug.antt =====
-- The hardware breakpoints of agent/source/handlers/debug.cpp. The kernel's
-- calls are parameters; a result code of 0 is success.
pub mod Watching
pub mod Backtrace
pub mod Searching
pub mod Session
pub mod Inspect
use switch_mcp.Base.{
  ℕ, ◌+◌, ◌-◌, ◌*◌, ◌/◌, ◌%◌, ◌^◌, bit_and, bit_or, Bool, true, false, not, ◌&&◌, ◌||◌, List, [],
  ◌∷◌, ◌++◌, Option, none, some, ltb, ◌==◌, if◌then◌else◌, Bytes, codes, String, eq, refl,
}
use switch_mcp.Json.Value.{boolean, int, string, has, as_bool, as_int, as_string}
use switch_mcp.Json.Number.{decimal}
use switch_mcp.HexText.{print_hex, padded_hex}
use switch_mcp.Wire.Words.{to_i32, lt32, widen}
use switch_mcp.Agent.{Request, Reply, empty_reply, field_of, put, fail, refuse, Answer, or_return}

abbrev pub watchpoint_base : ℕ
watchpoint_base = 16

abbrev pub max_breakpoint_slots : ℕ
max_breakpoint_slots = 6

abbrev pub max_watchpoint_slots : ℕ
max_watchpoint_slots = 4

-- `kBreakpointCtl`
abbrev pub breakpoint_ctl : ℕ
breakpoint_ctl = bit_or (bit_or 1 (15 * 2 ^ 5)) (1 * 2 ^ 20)

-- `WatchpointCtl`
unfoldable pub watchpoint_ctl : ℕ → ℕ → ℕ
watchpoint_ctl lsc bas = bit_or (bit_or 1 (bit_and lsc 3 * 2 ^ 3)) (bit_and bas 255 * 2 ^ 5)

-- A call of `svcSetHardwareBreakPoint`: which register, its control word and its value.
pub record HwCall : Type 0 where
  pub which : ℕ
  pub ctl : ℕ
  pub value : ℕ

-- A handler's answer, and its calls.
abbrev pub Debugged : Type 0
Debugged = Answer × List HwCall

abbrev pub refused : String → String → Debugged
refused code message = (refuse code message, [])

-- `Attached`, and the handler behind it.
abbrev pub if_attached : Bool → Debugged → Debugged
if_attached attached rest =
    if attached then rest else refused "not_attached" "no debug session; call debug.attach first"

abbrev pub module_of : ℕ → ℕ
module_of rc = bit_and rc 511

abbrev pub desc_of : ℕ → ℕ
desc_of rc = bit_and (rc / 2 ^ 9) 8191

-- The reply of `FailResult`, whose message fits its buffer.
abbrev pub fail_result : ℕ → String → HwCall → Reply
fail_result rc what call = fail "hw_bp_failed" (
    codes "svcSetHardwareBreakPoint("
    ++ codes what
    ++ codes ") failed: rc=0x"
    ++ padded_hex 8 rc
    ++ codes " (module="
    ++ decimal (module_of rc)
    ++ codes " desc="
    ++ decimal (desc_of rc)
    ++ codes ") ctl=0x"
    ++ print_hex call.ctl
    ++ codes " value=0x"
    ++ print_hex call.value)

abbrev pub is_size : ℕ → Bool
is_size size = size == 1 || size == 2 || size == 4 || size == 8

-- `slot < 0 || slot >= limit`
abbrev pub is_outside : ℕ → ℕ → Bool
is_outside slot limit = lt32 slot 0 || not (lt32 slot limit)

-- Which accesses a watchpoint stops at.
abbrev pub access_of : Bytes → Option ℕ
access_of mode =
    if eq mode (codes "read")
    then some 1
    else if eq mode (codes "write")
    then some 2
    else if eq mode (codes "rw") || eq mode (codes "both")
    then some 3
    else none

-- The byte address select for so many bytes from an offset of the doubleword.
abbrev pub byte_select : ℕ → ℕ → ℕ
byte_select size offset = (2 ^ size - 1) * 2 ^ offset

module _ (svc : HwCall → ℕ) where
  -- `DebugSetHwBpRaw`
  unfoldable pub set_hw_bp_raw : Bool → Request → Debugged
  set_hw_bp_raw attached req =
      let call : HwCall = record {
        which = to_i32 (as_int (field_of req "which") 0);
        ctl = as_int (field_of req "flags") 0;
        value = as_int (field_of req "value") 0;
      } in
      let rc = svc call in
      if_attached attached (
        (
          true,
          put "which" (int call.which) (
              put "desc" (int (desc_of rc)) (
                put "module" (int (module_of rc))
                  (put "rc" (int rc) (put "ok" (boolean (rc == 0)) empty_reply)))),
        ),
        call ∷ [],
      )

  -- The call behind the checks, and what follows it.
  abbrev pub set_register : String → HwCall → Reply → Debugged
  set_register what call told = (
    (if svc call == 0 then (true, told) else (false, fail_result (svc call) what call)),
    call ∷ [],
  )

  unfoldable pub watch : Request → ℕ → ℕ → ℕ → ℕ → Debugged
  watch req addr size slot lsc =
      let ctl =
        if has req.msg (codes "ctl")
        then as_int (field_of req "ctl") 0
        else watchpoint_ctl lsc (byte_select size (addr % 8)) in
      set_register "watchpoint"
        (record { which = watchpoint_base + slot; ctl = ctl; value = addr - addr % 8 })
        (put "note"
          (string (
            codes
              "armed, but DO NOT RELY ON HITS. On fw 22.1.0 no watchpoint has ever been observed to fire from this sysmodule. The syscall is permitted and the encoding is accepted; the exception is simply never delivered. Core affinity was tested and ruled out. Use cheat.read_mem polling or the narrowing search (search.begin/next) instead."))
          (put "watching" (int addr) (
            put "mode" (string (as_string (field_of req "mode") (codes "write")))
              (put "slot" (int slot) (put "ok" (boolean true) empty_reply)))))

  -- The checks of `DebugSetWatchpoint`, the wrong mode being the last.
  unfoldable pub checked_watch : Request → ℕ → ℕ → ℕ → Option ℕ → Debugged
  checked_watch req addr size slot access =
      if addr == 0
      then refused "bad_arg" "missing addr"
      else if not (is_size size)
      then refused "bad_arg" "size must be 1, 2, 4 or 8 bytes"
      else if is_outside slot max_watchpoint_slots
      then refused "bad_arg" "slot must be 0-3 (this SoC has 4 watchpoints)"
      else if ltb 8 (addr % 8 + size)
      then refused "bad_arg" "range crosses an 8-byte boundary; align it or use two slots"
      else or_return access (refused "bad_arg" "mode must be read, write or rw")
          (λ lsc. watch req addr size slot lsc)

  -- `DebugSetWatchpoint`
  unfoldable pub set_watchpoint : Bool → Request → Debugged
  set_watchpoint attached req = if_attached attached (
      checked_watch req (as_int (field_of req "addr") 0) (to_i32 (as_int (field_of req "size") 4))
        (to_i32 (as_int (field_of req "slot") 0))
        (access_of (as_string (field_of req "mode") (codes "write"))))

  -- `DebugSetBreakpoint`
  unfoldable pub set_breakpoint : Bool → Request → Debugged
  set_breakpoint attached req =
      let addr = as_int (field_of req "addr") 0 in
      let slot = to_i32 (as_int (field_of req "slot") 0) in
      if_attached attached (
        if addr == 0
        then refused "bad_arg" "missing addr"
        else if not (addr % 4 == 0)
        then refused "bad_arg" "address must be 4-byte aligned (A64 instruction)"
        else if is_outside slot max_breakpoint_slots
        then refused "bad_arg" "slot must be 0-5 (this SoC has 6 breakpoints)"
        else set_register "breakpoint" (record { which = slot; ctl = breakpoint_ctl; value = addr })
            (put "note"
              (string (
                codes
                  "armed, but DO NOT RELY ON HITS. No hardware breakpoint has been observed to fire on fw 22.1.0 from this sysmodule. Arming and clearing work; the exception is never delivered. Core affinity was tested and ruled out."))
              (put "breaking_at" (int addr)
                (put "slot" (int slot) (put "ok" (boolean true) empty_reply)))))

  -- `DebugClearBreakpoint`
  unfoldable pub clear_breakpoint : Bool → Request → Debugged
  clear_breakpoint attached req =
      let slot = to_i32 (as_int (field_of req "slot") 0) in
      let is_watchpoint = as_bool (field_of req "watchpoint") false in
      let call : HwCall = record {
        which = (if is_watchpoint then watchpoint_base else 0) + slot;
        ctl = 0;
        value = 0;
      } in
      if_attached attached (
        if is_outside slot (if is_watchpoint then max_watchpoint_slots else max_breakpoint_slots)
        then refused "bad_arg"
            (if is_watchpoint then "watchpoint slot must be 0-3" else "breakpoint slot must be 0-5")
        else if svc call == 0
        then (
          (
            true,
            put "kind" (string (if is_watchpoint then codes "watchpoint" else codes "breakpoint"))
                (put "cleared_slot" (int slot) (put "ok" (boolean true) empty_reply)),
          ),
          call ∷ [],
        )
        else (refuse "hw_bp_failed" "could not clear the slot", call ∷ []))
