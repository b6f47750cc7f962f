-- ===== src/Debug/Inspect.antt =====
-- The memory, the threads, the registers and the modules of agent/source/handlers/debug.cpp, for an
-- attached process. What the kernel and the loader return is a parameter; a result code of 0 is success.
use switch_mcp.Base.{
  ℕ, ◌+◌, ◌^◌, bit_or, Bool, true, false, not, ◌||◌, List, [], ◌∷◌, ◌++◌, Option, none, some, ◌==◌,
  if◌then◌else◌, Bytes, codes, length, take, is_empty,
}
use switch_mcp.Json.Value.{
  Value, object, boolean, int, string, get, has, as_int, empty_object, empty_array, set, push,
}
use switch_mcp.Json.Number.{decimal}
use switch_mcp.HexText.{padded_hex, print_hex}
use switch_mcp.Wire.Words.{to_i32, lt64}
use switch_mcp.Agent.{Request, empty_reply, field_of, put, fail, refuse, Answer, or_return}
use switch_mcp.Debug.{module_of, desc_of}
use switch_mcp.Debug.Session.{Session, hex_text}
use switch_mcp.Debug.Backtrace.{first_thread}

-- `ThreadContext`: the 29 general registers, and the named ones.
pub record ThreadContext : Type 0 where
  pub gprs : List ℕ
  pub fp : ℕ
  pub lr : ℕ
  pub sp : ℕ
  pub pc : ℕ

-- The calls. `write` takes an address and the bytes, `set_context` the thread, its registers and the
-- groups that are written.
pub record Process : Type 0 where
  pub read : ℕ → ℕ → Option Bytes
  pub write : ℕ → Bytes → Bool
  pub threads : Option (List ℕ)
  pub context : ℕ → Option ThreadContext
  pub set_context : ℕ → ThreadContext → ℕ → ℕ

abbrev pub read_length : Request → ℕ
read_length req =
    let len = as_int (field_of req "len") 256 in
    if not (lt64 0 len) || lt64 (2 ^ 20) len then 2 ^ 20 else len

-- The message of a failed write of registers; its buffer has 224 bytes.
unfoldable pub registers_message : ℕ → ℕ → ℕ → Bytes
registers_message rc tid groups = take 223 (
    codes "svcSetDebugThreadContext failed: rc=0x"
    ++ padded_hex 8 rc
    ++ codes " (module="
    ++ decimal (module_of rc)
    ++ codes " desc="
    ++ decimal (desc_of rc)
    ++ codes ") thread="
    ++ decimal tid
    ++ codes " groups=0x"
    ++ print_hex groups
    ++ codes
        ". desc=125 is kernel InvalidState: Horizon only allows a thread's context to be written while that thread is stopped AT A DEBUG EVENT (an exception, breakpoint or fault reported through debug.poll_events) - a paused attach alone is not enough. Get the thread to trap first, then write.")

abbrev pub register_key : ℕ → Bytes
register_key i = codes "x" ++ decimal i

-- What has been patched: the groups, and how many registers.
pub record Patch : Type 0 where
  pub groups : ℕ
  pub changed : ℕ

abbrev pub gpr_group : ℕ
gpr_group = 1

abbrev pub spr_group : ℕ
spr_group = 2

-- One register, if the request names it.
abbrev pub patch_one : Value → Bytes → ℕ → ℕ → Patch → ℕ × Patch
patch_one regs key group old p =
    if has regs key
    then (
      as_int (get regs key) 0,
      record { groups = bit_or p.groups group; changed = p.changed + 1 },
    )
    else (old, p)

-- The loop over the general registers, from the register `i` on.
unfoldable pub patch_gprs : Value → ℕ → List ℕ → Patch → List ℕ × Patch
patch_gprs regs i [] p = ([], p)
patch_gprs regs i (x ∷ xs) p =
    let (x', p') = patch_one regs (register_key i) gpr_group x p in
    let (xs', p'') = patch_gprs regs (i + 1) xs p' in (x' ∷ xs', p'')

unfoldable pub patch_context : Value → ThreadContext → ThreadContext × Patch
patch_context regs ctx =
    let (gprs, p_0) = patch_gprs regs 0 ctx.gprs (record { groups = 0; changed = 0 }) in
    let (fp, p_1) = patch_one regs (codes "fp") gpr_group ctx.fp p_0 in
    let (lr, p_2) = patch_one regs (codes "lr") gpr_group ctx.lr p_1 in
    let (sp, p_3) = patch_one regs (codes "sp") spr_group ctx.sp p_2 in
    let (pc, p_4) = patch_one regs (codes "pc") spr_group ctx.pc p_3 in
    (record { gprs = gprs; fp = fp; lr = lr; sp = sp; pc = pc }, p_4)

abbrev pub is_object : Value → Bool
is_object (object fields) = true
is_object v = false

unfoldable pub push_threads : List ℕ → Value → Value
push_threads [] list = list
push_threads (tid ∷ tids) list = push_threads tids (push list (int tid))

unfoldable pub set_gprs : ℕ → List ℕ → Value → Value
set_gprs i [] regs = regs
set_gprs i (x ∷ xs) regs = set_gprs (i + 1) xs (set regs (register_key i) (hex_text x))

module _ (p : Process) where
  -- `DebugReadMem`
  unfoldable pub debug_read_mem : Request → Answer
  debug_read_mem req =
      let addr = as_int (field_of req "addr") 0 in
      or_return (p.read addr (read_length req))
        (refuse "read_failed" "svcReadDebugProcessMemory failed")
        (λ bytes. (true, record (put "addr" (int addr) empty_reply) { out = bytes }))

  -- `DebugWriteMem`: its answer, and what is written where.
  unfoldable pub debug_write_mem : Request → Answer × List (ℕ × Bytes)
  debug_write_mem req =
      let addr = as_int (field_of req "addr") 0 in
      if is_empty req.payload
      then (refuse "bad_arg" "no bytes to write", [])
      else if p.write addr req.payload
      then (
        (true, put "written" (int (length req.payload)) (put "ok" (boolean true) empty_reply)),
        (addr, req.payload) ∷ [],
      )
      else (refuse "write_failed" "svcWriteDebugProcessMemory failed", (addr, req.payload) ∷ [])

  -- `DebugThreads`
  unfoldable pub debug_threads : Answer
  debug_threads =
      or_return p.threads (refuse "svc_failed" "svcGetThreadList failed")
        (λ tids. (true, put "threads" (push_threads tids empty_array) empty_reply))

  -- The thread that a request is about, the first one if it names none.
  abbrev pub thread_of : Request → Option ℕ
  thread_of req =
      let tid = as_int (field_of req "thread_id") 0 in
      if tid == 0 then first_thread p.threads else some tid

  abbrev pub registers_json : ThreadContext → Value
  registers_json ctx =
      set
        (set
          (set (set (set_gprs 0 ctx.gprs empty_object) (codes "fp") (hex_text ctx.fp)) (codes "lr")
            (hex_text ctx.lr))
          (codes "sp") (hex_text ctx.sp))
        (codes "pc") (hex_text ctx.pc)

  -- `DebugRegisters`
  unfoldable pub debug_registers : Request → Answer
  debug_registers req =
      or_return (thread_of req) (refuse "no_threads" "no threads to inspect") (λ tid.
        or_return (p.context tid) (refuse "ctx_failed" "svcGetDebugThreadContext failed") (λ ctx.
          (true, put "registers" (registers_json ctx) (put "thread_id" (int tid) empty_reply))))

  -- The call of `svcSetDebugThreadContext`, and what follows it.
  abbrev pub written_context : ℕ → ThreadContext → ℕ → ℕ → Answer
  written_context tid ctx groups changed =
      let rc = p.set_context tid ctx groups in
      if rc == 0
      then (
        true,
        put "registers_written" (int changed) (
            put "thread_id" (int tid)
              (put "ok" (boolean true) (put "groups" (int groups) empty_reply))),
      )
      else (false, fail "ctx_failed" (registers_message rc tid groups))

  -- `DebugWriteRegisters`
  unfoldable pub debug_write_registers : Request → Answer
  debug_write_registers req =
      let regs = field_of req "registers" in
      or_return (thread_of req) (refuse "no_threads" "no threads to modify") (λ tid.
        or_return (p.context tid) (refuse "ctx_failed" "svcGetDebugThreadContext failed") (λ ctx.
          let (patched, patch) = patch_context regs ctx in
          let groups =
            if has req.msg (codes "groups")
            then to_i32 (as_int (field_of req "groups") patch.groups)
            else patch.groups in
          if not (is_object regs)
          then refuse "bad_arg" "expected a 'registers' object, e.g. {\"pc\": 123}"
          else if patch.changed == 0
          then refuse "bad_arg" "no recognised register names in 'registers'"
          else written_context tid patched groups patch.changed))

-- `LoaderModuleInfo`
pub record ModuleInfo : Type 0 where
  pub base_address : ℕ
  pub size : ℕ
  pub build_id : Bytes

unfoldable pub build_text : Bytes → Bytes
build_text [] = []
build_text (b ∷ bs) = padded_hex 2 b ++ build_text bs

unfoldable pub push_modules : ℕ → List ModuleInfo → Value → Value
push_modules i [] arr = arr
push_modules i (m ∷ ms) arr =
    let m_0 =
      set (set empty_object (codes "base") (hex_text m.base_address)) (codes "size")
        (hex_text m.size) in
    push_modules (i + 1) ms (
      push arr
        (set (set m_0 (codes "build_id") (string (build_text m.build_id))) (codes "index") (int i)))

-- The process that `DebugModules` asks about.
abbrev pub modules_process : Session → Option ℕ → ℕ → Option ℕ
modules_process s foreground pid =
    if pid == 0
    then or_return s.debug (or_return foreground none (λ p. if p == 0 then none else some p))
        (λ h. some s.pid)
    else some pid

-- `DebugModules`; `opens` is whether the loader's service opens, and `modules` what it returns.
unfoldable pub debug_modules :
    Session → Option ℕ → Bool → (ℕ → Option (List ModuleInfo)) → Request → Answer
debug_modules s foreground opens modules req =
    or_return (modules_process s foreground (as_int (field_of req "pid") 0))
      (refuse "no_pid" "no pid given, none attached, no foreground app")
      (λ pid.
        if opens
        then or_return (modules pid) (refuse "ldr_failed" "ldrDmntGetProcessModuleInfo failed")
            (λ infos. (
              true,
              put "modules" (push_modules 0 infos empty_array) (put "pid" (int pid) empty_reply),
            ))
        else refuse "ldr_failed" "cannot open ldr:dmnt")
