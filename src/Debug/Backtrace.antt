-- ===== src/Debug/Backtrace.antt =====
-- `DebugBacktrace` of agent/source/handlers/debug.cpp. What the kernel's calls return is a parameter.
pub mod Links
use switch_mcp.Base.{
  ℕ, zero, suc, ◌-◌, ◌%◌, ◌^◌, Bool, true, false, not, ◌||◌, List, [], ◌∷◌, ◌++◌, Option, none,
  some, leb, ◌==◌, if◌then◌else◌, Bytes, codes, refl,
}
use switch_mcp.Json.Value.{Value, int, string, as_int, empty_object, empty_array, set, push}
use switch_mcp.HexText.{print_hex}
use switch_mcp.Wire.Words.{to_i32, lt32}
use switch_mcp.Agent.{Request, empty_reply, field_of, put, refuse, Answer, or_return}

-- The registers of a thread that a backtrace starts from.
pub record Registers : Type 0 where
  pub pc : ℕ
  pub lr : ℕ
  pub fp : ℕ

-- `svcGetThreadList`, `svcGetDebugThreadContext`, and `svcReadDebugProcessMemory` of a pair of words.
pub record Kernel : Type 0 where
  pub threads : Option (List ℕ)
  pub context : ℕ → Option Registers
  pub read_pair : ℕ → Option (ℕ × ℕ)

-- A frame: its return address, and the frame pointer that it was found at.
pub record Frame : Type 0 where
  pub ret : ℕ
  pub at : ℕ

abbrev pub hex_text : ℕ → Value
hex_text n = string (codes "0x" ++ print_hex n)

abbrev pub frame_json : Frame → Value
frame_json f = set (set empty_object (codes "pc") (hex_text f.ret)) (codes "fp") (hex_text f.at)

abbrev pub first_frame : Registers → Value
first_frame r = set (set empty_object (codes "pc") (hex_text r.pc)) (codes "lr") (hex_text r.lr)

unfoldable pub push_frames : List Frame → Value → Value
push_frames [] frames = frames
push_frames (f ∷ fs) frames = push_frames fs (push frames (frame_json f))

-- The first of the threads, if there is one.
abbrev pub first_thread : Option (List ℕ) → Option ℕ
first_thread none = none
first_thread (some []) = none
first_thread (some (tid ∷ tids)) = some tid

abbrev pub max_frames_of : Request → ℕ
max_frames_of req =
    let asked = to_i32 (as_int (field_of req "max_frames") 32) in
    if lt32 asked 1 || lt32 64 asked then 32 else asked

module _ (k : Kernel) where
  -- The loop over the frames, so many of them being left.
  unfoldable pub walk_frames : ℕ → ℕ → ℕ → List Frame
  walk_frames zero fp prev_fp = []
  walk_frames (suc left) fp prev_fp =
      if fp == 0
      then []
      else if leb fp prev_fp || not (fp % 8 == 0)
      then []
      else or_return (k.read_pair fp) [] (λ (next_fp, ret).
        if ret == 0 then [] else record { ret = ret; at = fp } ∷ walk_frames left next_fp fp)

  -- `DebugBacktrace` of an attached process.
  unfoldable pub backtrace : Request → Answer
  backtrace req =
      let asked = as_int (field_of req "thread_id") 0 in
      or_return (if asked == 0 then first_thread k.threads else some asked)
        (refuse "no_threads" "no threads to walk")
        (λ tid. or_return (k.context tid) (refuse "ctx_failed" "cannot read thread context") (λ ctx.
          (
            true,
            put "note"
                (string (
                  codes
                    "addresses are absolute; subtract a module base from debug.modules to get an RVA for Ghidra/IDA"))
                (put "frames"
                  (push_frames (walk_frames (max_frames_of req - 1) ctx.fp 0)
                    (push empty_array (first_frame ctx)))
                  (put "thread_id" (int tid) empty_reply)),
          )))
