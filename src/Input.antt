-- ===== src/Input.antt =====
-- agent/source/handlers/input.cpp: the virtual pad, and the `Input` and `Touch` handlers. What
-- libnx's hiddbg calls return is a parameter, and so is the arithmetic of doubles; a handler's calls
-- are listed in their order.
pub mod Typing
use switch_mcp.Base.{
  ℕ, zero, suc, ◌+◌, ◌-◌, ◌*◌, ◌/◌, ◌%◌, ◌^◌, bit_or, Bool, true, false, ◌&&◌, List, [], ◌∷◌, ◌++◌,
  ltb, leb, ◌==◌, if◌then◌else◌, Bytes, codes, eq, String,
}
use switch_mcp.Json.Value.{
  Value, Items, nil, double, boolean, int, as_int, as_string, as_array, get,
}
use switch_mcp.Wire.Words.{to_i32, lt64, widen}
use switch_mcp.Agent.{Request, Reply, empty_reply, field_of, put, refuse, Answer}

-- The state shown to the virtual pad: the buttons, and the sticks as 32-bit patterns.
pub record PadState : Type 0 where
  pub buttons : ℕ
  pub lx : ℕ
  pub ly : ℕ
  pub rx : ℕ
  pub ry : ℕ

-- The hiddbg calls, and the waits in ns.
pub data Call : Type 0 where
  attach_work_buffer release_work_buffer attach_device detach_device : Call
  set_state : PadState → Call
  touch : ℕ → ℕ → Call
  unset_touch : Call
  sleep : ℕ → Call

-- `g_attached` and `g_state`
pub record VirtualPad : Type 0 where
  pub attached : Bool
  pub state : PadState

-- `Ensure`: what it returns, its calls and the pad behind it. The flags are the results of the two
-- calls.
unfoldable pub ensure : Bool → Bool → VirtualPad → Bool × List Call × VirtualPad
ensure buffer device pad =
    if pad.attached
    then (true, [], pad)
    else if buffer
    then if device
      then (true, attach_work_buffer ∷ attach_device ∷ [], record pad { attached = true })
      else (false, attach_work_buffer ∷ attach_device ∷ release_work_buffer ∷ [], pad)
    else (false, attach_work_buffer ∷ [], pad)

-- `Release`
unfoldable pub release : VirtualPad → List Call × VirtualPad
release pad =
    let state : PadState = record pad.state { buttons = 0 } in
    if pad.attached
    then (
      set_state state ∷ detach_device ∷ release_work_buffer ∷ [],
      record { attached = false; state = state },
    )
    else ([], pad)

-- `SetButtons` of an attached pad.
abbrev pub set_buttons : PadState → VirtualPad → List Call × VirtualPad
set_buttons state pad = (set_state state ∷ [], record pad { state = state })

-- What the source takes from the header of libnx and from the arithmetic of doubles.
pub record Platform : Type 0 where
  pub button_bit : Bytes → ℕ
  pub of_int : ℕ → ℕ
  pub times_axis : ℕ → ℕ

abbrev pub button_names : List Bytes
button_names =
    codes "A"
    ∷ codes "B"
    ∷ codes "X"
    ∷ codes "Y"
    ∷ codes "L"
    ∷ codes "R"
    ∷ codes "ZL"
    ∷ codes "ZR"
    ∷ codes "PLUS"
    ∷ codes "MINUS"
    ∷ codes "DUP"
    ∷ codes "DDOWN"
    ∷ codes "DLEFT"
    ∷ codes "DRIGHT"
    ∷ codes "LSTICK"
    ∷ codes "RSTICK"
    ∷ []

abbrev pub is_named : Bytes → List Bytes → Bool
is_named name [] = false
is_named name (known ∷ rest) = if eq name known then true else is_named name rest

-- `v > 1.0` and `v < -1.0` of IEEE patterns; a NaN is neither.
abbrev pub above_one : ℕ → Bool
above_one v = ltb (1023 * 2 ^ 52) v && leb v (2047 * 2 ^ 52)

abbrev pub below_minus_one : ℕ → Bool
below_minus_one v = ltb (2 ^ 63 + 1023 * 2 ^ 52) v && leb v (2 ^ 63 + 2047 * 2 ^ 52)

module _ (p : Platform) where
  unfoldable pub button_mask : Bytes → ℕ
  button_mask name = if is_named name button_names then p.button_bit name else 0

  abbrev pub as_double : Value → ℕ → ℕ
  as_double (double x) d = x
  as_double (int i) d = p.of_int i
  as_double v d = d

  -- The product with 32767.0 is a number towards zero, as `as_int` takes a double.
  unfoldable pub stick_axis : ℕ → ℕ
  stick_axis v =
      let inside =
        if above_one v
        then 1023 * 2 ^ 52
        else if below_minus_one v
        then 2 ^ 63 + 1023 * 2 ^ 52
        else v in
      to_i32 (as_int (double (p.times_axis inside)) 0)

  -- The loop over the asked buttons.
  unfoldable pub mask_of : Items → ℕ → ℕ
  mask_of nil mask = mask
  mask_of (Items.cons b rest) mask = mask_of rest (bit_or mask (button_mask (as_string b [])))

  unfoldable pub asked_state : Request → PadState
  asked_state req =
      let axis : String → ℕ =
        λ key. stick_axis (as_double (get (field_of req "sticks") (codes key)) 0) in
      record {
        buttons = mask_of (as_array (field_of req "buttons")) 0;
        lx = axis "lx";
        ly = axis "ly";
        rx = axis "rx";
        ry = axis "ry";
      }

  -- `Input`: its answer, calls and the pad behind it. The flags are the results of attaching, and
  -- what pressing and letting go return is not looked at.
  unfoldable pub input : Bool → Bool → Request → VirtualPad → Answer × List Call × VirtualPad
  input buffer device req pad =
      let (ready, attaching, attached) = ensure buffer device pad in
      let hold_ms = as_int (field_of req "hold_ms") 100 in
      let held = if lt64 hold_ms 0 then 0 else if lt64 10000 hold_ms then 10000 else hold_ms in
      let (pressing, pressed) = set_buttons (asked_state req) attached in
      let (letting_go, free) =
        set_buttons (record { buttons = 0; lx = 0; ly = 0; rx = 0; ry = 0 }) pressed in
      if ready
      then (
        (true, put "ok" (boolean true) empty_reply),
        attaching ++ pressing ++ sleep (held * 1000000) ∷ letting_go,
        free,
      )
      else (refuse "hdls_failed" "cannot attach virtual pad", attaching, attached)

abbrev pub steps : ℕ
steps = 10

-- `delta * i / steps` of 32-bit patterns, the quotient being towards zero.
unfoldable pub part_of : ℕ → ℕ → ℕ
part_of delta i =
    let product = to_i32 (delta * i) in
    if ltb product (2 ^ 31) then product / steps else to_i32 (2 ^ 32 - (2 ^ 32 - product) / steps)

-- A coordinate of the touch at step `i`; what overflows in C++ wraps around here.
unfoldable pub coordinate : ℕ → ℕ → ℕ → ℕ
coordinate from towards i = to_i32 (from + part_of (to_i32 (towards + (2 ^ 32 - from))) i)

-- The loop of `Touch` from a step on, with as many steps left. `works` is whether the call of a step
-- succeeds; the flag is whether all of them do.
unfoldable pub swipe : (ℕ → Bool) → ℕ → ℕ → ℕ × ℕ → ℕ × ℕ → ℕ → Bool × List Call
swipe works wait_ns zero from towards i = (true, unset_touch ∷ [])
swipe works wait_ns (suc left) from towards i =
    let (ok, calls) = swipe works wait_ns left from towards (i + 1) in
    let here = touch (coordinate from.0 towards.0 i) (coordinate from.1 towards.1 i) in
    if works i then (ok, here ∷ sleep wait_ns ∷ calls) else (false, here ∷ [])

-- `Touch`
unfoldable pub touch_screen : (ℕ → Bool) → Request → Answer × List Call
touch_screen works req =
    let x = to_i32 (as_int (field_of req "x") 0) in
    let y = to_i32 (as_int (field_of req "y") 0) in
    let x2 = to_i32 (as_int (field_of req "x2") (widen x)) in
    let y2 = to_i32 (as_int (field_of req "y2") (widen y)) in
    let asked = as_int (field_of req "duration_ms") 50 in
    let duration_ms = if lt64 asked 10 then 10 else if lt64 5000 asked then 5000 else asked in
    let (ok, calls) = swipe works (duration_ms * 1000000 / steps) (steps + 1) (x, y) (x2, y2) 0 in
    if ok
    then ((true, put "ok" (boolean true) empty_reply), calls)
    else (refuse "touch_failed" "auto-pilot state failed", calls)
