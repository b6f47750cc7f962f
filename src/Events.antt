-- ===== src/Events.antt =====
-- agent/source/handlers/events.cpp. What the services report is a parameter: at the start, and then
-- once for each poll, whose waits are the only time that passes.
pub mod Waiting
pub mod Recording
use switch_mcp.Base.{
  ℕ, zero, suc, ◌+◌, ◌-◌, ◌*◌, ◌/◌, ◌^◌, bit_and, Bool, true, false, not, ◌&&◌, ◌||◌, List, [], ◌∷◌,
  String, Option, none, some, ltb, leb, ◌==◌, if◌then◌else◌, Bytes, codes, eq,
}
use switch_mcp.Json.Value.{
  Value, boolean, int, string, as_int, as_string, empty_object, empty_array, set, push,
}
use switch_mcp.Wire.Words.{to_i32, lt32, widen}
use switch_mcp.Agent.{Request, Reply, empty_reply, field_of, put, refuse, Answer}

abbrev pub max_wait_ms : ℕ
max_wait_ms = 20000

abbrev pub poll_ms : ℕ
poll_ms = 200

abbrev pub step_ms : ℕ
step_ms = 50

-- A stick's coordinates, as 32-bit patterns.
pub record Stick : Type 0 where
  pub x : ℕ
  pub y : ℕ

pub record Pad : Type 0 where
  pub buttons : ℕ
  pub left : Stick
  pub right : Stick

-- One look at the services: the process id of the application, `none` where the call fails, the
-- handheld state with its sampling number, and the first controller's.
pub record Look : Type 0 where
  pub application : Option ℕ
  pub handheld : Option (ℕ × Pad)
  pub full_key : Option Pad

-- `AppRunning`: whether, and the process id that it puts out.
abbrev pub app_running : Option ℕ → Bool × ℕ
app_running none = (false, 0)
app_running (some pid) = (not (pid == 0), pid)

-- `ReadPad`
abbrev pub read_pad : Option (ℕ × Pad) → Option Pad → Option Pad
read_pad none full_key = full_key
read_pad (some (sampling_number, pad)) full_key =
    if sampling_number == 0 then full_key else some pad

abbrev pub pad_of : Look → Option Pad
pad_of l = read_pad l.handheld l.full_key

abbrev pub button_names : List Bytes
button_names =
    codes "A"
    ∷ codes "B"
    ∷ codes "X"
    ∷ codes "Y"
    ∷ codes "LSTICK"
    ∷ codes "RSTICK"
    ∷ codes "L"
    ∷ codes "R"
    ∷ codes "ZL"
    ∷ codes "ZR"
    ∷ codes "PLUS"
    ∷ codes "MINUS"
    ∷ codes "DLEFT"
    ∷ codes "DUP"
    ∷ codes "DRIGHT"
    ∷ codes "DDOWN"
    ∷ []

-- The loop of `ButtonsToArray`, from a bit on.
unfoldable pub push_buttons : List Bytes → ℕ → ℕ → Value → Value
push_buttons [] bit buttons arr = arr
push_buttons (name ∷ names) bit buttons arr =
    push_buttons names (bit * 2) buttons
      (if bit_and buttons bit == 0 then arr else push arr (string name))

abbrev pub buttons_to_array : ℕ → Value
buttons_to_array buttons = push_buttons button_names 1 buttons empty_array

-- `(int)req[key].as_int(default)`, moved to the nearest bound where it is out of range.
unfoldable pub clamped_int : Request → String → ℕ → ℕ → ℕ
clamped_int req key default low =
    let ms = to_i32 (as_int (field_of req key) default) in
    if lt32 ms low then low else if lt32 max_wait_ms ms then max_wait_ms else ms

abbrev pub fired_at : Bytes → ℕ → Reply
fired_at what waited =
    put "waited_ms" (int waited)
      (put "event" (string what) (put "fired" (boolean true) empty_reply))

abbrev pub is_app_event : Bytes → Bool
is_app_event what =
    eq what (codes "app_start") || eq what (codes "app_exit") || eq what (codes "app_change")

-- Whether an event of the application has fired, from what it was at the start and what it is.
unfoldable pub app_fired : Bytes → Bool × ℕ → Bool × ℕ → Bool
app_fired what (was_running, was_pid) (running, pid) =
    if eq what (codes "app_start")
    then running
    else if eq what (codes "app_exit")
    then not running
    else not (if running then was_running else not was_running) || (running && not (pid == was_pid))

-- The buttons that fire the event: some are held, and not those of the start.
abbrev pub button_fired : ℕ → Option Pad → Option ℕ
button_fired start none = none
button_fired start (some pad) =
    if not (pad.buttons == 0) && not (pad.buttons == start) then some pad.buttons else none

-- What one round of the loop comes to.
pub data Round : Type 0 where
  answered : Answer → Round
  goes_on : Round

abbrev pub app_round : Bytes → Bool × ℕ → ℕ → Bool × ℕ → Round
app_round what start waited (running, pid) =
    let told = put "running" (boolean running) (fired_at what waited) in
    if app_fired what start (running, pid)
    then answered (true, if running then put "pid" (int pid) told else told)
    else goes_on

abbrev pub button_round : Bytes → ℕ → Option ℕ → Round
button_round what waited none = goes_on
button_round what waited (some b) =
    answered (true, put "buttons" (buttons_to_array b) (fired_at what waited))

-- The start of a wait: the application's state, and the buttons.
pub record Start : Type 0 where
  pub app : Bool × ℕ
  pub buttons : ℕ

unfoldable pub poll_round : Bytes → Start → ℕ → Look → Round
poll_round what start waited look =
    if is_app_event what
    then app_round what start.app waited (app_running look.application)
    else if eq what (codes "button")
    then button_round what waited (button_fired start.buttons (pad_of look))
    else answered (refuse "bad_arg" "event must be app_start, app_exit, app_change or button")

abbrev pub timed_out : Bytes → ℕ → Answer
timed_out what waited = (
  true,
  put "note" (string (codes "timed out; nothing happened within the window")) (
      put "waited_ms" (int waited)
        (put "event" (string what) (put "fired" (boolean false) empty_reply))),
)

abbrev pub or_next : Round → Answer → Answer
or_next (answered r) next = r
or_next goes_on next = next

-- The rounds of the `while`, with how long the wait has lasted: a round is made while it is below the
-- timeout, each adds 200 ms, and so their number is the timeout over 200, rounded up.
unfoldable pub wait_rounds : ℕ → Bytes → Start → ℕ → (ℕ → Look) → Answer
wait_rounds zero what start waited looks = timed_out what waited
wait_rounds (suc rounds) what start waited looks =
    let waited' = waited + poll_ms in
    or_next (poll_round what start waited' (looks waited'))
      (wait_rounds rounds what start waited' looks)

abbrev pub buttons_of : Option Pad → ℕ
buttons_of none = 0
buttons_of (some pad) = pad.buttons

abbrev pub already_held : Reply → Answer
already_held r =
    (true, put "note" (string (codes "condition already held; returned immediately")) r)

abbrev pub rounds_for : ℕ → ℕ → ℕ
rounds_for ms step = (ms + (step - 1)) / step

-- `WaitEvent`: `looks` gives what the services report at each time in ms, the start being 0.
unfoldable pub wait_event : Request → (ℕ → Look) → Answer
wait_event req looks =
    let what = as_string (field_of req "event") (codes "app_change") in
    let timeout_ms = clamped_int req "timeout_ms" 10000 100 in
    let app = app_running (looks 0).application in
    let start : Start = record { app = app; buttons = buttons_of (pad_of (looks 0)) } in
    if eq what (codes "app_start") && app.0
    then already_held (put "pid" (int app.1) (put "running" (boolean true) (fired_at what 0)))
    else if eq what (codes "app_exit") && not app.0
    then already_held (put "running" (boolean false) (fired_at what 0))
    else wait_rounds (rounds_for timeout_ms poll_ms) what start 0 looks

-- The variables of `RecordInput`'s loop.
pub record Recorder : Type 0 where
  pub steps : Value
  pub previous : ℕ
  pub idle_ms : ℕ
  pub elapsed : ℕ
  pub count : ℕ

abbrev pub step_json : ℕ → ℕ → Value
step_json buttons idle_ms =
    set
      (set (set empty_object (codes "buttons") (buttons_to_array buttons)) (codes "hold_ms")
        (int (step_ms * 2)))
      (codes "wait_ms") (int idle_ms)

abbrev pub idle_step : Recorder → Recorder
idle_step r = record r { idle_ms = r.idle_ms + step_ms }

-- One sample.
unfoldable pub record_sample : Option Pad → Recorder → Recorder
record_sample none r = idle_step r
record_sample (some pad) r =
    let b = pad.buttons in
    if b == r.previous
    then idle_step r
    else if b == 0
    then record r { previous = 0 }
    else record r {
      steps = push r.steps (step_json b r.idle_ms);
      count = r.count + 1;
      idle_ms = 0;
      previous = b;
    }

unfoldable pub record_rounds : ℕ → (ℕ → Look) → Recorder → Recorder
record_rounds zero looks r = r
record_rounds (suc rounds) looks r =
    let now = record r { elapsed = r.elapsed + step_ms } in
    record_rounds rounds looks (record_sample (pad_of (looks now.elapsed)) now)

abbrev pub nothing_recorded : Recorder
nothing_recorded = record { steps = empty_array; previous = 0; idle_ms = 0; elapsed = 0; count = 0 }

unfoldable pub record_input : Request → (ℕ → Look) → Reply
record_input req looks =
    let r =
      record_rounds (rounds_for (clamped_int req "duration_ms" 5000 200) step_ms) looks
        nothing_recorded in
    put "note" (string (codes "pass 'sequence' straight to send_input_sequence to replay it")) (
      put "sequence" r.steps
        (put "steps" (int r.count) (put "recorded_ms" (int r.elapsed) empty_reply)))

abbrev pub stick_json : Stick → Value
stick_json s = set (set empty_object (codes "x") (int (widen s.x))) (codes "y") (int (widen s.y))

abbrev pub pad_reply : Option Pad → Answer
pad_reply none = refuse "no_pad" "no controller state available"
pad_reply (some pad) = (
  true,
  put "right_stick" (stick_json pad.right) (
      put "left_stick" (stick_json pad.left)
        (put "raw" (int pad.buttons) (put "buttons" (buttons_to_array pad.buttons) empty_reply))),
)

unfoldable pub read_input : Look → Answer
read_input look = pad_reply (pad_of look)
