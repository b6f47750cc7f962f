-- ===== src/Events/Recording.antt =====
-- How long a recording is.
use switch_mcp.Base.{
  ℕ, zero, suc, ◌+◌, ◌*◌, ◌≤◌, Option, none, some, ◌≡◌, refl, arith, ◌==◌, if◌then◌else◌,
  Bool-cases, inl, inr, String,
}
use switch_mcp.Wire.Words.{to_i32, lt32}
use switch_mcp.Agent.{Request, field_of}
use switch_mcp.Json.Value.{as_int}
use switch_mcp.Events.{
  max_wait_ms, step_ms, Look, Pad, pad_of, clamped_int, rounds_for, Recorder, record_sample,
  record_rounds, nothing_recorded,
}

-- The idle time since the last step and 50 ms for each step are part of what has elapsed.
pub record IsTimed (r : Recorder) : Type 0 where
  pub accounted : r.idle_ms + step_ms * r.count ≤ r.elapsed

record_sample-IsTimed :
    (o : Option Pad) (r : Recorder)
    → r.idle_ms + step_ms * r.count + step_ms ≤ r.elapsed
    → IsTimed (record_sample o r) × ((record_sample o r).elapsed ≡ r.elapsed)
unfolding record_sample
record_sample-IsTimed none r h = (record { accounted = omega (arith, h) }, refl)
record_sample-IsTimed (some pad) r h = elim (Bool-cases (pad.buttons == r.previous)) [
  | inl e ↦ rw e (record { accounted = omega (arith, h) }, refl)
  | inr e ↦ rw e (elim (Bool-cases (pad.buttons == 0)) [
    | inl z ↦ rw z (record { accounted = omega (arith, h) }, refl)
    | inr z ↦ rw z (record { accounted = omega (arith, h) }, refl)
  ])
]

record_rounds-IsTimed :
    (rounds : ℕ) (looks : ℕ → Look) (r : Recorder)
    → IsTimed r
    → IsTimed (record_rounds rounds looks r)
      × ((record_rounds rounds looks r).elapsed ≡ r.elapsed + step_ms * rounds)
unfolding record_rounds
record_rounds-IsTimed zero looks r t = (t, omega arith)
record_rounds-IsTimed (suc rounds) looks r t =
    let now : Recorder = record r { elapsed = r.elapsed + step_ms } in
    let sampled =
      record_sample-IsTimed (pad_of (looks now.elapsed)) now (omega (arith, t.accounted)) in
    let rest =
      record_rounds-IsTimed rounds looks (record_sample (pad_of (looks now.elapsed)) now)
        sampled.0 in
    (rest.0, omega (arith, rest.1, sampled.1))

in_bounds :
    (x low : ℕ)
    → low ≤ max_wait_ms
    → (if lt32 (to_i32 x) low
        then low
        else if lt32 max_wait_ms (to_i32 x)
        then max_wait_ms
        else to_i32 x)
      ≤ max_wait_ms
in_bounds x low h = ground arith

clamped_int_bound :
    (req : Request) (key : String) (default low : ℕ)
    → low ≤ max_wait_ms
    → clamped_int req key default low ≤ max_wait_ms
unfolding clamped_int
clamped_int_bound req key default low h = in_bounds (as_int (field_of req key) default) low h

-- Whatever duration is asked for, a recording takes at most 20 seconds and has at most 400 steps.
pub record_rounds_bounds :
    (req : Request) (looks : ℕ → Look)
    → let r =
        record_rounds
          (rounds_for (clamped_int req "duration_ms" 5000 200) step_ms)
          looks
          nothing_recorded in
      (r.elapsed ≤ max_wait_ms) × (r.count ≤ 400)
record_rounds_bounds req looks =
    let ms = clamped_int req "duration_ms" 5000 200 in
    let timed =
      record_rounds-IsTimed (rounds_for ms step_ms) looks nothing_recorded
        (record { accounted = omega arith }) in
    let bound = clamped_int_bound req "duration_ms" 5000 200 (omega arith) in
    (omega (arith, timed.1, bound), omega (arith, timed.1, timed.0.accounted, bound))
