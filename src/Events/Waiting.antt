-- ===== src/Events/Waiting.antt =====
-- When a wait for an application ends.
use switch_mcp.Base.{
  ℕ, zero, suc, ◌+◌, ◌*◌, ◌<◌, Bool, true, false, List, [], ◌∷◌, ◌≡◌, if◌then◌else◌, Bytes, All,
}
use switch_mcp.Json.Value.{boolean, int}
use switch_mcp.Agent.{Answer, put}
use switch_mcp.Events.{poll_ms, Look, app_running, app_fired, fired_at, timed_out, Start}

-- The times of the next polls.
abbrev pub times : ℕ → ℕ → List ℕ
times zero waited = []
times (suc k) waited = (waited + poll_ms) ∷ times k (waited + poll_ms)

abbrev pub time_of : ℕ → ℕ → ℕ
time_of zero waited = waited + poll_ms
time_of (suc k) waited = time_of k (waited + poll_ms)

abbrev pub app_reply : Bytes → ℕ → Bool × ℕ → Answer
app_reply what waited (running, pid) =
    let told = put "running" (boolean running) (fired_at what waited) in
    (true, if running then put "pid" (int pid) told else told)

module _ (what : Bytes) (start : Start) (looks : ℕ → Look) where
  abbrev pub app_at : ℕ → Bool × ℕ
  app_at time = app_running (looks time).application

  abbrev pub Quiet : ℕ → Type 0
  Quiet time = app_fired what start.app (app_at time) ≡ false

  -- A wait of so many rounds ends at the first poll at which the event has fired, with that time and
  -- what was found, or, if no poll finds it fired, with the timeout.
  pub data Waits (rounds waited : ℕ) : Answer → Type 0 where
    fires :
        (k : ℕ)
        → k < rounds
        → All Quiet (times k waited)
        → app_fired what start.app (app_at (time_of k waited)) ≡ true
        → Waits rounds waited (app_reply what (time_of k waited) (app_at (time_of k waited)))
    expires :
        (end : ℕ)
        → end ≡ waited + poll_ms * rounds
        → All Quiet (times rounds waited)
        → Waits rounds waited (timed_out what end)
