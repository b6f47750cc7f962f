-- ===== src/Server/Serve.antt =====
-- `Server::ServeConnection` of agent/source/server.cpp.
use switch_mcp.Base.{
  ℕ, zero, suc, ◌+◌, Bool, true, false, not, ◌&&◌, [], Option, none, some, leb, if◌then◌else◌,
  length, Bytes, codes, is_empty,
}
use switch_mcp.Json.Value.{Value, boolean, int, string, get, as_int, as_string}
use switch_mcp.Wire.Socket.{Socket}
use switch_mcp.Wire.Frame.{FrameResult, frame, idle, gone, read_frame, write_frame}
use switch_mcp.Agent.{AgentConfig, Request, Reply, empty_reply, put, fail, is_dry_run}
use switch_mcp.Server.Table.{Command, dispatch, find_command}
use switch_mcp.Server.Gate.{check_tier, tier_name}
use switch_mcp.Server.Auth.{Host, authenticate}

abbrev pub max_idle_timeouts : ℕ
max_idle_timeouts = 10

abbrev pub preview : Bytes → Command → Reply
preview cmd c = put "note" (string (codes "not executed; re-send without dry_run to apply")) (
    put "tier" (string (tier_name c.tier))
      (put "would_run" (string cmd) (put "dry_run" (boolean true) empty_reply)))

-- The id of the request, and the length of the payload if there is one.
unfoldable pub complete : ℕ → Reply → Reply
complete id r =
    let named = put "id" (int id) r in
    if is_empty r.out then named else put "bin" (int (length r.out)) named

-- What a round of the loop comes to: a `break`, or the next round.
pub data Next (World : Type 0) : Type 0 where
  stop : Socket → World → Next World
  again : Socket → World → ℕ → Next World

abbrev pub proceed :
    {W : Type 0} → (Socket → W → ℕ → Option (Socket × W)) → Next W → Option (Socket × W)
proceed more (stop s w) = some (s, w)
proceed more (again s w n) = more s w n

module _ (h : Host) (cfg : AgentConfig) where
  open h use {World, run, journal_append, release_pad, strtod, print_double}

  -- A handler's result, and the journal entry behind it.
  abbrev pub journalled : Bytes → Command → Bool × Reply × World → Reply × World
  journalled cmd c (ok, reply, w) = (
    reply,
    if c.mutating then journal_append cmd (if ok then codes "ok" else codes "FAILED") w else w,
  )

  unfoldable pub run_command : Bytes → Command → Request → World → Reply × World
  run_command cmd c req w =
      let (permitted, refusal) = check_tier cmd c cfg empty_reply in
      if not permitted
      then (refusal, w)
      else if c.mutating && is_dry_run req
      then (preview cmd c, w)
      else journalled cmd c (run c.fn req w)

  abbrev pub found : Bytes → Request → World → Option Command → Reply × World
  found cmd req w none = (fail "unknown_command" cmd, w)
  found cmd req w (some c) = run_command cmd c req w

  -- One request: the reply before `id` and `bin`, and the state behind it.
  unfoldable pub execute : Value → Bytes → World → Reply × World
  execute msg payload w =
      let cmd = as_string (get msg (codes "cmd")) [] in
      found cmd (record { msg = msg; payload = payload; cfg = cfg }) w (find_command cmd dispatch)

  abbrev pub answer : Value → Reply → Socket → Bool × Socket
  answer msg reply s =
      let r = complete (as_int (get msg (codes "id")) 0) reply in
      write_frame print_double r.json r.out s

  -- One round of the loop: the result of `ReadFrame`, and the count of idle timeouts.
  abbrev pub sent_reply : Bool × Socket → World → Next World
  sent_reply (true, s) w = again s w 0
  sent_reply (false, s) w = stop s w

  abbrev pub replied : Value → Reply × World → Socket → Next World
  replied msg (reply, w) s = sent_reply (answer msg reply s) w

  unfoldable pub round : FrameResult × Socket → World → ℕ → Next World
  round (gone, s) w idle_timeouts = stop s w
  round (idle, s) w idle_timeouts =
      if leb max_idle_timeouts (idle_timeouts + 1) then stop s w else again s w (idle_timeouts + 1)
  round (frame msg payload, s) w idle_timeouts = replied msg (execute msg payload w) s

  -- The loop over the frames. `none` says that the fuel ran out.
  unfoldable pub serve_loop : ℕ → Socket → World → ℕ → Option (Socket × World)
  serve_loop zero s w idle_timeouts = none
  serve_loop (suc fuel) s w idle_timeouts =
      proceed (serve_loop fuel) (round (read_frame strtod s) w idle_timeouts)

  abbrev pub released : Option (Socket × World) → Option (Socket × World)
  released none = none
  released (some (s, w)) = some (s, release_pad w)

  abbrev pub admitted : ℕ → Bool × Socket × World → Option (Socket × World)
  admitted fuel (false, s, w) = some (s, w)
  admitted fuel (true, s, w) = released (serve_loop fuel s w 0)

  unfoldable pub serve_connection : ℕ → Bytes → Socket → World → Option (Socket × World)
  serve_connection fuel nonce s w = admitted fuel (authenticate h cfg nonce s w)
