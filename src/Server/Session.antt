-- ===== src/Server/Session.antt =====
-- What one request, and what a whole connection, may do to the console.
use switch_mcp.Base.{
  ℕ, zero, suc, ◌+◌, Bool, true, false, ◌&&◌, [], Option, none, some, ◌≡◌, refl, subst, leb, Bytes,
  codes, Bool-cases, inl, inr, &&-eq-true,
}
use switch_mcp.Json.Value.{Value, get, as_string}
use switch_mcp.Wire.Socket.{Socket}
use switch_mcp.Wire.Frame.{FrameResult, frame, idle, gone, read_frame}
use switch_mcp.Agent.{AgentConfig, Request, Reply, empty_reply, fail, is_dry_run}
use switch_mcp.Server.Table.{Command, dispatch, find_command}
use switch_mcp.Server.Gate.{check_tier, Permits}
use switch_mcp.Server.Access.{check_tier-true, check_tier-false}
use switch_mcp.Server.Auth.{Host, authenticate}
use switch_mcp.Server.Login.{authenticate_refused, authenticate-LoggedIn}
use switch_mcp.Server.Serve.{
  run_command, execute, found, preview, journalled, serve_loop, serve_connection, answer, released,
  admitted, Next, stop, again, proceed, sent_reply, replied, round, max_idle_timeouts,
}

module _ (h : Host) (cfg : AgentConfig) where
  open h use {World, run, journal_append, watchdog_on_connect, release_pad, strtod, print_double}

  -- The command that a message names, if the table has it.
  abbrev pub command_of : Value → Bytes
  command_of msg = as_string (get msg (codes "cmd")) []

  abbrev pub request_of : Value → Bytes → Request
  request_of msg payload = record { msg = msg; payload = payload; cfg = cfg }

  -- How a request is answered: it is unknown, refused, only previewed, or run. Only in the last
  -- case does the console's state change: by the handler, and by a journal entry with the outcome
  -- behind it if the command mutates.
  pub data Outcome (msg : Value) (payload : Bytes) (w : World) : Reply × World → Type 0 where
    unknown :
        find_command (command_of msg) dispatch ≡ none
        → Outcome msg payload w (fail "unknown_command" (command_of msg), w)
    refused :
        (c : Command)
        → find_command (command_of msg) dispatch ≡ some c
        → ¬ Permits (command_of msg) c cfg
        → Outcome msg payload w ((check_tier (command_of msg) c cfg empty_reply).1, w)
    previewed :
        (c : Command)
        → find_command (command_of msg) dispatch ≡ some c
        → Permits (command_of msg) c cfg
        → c.mutating ≡ true
        → is_dry_run (request_of msg payload) ≡ true
        → Outcome msg payload w (preview (command_of msg) c, w)
    ran :
        (c : Command)
        → find_command (command_of msg) dispatch ≡ some c
        → Permits (command_of msg) c cfg
        → (c.mutating && is_dry_run (request_of msg payload)) ≡ false
        → Outcome msg payload w
            (journalled h cfg (command_of msg) c (run c.fn (request_of msg payload) w))

  run_command-Outcome :
      (msg : Value) (payload : Bytes) (w : World) (c : Command)
      → find_command (command_of msg) dispatch ≡ some c
      → Outcome msg payload w (run_command h cfg (command_of msg) c (request_of msg payload) w)
  unfolding run_command
  run_command-Outcome msg payload w c e =
      elim (Bool-cases ((check_tier (command_of msg) c cfg empty_reply).0)) [
        | inr n ↦ rw n (refused c e (check_tier-false (command_of msg) c cfg empty_reply n))
        | inl y ↦
            let p = check_tier-true (command_of msg) c cfg empty_reply y in
            rw y (elim (Bool-cases (c.mutating && is_dry_run (request_of msg payload))) [
              | inl d ↦ let both = &&-eq-true c.mutating _ d in rw d (previewed c e p both.0 both.1)
              | inr d ↦ rw d (ran c e p d)
            ])
      ]

  found-Outcome :
      (msg : Value) (payload : Bytes) (w : World) (o : Option Command)
      → find_command (command_of msg) dispatch ≡ o
      → Outcome msg payload w (found h cfg (command_of msg) (request_of msg payload) w o)
  found-Outcome msg payload w none e = unknown e
  found-Outcome msg payload w (some c) e = run_command-Outcome msg payload w c e

  -- Every request ends in one of the four outcomes.
  pub execute-Outcome :
      (msg : Value) (payload : Bytes) (w : World)
      → Outcome msg payload w (execute h cfg msg payload w)
  unfolding execute
  execute-Outcome msg payload w = found-Outcome msg payload w _ refl

  -- A property of the console that every handler keeps which the configuration permits, when it is
  -- not asked for a dry run, and that the server's own writes keep.
  pub record Preserves (P : World → Type 0) : Type 0 where
    pub by_handlers :
        (name : Bytes) (c : Command) (req : Request) (w : World)
        → find_command name dispatch ≡ some c
        → Permits name c cfg
        → (c.mutating && is_dry_run req) ≡ false
        → P w
        → P ((run c.fn req w).2)
    pub by_journal : (op detail : Bytes) (w : World) → P w → P (journal_append op detail w)
    pub by_watchdog : (w : World) → P w → P (watchdog_on_connect w)
    pub by_release : (w : World) → P w → P (release_pad w)

  module _ (P : World → Type 0) (keep : Preserves P) where
    journalled-Preserves :
        (cmd : Bytes) (c : Command) (r : Bool × Reply × World)
        → P r.2
        → P ((journalled h cfg cmd c r).1)
    journalled-Preserves cmd c (ok, reply, w) p = elim (Bool-cases c.mutating) [
      | inl m ↦ rw m (keep.by_journal cmd _ w p)
      | inr m ↦ rw m p
    ]

    Outcome-Preserves :
        {msg : Value} {payload : Bytes} {w : World} {r : Reply × World}
        → Outcome msg payload w r
        → P w
        → P r.1
    Outcome-Preserves (unknown e) p = p
    Outcome-Preserves (refused c e n) p = p
    Outcome-Preserves (previewed c e y m d) p = p
    Outcome-Preserves {msg} {payload} {w} (ran c e y d) p =
        journalled-Preserves (command_of msg) c (run c.fn (request_of msg payload) w)
          (keep.by_handlers (command_of msg) c (request_of msg payload) w e y d p)

    abbrev Holds : Option (Socket × World) → Type 0
    Holds none = Unit
    Holds (some (s, w)) = P w

    abbrev After : Next World → Type 0
    After (stop s w) = P w
    After (again s w n) = P w

    replied-Preserves :
        (msg : Value) (r : Reply × World) (s : Socket) → P r.1 → After (replied h cfg msg r s)
    replied-Preserves msg (reply, w) s p = go (answer h cfg msg reply s)
      where
        go : (b : Bool × Socket) → After (sent_reply h cfg b w)
        go (true, t) = p
        go (false, t) = p

    round-Preserves :
        (r : FrameResult × Socket) (w : World) (n : ℕ) → P w → After (round h cfg r w n)
    unfolding round
    round-Preserves (gone, s) w n p = p
    round-Preserves (idle, s) w n p = elim (Bool-cases (leb max_idle_timeouts (n + 1))) [
      | inl e ↦ rw e p
      | inr e ↦ rw e p
    ]
    round-Preserves (frame msg payload, s) w n p =
        replied-Preserves msg (execute h cfg msg payload w) s
          (Outcome-Preserves (execute-Outcome msg payload w) p)

    proceed-Preserves :
        (more : Socket → World → ℕ → Option (Socket × World))
        → ((s : Socket) (w : World) (n : ℕ) → P w → Holds (more s w n))
        → (x : Next World) → After x
        → Holds (proceed more x)
    proceed-Preserves more k (stop s w) p = p
    proceed-Preserves more k (again s w n) p = k s w n p

    serve_loop-Preserves :
        (fuel : ℕ) (s : Socket) (w : World) (n : ℕ) → P w → Holds (serve_loop h cfg fuel s w n)
    unfolding serve_loop
    serve_loop-Preserves zero s w n p = tt
    serve_loop-Preserves (suc fuel) s w n p =
        proceed-Preserves (serve_loop h cfg fuel) (λ s' w' k q. serve_loop-Preserves fuel s' w' k q)
          (round h cfg (read_frame strtod s) w n) (round-Preserves (read_frame strtod s) w n p)

    released-Preserves : (o : Option (Socket × World)) → Holds o → Holds (released h cfg o)
    released-Preserves none p = tt
    released-Preserves (some (s, w)) p = keep.by_release w p

    admitted-Preserves :
        (fuel : ℕ) (r : Bool × Socket × World) → P r.2 → Holds (admitted h cfg fuel r)
    admitted-Preserves fuel (true, s, w) p =
        released-Preserves (serve_loop h cfg fuel s w 0) (serve_loop-Preserves fuel s w 0 p)
    admitted-Preserves fuel (false, s, w) p = p

    authenticate-Preserves :
        (nonce : Bytes) (s : Socket) (w : World) → P w → P ((authenticate h cfg nonce s w).2)
    authenticate-Preserves nonce s w p = elim (Bool-cases ((authenticate h cfg nonce s w).0)) [
      | inl y ↦ rw ((authenticate-LoggedIn h cfg nonce s w y).counted) (keep.by_watchdog w p)
      | inr n ↦ rw (authenticate_refused h cfg nonce s w n) p
    ]

    -- A whole connection keeps every property of the console that is kept by the handlers which the
    -- configuration permits outside of a dry run and by the journal, the watchdog and the release of
    -- the virtual pad: no sequence of frames reaches any other handler.
    pub serve_connection-Preserves :
        (fuel : ℕ) (nonce : Bytes) (s : Socket) (w : World) {s' : Socket} {w' : World}
        → serve_connection h cfg fuel nonce s w ≡ some (s', w')
        → P w
        → P w'
    unfolding serve_connection
    serve_connection-Preserves fuel nonce s w e p = subst Holds e (
        admitted-Preserves fuel (authenticate h cfg nonce s w) (authenticate-Preserves nonce s w p))
