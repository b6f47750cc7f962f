-- ===== src/Power.antt =====
-- agent/source/power_state.cpp, and the accept loop of `Server::Run` in agent/source/server.cpp. The
-- waits and the log are not modelled.
pub mod Wake
use switch_mcp.Base.{
  ℕ, zero, suc, ◌+◌, Bool, true, false, not, List, [], ◌∷◌, ◌++◌, leb, if◌then◌else◌,
}

-- What `psc` asks for.
pub data PowerRequest : Type 0 where
  ready_sleep ready_sleep_critical : PowerRequest
  awake ready_awaken ready_awaken_critical : PowerRequest
  ready_shutdown : PowerRequest

-- `g_asleep`, `g_woke`, and the requests that were acknowledged.
pub record PowerState : Type 0 where
  pub is_asleep : Bool
  pub woke : Bool
  pub acknowledged : List PowerRequest

-- The switch of `AckThread`.
abbrev pub noted : PowerRequest → PowerState → PowerState
noted ready_sleep p = record p { is_asleep = true }
noted ready_sleep_critical p = record p { is_asleep = true }
noted awake p = record p { is_asleep = false; woke = true }
noted ready_awaken p = record p { is_asleep = false; woke = true }
noted ready_awaken_critical p = record p { is_asleep = false; woke = true }
noted ready_shutdown p = p

abbrev pub acknowledge : PowerRequest → PowerState → PowerState
acknowledge r p = record p { acknowledged = p.acknowledged ++ r ∷ [] }

-- The inner loop of `AckThread`, over the requests that are pending.
unfoldable pub answer_requests : List PowerRequest → PowerState → PowerState
answer_requests [] p = p
answer_requests (r ∷ rs) p = answer_requests rs (acknowledge r (noted r p))

-- One round of `AckThread`: `eventWait` times out, or the pending requests are answered.
pub data Wakeup : Type 0 where
  wait_failed : Wakeup
  signalled : List PowerRequest → Wakeup

abbrev pub ack_round : Wakeup → PowerState → PowerState
ack_round wait_failed p = p
ack_round (signalled rs) p = answer_requests rs p

-- `TakeWokeFlag`.
unfoldable pub take_woke_flag : PowerState → Bool × PowerState
take_woke_flag p = if not p.woke then (false, p) else (true, record p { woke = false })

-- What `accept` finds: a client, or a failure.
pub data Accepted : Type 0 where
  client refused : Accepted

-- A turn of the loop: the listener is kept, with the count of errors, or it is rebuilt.
pub data Turn : Type 0 where
  keep : ℕ → PowerState → Turn
  rebuild : PowerState → Turn

abbrev pub max_accept_errors : ℕ
max_accept_errors = 20

-- A failed `accept`, with what `TakeWokeFlag` returned.
abbrev pub failed_accept : ℕ → Bool × PowerState → Turn
failed_accept errors (true, p) = rebuild p
failed_accept errors (false, p) =
    if p.is_asleep
    then keep errors p
    else if leb max_accept_errors (errors + 1)
    then rebuild p
    else keep (errors + 1) p

-- One `accept` in the loop of `Run`; a client is served by `serve_connection`.
unfoldable pub accept_turn : Accepted → ℕ → PowerState → Turn
accept_turn client errors p = keep 0 p
accept_turn refused errors p = failed_accept errors (take_woke_flag p)

abbrev pub then_turn : (ℕ → PowerState → Turn) → Turn → Turn
then_turn more (keep errors p) = more errors p
then_turn more (rebuild p) = rebuild p

-- The inner loop of `Run` over what successive `accept` calls find, until the listener is rebuilt.
unfoldable pub accept_loop : List Accepted → ℕ → PowerState → Turn
accept_loop [] errors p = keep errors p
accept_loop (a ∷ rest) errors p = then_turn (accept_loop rest) (accept_turn a errors p)
