-- ===== src/Checks/Server.antt =====
-- The server's theorems at a concrete host, configuration and connection.
use switch_mcp.Base.{
  ℕ, suc, ◌+◌, ◌≤◌, ◌≡◌, ◌↔◌, refl, arith, true, false, [], ◌∷◌, some, Bytes, codes,
}
use switch_mcp.Json.Value.{Value, string, object, end, field, as_int, find, insert, push_back}
use switch_mcp.Json.Parse.{parse}
use switch_mcp.Json.Parse
use switch_mcp.Json.Number.{print_i64, digits, strtoll, read_digits}
use switch_mcp.Json.Write.{write, write_fields, write_items, write_chars, write_char}
use switch_mcp.Wire.Words.{encode, decode}
use switch_mcp.Wire.Socket.{
  Socket, chunk, stalled, accepts, read_exact, write_all, write_loop, read_loop, read_exact_ex,
}
use switch_mcp.Wire.Frame.{read_frame, write_frame, read_body, read_payload}
use switch_mcp.Agent.{AgentConfig, empty_reply, default_config, observe, control}
use switch_mcp.Server.Handlers.{Handler}
use switch_mcp.Server.Table.{Command, dispatch, find_command, place, place_all}
use switch_mcp.Server.Gate.{check_tier, Permits, secure_equal, difference}
use switch_mcp.Server.Access.{check_tier_iff}
use switch_mcp.Server.Equality.{secure_equal_iff}
use switch_mcp.Server.Auth.{
  Host, authenticate, greeted, verdict, token_accepted, welcome, advertised,
}
use switch_mcp.Server.Login.{LoggedIn, authenticate-LoggedIn, authenticate_refused}
use switch_mcp.Server.Serve.{execute, serve_connection}
use switch_mcp.Server.Session.{Outcome, execute-Outcome, Preserves, serve_connection-Preserves}
use switch_mcp.Server.Ends.{serve_connection-Returns}
use switch_mcp.Server.Handlers

-- A console that counts what happens to it.
abbrev host : Host
host = record {
  World = ℕ;
  run = λ handler req w. (true, empty_reply, suc w);
  journal_append = λ op detail w. w + 100;
  watchdog_on_connect = λ w. w + 10;
  release_pad = λ w. w;
  hmac_sha256 = λ key text. [];
  firmware = codes "17.0.0";
  strtod = λ s. 0;
  print_double = λ d. [];
}

abbrev config : AgentConfig
config = record default_config { token = codes "k" }

-- The frame of `{"cmd":"hello","token":"k"}`.
abbrev hello : Bytes
hello = 27 ∷ 0 ∷ 0 ∷ 0 ∷ codes "{\"cmd\":\"hello\",\"token\":\"k\"}"

abbrev rename : Value
rename = object (field (codes "cmd") (string (codes "fs.rename")) end)

abbrev connection : Socket
connection = record {
  incoming = chunk hello ∷ stalled ∷ chunk (20 ∷ 0 ∷ 0 ∷ 0 ∷ codes "{\"cmd\":\"sys.reboot\"}") ∷ [];
  acceptances = accepts 10000 ∷ accepts 10000 ∷ accepts 10000 ∷ accepts 10000 ∷ [];
  sent = [];
  recv_timeout = 0;
}

abbrev stranger : Socket
stranger = record connection { incoming = chunk (2 ∷ 0 ∷ 0 ∷ 0 ∷ codes "{}") ∷ [] }

abbrev nonce : Bytes
nonce = 1 ∷ 2 ∷ []

abbrev rename_command : Command
rename_command = record { fn = Handlers.fs_rename; tier = control; mutating = true }

check_tier_iff_example :
    (check_tier (codes "fs.rename") rename_command config empty_reply ≡ (true, empty_reply))
    ↔ Permits (codes "fs.rename") rename_command config
check_tier_iff_example = check_tier_iff (codes "fs.rename") rename_command config empty_reply

reboot_found :
    find_command (codes "nand.read") dispatch
    ≡ some (record { fn = Handlers.nand_read; tier = observe; mutating = false })
unfolding find_command dispatch place place_all
reboot_found = refl

abbrev typed_token : Bytes
typed_token = 1 ∷ 2 ∷ []

abbrev other_token : Bytes
other_token = 1 ∷ 3 ∷ []

secure_equal_iff_example :
    (secure_equal typed_token other_token ≡ true) ↔ (typed_token ≡ other_token)
secure_equal_iff_example =
    secure_equal_iff typed_token other_token (omega arith, (omega arith, tt))
      (omega arith, (omega arith, tt))

execute-Outcome_example : Outcome host config rename [] 0 (execute host config rename [] 0)
execute-Outcome_example = execute-Outcome host config rename [] 0

stranger_refused : (authenticate host config nonce stranger 5).0 ≡ false
unfolding read_frame read_exact_ex read_exact read_loop decode read_body read_payload authenticate
    greeted verdict token_accepted secure_equal difference parse Parse.parse_value Parse.scan_number
    Parse.scan Parse.number_of insert Parse.skip_ws Parse.parse_string Parse.string_loop
    Parse.parse_number find as_int strtoll read_digits
stranger_refused = refl

authenticate_refused_example : (authenticate host config nonce stranger 5).2 ≡ 5
authenticate_refused_example = authenticate_refused host config nonce stranger 5 stranger_refused

hello_accepted : (authenticate host config nonce connection 5).0 ≡ true
unfolding read_frame read_exact_ex read_exact read_loop decode read_body read_payload authenticate
    greeted verdict token_accepted secure_equal difference parse Parse.parse_value Parse.scan_number
    Parse.scan Parse.number_of insert Parse.skip_ws Parse.parse_string Parse.string_loop
    Parse.parse_number find as_int strtoll read_digits write_frame write_all write_loop write
    write_fields write_items write_chars write_char print_i64 digits encode welcome advertised
    dispatch place place_all push_back
hello_accepted = refl

authenticate-LoggedIn_example :
    LoggedIn host config nonce connection 5 (authenticate host config nonce connection 5)
authenticate-LoggedIn_example = authenticate-LoggedIn host config nonce connection 5 hello_accepted

-- What every call keeps: the count has reached 5.
abbrev Reached : ℕ → Type 0
Reached w = 5 ≤ w

Reached-Preserves : Preserves host config Reached
Reached-Preserves = record {
  by_handlers = λ name c req w e p r le. omega (arith, le);
  by_journal = λ op detail w le. omega (arith, le);
  by_watchdog = λ w le. omega (arith, le);
  by_release = λ w le. le;
}

-- The connection logs in, waits, and asks for a command that is refused.
served : (r : Socket × ℕ) × (serve_connection host config 100 nonce connection 5 ≡ some r)
served = serve_connection-Returns host config 100 nonce connection 5 (omega arith)

serve_connection-Preserves_example : Reached served.0.1
serve_connection-Preserves_example =
    serve_connection-Preserves host config Reached Reached-Preserves 100 nonce connection 5 served.1
      (omega arith)
