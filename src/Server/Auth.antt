-- ===== src/Server/Auth.antt =====
-- `Server::Authenticate` of agent/source/server.cpp, and what the server takes from elsewhere.
use switch_mcp.Base.{
  ℕ, ◌*◌, ◌/◌, ◌%◌, Bool, true, false, not, ◌&&◌, List, [], ◌∷◌, String, ◌==◌, leb, if◌then◌else◌,
  length, Bytes, codes, eq, is_empty,
}
use switch_mcp.Json.Value.{
  Value, boolean, int, string, empty_object, empty_array, set, push, get, as_int, as_string,
}
use switch_mcp.Json.Write.{hex_digit}
use switch_mcp.Wire.Socket.{Socket, set_recv_timeout, idle_timeout_sec, io_timeout_sec}
use switch_mcp.Wire.Frame.{FrameResult, frame, idle, gone, read_frame, write_frame}
use switch_mcp.Agent.{AgentConfig, tier_value, Request, Reply, error_object}
use switch_mcp.Server.Handlers.{Handler}
use switch_mcp.Server.Table.{Row, dispatch}
use switch_mcp.Server.Gate.{tier_name, secure_equal}

-- What the server calls: the handlers and the other modules of the agent, over the state `World`
-- of the console, and the C library's and libnx's functions.
pub record Host : Type 1 where
  pub World : Type 0
  pub run : Handler → Request → World → Bool × Reply × World
  pub journal_append : Bytes → Bytes → World → World
  pub watchdog_on_connect : World → World
  pub release_pad : World → World
  pub hmac_sha256 : Bytes → Bytes → Bytes
  pub firmware : Bytes
  pub strtod : Bytes → ℕ
  pub print_double : ℕ → Bytes

-- `snprintf("%02x")` of each byte.
unfoldable pub hex : Bytes → Bytes
hex [] = []
hex (b ∷ bs) = hex_digit (b / 16) ∷ hex_digit (b % 16) ∷ hex bs

abbrev with_field : String → Value → Value → Value
with_field k v o = set o (codes k) v

abbrev pub text_of : Value → String → Bytes
text_of msg k = as_string (get msg (codes k)) []

unfoldable pub challenge : ℕ → Bytes → Value
challenge hello_id nonce_hex =
    with_field "algo" (string (codes "hmac-sha256"))
      (with_field "challenge" (string nonce_hex) (with_field "id" (int hello_id) empty_object))

unfoldable pub refusal : ℕ → Value
refusal hello_id =
    with_field "error" (error_object (codes "auth") (codes "invalid credentials"))
      (with_field "id" (int hello_id) empty_object)

-- The names of the commands that the tier admits, in the table's order.
unfoldable pub advertised : AgentConfig → List Row → Value → Value
advertised cfg [] cmds = cmds
advertised cfg ((name, c) ∷ rows) cmds =
    advertised cfg rows
      (if leb (tier_value c.tier) (tier_value cfg.tier) then push cmds (string name) else cmds)

unfoldable pub welcome : AgentConfig → Bytes → Value → Value
welcome cfg fw msg = with_field "commands" (advertised cfg dispatch empty_array) (
    with_field "allow_hardware" (boolean cfg.allow_hardware) (
      with_field "allow_overclock" (boolean cfg.allow_overclock) (
        with_field "allow_nand_write" (boolean cfg.allow_nand_write) (
          with_field "emummc" (boolean cfg.is_emummc) (
            with_field "tier" (string (tier_name cfg.tier)) (
              with_field "fw" (string fw) (
                with_field "protocol_version" (int 1) (
                  with_field "agent_version" (string (codes "0.2.0")) (
                    with_field "ok" (boolean true) (
                      with_field "id" (int (as_int (get msg (codes "id")) 0)) empty_object))))))))))

-- The check of the presented MAC, `SHA256_HASH_SIZE` being 32.
unfoldable pub mac_accepted : (Bytes → Bytes → Bytes) → AgentConfig → Bytes → Bytes → Bool
mac_accepted hmac_sha256 cfg nonce_hex presented =
    if not (is_empty cfg.token) && length presented == 32 * 2
    then secure_equal presented (hex (hmac_sha256 cfg.token nonce_hex))
    else false

unfoldable pub token_accepted : AgentConfig → Bytes → Bool
token_accepted cfg presented = not (is_empty cfg.token) && secure_equal presented cfg.token

module _ (h : Host) (cfg : AgentConfig) where
  open h use {World, watchdog_on_connect, hmac_sha256, firmware, strtod, print_double}

  -- From `if (!authed)` on. The wait of two seconds on a refusal has no effect in the model.
  unfoldable pub verdict : Value → ℕ → Bool → Socket → World → Bool × Socket × World
  verdict msg hello_id authed s w =
      let s' = set_recv_timeout idle_timeout_sec s in
      if not authed
      then (false, (write_frame print_double (refusal hello_id) [] s').1, w)
      else let (sent, s'') = write_frame print_double (welcome cfg firmware msg) [] s' in
        if not sent then (false, s'', w) else (true, s'', watchdog_on_connect w)

  abbrev pub refused : Socket → World → Bool × Socket × World
  refused s w = (false, set_recv_timeout idle_timeout_sec s, w)

  -- The answer to the challenge.
  abbrev pub answered : Bytes → ℕ → FrameResult × Socket → World → Bool × Socket × World
  answered nonce_hex hello_id (frame resp payload, s) w =
      verdict resp (as_int (get resp (codes "id")) hello_id)
        (mac_accepted hmac_sha256 cfg nonce_hex (text_of resp "hmac")) s w
  answered nonce_hex hello_id (idle, s) w = refused s w
  answered nonce_hex hello_id (gone, s) w = refused s w

  abbrev pub challenged : Bytes → ℕ → Bool × Socket → World → Bool × Socket × World
  challenged nonce_hex hello_id (true, s) w = answered nonce_hex hello_id (read_frame strtod s) w
  challenged nonce_hex hello_id (false, s) w = refused s w

  -- A hello with the token in it; the flag is `cfg_.require_hmac_auth`.
  abbrev pub plain : Bool → Value → ℕ → Socket → World → Bool × Socket × World
  plain false msg hello_id s w = verdict msg hello_id (token_accepted cfg (text_of msg "token")) s w
  plain true msg hello_id s w = verdict msg hello_id false s w

  unfoldable pub greeted : Bytes → Value → Socket → World → Bool × Socket × World
  greeted nonce msg s w =
      let hello_id = as_int (get msg (codes "id")) 0 in
      if not (eq (text_of msg "cmd") (codes "hello"))
      then refused s w
      else if eq (text_of msg "auth") (codes "hmac")
      then challenged (hex nonce) hello_id
          (write_frame print_double (challenge hello_id (hex nonce)) [] s) w
      else plain cfg.require_hmac_auth msg hello_id s w

  abbrev pub hello_read : Bytes → FrameResult × Socket → World → Bool × Socket × World
  hello_read nonce (frame msg payload, s) w = greeted nonce msg s w
  hello_read nonce (idle, s) w = refused s w
  hello_read nonce (gone, s) w = refused s w

  -- `nonce` is what `randomGet` filled in for this connection.
  unfoldable pub authenticate : Bytes → Socket → World → Bool × Socket × World
  authenticate nonce s w =
      hello_read nonce (read_frame strtod (set_recv_timeout io_timeout_sec s)) w
