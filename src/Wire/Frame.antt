-- ===== src/Wire/Frame.antt =====
-- `ReadFrame` and `WriteFrame` of agent/source/server.cpp.
use switch_mcp.Base.{
  ℕ, ◌-◌, ◌*◌, ◌%◌, ◌^◌, Bool, true, false, not, ◌||◌, [], Option, none, some, ltb, ◌==◌,
  if◌then◌else◌, length, Bytes, codes, is_empty,
}
use switch_mcp.Json.Value.{Value, get, has, as_int}
use switch_mcp.Json.Parse.{parse}
use switch_mcp.Json.Write.{write}
use switch_mcp.Wire.Words.{encode, decode, lt64}
use switch_mcp.Wire.Socket.{
  IoResult, done, timed_out, closed, Socket, set_recv_timeout, idle_timeout_sec, io_timeout_sec,
  read_exact_ex, read_exact, write_all,
}

abbrev pub max_json : ℕ
max_json = 64 * 1024

abbrev pub max_binary : ℕ
max_binary = 2 ^ 20

-- The three results of `ReadFrame`, with `msg` and `payload` on the first.
pub data FrameResult : Type 0 where
  frame : Value → Bytes → FrameResult
  idle : FrameResult
  gone : FrameResult

-- The binary part, which `bin` announces.
unfoldable pub read_payload : Value → Socket → FrameResult × Socket
read_payload msg s =
    if not (has msg (codes "bin"))
    then (frame msg [], s)
    else let blen = as_int (get msg (codes "bin")) (2 ^ 64 - 1) in
      if lt64 blen 0 || ltb max_binary blen
      then (gone, s)
      else let (got_length, prefix, s') = read_exact 8 s in
        let wire_len = decode prefix in
        if not got_length
        then (gone, s')
        else if not (wire_len == blen) || ltb max_binary wire_len
        then (gone, s')
        else let (got_bytes, payload, s'') = read_exact wire_len s' in
          if wire_len == 0
          then (frame msg [], s')
          else if not got_bytes
          then (gone, s'')
          else (frame msg payload, s'')

abbrev pub with_message : Option Value → Socket → FrameResult × Socket
with_message none s = (gone, s)
with_message (some msg) s = read_payload msg s

-- What follows the length prefix.
unfoldable pub read_body : (Bytes → ℕ) → ℕ → Socket → FrameResult × Socket
unfolding read_payload
read_body strtod jlen s =
    if jlen == 0 || ltb max_json jlen
    then (gone, s)
    else let (got_text, text, s') = read_exact jlen s in
      if not got_text then (gone, s') else with_message (parse strtod text) s'

-- The destructor of `RestoreIdle` runs on every return behind the prefix.
abbrev restore_idle : FrameResult × Socket → FrameResult × Socket
restore_idle (r, s) = (r, set_recv_timeout idle_timeout_sec s)

abbrev pub started : (Bytes → ℕ) → IoResult × Bytes × Socket → FrameResult × Socket
started strtod (done, prefix, s) =
    restore_idle (read_body strtod (decode prefix) (set_recv_timeout io_timeout_sec s))
started strtod (timed_out, prefix, s) = (idle, s)
started strtod (closed, prefix, s) = (gone, s)

unfoldable pub read_frame : (Bytes → ℕ) → Socket → FrameResult × Socket
read_frame strtod s = started strtod (read_exact_ex 4 s)

-- `if (!WriteAll(...)) return false;`, and on to the next write.
infixl 5 ◌then_send◌
abbrev pub ◌then_send◌ : Bool × Socket → Bytes → Bool × Socket
(true, s) then_send bs = write_all bs s
(false, s) then_send bs = (false, s)

unfoldable pub write_frame : (ℕ → Bytes) → Value → Bytes → Socket → Bool × Socket
write_frame print_double msg payload s =
    let text = write print_double msg in
    let json_part = write_all (encode 4 (length text % 2 ^ 32)) s then_send text in
    if is_empty payload
    then json_part
    else json_part then_send encode 8 (length payload) then_send payload
