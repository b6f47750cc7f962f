-- ===== src/Server/Ends.antt =====
-- The loop over the frames ends: each round uses up something of what is on its way.
use switch_mcp.Base.{
  ◌≤◌, [], codes, eq, ℕ, zero, suc, ◌+◌, ◌<◌, Bool, true, false, Option, none, some, ◌≡◌, ◌≢◌, refl,
  arith, leb, Bytes, Bool-cases, inl, inr,
}
use switch_mcp.Json.Value.{Value, get, as_int}
use switch_mcp.Wire.Socket.{Socket, set_recv_timeout, idle_timeout_sec, io_timeout_sec}
use switch_mcp.Wire.Frame.{FrameResult, frame, idle, gone, read_frame, write_frame}
use switch_mcp.Wire.Progress.{weight, read_frame-weight, write_frame-incoming, read_frame-NotMore}
use switch_mcp.Agent.{AgentConfig, Reply}
use switch_mcp.Server.Auth.{
  Host, verdict, answered, challenged, plain, greeted, hello_read, authenticate, welcome, challenge,
  hex, text_of,
}
use switch_mcp.Server.Serve.{
  serve_loop, serve_connection, admitted, released, Next, stop, again, proceed, sent_reply, answer,
  replied, round, max_idle_timeouts, execute,
}

module _ (h : Host) (cfg : AgentConfig) where
  open h use {World, strtod, print_double, firmware}

  abbrev Returns : Option (Socket × World) → Type 0
  Returns none = ⊥
  Returns (some r) = Unit

  -- The next round, if there is one, finds less on its way.
  abbrev Shrinks : ℕ → Next World → Type 0
  Shrinks n (stop s w) = Unit
  Shrinks n (again s w k) = weight s.incoming < n

  sent_reply-Shrinks :
      (n : ℕ) (r : Bool × Socket) (w : World)
      → weight r.1.incoming < n
      → Shrinks n (sent_reply h cfg r w)
  sent_reply-Shrinks n (true, s) w lt = lt
  sent_reply-Shrinks n (false, s) w lt = tt

  replied-Shrinks :
      (n : ℕ) (msg : Value) (r : Reply × World) (s : Socket)
      → weight s.incoming < n
      → Shrinks n (replied h cfg msg r s)
  replied-Shrinks n msg (reply, w) s lt =
      sent_reply-Shrinks n (answer h cfg msg reply s) w
        (rw (write_frame-incoming print_double _ _ s) lt)

  round-Shrinks :
      (n : ℕ) (r : FrameResult × Socket) (w : World) (k : ℕ)
      → (r.0 ≢ gone → weight r.1.incoming < n)
      → Shrinks n (round h cfg r w k)
  unfolding round
  round-Shrinks n (gone, s) w k lt = tt
  round-Shrinks n (idle, s) w k lt = elim (Bool-cases (leb max_idle_timeouts (k + 1))) [
    | inl e ↦ rw e tt
    | inr e ↦ rw e (lt (ground arith))
  ]
  round-Shrinks n (frame msg payload, s) w k lt =
      replied-Shrinks n msg (execute h cfg msg payload w) s (lt (ground arith))

  proceed-Returns :
      (n : ℕ) (more : Socket → World → ℕ → Option (Socket × World))
      → ((s : Socket) (w : World) (k : ℕ) → weight s.incoming < n → Returns (more s w k))
      → (x : Next World) → Shrinks n x
      → Returns (proceed more x)
  proceed-Returns n more ends (stop s w) lt = tt
  proceed-Returns n more ends (again s w k) lt = ends s w k lt

  serve_loop-Returns :
      (fuel : ℕ) (s : Socket) (w : World) (k : ℕ)
      → weight s.incoming < fuel
      → Returns (serve_loop h cfg fuel s w k)
  unfolding serve_loop
  serve_loop-Returns zero s w k lt = omega (arith, lt)
  serve_loop-Returns (suc fuel) s w k lt =
      proceed-Returns fuel (serve_loop h cfg fuel) (serve_loop-Returns fuel) _ (
        round-Shrinks fuel (read_frame strtod s) w k
          (λ more. omega (arith, lt, read_frame-weight strtod s more)))

  -- The login leaves no more on its way than it found.
  abbrev Settles : ℕ → Bool × Socket × World → Type 0
  Settles n r = weight r.1.incoming ≤ n

  verdict-Settles :
      (n : ℕ) (msg : Value) (id : ℕ) (authed : Bool) (s : Socket) (w : World)
      → weight s.incoming ≤ n
      → Settles n (verdict h cfg msg id authed s w)
  unfolding verdict
  verdict-Settles n msg id false s w le = rw (write_frame-incoming print_double _ [] _) le
  verdict-Settles n msg id true s w le =
      let s' = set_recv_timeout idle_timeout_sec s in
      let r = write_frame print_double (welcome cfg firmware msg) [] s' in
      let same = write_frame-incoming print_double (welcome cfg firmware msg) [] s' in
      elim (Bool-cases (r.0)) [ inl e ↦ rw e (rw same le) | inr e ↦ rw e (rw same le) ]

  answered-Settles :
      (n : ℕ) (nonce_hex : Bytes) (id : ℕ) (r : FrameResult × Socket) (w : World)
      → weight r.1.incoming ≤ n
      → Settles n (answered h cfg nonce_hex id r w)
  answered-Settles n nonce_hex id (frame resp payload, s) w le = verdict-Settles n resp _ _ s w le
  answered-Settles n nonce_hex id (idle, s) w le = le
  answered-Settles n nonce_hex id (gone, s) w le = le

  challenged-Settles :
      (n : ℕ) (nonce_hex : Bytes) (id : ℕ) (r : Bool × Socket) (w : World)
      → weight r.1.incoming ≤ n
      → Settles n (challenged h cfg nonce_hex id r w)
  challenged-Settles n nonce_hex id (true, s) w le =
      answered-Settles n nonce_hex id (read_frame strtod s) w
        (omega (arith, le, read_frame-NotMore strtod s))
  challenged-Settles n nonce_hex id (false, s) w le = le

  plain-Settles :
      (n : ℕ) (hmac_only : Bool) (msg : Value) (id : ℕ) (s : Socket) (w : World)
      → weight s.incoming ≤ n
      → Settles n (plain h cfg hmac_only msg id s w)
  plain-Settles n true msg id s w le = verdict-Settles n msg id false s w le
  plain-Settles n false msg id s w le = verdict-Settles n msg id _ s w le

  greeted-Settles :
      (n : ℕ) (nonce : Bytes) (msg : Value) (s : Socket) (w : World)
      → weight s.incoming ≤ n
      → Settles n (greeted h cfg nonce msg s w)
  unfolding greeted
  greeted-Settles n nonce msg s w le =
      let id = as_int (get msg (codes "id")) 0 in
      let asked = write_frame print_double (challenge id (hex nonce)) [] s in
      elim (Bool-cases (eq (text_of msg "cmd") (codes "hello"))) [
        | inr e ↦ rw e le
        | inl c ↦ rw c (elim (Bool-cases (eq (text_of msg "auth") (codes "hmac"))) [
          | inl a ↦ rw a (
              challenged-Settles n (hex nonce) id asked w
                (rw (write_frame-incoming print_double (challenge id (hex nonce)) [] s) le))
          | inr a ↦ rw a (plain-Settles n cfg.require_hmac_auth msg id s w le)
        ])
      ]

  hello_read-Settles :
      (n : ℕ) (nonce : Bytes) (r : FrameResult × Socket) (w : World)
      → weight r.1.incoming ≤ n
      → Settles n (hello_read h cfg nonce r w)
  hello_read-Settles n nonce (frame msg payload, s) w le = greeted-Settles n nonce msg s w le
  hello_read-Settles n nonce (idle, s) w le = le
  hello_read-Settles n nonce (gone, s) w le = le

  authenticate-Settles :
      (nonce : Bytes) (s : Socket) (w : World)
      → Settles (weight s.incoming) (authenticate h cfg nonce s w)
  unfolding authenticate
  authenticate-Settles nonce s w =
      hello_read-Settles _ nonce _ w (read_frame-NotMore strtod (set_recv_timeout io_timeout_sec s))

  admitted-Returns :
      (fuel : ℕ) (r : Bool × Socket × World)
      → weight r.1.incoming < fuel
      → Returns (admitted h cfg fuel r)
  admitted-Returns fuel (false, s, w) lt = tt
  admitted-Returns fuel (true, s, w) lt =
      go (serve_loop h cfg fuel s w 0) (serve_loop-Returns fuel s w 0 lt)
    where
      go : (o : Option (Socket × World)) → Returns o → Returns (released h cfg o)
      go (some r) ok = tt
      go none never = never

  value_of : (o : Option (Socket × World)) → Returns o → (r : Socket × World) × (o ≡ some r)
  value_of (some r) ok = (r, refl)
  value_of none never = elim never [ ]

  pub serve_connection-Returns :
      (fuel : ℕ) (nonce : Bytes) (s : Socket) (w : World)
      → weight s.incoming < fuel
      → (r : Socket × World) × (serve_connection h cfg fuel nonce s w ≡ some r)
  unfolding serve_connection
  serve_connection-Returns fuel nonce s w lt = value_of _ (
      admitted-Returns fuel (authenticate h cfg nonce s w)
        (omega (arith, lt, authenticate-Settles nonce s w)))
