-- ===== src/Server/Login.antt =====
-- Who gets past `Authenticate`.
use switch_mcp.Base.{
  ℕ, Bool, true, false, [], ◌≡◌, refl, arith, if◌then◌else◌, Bytes, codes, eq, is_empty, Bool-cases,
  inl, inr,
}
use switch_mcp.Json.Value.{Value, get, as_int}
use switch_mcp.Wire.Socket.{Socket, set_recv_timeout, io_timeout_sec}
use switch_mcp.Wire.Frame.{FrameResult, frame, idle, gone, read_frame, write_frame}
use switch_mcp.Agent.{AgentConfig}
use switch_mcp.Server.Gate.{secure_equal}
use switch_mcp.Server.Auth.{
  Host, hex, challenge, text_of, mac_accepted, token_accepted, verdict, greeted, authenticate,
  answered, challenged, hello_read, plain,
}

module _ (h : Host) (cfg : AgentConfig) (nonce : Bytes) where
  open h use {World, watchdog_on_connect, hmac_sha256, firmware, strtod, print_double}

  -- The peer sent a first frame `hello`, and proved that it knows the token: by the MAC over the
  -- nonce of this connection, in the frame that followed the challenge with that nonce, or, where the configuration allows it, by the
  -- token itself.
  pub data Proves (s : Socket) : Type 0 where
    by_mac :
        (hello resp : Value) (p q : Bytes) (s1 s2 s3 : Socket)
        → read_frame strtod (set_recv_timeout io_timeout_sec s) ≡ (frame hello p, s1)
        → eq (text_of hello "cmd") (codes "hello") ≡ true
        → write_frame print_double (challenge (as_int (get hello (codes "id")) 0) (hex nonce)) [] s1
          ≡ (true, s2)
        → read_frame strtod s2 ≡ (frame resp q, s3)
        → secure_equal (text_of resp "hmac") (hex (hmac_sha256 cfg.token (hex nonce))) ≡ true
        → Proves s
    by_token :
        (hello : Value) (p : Bytes) (s1 : Socket)
        → read_frame strtod (set_recv_timeout io_timeout_sec s) ≡ (frame hello p, s1)
        → eq (text_of hello "cmd") (codes "hello") ≡ true
        → cfg.require_hmac_auth ≡ false
        → secure_equal (text_of hello "token") cfg.token ≡ true
        → Proves s

  -- What a successful login rests on.
  pub record LoggedIn (s : Socket) (w : World) (result : Bool × Socket × World) : Type 0 where
    pub has_token : is_empty cfg.token ≡ false
    pub proof : Proves s
    pub counted : result.2 ≡ watchdog_on_connect w

  welcomed :
      (b : Bool) (s t : Socket) (w v : World)
      → ((let r : Bool × Socket × World = if b then (false, s, w) else (true, t, v) in r).0) ≡ true
      → ((let r : Bool × Socket × World = if b then (false, s, w) else (true, t, v) in r).2) ≡ v
  welcomed true s t w v e = cc e
  welcomed false s t w v e = refl

  unwelcomed :
      (b : Bool) (s t : Socket) (w v : World)
      → ((let r : Bool × Socket × World = if b then (false, s, w) else (true, t, v) in r).0) ≡ false
      → ((let r : Bool × Socket × World = if b then (false, s, w) else (true, t, v) in r).2) ≡ w
  unwelcomed true s t w v e = refl
  unwelcomed false s t w v e = cc e

  verdict-true :
      (msg : Value) (id : ℕ) (authed : Bool) (s : Socket) (w : World)
      → (verdict h cfg msg id authed s w).0 ≡ true
      → (authed ≡ true) × ((verdict h cfg msg id authed s w).2 ≡ watchdog_on_connect w)
  unfolding verdict
  verdict-true msg id false s w e = cc e
  verdict-true msg id true s w e = (refl, welcomed _ _ _ _ _ e)

  verdict-false :
      (msg : Value) (id : ℕ) (authed : Bool) (s : Socket) (w : World)
      → (verdict h cfg msg id authed s w).0 ≡ false
      → (verdict h cfg msg id authed s w).2 ≡ w
  unfolding verdict
  verdict-false msg id false s w e = refl
  verdict-false msg id true s w e = unwelcomed _ _ _ _ _ e

  mac_accepted-true :
      (presented : Bytes)
      → mac_accepted hmac_sha256 cfg (hex nonce) presented ≡ true
      → (is_empty cfg.token ≡ false)
        × (secure_equal presented (hex (hmac_sha256 cfg.token (hex nonce))) ≡ true)
  unfolding mac_accepted
  mac_accepted-true presented e = ground arith

  token_accepted-true :
      (presented : Bytes)
      → token_accepted cfg presented ≡ true
      → (is_empty cfg.token ≡ false) × (secure_equal presented cfg.token ≡ true)
  unfolding token_accepted
  token_accepted-true presented e = ground arith

  answered-LoggedIn :
      (s : Socket) (w : World) (hello : Value) (p : Bytes) (s1 : Socket) (id : ℕ) (s2 : Socket)
      (r : FrameResult × Socket)
      → read_frame strtod (set_recv_timeout io_timeout_sec s) ≡ (frame hello p, s1)
      → eq (text_of hello "cmd") (codes "hello") ≡ true
      → write_frame print_double (challenge (as_int (get hello (codes "id")) 0) (hex nonce)) [] s1
        ≡ (true, s2)
      → read_frame strtod s2 ≡ r
      → (answered h cfg (hex nonce) id r w).0 ≡ true
      → LoggedIn s w (answered h cfg (hex nonce) id r w)
  answered-LoggedIn s w hello p s1 id s2 (frame resp q, s3) eh c ew er e =
      let (accepted, counted) = verdict-true resp _ _ s3 w e in
      let (has_token, mac) = mac_accepted-true (text_of resp "hmac") accepted in
      record {
        has_token = has_token;
        proof = by_mac hello resp p q s1 s2 s3 eh c ew er mac;
        counted = counted;
      }
  answered-LoggedIn s w hello p s1 id s2 (idle, s3) eh c ew er e = cc e
  answered-LoggedIn s w hello p s1 id s2 (gone, s3) eh c ew er e = cc e

  challenged-LoggedIn :
      (s : Socket) (w : World) (hello : Value) (p : Bytes) (s1 : Socket) (id : ℕ)
      (r : Bool × Socket)
      → read_frame strtod (set_recv_timeout io_timeout_sec s) ≡ (frame hello p, s1)
      → eq (text_of hello "cmd") (codes "hello") ≡ true
      → write_frame print_double (challenge (as_int (get hello (codes "id")) 0) (hex nonce)) [] s1
        ≡ r
      → (challenged h cfg (hex nonce) id r w).0 ≡ true
      → LoggedIn s w (challenged h cfg (hex nonce) id r w)
  challenged-LoggedIn s w hello p s1 id (true, s2) eh c ew e =
      answered-LoggedIn s w hello p s1 id s2 (read_frame strtod s2) eh c ew refl e
  challenged-LoggedIn s w hello p s1 id (false, s2) eh c ew e = cc e

  plain-LoggedIn :
      (s : Socket) (w : World) (hello : Value) (p : Bytes) (s1 : Socket) (id : ℕ) (b : Bool)
      → cfg.require_hmac_auth ≡ b
      → read_frame strtod (set_recv_timeout io_timeout_sec s) ≡ (frame hello p, s1)
      → eq (text_of hello "cmd") (codes "hello") ≡ true
      → (plain h cfg b hello id s1 w).0 ≡ true
      → LoggedIn s w (plain h cfg b hello id s1 w)
  plain-LoggedIn s w hello p s1 id true q eh c e = cc ((verdict-true hello id false s1 w e).0)
  plain-LoggedIn s w hello p s1 id false q eh c e =
      let (accepted, counted) = verdict-true hello id _ s1 w e in
      let (has_token, token) = token_accepted-true (text_of hello "token") accepted in
      record { has_token = has_token; proof = by_token hello p s1 eh c q token; counted = counted }

  greeted-LoggedIn :
      (s : Socket) (w : World) (hello : Value) (p : Bytes) (s1 : Socket)
      → read_frame strtod (set_recv_timeout io_timeout_sec s) ≡ (frame hello p, s1)
      → (greeted h cfg nonce hello s1 w).0 ≡ true
      → LoggedIn s w (greeted h cfg nonce hello s1 w)
  unfolding greeted
  greeted-LoggedIn s w hello p s1 eh =
      elim (Bool-cases (eq (text_of hello "cmd") (codes "hello"))) [
        | inr n ↦ rw n (λ e. cc e)
        | inl c ↦ rw c (elim (Bool-cases (eq (text_of hello "auth") (codes "hmac"))) [
          | inl a ↦ rw a (λ e. challenged-LoggedIn s w hello p s1 _ _ eh c refl e)
          | inr a ↦ rw a (λ e. plain-LoggedIn s w hello p s1 _ cfg.require_hmac_auth refl eh c e)
        ])
      ]

  hello_read-LoggedIn :
      (s : Socket) (w : World) (r : FrameResult × Socket)
      → read_frame strtod (set_recv_timeout io_timeout_sec s) ≡ r
      → (hello_read h cfg nonce r w).0 ≡ true
      → LoggedIn s w (hello_read h cfg nonce r w)
  hello_read-LoggedIn s w (frame hello p, s1) eh e = greeted-LoggedIn s w hello p s1 eh e
  hello_read-LoggedIn s w (idle, s1) eh e = cc e
  hello_read-LoggedIn s w (gone, s1) eh e = cc e

  -- If `Authenticate` returns true, a token is configured, the first frame was a `hello`, and either
  -- the frame behind the challenge held the MAC of this connection's nonce under the token, or plaintext login is
  -- allowed and the hello held the token. Nothing happened to the console but the watchdog's reset.
  pub authenticate-LoggedIn :
      (s : Socket) (w : World)
      → (authenticate h cfg nonce s w).0 ≡ true
      → LoggedIn s w (authenticate h cfg nonce s w)
  unfolding authenticate
  authenticate-LoggedIn s w e = hello_read-LoggedIn s w _ refl e

  abbrev Calm : World → Bool × Socket × World → Type 0
  Calm w result = result.0 ≡ false → result.2 ≡ w

  answered-Calm :
      (id : ℕ) (r : FrameResult × Socket) (w : World) → Calm w (answered h cfg (hex nonce) id r w)
  answered-Calm id (frame resp q, s) w e = verdict-false resp _ _ s w e
  answered-Calm id (idle, s) w e = refl
  answered-Calm id (gone, s) w e = refl

  challenged-Calm :
      (id : ℕ) (r : Bool × Socket) (w : World) → Calm w (challenged h cfg (hex nonce) id r w)
  challenged-Calm id (true, s) w e = answered-Calm id (read_frame strtod s) w e
  challenged-Calm id (false, s) w e = refl

  plain-Calm :
      (b : Bool) (msg : Value) (id : ℕ) (s : Socket) (w : World) → Calm w (plain h cfg b msg id s w)
  plain-Calm true msg id s w e = verdict-false msg id false s w e
  plain-Calm false msg id s w e = verdict-false msg id _ s w e

  greeted-Calm : (msg : Value) (s : Socket) (w : World) → Calm w (greeted h cfg nonce msg s w)
  unfolding greeted
  greeted-Calm msg s w = elim (Bool-cases (eq (text_of msg "cmd") (codes "hello"))) [
    | inr n ↦ rw n (λ e. refl)
    | inl c ↦ rw c (elim (Bool-cases (eq (text_of msg "auth") (codes "hmac"))) [
      | inl a ↦ rw a (λ e. challenged-Calm _ _ w e)
      | inr a ↦ rw a (λ e. plain-Calm cfg.require_hmac_auth msg _ s w e)
    ])
  ]

  hello_read-Calm : (r : FrameResult × Socket) (w : World) → Calm w (hello_read h cfg nonce r w)
  hello_read-Calm (frame msg p, s) w e = greeted-Calm msg s w e
  hello_read-Calm (idle, s) w e = refl
  hello_read-Calm (gone, s) w e = refl

  -- A failed login leaves the console as it was.
  pub authenticate_refused :
      (s : Socket) (w : World)
      → (authenticate h cfg nonce s w).0 ≡ false
      → (authenticate h cfg nonce s w).2 ≡ w
  unfolding authenticate
  authenticate_refused s w e =
      hello_read-Calm (read_frame strtod (set_recv_timeout io_timeout_sec s)) w e
