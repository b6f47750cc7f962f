-- ===== src/Wire/Delivery.antt =====
-- A frame that one side writes is the frame that the other side reads.
use switch_mcp.Base.{
  ℕ, ◌-◌, ◌%◌, ◌^◌, ◌≤◌, ◌<◌, true, false, not, ◌||◌, [], ◌∷◌, ◌++◌, append_assoc, ◌==◌, ltb,
  if◌then◌else◌, ◌≡◌, refl, sym, ap, ◌∙◌, arith, length, Bytes, codes, is_empty, Bool-cases, inl,
  inr,
}
use switch_mcp.Json.Value.{Value, get, has, as_int}
use switch_mcp.Json.Write.{write}
use switch_mcp.Json.RoundTrip.Grammar.{IsExact, write-Starts}
use switch_mcp.Json.RoundTrip.Values.{parse-write}
use switch_mcp.Wire.Words.{encode, decode, lt64, length-encode, decode-encode}
use switch_mcp.Wire.Socket.{Socket, set_recv_timeout, idle_timeout_sec, io_timeout_sec}
use switch_mcp.Wire.Frame.{
  FrameResult, frame, read_payload, read_body, read_frame, max_json, max_binary, write_frame,
}
use switch_mcp.Wire.Stream.{stream, IsHealthy, read_exact-Reads}
use switch_mcp.Wire.Sending.{frame_bytes, write_frame-sent}

-- `bin` stands in the message exactly when there is a payload, and is its length.
pub record Announces (msg : Value) (payload : Bytes) : Type 0 where
  pub silent : is_empty payload ≡ true → has msg (codes "bin") ≡ false
  pub announced : is_empty payload ≡ false → has msg (codes "bin") ≡ true
  pub announced_size :
      is_empty payload ≡ false → as_int (get msg (codes "bin")) (2 ^ 64 - 1) ≡ length payload
  pub payload_fits : length payload ≤ max_binary

-- The result of reading: the message, with `rest` still to come.
pub record Receives (msg : Value) (payload rest : Bytes) (s : Socket)
    (result : FrameResult × Socket) : Type 0 where
  pub read : result.0 ≡ frame msg payload
  pub stream_left : stream (result.1.incoming) ≡ rest
  pub healthy : IsHealthy (result.1.incoming)
  pub timeout_kept : result.1.recv_timeout ≡ s.recv_timeout
  pub sent_kept : result.1.sent ≡ s.sent

is_empty_nil : (bs : Bytes) → is_empty bs ≡ true → bs ≡ []
is_empty_nil [] h = refl
is_empty_nil (b ∷ bs) h = cc

size_test : (bs : Bytes) → is_empty bs ≡ false → (length bs == 0) ≡ false
size_test [] h = cc
size_test (b ∷ bs) h = ground arith

in_range : (n : ℕ) → n ≤ max_binary → (lt64 n 0 || ltb max_binary n) ≡ false
in_range n h = ground arith

same_size : (n : ℕ) → n ≤ max_binary → (not (n == n) || ltb max_binary n) ≡ false
same_size n h = ground arith

-- What a successful chain of reads leaves unchanged.
Receives-of :
    (msg : Value) (payload rest : Bytes) (s after : Socket) (result : FrameResult × Socket)
    → result ≡ (frame msg payload, after)
    → stream after.incoming ≡ rest
    → IsHealthy after.incoming
    → after.recv_timeout ≡ s.recv_timeout
    → after.sent ≡ s.sent
    → Receives msg payload rest s result
Receives-of msg payload rest s after result e st h t w =
    rw e (record { read = refl; stream_left = st; healthy = h; timeout_kept = t; sent_kept = w })

-- The payload with its 8 bytes of length.
read_binary :
    (msg : Value) (payload rest : Bytes) (s : Socket)
    → Announces msg payload
    → IsHealthy s.incoming
    → is_empty payload ≡ false
    → stream s.incoming ≡ encode 8 (length payload) ++ (payload ++ rest)
    → Receives msg payload rest s (read_payload msg s)
unfolding read_payload
read_binary msg payload rest s a h n e =
    let size = read_exact-Reads (encode 8 (length payload)) (payload ++ rest) s h e in
    let body = read_exact-Reads payload rest size.after size.healthy size.stream_left in
    let got_size = rw (length-encode 8 (length payload)) at size.result in
    let value = decode-encode 8 (length payload) (omega (arith, a.payload_fits)) in
    Receives-of msg payload rest s body.after _
      (rw (a.announced n, a.announced_size n)
        (rw (in_range (length payload) a.payload_fits, got_size)
          (rw (value, same_size (length payload) a.payload_fits, size_test payload n)
            (rw body.result))))
      body.stream_left body.healthy
      (ap (λ x. x.recv_timeout) body.others_kept ∙ ap (λ x. x.recv_timeout) size.others_kept)
      (ap (λ x. x.sent) body.others_kept ∙ ap (λ x. x.sent) size.others_kept)

pub read_payload-Receives :
    (msg : Value) (payload rest : Bytes) (s : Socket)
    → Announces msg payload
    → IsHealthy s.incoming
    → stream s.incoming
      ≡ (if is_empty payload then [] else encode 8 (length payload) ++ payload) ++ rest
    → Receives msg payload rest s (read_payload msg s)
unfolding read_payload
read_payload-Receives msg payload rest s a h e = elim (Bool-cases (is_empty payload)) [
  | inl n ↦ rw (a.silent n) (record {
    read = ap (frame msg) (sym (is_empty_nil payload n));
    stream_left = rw n at e;
    healthy = h;
    timeout_kept = refl;
    sent_kept = refl;
  })
  | inr n ↦
      read_binary msg payload rest s a h n
        ((rw n at e) ∙ append_assoc (encode 8 (length payload)) payload rest)
]

-- A message that `WriteFrame` can send and `ReadFrame` accepts.
pub record Fits (print_double : ℕ → Bytes) (msg : Value) (payload : Bytes) : Type 0 where
  pub exact : IsExact msg
  pub announces : Announces msg payload
  pub text_fits : length (write print_double msg) ≤ max_json

-- The frame was read, `rest` is still to come, and the idle timeout is set again.
pub record Arrives (msg : Value) (payload rest : Bytes) (s : Socket) (result : FrameResult × Socket)
    : Type 0 where
  pub read : result.0 ≡ frame msg payload
  pub stream_left : stream (result.1.incoming) ≡ rest
  pub healthy : IsHealthy (result.1.incoming)
  pub timeout_idle : result.1.recv_timeout ≡ idle_timeout_sec
  pub sent_kept : result.1.sent ≡ s.sent

module _ (print_double : ℕ → Bytes) (strtod : Bytes → ℕ) (msg : Value) (payload rest : Bytes) where
  text_not_empty : IsExact msg → 0 < length (write print_double msg)
  text_not_empty e = rw ((write-Starts print_double strtod msg e).shape) (omega arith)

  length_test : (n : ℕ) → 0 < n → n ≤ max_json → (n == 0 || ltb max_json n) ≡ false
  length_test n p q = ground arith

  read_body-Receives :
      (s : Socket)
      → Fits print_double msg payload
      → IsHealthy s.incoming
      → stream s.incoming
        ≡ write print_double msg
          ++ ((if is_empty payload then [] else encode 8 (length payload) ++ payload) ++ rest)
      → Receives msg payload rest s (read_body strtod (length (write print_double msg)) s)
  unfolding read_body
  read_body-Receives s f h e =
      let text = write print_double msg in
      let body =
        read_exact-Reads text
          ((if is_empty payload then [] else encode 8 (length payload) ++ payload) ++ rest) s h e in
      let p =
        read_payload-Receives msg payload rest body.after f.announces body.healthy
          body.stream_left in
      rw
        (
          length_test (length text) (text_not_empty f.exact) f.text_fits,
          body.result,
          parse-write print_double strtod msg f.exact,
        )
        (record {
          read = p.read;
          stream_left = p.stream_left;
          healthy = p.healthy;
          timeout_kept = p.timeout_kept ∙ ap (λ x. x.recv_timeout) body.others_kept;
          sent_kept = p.sent_kept ∙ ap (λ x. x.sent) body.others_kept;
        })

  pub read_frame-Arrives :
      (s : Socket)
      → Fits print_double msg payload
      → IsHealthy s.incoming
      → stream s.incoming ≡ frame_bytes print_double msg payload ++ rest
      → Arrives msg payload rest s (read_frame strtod s)
  unfolding read_frame
  read_frame-Arrives s f h e =
      let text = write print_double msg in
      let binary : Bytes = if is_empty payload then [] else encode 8 (length payload) ++ payload in
      let size = length text % 2 ^ 32 in
      let first =
        read_exact-Reads (encode 4 size) ((text ++ binary) ++ rest) s h
          (e ∙ append_assoc (encode 4 size) (text ++ binary) rest) in
      let got = rw (length-encode 4 size) at first.result_ex in
      let value : decode (encode 4 size) ≡ length text =
        decode-encode 4 size (omega arith) ∙ omega (arith, f.text_fits) in
      let body =
        read_body-Receives (set_recv_timeout io_timeout_sec first.after) f first.healthy
          (first.stream_left ∙ append_assoc text binary rest) in
      rw (got, value)
        (record {
          read = body.read;
          stream_left = body.stream_left;
          healthy = body.healthy;
          timeout_idle = refl;
          sent_kept = body.sent_kept ∙ ap (λ x. x.sent) first.others_kept;
        })

-- A frame that `WriteFrame` reported as sent, on a connection on which nothing was sent before, is
-- returned by the peer's `ReadFrame`, the same message and payload, however the network cut the bytes
-- up, on these conditions: the text of the message has at most 64 KiB; the message holds no double,
-- its integers are 64-bit patterns and its objects are in the order of their keys; its `bin` is the
-- length of the payload, at most the limit, or absent without one; and the connection of the peer
-- neither stalls nor fails.
pub write_frame-Arrives :
    (print_double : ℕ → Bytes) (strtod : Bytes → ℕ) (msg : Value) (payload rest : Bytes)
    (from to : Socket)
    → Fits print_double msg payload
    → from.sent ≡ []
    → (write_frame print_double msg payload from).0 ≡ true
    → IsHealthy to.incoming
    → stream to.incoming ≡ (write_frame print_double msg payload from).1.sent ++ rest
    → Arrives msg payload rest to (read_frame strtod to)
write_frame-Arrives print_double strtod msg payload rest from to f z ok h e =
    read_frame-Arrives print_double strtod msg payload rest to f h (
      e
      ∙ ap (λ x. x ++ rest)
          (write_frame-sent print_double msg payload from ok
            ∙ ap (λ x. x ++ frame_bytes print_double msg payload) z))
