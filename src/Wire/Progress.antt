-- ===== src/Wire/Progress.antt =====
-- Every frame, and every idle timeout, uses up something of what is on its way.
use switch_mcp.Base.{
  ℕ, suc, ◌+◌, ◌-◌, ◌≤◌, ◌<◌, Bool, true, false, List, [], ◌∷◌, ◌++◌, Option, some, none, ◌≡◌, ◌≢◌,
  refl, arith, ◌∙◌, ◌%◌, ◌^◌, length, length-append, length-take, length-drop, take, drop, Bytes,
  is_empty, Bool-cases, inl, inr,
}
use switch_mcp.Json.Value.{Value}
use switch_mcp.Json.Parse.{parse}
use switch_mcp.Json.Write.{write}
use switch_mcp.Wire.Words.{encode, decode}
use switch_mcp.Wire.Socket.{
  IoResult, done, timed_out, closed, Arrival, chunk, interrupted, stalled, broken, Socket,
  keep_chunk, read_loop, read_exact_ex, read_exact, write_all, set_recv_timeout, io_timeout_sec,
}
use switch_mcp.Wire.Frame.{
  gone, read_payload, read_body, read_frame, write_frame, with_message, started, ◌then_send◌,
}

-- One for each event, and one for each byte.
abbrev pub weight : List Arrival → ℕ
weight [] = 0
weight (chunk bs ∷ later) = suc (length bs + weight later)
weight (interrupted ∷ later) = suc (weight later)
weight (stalled ∷ later) = suc (weight later)
weight (broken ∷ later) = suc (weight later)

-- What a read takes of the script.
record Spends (n : ℕ) (got : Bytes) (arrivals : List Arrival) (r : IoResult × Bytes × List Arrival)
    : Type 0 where
  total : weight r.2 + length r.1 ≤ weight arrivals + length got
  waited : r.0 ≡ timed_out → weight r.2 < weight arrivals
  filled : r.0 ≡ done → n ≤ length r.1

weight-keep_chunk :
    (ds : Bytes) (later : List Arrival)
    → weight (keep_chunk ds later) ≤ suc (length ds + weight later)
weight-keep_chunk [] later = omega arith
weight-keep_chunk (d ∷ ds) later = omega arith

read_loop-Spends :
    (n : ℕ) (got : Bytes) (arrivals : List Arrival)
    → Spends n got arrivals (read_loop n got arrivals)
unfolding read_loop
read_loop-Spends n got [] = ground arith
read_loop-Spends n got (chunk bs ∷ later) =
    let want = n - length got in
    ground (
      arith,
      read_loop-Spends n (got ++ bs) later,
      length-append got bs,
      length-append got (take want bs),
      length-take want bs,
      length-drop want bs,
      weight-keep_chunk (drop want bs) later,
    )
read_loop-Spends n got (interrupted ∷ later) = ground (arith, read_loop-Spends n got later)
read_loop-Spends n got (stalled ∷ later) = ground arith
read_loop-Spends n got (broken ∷ later) = ground arith

-- The socket's script is not longer than before.
abbrev NotMore : Socket → Socket → Type 0
NotMore s t = weight t.incoming ≤ weight s.incoming

read_exact-NotMore : (n : ℕ) (s : Socket) → NotMore s ((read_exact n s).2)
unfolding read_exact
read_exact-NotMore n s = omega (arith, (read_loop-Spends n [] s.incoming).total)

read_payload-NotMore : (msg : Value) (s : Socket) → NotMore s ((read_payload msg s).1)
unfolding read_payload
read_payload-NotMore msg s =
    let s' = (read_exact 8 s).2 in
    let wire_len = decode ((read_exact 8 s).1) in
    ground (arith, read_exact-NotMore 8 s, read_exact-NotMore wire_len s')

with_message-NotMore : (o : Option Value) (s : Socket) → NotMore s ((with_message o s).1)
with_message-NotMore none s = omega arith
with_message-NotMore (some msg) s = read_payload-NotMore msg s

read_body-NotMore : (strtod : Bytes → ℕ) (n : ℕ) (s : Socket) → NotMore s ((read_body strtod n s).1)
unfolding read_body
read_body-NotMore strtod n s =
    let text = read_exact-NotMore n s in
    let o = parse strtod ((read_exact n s).1) in
    let s' = (read_exact n s).2 in ground (arith, text, with_message-NotMore o s')

started-weight :
    (strtod : Bytes → ℕ) (s : Socket) (r : IoResult) (got : Bytes) (later : List Arrival)
    → Spends 4 [] s.incoming (r, got, later)
    → (started strtod (r, got, record s { incoming = later })).0 ≢ gone
    → weight ((started strtod (r, got, record s { incoming = later })).1.incoming)
      < weight s.incoming
started-weight strtod s done got later spends h = omega (
  arith,
  spends.total,
  spends.filled refl,
  read_body-NotMore strtod (decode got)
      (set_recv_timeout io_timeout_sec (record s { incoming = later })),
)
started-weight strtod s timed_out got later spends h = spends.waited refl
started-weight strtod s closed got later spends h = elim (h refl) [ ]

started-NotMore :
    (strtod : Bytes → ℕ) (s : Socket) (r : IoResult) (got : Bytes) (later : List Arrival)
    → Spends 4 [] s.incoming (r, got, later)
    → weight ((started strtod (r, got, record s { incoming = later })).1.incoming)
      ≤ weight s.incoming
started-NotMore strtod s done got later spends = omega (
  arith,
  spends.total,
  read_body-NotMore strtod (decode got)
      (set_recv_timeout io_timeout_sec (record s { incoming = later })),
)
started-NotMore strtod s timed_out got later spends = omega (arith, spends.total)
started-NotMore strtod s closed got later spends = omega (arith, spends.total)

-- A frame or an idle timeout leaves strictly less on its way.
pub read_frame-weight :
    (strtod : Bytes → ℕ) (s : Socket)
    → (read_frame strtod s).0 ≢ gone
    → weight ((read_frame strtod s).1.incoming) < weight s.incoming
unfolding read_frame read_exact_ex
read_frame-weight strtod s h = started-weight strtod s _ _ _ (read_loop-Spends 4 [] s.incoming) h

pub read_frame-NotMore :
    (strtod : Bytes → ℕ) (s : Socket)
    → weight ((read_frame strtod s).1.incoming) ≤ weight s.incoming
unfolding read_frame read_exact_ex
read_frame-NotMore strtod s = started-NotMore strtod s _ _ _ (read_loop-Spends 4 [] s.incoming)

then_send-incoming : (r : Bool × Socket) (bs : Bytes) → (r then_send bs).1.incoming ≡ r.1.incoming
unfolding write_all
then_send-incoming (true, s) bs = refl
then_send-incoming (false, s) bs = refl

pub write_frame-incoming :
    (print_double : ℕ → Bytes) (msg : Value) (payload : Bytes) (s : Socket)
    → (write_frame print_double msg payload s).1.incoming ≡ s.incoming
unfolding write_frame write_all
write_frame-incoming print_double msg payload s =
    let text = write print_double msg in
    let first = write_all (encode 4 (length text % 2 ^ 32)) s in
    let json = then_send-incoming first text in
    let binary_length = then_send-incoming (first then_send text) (encode 8 (length payload)) in
    let binary =
      then_send-incoming (first then_send text then_send encode 8 (length payload)) payload in
    elim (Bool-cases (is_empty payload)) [
      | inl e ↦ rw e json
      | inr e ↦ rw e (binary ∙ binary_length ∙ json)
    ]
