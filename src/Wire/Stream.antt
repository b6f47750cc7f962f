-- ===== src/Wire/Stream.antt =====
-- `ReadExactEx` on a connection whose peer keeps sending: however the bytes are cut into pieces,
-- it returns the next `n` of them.
use switch_mcp.Base.{
  ℕ, ◌+◌, ◌-◌, ◌≤◌, ◌<◌, true, false, List, [], ◌∷◌, ◌++◌, append-nil, append_assoc, ltb, ◌≡◌, refl,
  sym, ap, ◌∙◌, arith, length, length-append, take, drop, take-append_self, drop-append_self, Bytes,
  is_empty, Bool-cases, inl, inr,
}
use switch_mcp.Wire.Socket.{
  IoResult, done, Arrival, chunk, interrupted, stalled, broken, Socket, keep_chunk, read_loop,
  read_exact_ex, read_exact,
}

-- The bytes that are on their way.
abbrev pub stream : List Arrival → Bytes
stream [] = []
stream (chunk bs ∷ later) = bs ++ stream later
stream (a ∷ later) = stream later

-- No timeout and no error: bytes and interrupted calls only.
abbrev pub IsHealthy : List Arrival → Type 0
IsHealthy [] = Unit
IsHealthy (chunk bs ∷ later) = (is_empty bs ≡ false) × IsHealthy later
IsHealthy (interrupted ∷ later) = IsHealthy later
IsHealthy (stalled ∷ later) = ⊥
IsHealthy (broken ∷ later) = ⊥

-- Two ways to cut one list, the first cut not behind the second.
append_eq_append :
    (a b c d : Bytes)
    → a ++ b ≡ c ++ d
    → length a ≤ length c
    → (e : Bytes) × (c ≡ a ++ e) × (b ≡ e ++ d)
append_eq_append [] b c d e h = (c, refl, e)
append_eq_append (x ∷ a) b [] d e h = absurd (omega arith)
append_eq_append (x ∷ a) b (y ∷ c) d e h =
    let (f, p, q) = append_eq_append a b c d (cc) (omega arith) in (f, cc, q)

keep_chunk-stream :
    (ds : Bytes) (later : List Arrival) → stream (keep_chunk ds later) ≡ ds ++ stream later
keep_chunk-stream [] later = refl
keep_chunk-stream (d ∷ ds) later = refl

keep_chunk-IsHealthy :
    (ds : Bytes) (later : List Arrival) → IsHealthy later → IsHealthy (keep_chunk ds later)
keep_chunk-IsHealthy [] later h = h
keep_chunk-IsHealthy (d ∷ ds) later h = (refl, h)

-- The result of a read of `bs`: what is left is `rest`, and still healthy.
pub record Delivers (bs rest : Bytes) (n : ℕ) (got : Bytes) (arrivals : List Arrival) : Type 0 where
  pub left : List Arrival
  pub result : read_loop n got arrivals ≡ (done, got ++ bs, left)
  pub stream_left : stream left ≡ rest
  pub healthy : IsHealthy left

satisfied :
    (n : ℕ) (got : Bytes) (arrivals : List Arrival)
    → ltb (length got) n ≡ false
    → read_loop n got arrivals ≡ (done, got, arrivals)
unfolding read_loop
satisfied n got [] h = rw h
satisfied n got (chunk bs ∷ later) h = rw h
satisfied n got (interrupted ∷ later) h = rw h
satisfied n got (stalled ∷ later) h = rw h
satisfied n got (broken ∷ later) h = rw h

full :
    (n : ℕ) (got bs : Bytes)
    → length got + length bs ≡ n
    → length bs ≡ 0
    → ltb (length got) n ≡ false
full n got bs e z = ground arith

unfull :
    (n : ℕ) (got bs : Bytes)
    → length got + length bs ≡ n
    → 0 < length bs
    → ltb (length got) n ≡ true
unfull n got bs e z = ground arith

step_interrupted :
    (n : ℕ) (got : Bytes) (later : List Arrival)
    → ltb (length got) n ≡ true
    → read_loop n got (interrupted ∷ later) ≡ read_loop n got later
unfolding read_loop
step_interrupted n got later h = rw h

module _ (n : ℕ) (got cs : Bytes) (later : List Arrival) (wanting : ltb (length got) n ≡ true)
    (nonempty : is_empty cs ≡ false) where
  step_part :
      ltb (length cs) (n - length got) ≡ true
      → read_loop n got (chunk cs ∷ later) ≡ read_loop n (got ++ cs) later
  unfolding read_loop
  step_part h = rw (wanting, nonempty, h)

  step_last :
      ltb (length cs) (n - length got) ≡ false
      → read_loop n got (chunk cs ∷ later)
        ≡ (done, got ++ take (n - length got) cs, keep_chunk (drop (n - length got) cs) later)
  unfolding read_loop
  step_last h = rw (wanting, nonempty, h)

short :
    (cs got : Bytes) (n : ℕ) (bs : Bytes)
    → ltb (length cs) (n - length got) ≡ true
    → length got + length bs ≡ n
    → length cs ≤ length bs
short cs got n bs h l = ground arith

long :
    (cs got : Bytes) (n : ℕ) (bs : Bytes)
    → ltb (length cs) (n - length got) ≡ false
    → length got + length bs ≡ n
    → length bs ≤ length cs
long cs got n bs h l = ground arith

regain :
    (cs got : Bytes) (n : ℕ) (bs ds : Bytes)
    → bs ≡ cs ++ ds
    → length got + length bs ≡ n
    → length (got ++ cs) + length ds ≡ n
regain cs got n bs ds p l = omega (arith, ap length p, length-append got cs, length-append cs ds)

regrouped :
    (got cs ds bs : Bytes) (left : List Arrival)
    → bs ≡ cs ++ ds
    → ◌≡◌ {A = IoResult × Bytes × List Arrival}
        (done, (got ++ cs) ++ ds, left)
        (done, got ++ bs, left)
regrouped got cs ds bs left p = rw (p, append_assoc got cs ds)

taken :
    (n : ℕ) (got bs cs ds : Bytes) (later : List Arrival)
    → length got + length bs ≡ n
    → cs ≡ bs ++ ds
    → ◌≡◌ {A = IoResult × Bytes × List Arrival}
        (done, got ++ take (n - length got) cs, keep_chunk (drop (n - length got) cs) later)
        (done, got ++ bs, keep_chunk ds later)
taken n got bs cs ds later l p =
    let w : n - length got ≡ length bs = omega arith in
    rw (w, p, take-append_self bs ds, drop-append_self bs ds)

pub read_loop-Delivers :
    (n : ℕ) (got : Bytes) (arrivals : List Arrival) (bs rest : Bytes)
    → IsHealthy arrivals
    → stream arrivals ≡ bs ++ rest
    → length got + length bs ≡ n
    → Delivers bs rest n got arrivals
read_loop-Delivers n got arrivals [] rest h e l = record {
  left = arrivals;
  result = satisfied n got arrivals (full n got [] l refl) ∙ rw (append-nil got);
  stream_left = e;
  healthy = h;
}
read_loop-Delivers n got [] (b ∷ bs) rest h e l = absurd (cc e)
read_loop-Delivers n got (chunk cs ∷ later) (b ∷ bs) rest h e l =
    elim (Bool-cases (ltb (length cs) (n - length got))) [
      | inl part ↦
          let (ds, p, q) =
            append_eq_append cs (stream later) (b ∷ bs) rest e (short cs got n (b ∷ bs) part l) in
          let d =
            read_loop-Delivers n (got ++ cs) later ds rest h.1 q
              (regain cs got n (b ∷ bs) ds p l) in
          record {
            left = d.left;
            result =
                step_part n got cs later (unfull n got (b ∷ bs) l (omega arith)) h.0 part
                ∙ d.result
                ∙ regrouped got cs ds (b ∷ bs) d.left p;
            stream_left = d.stream_left;
            healthy = d.healthy;
          }
      | inr last ↦
          let (ds, p, q) =
            append_eq_append (b ∷ bs) rest cs (stream later) (sym e)
              (long cs got n (b ∷ bs) last l) in
          record {
            left = keep_chunk ds later;
            result =
                step_last n got cs later (unfull n got (b ∷ bs) l (omega arith)) h.0 last
                ∙ taken n got (b ∷ bs) cs ds later l p;
            stream_left = keep_chunk-stream ds later ∙ sym q;
            healthy = keep_chunk-IsHealthy ds later h.1;
          }
    ]
read_loop-Delivers n got (interrupted ∷ later) (b ∷ bs) rest h e l =
    let d = read_loop-Delivers n got later (b ∷ bs) rest h e l in
    record {
      left = d.left;
      result = step_interrupted n got later (unfull n got (b ∷ bs) l (omega arith)) ∙ d.result;
      stream_left = d.stream_left;
      healthy = d.healthy;
    }
read_loop-Delivers n got (stalled ∷ later) (b ∷ bs) rest h e l = elim h [ ]
read_loop-Delivers n got (broken ∷ later) (b ∷ bs) rest h e l = elim h [ ]

-- `ReadExactEx` and `ReadExact` return the next `n` bytes of a healthy stream, whatever the pieces.
pub record Reads (bs rest : Bytes) (s : Socket) : Type 0 where
  pub after : Socket
  pub result_ex : read_exact_ex (length bs) s ≡ (done, bs, after)
  pub result : read_exact (length bs) s ≡ (true, bs, after)
  pub stream_left : stream after.incoming ≡ rest
  pub healthy : IsHealthy after.incoming
  pub others_kept : after ≡ record s { incoming = after.incoming }

-- On a connection that neither stalls nor fails, and whose bytes start with `bs`, both reads of that
-- many bytes return just them, leave the bytes behind them, and change nothing else of the socket.
pub read_exact-Reads :
    (bs rest : Bytes) (s : Socket)
    → IsHealthy s.incoming
    → stream s.incoming ≡ bs ++ rest
    → Reads bs rest s
unfolding read_exact read_exact_ex
read_exact-Reads bs rest s h e =
    let d = read_loop-Delivers (length bs) [] s.incoming bs rest h e (omega arith) in
    record {
      after = record s { incoming = d.left };
      result_ex = rw d.result;
      result = rw d.result;
      stream_left = d.stream_left;
      healthy = d.healthy;
      others_kept = refl;
    }
