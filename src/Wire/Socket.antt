-- ===== src/Wire/Socket.antt =====
-- `ReadExactEx`, `ReadExact`, `WriteAll` and `SetRecvTimeout` of agent/source/server.cpp, over
-- what the kernel does: successive `recv` and `send` calls find the events of two scripts. A
-- script that is used up stands for a peer that has closed its side.
use switch_mcp.Base.{
  ℕ, ◌-◌, Bool, true, false, not, List, [], ◌∷◌, ◌++◌, ltb, ◌==◌, if◌then◌else◌, length, take, drop,
  Bytes, is_empty,
}

pub data IoResult : Type 0 where
  done timed_out closed : IoResult

-- What `recv` finds: bytes, `EINTR`, a timeout (`EAGAIN`), or another error. An empty chunk is the
-- return value 0.
pub data Arrival : Type 0 where
  chunk : Bytes → Arrival
  interrupted stalled broken : Arrival

-- What `send` does: it takes at most so many bytes, or fails with `EINTR` or another error.
pub data Acceptance : Type 0 where
  accepts : ℕ → Acceptance
  interrupts refuses : Acceptance

pub record Socket : Type 0 where
  pub incoming : List Arrival
  pub acceptances : List Acceptance
  pub sent : Bytes
  pub recv_timeout : ℕ

abbrev pub idle_timeout_sec : ℕ
idle_timeout_sec = 30

abbrev pub io_timeout_sec : ℕ
io_timeout_sec = 15

abbrev pub set_recv_timeout : ℕ → Socket → Socket
set_recv_timeout seconds s = record s { recv_timeout = seconds }

-- What the kernel keeps of a chunk that was not read whole.
abbrev pub keep_chunk : Bytes → List Arrival → List Arrival
keep_chunk [] later = later
keep_chunk (b ∷ bs) later = chunk (b ∷ bs) ∷ later

-- The loop of `ReadExactEx`: `n` and the bytes got so far. `recv` returns at most what is asked.
unfoldable pub read_loop : ℕ → Bytes → List Arrival → IoResult × Bytes × List Arrival
read_loop n got [] = if ltb (length got) n then (closed, got, []) else (done, got, [])
read_loop n got (chunk bs ∷ later) =
    let want = n - length got in
    let more = read_loop n (got ++ bs) later in
    if not (ltb (length got) n)
    then (done, got, chunk bs ∷ later)
    else if is_empty bs
    then (closed, got, later)
    else if ltb (length bs) want
    then more
    else (done, got ++ take want bs, keep_chunk (drop want bs) later)
read_loop n got (interrupted ∷ later) =
    let more = read_loop n got later in
    if not (ltb (length got) n) then (done, got, interrupted ∷ later) else more
read_loop n got (stalled ∷ later) =
    if not (ltb (length got) n)
    then (done, got, stalled ∷ later)
    else if length got == 0
    then (timed_out, got, later)
    else (closed, got, later)
read_loop n got (broken ∷ later) =
    if not (ltb (length got) n) then (done, got, broken ∷ later) else (closed, got, later)

unfoldable pub read_exact_ex : ℕ → Socket → IoResult × Bytes × Socket
read_exact_ex n s =
    let (r, got, later) = read_loop n [] s.incoming in (r, got, record s { incoming = later })

abbrev is_done : IoResult → Bool
is_done done = true
is_done r = false

unfoldable pub read_exact : ℕ → Socket → Bool × Bytes × Socket
unfolding read_exact_ex
read_exact n s = let (r, got, s') = read_exact_ex n s in (is_done r, got, s')

-- The loop of `WriteAll`: the bytes not yet taken, and what has been sent.
unfoldable pub write_loop : Bytes → List Acceptance → Bytes → Bool × List Acceptance × Bytes
write_loop [] ws sent = (true, ws, sent)
write_loop (b ∷ bs) [] sent = (false, [], sent)
write_loop (b ∷ bs) (accepts k ∷ ws) sent =
    let more = write_loop (drop k (b ∷ bs)) ws (sent ++ take k (b ∷ bs)) in
    if k == 0 then (false, ws, sent) else more
write_loop (b ∷ bs) (interrupts ∷ ws) sent = write_loop (b ∷ bs) ws sent
write_loop (b ∷ bs) (refuses ∷ ws) sent = (false, ws, sent)

unfoldable pub write_all : Bytes → Socket → Bool × Socket
unfolding write_loop
write_all bs s =
    let (sent_all, ws, sent) = write_loop bs s.acceptances s.sent in
    (sent_all, record s { acceptances = ws; sent = sent })
