-- ===== src/Checks/Wire.antt =====
-- The theorems on the wire at a concrete frame.
use switch_mcp.Base.{◌≡◌, ◌++◌, refl, arith, [], ◌∷◌, true, Bytes, codes}
use switch_mcp.Json.Value.{Value, int, string, object, end, field, as_int, find}
use switch_mcp.Json.Number.{print_i64, digits}
use switch_mcp.Json.Write.{write, write_fields, write_chars, write_char}
use switch_mcp.Wire.Words.{encode}
use switch_mcp.Wire.Socket.{Socket, chunk, interrupted, accepts, interrupts, write_all, write_loop}
use switch_mcp.Wire.Frame.{read_frame, write_frame}
use switch_mcp.Wire.Stream.{stream, IsHealthy}
use switch_mcp.Wire.Sending.{Sends, write_all-Sends}
use switch_mcp.Wire.Delivery.{Fits, Arrives, write_frame-Arrives}
use switch_mcp.Checks.Json.{no_float, no_print}

abbrev message : Value
message = object (field (codes "bin") (int 2) (field (codes "cmd") (string (codes "ls")) end))

abbrev payload : Bytes
payload = 7 ∷ 255 ∷ []

abbrev text : Bytes
text = codes "{\"bin\":2,\"cmd\":\"ls\"}"

-- The frame, as two chunks with an interruption between them.
abbrev first_part : Bytes
first_part = 20 ∷ 0 ∷ 0 ∷ []

abbrev second_part : Bytes
second_part = 0 ∷ text ++ 2 ∷ 0 ∷ 0 ∷ 0 ∷ 0 ∷ 0 ∷ 0 ∷ 0 ∷ payload

abbrev receiver : Socket
receiver = record {
  incoming = chunk first_part ∷ interrupted ∷ chunk (second_part ++ 9 ∷ []) ∷ [];
  acceptances = [];
  sent = [];
  recv_timeout = 30;
}

abbrev sender : Socket
sender = record {
  incoming = [];
  acceptances =
      accepts 4 ∷ interrupts ∷ accepts 3 ∷ accepts 1000 ∷ accepts 1000 ∷ accepts 1000 ∷ [];
  sent = [];
  recv_timeout = 30;
}

message-Fits : Fits no_print message payload
unfolding write write_fields write_chars write_char print_i64 digits as_int find
message-Fits = record {
  exact = ((refl, tt), omega arith, (tt, tt, tt));
  announces = record {
    silent = λ e. cc e;
    announced = λ e. refl;
    announced_size = λ e. refl;
    payload_fits = omega arith;
  };
  text_fits = omega arith;
}

receiver-IsHealthy : IsHealthy receiver.incoming
receiver-IsHealthy = (refl, (refl, tt))

all_sent : (write_frame no_print message payload sender).0 ≡ true
unfolding write write_fields write_chars write_char print_i64 digits encode write_frame write_all
    write_loop
all_sent = refl

same_sent :
    stream receiver.incoming ≡ (write_frame no_print message payload sender).1.sent ++ 9 ∷ []
unfolding write write_fields write_chars write_char print_i64 digits encode write_frame write_all
    write_loop
same_sent = refl

write_all-Sends_example : Sends text [] (write_all text sender).0 (write_all text sender).1.sent
write_all-Sends_example = write_all-Sends text sender

write_frame-Arrives_example :
    Arrives message payload (9 ∷ []) receiver (read_frame no_float receiver)
write_frame-Arrives_example =
    write_frame-Arrives no_print no_float message payload (9 ∷ []) sender receiver message-Fits refl
      all_sent receiver-IsHealthy same_sent
