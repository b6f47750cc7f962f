-- ===== src/Wire/Sending.antt =====
-- `WriteAll` and `WriteFrame`: what has left the console when they return.
use switch_mcp.Base.{
  ℕ, ◌%◌, ◌^◌, Bool, true, false, List, [], ◌∷◌, ◌++◌, append-nil, append_assoc, ◌==◌,
  if◌then◌else◌, ◌≡◌, ◌⊎◌, refl, sym, ap, ◌∙◌, length, take, drop, take-append-drop, Bytes,
  is_empty, Bool-cases, inl, inr,
}
use switch_mcp.Json.Value.{Value}
use switch_mcp.Json.Write.{write}
use switch_mcp.Wire.Words.{encode}
use switch_mcp.Wire.Socket.{Acceptance, accepts, interrupts, refuses, Socket, write_loop, write_all}
use switch_mcp.Wire.Frame.{write_frame, ◌then_send◌}

-- On success all of `bs` was sent behind what was sent before; on failure the front of it was.
pub record Sends (bs before_it : Bytes) (all : Bool) (after_it : Bytes) : Type 0 where
  pub front : Bytes
  pub back : Bytes
  pub cut : bs ≡ front ++ back
  pub sent_front : after_it ≡ before_it ++ front
  pub sent_all : (all ≡ false) ⊎ (back ≡ [])

write_loop-Sends :
    (bs : Bytes) (ws : List Acceptance) (sent : Bytes)
    → Sends bs sent (write_loop bs ws sent).0 (write_loop bs ws sent).2
unfolding write_loop
write_loop-Sends [] ws sent = record {
  front = [];
  back = [];
  cut = refl;
  sent_front = sym (append-nil sent);
  sent_all = inr refl;
}
write_loop-Sends (b ∷ bs) [] sent = record {
  front = [];
  back = b ∷ bs;
  cut = refl;
  sent_front = sym (append-nil sent);
  sent_all = inl refl;
}
write_loop-Sends (b ∷ bs) (accepts k ∷ ws) sent = elim (Bool-cases (k == 0)) [
  | inl z ↦ rw z (record {
    front = [];
    back = b ∷ bs;
    cut = refl;
    sent_front = sym (append-nil sent);
    sent_all = inl refl;
  })
  | inr z ↦ rw z (
      let d = write_loop-Sends (drop k (b ∷ bs)) ws (sent ++ take k (b ∷ bs)) in
      record {
        front = take k (b ∷ bs) ++ d.front;
        back = d.back;
        cut =
            sym (take-append-drop k (b ∷ bs))
            ∙ ap (take k (b ∷ bs) ++◌) d.cut
            ∙ sym (append_assoc (take k (b ∷ bs)) d.front d.back);
        sent_front = d.sent_front ∙ append_assoc sent (take k (b ∷ bs)) d.front;
        sent_all = d.sent_all;
      })
]
write_loop-Sends (b ∷ bs) (interrupts ∷ ws) sent = write_loop-Sends (b ∷ bs) ws sent
write_loop-Sends (b ∷ bs) (refuses ∷ ws) sent = record {
  front = [];
  back = b ∷ bs;
  cut = refl;
  sent_front = sym (append-nil sent);
  sent_all = inl refl;
}

-- `WriteAll` sends a front of the bytes, in their order, and nothing else, and either it returns
-- false or that front is all of them.
pub write_all-Sends :
    (bs : Bytes) (s : Socket) → Sends bs s.sent (write_all bs s).0 (write_all bs s).1.sent
unfolding write_all
write_all-Sends bs s = write_loop-Sends bs s.acceptances s.sent

Sends-nothing_left :
    {bs old new : Bytes} {all : Bool} (d : Sends bs old all new) → all ≡ true → d.back ≡ []
Sends-nothing_left d h = elim d.sent_all [ inl failed ↦ cc (failed, h) | inr e ↦ e ]

Sends-all : {bs old new : Bytes} {all : Bool} → Sends bs old all new → all ≡ true → new ≡ old ++ bs
Sends-all {old = old} d h =
    d.sent_front
    ∙ ap (λ x. old ++ x)
        (sym (append-nil d.front)
          ∙ ap (λ x. d.front ++ x) (sym (Sends-nothing_left d h))
          ∙ sym d.cut)

-- The bytes of one frame.
abbrev pub frame_bytes : (ℕ → Bytes) → Value → Bytes → Bytes
frame_bytes print_double msg payload =
    let text = write print_double msg in
    encode 4 (length text % 2 ^ 32)
    ++ (text ++ (if is_empty payload then [] else encode 8 (length payload) ++ payload))

-- A further part of a frame, behind one that was sent.
then_send-Sends :
    (r : Bool × Socket) (old front bs : Bytes)
    → (r.0 ≡ true → r.1.sent ≡ old ++ front)
    → (r then_send bs).0 ≡ true
    → (r then_send bs).1.sent ≡ old ++ (front ++ bs)
then_send-Sends (true, s) old front bs h e =
    Sends-all (write_all-Sends bs s) e ∙ ap (λ x. x ++ bs) (h refl) ∙ append_assoc old front bs
then_send-Sends (false, s) old front bs h e = cc

module _ (print_double : ℕ → Bytes) (msg : Value) (payload : Bytes) (s : Socket) where
  -- When `WriteFrame` returns true, exactly the bytes of the frame were sent.
  pub write_frame-sent :
      (write_frame print_double msg payload s).0 ≡ true
      → (write_frame print_double msg payload s).1.sent
        ≡ s.sent ++ frame_bytes print_double msg payload
  unfolding write_frame
  write_frame-sent =
      let text = write print_double msg in
      let prefix = encode 4 (length text % 2 ^ 32) in
      let size = encode 8 (length payload) in
      let a = write_all prefix s in
      let b = a then_send text in
      let sent_b = then_send-Sends a s.sent prefix text (Sends-all (write_all-Sends prefix s)) in
      let sent_c = then_send-Sends b s.sent (prefix ++ text) size sent_b in
      let sent_d =
        then_send-Sends (b then_send size) s.sent ((prefix ++ text) ++ size) payload sent_c in
      elim (Bool-cases (is_empty payload)) [
        | inl n ↦ rw n (λ e. sent_b e ∙ ap (λ x. s.sent ++ (prefix ++ x)) (sym (append-nil text)))
        | inr n ↦ rw n (λ e. sent_d e ∙ ap (λ x. s.sent ++ x) (simp append_assoc))
      ]
