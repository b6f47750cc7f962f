-- ===== src/Json/RoundTrip/Grammar.antt =====
-- One lemma for each construct of the grammar: how the parser goes through what `write` puts out.
use switch_mcp.Base.{
  ℕ, suc, ◌^◌, ◌<◌, Bool, true, false, ◌||◌, [], ◌∷◌, ◌++◌, none, ◌≡◌, refl, ap, ◌∙◌, arith, ◌==◌,
  Bytes, codes,
}
use switch_mcp.Json.Number.{print_i64, is_digit}
use switch_mcp.Json.Order.{Behind}
use switch_mcp.Json.Value.{
  Value, null, boolean, int, double, string, array, object, Items, nil, cons, Fields, end, field,
  insert, push_back,
}
use switch_mcp.Json.Write.{write, write_items, write_fields, write_string, write_chars}
use switch_mcp.Json.Parse.{
  ok, skip_ws, is_blank, closes, parse_number, parse_value, array_loop, object_loop,
}
use switch_mcp.Json.RoundTrip.Text.{
  Stops, parse_string-write_string, parse_number-print_i64, print_i64-StartsNumber,
}

-- What the program builds and can send without loss: integers of 64 bits, no double, and objects
-- in the order of their map.
abbrev mutual
  pub IsExact : Value → Type 0
  IsExact null = Unit
  IsExact (boolean b) = Unit
  IsExact (int i) = i < 2 ^ 64
  IsExact (double d) = ⊥
  IsExact (string s) = Unit
  IsExact (array xs) = AllExact xs
  IsExact (object fs) = FieldsExact fs

  pub AllExact : Items → Type 0
  AllExact nil = Unit
  AllExact (cons v xs) = IsExact v × AllExact xs

  pub FieldsExact : Fields → Type 0
  FieldsExact end = Unit
  FieldsExact (field k v fs) = Behind k fs × IsExact v × FieldsExact fs

-- The first byte of a written value opens no other construct of the grammar.
pub record Starts (s : Bytes) : Type 0 where
  pub first : ℕ
  pub others : Bytes
  pub shape : s ≡ first ∷ others
  pub not_blank : is_blank first ≡ false
  pub not_close : (first == b']') ≡ false

start_blank : (c : ℕ) → (is_digit c || c == b'-') ≡ true → is_blank c ≡ false
start_blank c h = ground arith

start_close : (c : ℕ) → (is_digit c || c == b'-') ≡ true → (c == b']') ≡ false
start_close c h = ground arith

module _ (print_double : ℕ → Bytes) (strtod : Bytes → ℕ) where
  pub write-Starts : (v : Value) → IsExact v → Starts (write print_double v)
  unfolding write
  write-Starts null e = record {
    first = b'n';
    others = codes "ull";
    shape = refl;
    not_blank = refl;
    not_close = refl;
  }
  write-Starts (boolean true) e = record {
    first = b't';
    others = codes "rue";
    shape = refl;
    not_blank = refl;
    not_close = refl;
  }
  write-Starts (boolean false) e = record {
    first = b'f';
    others = codes "alse";
    shape = refl;
    not_blank = refl;
    not_close = refl;
  }
  write-Starts (int i) e =
      let n = print_i64-StartsNumber i in
      record {
        first = n.first;
        others = n.others;
        shape = n.shape;
        not_blank = start_blank n.first n.is_start;
        not_close = start_close n.first n.is_start;
      }
  write-Starts (double d) e = elim e [ ]
  write-Starts (string s) e = record {
    first = 34;
    others = write_chars s ++ 34 ∷ [];
    shape = refl;
    not_blank = refl;
    not_close = refl;
  }
  write-Starts (array xs) e = record {
    first = b'[';
    others = write_items print_double true xs ++ b']' ∷ [];
    shape = refl;
    not_blank = refl;
    not_close = refl;
  }
  write-Starts (object fs) e = record {
    first = b'{';
    others = write_fields print_double true fs ++ b'}' ∷ [];
    shape = refl;
    not_blank = refl;
    not_close = refl;
  }

  skip_ws-Starts : (s rest : Bytes) → Starts s → skip_ws (s ++ rest) ≡ s ++ rest
  unfolding skip_ws
  skip_ws-Starts s rest st = rw st.shape (rw st.not_blank)

  closes-Starts : (s rest : Bytes) → Starts s → closes b']' (s ++ rest) ≡ none
  unfolding closes
  closes-Starts s rest st = rw st.shape (rw st.not_close)

  pub read_null :
      (fuel : ℕ) (rest : Bytes)
      → parse_value strtod (suc fuel) (write print_double null ++ rest) ≡ ok null rest
  unfolding parse_value skip_ws write
  read_null fuel rest = refl

  pub read_boolean :
      (b : Bool) (fuel : ℕ) (rest : Bytes)
      → parse_value strtod (suc fuel) (write print_double (boolean b) ++ rest) ≡ ok (boolean b) rest
  unfolding parse_value skip_ws write
  read_boolean true fuel rest = refl
  read_boolean false fuel rest = refl

  pub read_empty :
      (fuel : ℕ) (rest : Bytes)
      → (parse_value strtod (suc fuel) (write print_double (array nil) ++ rest)
          ≡ ok (array nil) rest)
        × (parse_value strtod (suc fuel) (write print_double (object end) ++ rest)
            ≡ ok (object end) rest)
  unfolding parse_value skip_ws closes write
  read_empty fuel rest = (refl, refl)

  skip_bracket : (s : Bytes) → skip_ws (b'[' ∷ s) ≡ b'[' ∷ s
  unfolding skip_ws
  skip_bracket s = refl

  skip_ws_start : (c : ℕ) (cs : Bytes) → is_blank c ≡ false → skip_ws (c ∷ cs) ≡ c ∷ cs
  unfolding skip_ws
  skip_ws_start c cs h = rw h

  dispatch_number :
      (c : ℕ) (cs : Bytes) (fuel : ℕ)
      → (is_digit c || c == b'-') ≡ true
      → parse_value strtod (suc fuel) (c ∷ cs) ≡ parse_number strtod (c ∷ cs)
  unfolding parse_value
  dispatch_number c cs fuel h =
      rw (skip_ws_start c cs (start_blank c h), parse_value) (ground arith)

  pub read_int :
      (i fuel : ℕ) (rest : Bytes)
      → i < 2 ^ 64
      → Stops rest
      → parse_value strtod (suc fuel) (print_i64 i ++ rest) ≡ ok (int i) rest
  read_int i fuel rest b h =
      let n = print_i64-StartsNumber i in
      let shape : print_i64 i ++ rest ≡ n.first ∷ (n.others ++ rest) =
        ap (λ x. x ++ rest) n.shape in
      rw shape (
        dispatch_number n.first (n.others ++ rest) fuel n.is_start
        ∙ rw (← shape) (parse_number-print_i64 strtod i rest b h))

  pub read_string :
      (s : Bytes) (fuel : ℕ) (rest : Bytes)
      → parse_value strtod (suc fuel) (write_string s ++ rest) ≡ ok (string s) rest
  unfolding parse_value skip_ws
  read_string s fuel rest = rw (parse_string-write_string s rest)

  pub open_array :
      (s rest : Bytes) (fuel : ℕ)
      → Starts s
      → parse_value strtod (suc fuel) (b'[' ∷ (s ++ rest)) ≡ array_loop strtod fuel (s ++ rest) nil
  unfolding parse_value
  open_array s rest fuel st =
      rw (skip_bracket (s ++ rest), parse_value)
        (rw (skip_ws-Starts s rest st)
          (rw (closes-Starts s rest st) (rw (skip_ws-Starts s rest st))))

  pub element_more :
      (v : Value) (s rest : Bytes) (fuel : ℕ) (out : Items)
      → parse_value strtod fuel (s ++ (b',' ∷ rest)) ≡ ok v (b',' ∷ rest)
      → array_loop strtod (suc fuel) (s ++ (b',' ∷ rest)) out
        ≡ array_loop strtod fuel rest (push_back out v)
  unfolding parse_value skip_ws
  element_more v s rest fuel out e = rw e

  pub element_last :
      (v : Value) (s rest : Bytes) (fuel : ℕ) (out : Items)
      → parse_value strtod fuel (s ++ (b']' ∷ rest)) ≡ ok v (b']' ∷ rest)
      → array_loop strtod (suc fuel) (s ++ (b']' ∷ rest)) out ≡ ok (array (push_back out v)) rest
  unfolding parse_value skip_ws
  element_last v s rest fuel out e = rw e

  pub open_object :
      (k rest : Bytes) (fuel : ℕ)
      → parse_value strtod (suc fuel) (b'{' ∷ (write_string k ++ rest))
        ≡ object_loop strtod fuel (write_string k ++ rest) end
  unfolding parse_value skip_ws closes
  open_object k rest fuel = refl

  pub member_more :
      (k : Bytes) (v : Value) (s rest : Bytes) (fuel : ℕ) (out : Fields)
      → parse_value strtod fuel (s ++ (b',' ∷ rest)) ≡ ok v (b',' ∷ rest)
      → object_loop strtod (suc fuel) (write_string k ++ (b':' ∷ (s ++ (b',' ∷ rest)))) out
        ≡ object_loop strtod fuel rest (insert k v out)
  unfolding parse_value skip_ws closes
  member_more k v s rest fuel out e =
      rw (parse_string-write_string k (b':' ∷ (s ++ (b',' ∷ rest)))) (rw e)

  pub member_last :
      (k : Bytes) (v : Value) (s rest : Bytes) (fuel : ℕ) (out : Fields)
      → parse_value strtod fuel (s ++ (b'}' ∷ rest)) ≡ ok v (b'}' ∷ rest)
      → object_loop strtod (suc fuel) (write_string k ++ (b':' ∷ (s ++ (b'}' ∷ rest)))) out
        ≡ ok (object (insert k v out)) rest
  unfolding parse_value skip_ws closes
  member_last k v s rest fuel out e =
      rw (parse_string-write_string k (b':' ∷ (s ++ (b'}' ∷ rest)))) (rw e)
