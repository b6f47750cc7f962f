-- ===== src/Json/Parse.antt =====
-- `Parser` and `Value::parse` of agent/source/json.cpp. The text between `p` and `end` is passed
-- along; `fail` is the source's `return false`, and `spent` says that the fuel ran out, which
-- Json/Fuel.antt excludes. `strtod` is a parameter.
use switch_mcp.Base.{
  ℕ, zero, suc, ◌+◌, ◌-◌, ◌*◌, ◌/◌, ◌%◌, Bool, true, false, not, ◌&&◌, ◌||◌, [], ◌∷◌, ◌++◌, Option,
  none, some, ltb, leb, ◌==◌, if◌then◌else◌, length, Bytes, codes,
}
use switch_mcp.Json.Value.{
  Value, null, boolean, int, double, string, array, object, Items, nil, Fields, end, insert,
  push_back,
}
use switch_mcp.Json.Number.{strtoll, is_digit}

pub data Parsed {ℓ} (A : Type ℓ) : Type ℓ where
  ok : A → Bytes → Parsed A
  fail : Parsed A
  spent : Parsed A

infixl 5 ◌>>=◌
abbrev pub ◌>>=◌ {ℓ κ} : {A : Type ℓ} {B : Type κ} → Parsed A → (A → Bytes → Parsed B) → Parsed B
ok a r >>= f = f a r
fail >>= f = fail
spent >>= f = spent

abbrev pub is_blank : ℕ → Bool
is_blank c = c == 32 || c == 9 || c == 10 || c == 13

unfoldable pub skip_ws : Bytes → Bytes
skip_ws [] = []
skip_ws (c ∷ cs) = let rest = skip_ws cs in if is_blank c then rest else c ∷ cs

-- The value of one hexadecimal digit.
unfoldable pub hex_value : ℕ → Option ℕ
hex_value h =
    if leb b'0' h && leb h b'9'
    then some (h - b'0')
    else if leb b'a' h && leb h b'f'
    then some (h - b'a' + 10)
    else if leb b'A' h && leb h b'F'
    then some (h - b'A' + 10)
    else none

-- The UTF-8 form of a code point below 2 ^ 16. `0xC0 | x` is a sum, since `x` has no such bit.
unfoldable pub utf8 : ℕ → Bytes
utf8 cp =
    if ltb cp 0x80
    then cp ∷ []
    else if ltb cp 0x800
    then (0xC0 + cp / 64) ∷ (0x80 + cp % 64) ∷ []
    else (0xE0 + cp / 4096) ∷ (0x80 + cp / 64 % 64) ∷ (0x80 + cp % 64) ∷ []

abbrev pub hex4 : Option ℕ → Option ℕ → Option ℕ → Option ℕ → Bytes → Parsed Bytes
hex4 (some a) (some b) (some c) (some d) rest = ok (utf8 (((a * 16 + b) * 16 + c) * 16 + d)) rest
hex4 _ _ _ _ rest = fail

unfoldable pub unicode : Bytes → Parsed Bytes
unfolding hex_value utf8
unicode (a ∷ b ∷ c ∷ d ∷ rest) = hex4 (hex_value a) (hex_value b) (hex_value c) (hex_value d) rest
unicode _ = fail

-- The text behind `mark`, where it is the next byte.
unfoldable pub closes : ℕ → Bytes → Option Bytes
closes mark [] = none
closes mark (c ∷ cs) = if c == mark then some cs else none

-- What stands behind a backslash.
unfoldable pub escape : Bytes → Parsed Bytes
escape [] = fail
escape (e ∷ cs) =
    if e == 34
    then ok (34 ∷ []) cs
    else if e == b'\\'
    then ok (b'\\' ∷ []) cs
    else if e == b'/'
    then ok (b'/' ∷ []) cs
    else if e == b'n'
    then ok (10 ∷ []) cs
    else if e == b'r'
    then ok (13 ∷ []) cs
    else if e == b't'
    then ok (9 ∷ []) cs
    else if e == b'b'
    then ok (8 ∷ []) cs
    else if e == b'f'
    then ok (12 ∷ []) cs
    else if e == b'u'
    then unicode cs
    else fail

-- The loop of `parse_string`.
unfoldable pub string_loop : ℕ → Bytes → Bytes → Parsed Bytes
string_loop fuel [] out = fail
string_loop zero (c ∷ cs) out = spent
string_loop (suc fuel) (c ∷ cs) out =
    let escaped = escape cs >>= λ bs rest. string_loop fuel rest (out ++ bs) in
    let plain = string_loop fuel cs (out ++ c ∷ []) in
    if c == 34 then ok out cs else if c == b'\\' then escaped else plain

unfoldable pub parse_string : Bytes → Parsed Bytes
parse_string [] = fail
parse_string (c ∷ cs) = if not (c == 34) then fail else string_loop (length cs) cs []

-- The text of a number, whether it is a double, and what follows.
abbrev pub is_mark : ℕ → Bool
is_mark c = c == b'.' || c == b'e' || c == b'E' || c == b'+' || c == b'-'

unfoldable pub scan : Bytes → Bool → Bytes → Bytes × Bool × Bytes
scan num is_double [] = (num, is_double, [])
scan num is_double (c ∷ cs) =
    let rest = scan (num ++ c ∷ []) (is_double || not (is_digit c)) cs in
    if is_digit c || is_mark c then rest else (num, is_double, c ∷ cs)

unfoldable pub scan_number : Bytes → Bytes × Bool × Bytes
unfolding scan
scan_number [] = ([], false, [])
scan_number (c ∷ cs) =
    if c == b'-' || c == b'+' then scan (c ∷ []) false cs else scan [] false (c ∷ cs)

-- `memcmp` with a word, and the step over it.
abbrev pub keyword : Bytes → Value → Bytes → Parsed Value
keyword [] v cs = ok v cs
keyword (w ∷ ws) v [] = fail
keyword (w ∷ ws) v (c ∷ cs) = if w == c then keyword ws v cs else fail

-- What is left behind the value is dropped; a failure leaves no value.
abbrev pub accepted : Parsed Value → Option Value
accepted (ok v rest) = some v
accepted fail = none
accepted spent = none

module _ (strtod : Bytes → ℕ) where
  unfoldable pub number_of : Bytes → Bool → Bytes → Parsed Value
  number_of [] is_double rest = fail
  number_of (c ∷ cs) is_double rest =
      if is_double then ok (double (strtod (c ∷ cs))) rest else ok (int (strtoll (c ∷ cs))) rest

  unfoldable pub parse_number : Bytes → Parsed Value
  unfolding number_of scan_number
  parse_number s = let (num, is_double, rest) = scan_number s in number_of num is_double rest

  -- `parse_value` starts at `p`; the two loops start where an element or a key is expected.
  unfoldable mutual
    unfolding closes

    pub parse_value : ℕ → Bytes → Parsed Value
    parse_value zero s = spent
    parse_value (suc fuel) s = elim (skip_ws s) [
      | [] ↦ fail
      | c ∷ cs ↦
          let members : Parsed Value = elim (closes b'}' (skip_ws cs)) [
            | some rest ↦ ok (object end) rest
            | none ↦ object_loop fuel (skip_ws cs) end
          ] in
          let elements : Parsed Value = elim (closes b']' (skip_ws cs)) [
            | some rest ↦ ok (array nil) rest
            | none ↦ array_loop fuel (skip_ws cs) nil
          ] in
          if c == b'{'
          then members
          else if c == b'['
          then elements
          else if c == 34
          then (parse_string (c ∷ cs) >>= λ str rest. ok (string str) rest)
          else if c == b't'
          then keyword (codes "true") (boolean true) (c ∷ cs)
          else if c == b'f'
          then keyword (codes "false") (boolean false) (c ∷ cs)
          else if c == b'n'
          then keyword (codes "null") null (c ∷ cs)
          else parse_number (c ∷ cs)
    ]

    pub array_loop : ℕ → Bytes → Items → Parsed Value
    array_loop zero s out = spent
    array_loop (suc fuel) s out = parse_value fuel s >>= λ v rest. elim (skip_ws rest) [
      | [] ↦ fail
      | c ∷ cs ↦
          let more = array_loop fuel cs (push_back out v) in
          if c == b',' then more else if c == b']' then ok (array (push_back out v)) cs else fail
    ]

    pub object_loop : ℕ → Bytes → Fields → Parsed Value
    object_loop zero s out = spent
    object_loop (suc fuel) s out = parse_string (skip_ws s) >>= λ key behind.
        elim (closes b':' (skip_ws behind)) [
          | none ↦ fail
          | some after ↦ parse_value fuel after >>= λ v rest. elim (skip_ws rest) [
            | [] ↦ fail
            | c ∷ cs ↦
                let more = object_loop fuel cs (insert key v out) in
                if c == b','
                then more
                else if c == b'}'
                then ok (object (insert key v out)) cs
                else fail
          ]
        ]

  -- `Value::parse`: text behind the value is tolerated. Each nesting level takes two units of fuel
  -- and at least one byte, and each element one unit and at least one byte.
  unfoldable pub parse : Bytes → Option Value
  parse text = accepted (parse_value (2 * length text + 2) text)
