-- ===== src/Json/Write.antt =====
-- `Value::write`, `write_string` and `dump` of agent/source/json.cpp and json.hpp. Each function
-- returns what the source appends to `out`. The text of a finite double (`%.10g`) is the
-- parameter `print_double`.
use switch_mcp.Base.{
  ℕ, ◌/◌, ◌%◌, ◌^◌, ◌+◌, Bool, true, false, [], ◌∷◌, ◌++◌, ltb, ◌==◌, if◌then◌else◌, Bytes, codes,
}
use switch_mcp.Json.Value.{
  Value, null, boolean, int, double, string, array, object, Items, nil, cons, Fields, end, field,
}
use switch_mcp.Json.Number.{print_i64}

-- One lower-case hexadecimal digit.
abbrev pub hex_digit : ℕ → ℕ
hex_digit n = if ltb n 10 then b'0' + n else 87 + n

-- `snprintf("\\u%04x")` for a value below 0x20.
abbrev pub unicode_escape : ℕ → Bytes
unicode_escape c = b'\\' ∷ b'u' ∷ b'0' ∷ b'0' ∷ hex_digit (c / 16) ∷ hex_digit (c % 16) ∷ []

-- The switch on one character of a string.
unfoldable pub write_char : ℕ → Bytes
write_char c =
    if c == 34
    then b'\\' ∷ 34 ∷ []
    else if c == b'\\'
    then b'\\' ∷ b'\\' ∷ []
    else if c == 10
    then b'\\' ∷ b'n' ∷ []
    else if c == 13
    then b'\\' ∷ b'r' ∷ []
    else if c == 9
    then b'\\' ∷ b't' ∷ []
    else if c == 8
    then b'\\' ∷ b'b' ∷ []
    else if c == 12
    then b'\\' ∷ b'f' ∷ []
    else if ltb c 32
    then unicode_escape c
    else c ∷ []

unfoldable pub write_chars : Bytes → Bytes
write_chars [] = []
write_chars (c ∷ cs) = write_char c ++ write_chars cs

abbrev pub write_string : Bytes → Bytes
write_string s = 34 ∷ (write_chars s ++ 34 ∷ [])

-- `std::isfinite`: the exponent bits are not all set.
abbrev is_finite : ℕ → Bool
is_finite bits = if bits / 2 ^ 52 % 2048 == 2047 then false else true

abbrev comma : Bool → Bytes
comma true = []
comma false = b',' ∷ []

module _ (print_double : ℕ → Bytes) where
  unfoldable mutual
    pub write : Value → Bytes
    write null = codes "null"
    write (boolean b) = if b then codes "true" else codes "false"
    write (int i) = print_i64 i
    write (double d) = if is_finite d then print_double d else codes "null"
    write (string s) = write_string s
    write (array xs) = b'[' ∷ (write_items true xs ++ b']' ∷ [])
    write (object fs) = b'{' ∷ (write_fields true fs ++ b'}' ∷ [])

    -- The flag is the source's `first`.
    pub write_items : Bool → Items → Bytes
    write_items first nil = []
    write_items first (cons v xs) = comma first ++ (write v ++ write_items false xs)

    pub write_fields : Bool → Fields → Bytes
    write_fields first end = []
    write_fields first (field k v fs) =
        comma first ++ (write_string k ++ (b':' ∷ (write v ++ write_fields false fs)))
