-- ===== src/HexText.antt =====
-- Hexadecimal numbers in texts: `strtoull(s, nullptr, 16)` of the C library, and `%lx` of `snprintf`.
use switch_mcp.Base.{
  ℕ, zero, suc, ◌+◌, ◌-◌, ◌*◌, ◌/◌, ◌%◌, ◌^◌, Bool, true, false, ◌&&◌, ◌||◌, [], ◌∷◌, ◌++◌, none,
  some, ltb, leb, ◌==◌, if◌then◌else◌, Bytes,
}
use Prim.Native.Nat.{min}
use switch_mcp.Json.Number.{skip_space}
use switch_mcp.Json.Parse.{hex_value}
use switch_mcp.Json.Write.{hex_digit}

-- The digits at the front of a text, read onto `acc`.
unfoldable pub read_hex : ℕ → Bytes → ℕ
read_hex acc [] = acc
read_hex acc (c ∷ cs) = elim (hex_value c) [ none ↦ acc | some v ↦ read_hex (acc * 16 + v) cs ]

abbrev is_hex : Bytes → Bool
is_hex [] = false
is_hex (c ∷ cs) = elim (hex_value c) [ none ↦ false | some v ↦ true ]

-- An optional `0x`, where a digit follows it.
abbrev without_prefix : Bytes → Bytes
without_prefix (z ∷ x ∷ cs) =
    if z == b'0' && (x == b'x' || x == b'X') && is_hex cs then cs else z ∷ x ∷ cs
without_prefix s = s

abbrev saturated : Bytes → ℕ
saturated s = min (read_hex 0 (without_prefix s)) (2 ^ 64 - 1)

abbrev signed : Bytes → ℕ
signed [] = 0
signed (c ∷ cs) =
    if c == b'-'
    then (if leb (2 ^ 64) (read_hex 0 (without_prefix cs))
        then 2 ^ 64 - 1
        else (2 ^ 64 - saturated cs) % 2 ^ 64)
    else if c == b'+'
    then saturated cs
    else saturated (c ∷ cs)

unfoldable pub strtoull_hex : Bytes → ℕ
strtoull_hex s = signed (skip_space s)

-- At most `slots` digits, the most significant first.
unfoldable pub hex_digits : ℕ → ℕ → Bytes
hex_digits zero n = []
hex_digits (suc slots) n =
    let front = hex_digits slots (n / 16) in
    if ltb n 16 then hex_digit n ∷ [] else front ++ hex_digit (n % 16) ∷ []

-- `%lx` of a 64-bit word.
abbrev pub print_hex : ℕ → Bytes
print_hex n = hex_digits 16 n

-- `%016lx`, or with another width.
unfoldable pub padded_hex : ℕ → ℕ → Bytes
padded_hex zero n = []
padded_hex (suc width) n = padded_hex width (n / 16) ++ hex_digit (n % 16) ∷ []
