-- ===== src/Wire/Words.antt =====
-- Fixed-width integers on the wire, in the byte order of the console (little endian), and
-- comparisons of two's complement patterns.
use switch_mcp.Base.{
  ℕ, zero, suc, ◌+◌, ◌-◌, ◌*◌, ◌/◌, ◌%◌, ◌^◌, ◌<◌, Bool, [], ◌∷◌, ◌≡◌, refl, arith, ltb,
  if◌then◌else◌, length, Bytes,
}
use native.Mathlib.Nat.{pow-suc}

-- The bytes of a word of the given width, the lowest first.
unfoldable pub encode : ℕ → ℕ → Bytes
encode zero n = []
encode (suc width) n = (n % 256) ∷ encode width (n / 256)

unfoldable pub decode : Bytes → ℕ
decode [] = 0
decode (b ∷ bs) = b + 256 * decode bs

-- `(int)x` of a 64-bit pattern, as a 32-bit pattern.
abbrev pub to_i32 : ℕ → ℕ
to_i32 x = x % 2 ^ 32

-- `a < b` of two `int32_t` patterns.
abbrev pub lt32 : ℕ → ℕ → Bool
lt32 a b = ltb ((a + 2 ^ 31) % 2 ^ 32) ((b + 2 ^ 31) % 2 ^ 32)

-- `(int64_t)x` of a 32-bit pattern.
abbrev pub widen : ℕ → ℕ
widen x = if ltb x (2 ^ 31) then x else x + (2 ^ 64 - 2 ^ 32)

-- `a < b` of two `int64_t` patterns.
abbrev pub lt64 : ℕ → ℕ → Bool
lt64 a b = ltb ((a + 2 ^ 63) % 2 ^ 64) ((b + 2 ^ 63) % 2 ^ 64)

pub length-encode : (width n : ℕ) → length (encode width n) ≡ width
unfolding encode
length-encode zero n = refl
length-encode (suc width) n = omega (arith, length-encode width (n / 256))

pub decode-encode : (width n : ℕ) → n < 256 ^ width → decode (encode width n) ≡ n
unfolding encode decode
decode-encode zero n h = omega arith
decode-encode (suc width) n h =
    omega
      (arith, pow-suc 256 width, decode-encode width (n / 256) (omega (arith, pow-suc 256 width)))
