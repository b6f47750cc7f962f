-- ===== src/Json/Number.antt =====
-- The C library's `%lld` and `strtoll`, as json.cpp and config.cpp use them, on 64-bit patterns.
pub mod Laws
use switch_mcp.Base.{
  ℕ, zero, suc, ◌+◌, ◌-◌, ◌*◌, ◌/◌, ◌%◌, ◌^◌, ◌≤◌, ◌<◌, Bool, true, false, List, [], ◌∷◌, ◌++◌, ◌≡◌,
  refl, sym, ◌∙◌, ap, arith, ltb, leb, ◌==◌, if◌then◌else◌, Bytes, ◌&&◌, ◌||◌, Bool-cases, inl, inr,
  append_assoc, All, All-append,
}
use Prim.Native.Nat.{min}

-- At most `slots` decimal digits of `n`, the most significant first.
unfoldable pub digits : ℕ → ℕ → Bytes
digits zero n = []
digits (suc slots) n =
    let front = digits slots (n / 10) in
    if ltb n 10 then (b'0' + n) ∷ [] else front ++ (b'0' + n % 10) ∷ []

abbrev pub decimal : ℕ → Bytes
decimal n = digits 20 n

-- `snprintf("%lld")`
unfoldable pub print_i64 : ℕ → Bytes
print_i64 i = if ltb i (2 ^ 63) then decimal i else b'-' ∷ decimal (2 ^ 64 - i)

abbrev pub is_digit : ℕ → Bool
is_digit c = leb b'0' c && leb c b'9'

-- The digits at the front of a text, read onto `acc`.
unfoldable pub read_digits : ℕ → Bytes → ℕ
read_digits acc [] = acc
read_digits acc (c ∷ cs) =
    let rest = read_digits (acc * 10 + (c - b'0')) cs in if is_digit c then rest else acc

abbrev is_space : ℕ → Bool
is_space c = c == 32 || (leb 9 c && leb c 13)

pub skip_space : Bytes → Bytes
skip_space [] = []
skip_space (c ∷ cs) = let rest = skip_space cs in if is_space c then rest else c ∷ cs

-- `LLONG_MIN` and `LLONG_MAX` where the value is out of range.
abbrev negative_i64 : ℕ → ℕ
negative_i64 n = (2 ^ 64 - min n (2 ^ 63)) % 2 ^ 64

abbrev positive_i64 : ℕ → ℕ
positive_i64 n = min n (2 ^ 63 - 1)

abbrev signed : Bytes → ℕ
signed [] = 0
signed (c ∷ cs) =
    if c == b'-'
    then negative_i64 (read_digits 0 cs)
    else if c == b'+'
    then positive_i64 (read_digits 0 cs)
    else positive_i64 (read_digits 0 (c ∷ cs))

-- `strtoll(s, nullptr, 10)`
unfoldable pub strtoll : Bytes → ℕ
unfolding skip_space
strtoll s = signed (skip_space s)
