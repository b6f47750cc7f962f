-- ===== src/Json/Number/Laws.antt =====
-- `strtoll` reads back what `%lld` prints.
use switch_mcp.Base.{
  ℕ, zero, suc, ◌+◌, ◌-◌, ◌*◌, ◌/◌, ◌%◌, ◌^◌, ◌≤◌, ◌<◌, true, false, [], ◌∷◌, ◌++◌, ◌≡◌, refl, ◌∙◌,
  arith, ltb, Bytes, Bool-cases, inl, inr, All, All-append, ltb→lt, length, length-append,
}
use Prim.Native.Nat.{min}
use native.Mathlib.Nat.{pow-suc}
use switch_mcp.Json.Number.{digits, decimal, print_i64, is_digit, read_digits, strtoll}

abbrev pub IsDigits : Bytes → Type 0
IsDigits = All (λ c. is_digit c ≡ true)

pub digits-IsDigits : (slots n : ℕ) → IsDigits (digits slots n)
unfolding digits
digits-IsDigits zero n = tt
digits-IsDigits (suc slots) n = elim (Bool-cases (ltb n 10)) [
  | inl h ↦ rw h (ground arith, tt)
  | inr h ↦ rw h (
      All-append (λ c. is_digit c ≡ true) (digits slots (n / 10)) ((b'0' + n % 10) ∷ [])
        (digits-IsDigits slots (n / 10)) (ground arith, tt))
]

length-digits_pos : (slots n : ℕ) → 0 < length (digits (suc slots) n)
unfolding digits
length-digits_pos slots n = elim (Bool-cases (ltb n 10)) [
  | inl h ↦ rw h (omega arith)
  | inr h ↦ rw h (omega (arith, length-append (digits slots (n / 10)) ((b'0' + n % 10) ∷ [])))
]

-- A printed number starts with a digit, and digits follow.
pub record StartsWithDigit (ds : Bytes) : Type 0 where
  pub first : ℕ
  pub others : Bytes
  pub shape : ds ≡ first ∷ others
  pub first_digit : is_digit first ≡ true
  pub other_digits : IsDigits others

nonempty_digits : (ds : Bytes) → IsDigits ds → 0 < length ds → StartsWithDigit ds
nonempty_digits [] d h = absurd (omega arith)
nonempty_digits (c ∷ cs) d h = record {
  first = c;
  others = cs;
  shape = refl;
  first_digit = d.0;
  other_digits = d.1;
}

pub digits-StartsWithDigit : (slots n : ℕ) → StartsWithDigit (digits (suc slots) n)
digits-StartsWithDigit slots n =
    nonempty_digits (digits (suc slots) n) (digits-IsDigits (suc slots) n)
      (length-digits_pos slots n)

read_digits-append :
    (ds : Bytes) (acc : ℕ) (rest : Bytes)
    → IsDigits ds
    → read_digits acc (ds ++ rest) ≡ read_digits (read_digits acc ds) rest
unfolding read_digits
read_digits-append [] acc rest d = refl
read_digits-append (c ∷ ds) acc rest d =
    rw (d.0) (read_digits-append ds (acc * 10 + (c - b'0')) rest d.1)

read_one : (acc c : ℕ) → is_digit c ≡ true → read_digits acc (c ∷ []) ≡ acc * 10 + (c - b'0')
unfolding read_digits
read_one acc c h = rw h

pub read_digits-digits : (slots n : ℕ) → n < 10 ^ slots → read_digits 0 (digits slots n) ≡ n
unfolding digits
read_digits-digits zero n h = unfold read_digits in omega arith
read_digits-digits (suc slots) n h = elim (Bool-cases (ltb n 10)) [
  | inl small ↦ rw small (read_one 0 (b'0' + n) (ground arith) ∙ omega arith)
  | inr big ↦ rw big (
      read_digits-append (digits slots (n / 10)) 0 ((b'0' + n % 10) ∷ [])
        (digits-IsDigits slots (n / 10))
      ∙ read_one (read_digits 0 (digits slots (n / 10))) (b'0' + n % 10) (ground arith)
      ∙ omega (arith, read_digits-digits slots (n / 10) (omega (arith, pow-suc 10 slots))))
]

signed_digits : (ds : Bytes) → StartsWithDigit ds → strtoll ds ≡ min (read_digits 0 ds) (2 ^ 63 - 1)
unfolding strtoll
signed_digits ds d = rw d.shape (ground (arith, d.first_digit))

signed_minus :
    (ds : Bytes) → strtoll (b'-' ∷ ds) ≡ (2 ^ 64 - min (read_digits 0 ds) (2 ^ 63)) % 2 ^ 64
unfolding strtoll
signed_minus ds = refl

below : (i : ℕ) → ltb i (2 ^ 63) ≡ false → 2 ^ 63 ≤ i
below i h = ground arith

-- Reading back the printed form of a 64-bit integer gives that integer.
pub strtoll-print_i64 : (i : ℕ) → i < 2 ^ 64 → strtoll (print_i64 i) ≡ i
unfolding print_i64
strtoll-print_i64 i h = elim (Bool-cases (ltb i (2 ^ 63))) [
  | inl p ↦ rw p (
      signed_digits (decimal i) (digits-StartsWithDigit 19 i)
      ∙ omega (arith, ltb→lt i (2 ^ 63) p, read_digits-digits 20 i (omega arith)))
  | inr n ↦ rw n (
      signed_minus (decimal (2 ^ 64 - i))
      ∙ omega (arith, below i n, read_digits-digits 20 (2 ^ 64 - i) (omega arith)))
]
