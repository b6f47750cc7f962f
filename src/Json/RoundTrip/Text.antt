-- ===== src/Json/RoundTrip/Text.antt =====
-- The round trip of strings and of integers, with any text behind them.
use switch_mcp.Base.{
  ℕ, zero, suc, ◌-◌, ◌/◌, ◌%◌, ◌^◌, ◌≤◌, ◌<◌, true, false, ◌||◌, [], ◌∷◌, ◌++◌, append_assoc,
  append-nil, some, ◌≡◌, refl, sym, ap, ◌∙◌, arith, ltb, ◌==◌, length, length-append, Bytes,
  Bool-cases, inl, inr, ==_iff, ltb→lt,
}
use switch_mcp.Json.Number.{print_i64, strtoll, is_digit, decimal}
use switch_mcp.Json.Number.Laws.{
  IsDigits, digits-StartsWithDigit, strtoll-print_i64, StartsWithDigit,
}
use switch_mcp.Json.Value.{int}
use switch_mcp.Json.Write.{hex_digit, write_char, write_chars, write_string}
use switch_mcp.Json.Parse.{
  ok, hex_value, unicode, escape, string_loop, parse_string, is_mark, scan, scan_number, number_of,
  parse_number,
}

hex_value-hex_digit : (n : ℕ) → n < 16 → hex_value (hex_digit n) ≡ some n
unfolding hex_value
hex_value-hex_digit n h = ground arith

unicode_control :
    (c : ℕ) (rest : Bytes)
    → c < 32
    → unicode (b'0' ∷ b'0' ∷ hex_digit (c / 16) ∷ hex_digit (c % 16) ∷ rest) ≡ ok (c ∷ []) rest
unfolding unicode
unicode_control c rest h =
    ground (arith, hex_value-hex_digit (c / 16), hex_value-hex_digit (c % 16))

abbrev Reads : ℕ → Type 0
Reads c =
    (fuel : ℕ) (rest out : Bytes)
    → string_loop (suc fuel) (write_char c ++ rest) out ≡ string_loop fuel rest (out ++ c ∷ [])

-- The characters with a short escape.
Reads-escaped : (c k : ℕ) → (c == k) ≡ true → Reads k → Reads c
Reads-escaped c k e r = rw ((==_iff c k).0 e) r

string_loop-write_char : (c : ℕ) → Reads c
unfolding write_char string_loop escape
string_loop-write_char c = elim (Bool-cases (c == 34)) [
  | inl e ↦ Reads-escaped c 34 e (λ fuel rest out. refl)
  | inr h34 ↦ elim (Bool-cases (c == 92)) [
    | inl e ↦ Reads-escaped c 92 e (λ fuel rest out. refl)
    | inr h92 ↦ elim (Bool-cases (c == 10)) [
      | inl e ↦ Reads-escaped c 10 e (λ fuel rest out. refl)
      | inr h10 ↦ elim (Bool-cases (c == 13)) [
        | inl e ↦ Reads-escaped c 13 e (λ fuel rest out. refl)
        | inr h13 ↦ elim (Bool-cases (c == 9)) [
          | inl e ↦ Reads-escaped c 9 e (λ fuel rest out. refl)
          | inr h9 ↦ elim (Bool-cases (c == 8)) [
            | inl e ↦ Reads-escaped c 8 e (λ fuel rest out. refl)
            | inr h8 ↦ elim (Bool-cases (c == 12)) [
              | inl e ↦ Reads-escaped c 12 e (λ fuel rest out. refl)
              | inr h12 ↦ elim (Bool-cases (ltb c 32)) [
                | inl t ↦ λ fuel rest out.
                    rw (h34, h92, h10, h13, h9, h8, h12, t)
                      (rw (unicode_control c rest (ltb→lt c 32 t)))
                | inr t ↦ λ fuel rest out. rw (h34, h92, h10, h13, h9, h8, h12, t) (rw (h34, h92))
              ]
            ]
          ]
        ]
      ]
    ]
  ]
]

string_loop-write_chars :
    (s : Bytes) (fuel : ℕ) (rest out : Bytes)
    → length s < fuel
    → string_loop fuel (write_chars s ++ (34 ∷ rest)) out ≡ ok (out ++ s) rest
unfolding write_chars
string_loop-write_chars s zero rest out h = absurd (omega arith)
string_loop-write_chars [] (suc fuel) rest out h =
    unfold string_loop in ap (λ x. ok x rest) (sym (append-nil out))
string_loop-write_chars (c ∷ s) (suc fuel) rest out h =
    rw (append_assoc (write_char c) (write_chars s) (34 ∷ rest)) (
      string_loop-write_char c fuel (write_chars s ++ (34 ∷ rest)) out
      ∙ string_loop-write_chars s fuel rest (out ++ c ∷ []) (omega arith)
      ∙ ap (λ x. ok x rest) (append_assoc out (c ∷ []) s))

length-write_char : (c : ℕ) → 0 < length (write_char c)
unfolding write_char
length-write_char c = ground arith

pub length-write_chars : (s : Bytes) → length s ≤ length (write_chars s)
unfolding write_chars
length-write_chars [] = omega arith
length-write_chars (c ∷ s) =
    omega (
      arith,
      length-append (write_char c) (write_chars s),
      length-write_char c,
      length-write_chars s,
    )

-- A string comes back byte for byte, whatever bytes it holds.
pub parse_string-write_string : (s rest : Bytes) → parse_string (write_string s ++ rest) ≡ ok s rest
unfolding parse_string
parse_string-write_string s rest = rw (append_assoc (write_chars s) (34 ∷ []) rest) (
    string_loop-write_chars s (length (write_chars s ++ (34 ∷ rest))) rest []
      (omega (arith, length-append (write_chars s) (34 ∷ rest), length-write_chars s)))

-- The text behind a number does not go on with a digit or with one of `. e E + -`.
abbrev pub Stops : Bytes → Type 0
Stops [] = Unit
Stops (c ∷ cs) = (is_digit c || is_mark c) ≡ false

scan-IsDigits :
    (ds num rest : Bytes) → IsDigits ds → scan num false (ds ++ rest) ≡ scan (num ++ ds) false rest
unfolding scan
scan-IsDigits [] num rest d = rw (append-nil num)
scan-IsDigits (c ∷ ds) num rest d =
    rw (d.0) (scan-IsDigits ds (num ++ c ∷ []) rest d.1 ∙ rw (append_assoc num (c ∷ []) ds))

scan-Stops : (num rest : Bytes) → Stops rest → scan num false rest ≡ (num, false, rest)
unfolding scan
scan-Stops num [] h = refl
scan-Stops num (c ∷ rest) h = rw h

not_sign : (c : ℕ) → is_digit c ≡ true → (c == b'-' || c == b'+') ≡ false
not_sign c h = ground arith

scan_number-digits :
    (ds rest : Bytes)
    → StartsWithDigit ds
    → Stops rest
    → scan_number (ds ++ rest) ≡ (ds, false, rest)
unfolding scan_number
scan_number-digits ds rest d h = rw d.shape (
    rw (not_sign d.first d.first_digit) (
      scan-IsDigits (d.first ∷ d.others) [] rest (d.first_digit, d.other_digits)
      ∙ scan-Stops (d.first ∷ d.others) rest h))

scan_number-minus :
    (ds rest : Bytes)
    → StartsWithDigit ds
    → Stops rest
    → scan_number (b'-' ∷ (ds ++ rest)) ≡ (b'-' ∷ ds, false, rest)
unfolding scan_number
scan_number-minus ds rest d h = rw d.shape (
    scan-IsDigits (d.first ∷ d.others) (b'-' ∷ []) rest (d.first_digit, d.other_digits)
    ∙ scan-Stops (b'-' ∷ d.first ∷ d.others) rest h)

scan_number-print_i64 :
    (i : ℕ) (rest : Bytes)
    → Stops rest
    → scan_number (print_i64 i ++ rest) ≡ (print_i64 i, false, rest)
unfolding print_i64
scan_number-print_i64 i rest h = elim (Bool-cases (ltb i (2 ^ 63))) [
  | inl p ↦ rw p (scan_number-digits (decimal i) rest (digits-StartsWithDigit 19 i) h)
  | inr n ↦
      rw n
        (scan_number-minus (decimal (2 ^ 64 - i)) rest (digits-StartsWithDigit 19 (2 ^ 64 - i)) h)
]

-- The first byte of a printed integer: a digit or a minus sign.
pub record StartsNumber (s : Bytes) : Type 0 where
  pub first : ℕ
  pub others : Bytes
  pub shape : s ≡ first ∷ others
  pub is_start : (is_digit first || first == b'-') ≡ true

pub print_i64-StartsNumber : (i : ℕ) → StartsNumber (print_i64 i)
unfolding print_i64
print_i64-StartsNumber i = elim (Bool-cases (ltb i (2 ^ 63))) [
  | inl p ↦
      let d = digits-StartsWithDigit 19 i in
      rw p (record {
        first = d.first;
        others = d.others;
        shape = d.shape;
        is_start = rw d.first_digit;
      })
  | inr n ↦
      rw n (record { first = b'-'; others = decimal (2 ^ 64 - i); shape = refl; is_start = refl })
]

module _ (strtod : Bytes → ℕ) where
  number_of-int :
      (num rest : Bytes)
      → StartsNumber num
      → number_of strtod num false rest ≡ ok (int (strtoll num)) rest
  unfolding number_of
  number_of-int num rest n = rw n.shape

  -- A 64-bit integer comes back, if the text behind it does not go on like a number.
  pub parse_number-print_i64 :
      (i : ℕ) (rest : Bytes)
      → i < 2 ^ 64
      → Stops rest
      → parse_number strtod (print_i64 i ++ rest) ≡ ok (int i) rest
  unfolding parse_number
  parse_number-print_i64 i rest b h =
      rw (scan_number-print_i64 i rest h)
        (number_of-int (print_i64 i) rest (print_i64-StartsNumber i) ∙ rw (strtoll-print_i64 i b))
