-- ===== src/Server/Equality.antt =====
-- `SecureEqual` decides equality of byte strings.
use switch_mcp.Base.{
  ℕ, zero, suc, ◌<◌, Bool, true, false, not, ◌&&◌, [], ◌∷◌, bit_or, bit_xor, ◌≡◌, ◌↔◌, refl, sym,
  ap, ◌∙◌, arith, ltb, ◌==◌, if◌then◌else◌, length, Bytes, eq, eq_iff, All, Bool-cases, inl, inr,
  ==_iff, &&-eq-true, ltb→lt,
}
use switch_mcp.Server.Gate.{difference, secure_equal}

abbrev pub IsBytes : Bytes → Type 0
IsBytes = All (λ b. b < 256)

-- Whether a test passes at every byte up to a bound.
unfoldable pub every_byte : (ℕ → Bool) → ℕ → Bool
every_byte test zero = true
every_byte test (suc bound) = if test bound then every_byte test bound else false

pub byte_passes :
    (test : ℕ → Bool) (bound b : ℕ) → b < bound → every_byte test bound ≡ true → test b ≡ true
unfolding every_byte
byte_passes test zero b below passed = ground (arith, below)
byte_passes test (suc bound) b below passed = ground (arith, byte_passes test bound b)

abbrev same : Bool → Bool → Bool
same true b = b
same false b = not b

-- Of two bytes: an exclusive or is a byte, and 0 for equal bytes only.
abbrev xor_fact : ℕ → ℕ → Bool
xor_fact x y = same (bit_xor x y == 0) (x == y) && ltb (bit_xor x y) 256

-- An or of two bytes is a byte, and 0 for two zeros only.
abbrev or_fact : ℕ → ℕ → Bool
or_fact x y = same (bit_or x y == 0) (x == 0 && y == 0) && ltb (bit_or x y) 256

xor_table : every_byte (λ x. every_byte (xor_fact x) 256) 256 ≡ true
unfolding every_byte
xor_table = refl

or_table : every_byte (λ x. every_byte (or_fact x) 256) 256 ≡ true
unfolding every_byte
or_table = refl

xor_byte : (x y : ℕ) → x < 256 → y < 256 → xor_fact x y ≡ true
xor_byte x y p q = byte_passes (xor_fact x) 256 y q (byte_passes _ 256 x p xor_table)

or_byte : (x y : ℕ) → x < 256 → y < 256 → or_fact x y ≡ true
or_byte x y p q = byte_passes (or_fact x) 256 y q (byte_passes _ 256 x p or_table)

same_eq : (a b : Bool) → same a b ≡ true → a ≡ b
same_eq true true h = refl
same_eq true false h = sym h
same_eq false true h = h
same_eq false false h = refl

-- One turn of the loop keeps a byte, which is 0 if it was 0 and the two characters are equal.
turn :
    (d x y : ℕ)
    → d < 256
    → x < 256
    → y < 256
    → (bit_or d (bit_xor x y) < 256) × ((bit_or d (bit_xor x y) == 0) ≡ (d == 0 && x == y))
turn d x y k p q =
    let z = bit_xor x y in
    let (e, small) = &&-eq-true (same (z == 0) (x == y)) (ltb z 256) (xor_byte x y p q) in
    let z_byte : z < 256 = ltb→lt z 256 small in
    let (f, byte) =
      &&-eq-true (same (bit_or d z == 0) (d == 0 && z == 0)) (ltb (bit_or d z) 256)
        (or_byte d z k z_byte) in
    (
      ltb→lt (bit_or d z) 256 byte,
      same_eq (bit_or d z == 0) (d == 0 && z == 0) f
          ∙ ap (λ t. d == 0 && t) (same_eq (z == 0) (x == y) e),
    )

&&-assoc : (a b c : Bool) → ((a && b) && c) ≡ (a && (b && c))
&&-assoc true b c = refl
&&-assoc false b c = refl

&&-true : (a : Bool) → (a && true) ≡ a
&&-true true = refl
&&-true false = refl

difference-zero :
    (a b : Bytes) (d : ℕ)
    → d < 256
    → IsBytes a
    → IsBytes b
    → length a ≡ length b
    → (difference d a b == 0) ≡ (d == 0 && eq a b)
unfolding difference
difference-zero [] [] d k p q l = sym (&&-true (d == 0))
difference-zero [] (y ∷ b) d k p q l = absurd (omega arith)
difference-zero (x ∷ a) [] d k p q l = absurd (omega arith)
difference-zero (x ∷ a) (y ∷ b) d k p q l =
    let (byte, zero_test) = turn d x y k p.0 q.0 in
    difference-zero a b (bit_or d (bit_xor x y)) byte p.1 q.1 (omega arith)
    ∙ ap (λ t. t && eq a b) zero_test
    ∙ &&-assoc (d == 0) (x == y) (eq a b)

different : (a b : Bytes) → (length a == length b) ≡ false → a ≡ b → ⊥
different a b l e = ground (arith, ap length e)

-- On byte strings `SecureEqual` returns true exactly when they are equal.
pub secure_equal_iff : (a b : Bytes) → IsBytes a → IsBytes b → (secure_equal a b ≡ true) ↔ (a ≡ b)
unfolding secure_equal
secure_equal_iff a b p q = elim (Bool-cases (length a == length b)) [
  | inl l ↦ rw l (
      rw (difference-zero a b 0 (omega arith) p q ((==_iff (length a) (length b)).0 l))
        (eq_iff a b))
  | inr l ↦ rw l (λ e. cc e, λ e. absurd (different a b l e))
]
