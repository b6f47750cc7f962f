-- ===== src/Input/Typing/ReadBack.antt =====
-- What the layout of a US keyboard reads from the calls of `TypeText`.
use switch_mcp.Base.{
  ℕ, zero, suc, ◌+◌, ◌/◌, ◌%◌, ◌^◌, ◌<◌, Bool, true, false, not, List, [], ◌∷◌, ◌++◌, Option, none,
  some, ◌==◌, ==_iff, if◌then◌else◌, Bytes, codes, ◌≡◌, refl, ◌⊎◌, inl, inr, arith, length, take,
  Bool-cases, Option-cases, sym, ap, ◌∙◌,
}
use switch_mcp.Server.Equality.{IsBytes, every_byte, byte_passes}
use switch_mcp.Agent.{or_return}
use switch_mcp.Input.Typing.{
  Key, char_to_key, KeyboardState, no_keys, or_into, state_of, KeyCall, set_keyboard, wait,
  type_keys,
}

-- The characters of the usage ids from 4 on, without and with Shift.
abbrev pub plain : Bytes
plain =
    codes "abcdefghijklmnopqrstuvwxyz1234567890"
    ++ 10 ∷ 27 ∷ 8 ∷ 9 ∷ codes " -=[]"
    ++ 92 ∷ 35 ∷ codes ";'`,./"

abbrev pub shifted : Bytes
shifted =
    codes "ABCDEFGHIJKLMNOPQRSTUVWXYZ!@#$%^&*()"
    ++ 10 ∷ 27 ∷ 8 ∷ 9 ∷ codes " _+{}|~:"
    ++ 34 ∷ codes "~<>?"

unfoldable pub nth : ℕ → Bytes → Option ℕ
nth n [] = none
nth zero (c ∷ cs) = some c
nth (suc n) (c ∷ cs) = nth n cs

-- A usage id on the layout.
unfoldable pub on_layout : Bool → ℕ → Option ℕ
on_layout shift (suc (suc (suc (suc n)))) = nth n (if shift then shifted else plain)
on_layout shift n = none

-- The lowest bit of a word, from a bit on.
unfoldable pub lowest_bit : ℕ → ℕ → ℕ → Option ℕ
lowest_bit zero bit word = none
lowest_bit (suc fuel) bit word =
    let rest = lowest_bit fuel (bit + 1) (word / 2) in if word % 2 == 1 then some bit else rest

-- The lowest usage id in the words, from an id on.
unfoldable pub lowest_key : ℕ → List ℕ → Option ℕ
lowest_key first [] = none
lowest_key first (word ∷ words) =
    let rest = lowest_key (first + 64) words in if word == 0 then rest else lowest_bit 64 first word

abbrev pub character : Bool → Option ℕ → Option ℕ
character shift none = none
character shift (some key) = on_layout shift key

-- The character that a state types.
unfoldable pub read_key : KeyboardState → Option ℕ
read_key state = character (not (state.modifiers == 0)) (lowest_key 0 state.keys)

-- What the calls type.
unfoldable pub read_back : List KeyCall → Bytes
read_back [] = []
read_back (set_keyboard state ∷ calls) =
    let rest = read_back calls in or_return (read_key state) rest (λ c. c ∷ rest)
read_back (call ∷ calls) = read_back calls

-- The characters of a text that have a key.
unfoldable pub supported : Bytes → Bytes
supported [] = []
supported (c ∷ cs) = let rest = supported cs in or_return (char_to_key c) rest (λ key. c ∷ rest)

abbrev is_char : Option ℕ → ℕ → Bool
is_char none c = false
is_char (some d) c = d == c

abbrev key_types : Option Key → ℕ → Bool
key_types none c = true
key_types (some (key, shift)) c =
    is_char (character shift (lowest_key 0 (or_into (key / 64) (2 ^ (key % 64)) no_keys))) c

keys_table : every_byte (λ c. key_types (char_to_key c) c) 256 ≡ true
unfolding every_byte char_to_key or_into lowest_key lowest_bit on_layout nth
keys_table = refl

char_of_test : (o : Option ℕ) (c : ℕ) → is_char o c ≡ true → o ≡ some c
char_of_test none c t = ground (arith, t)
char_of_test (some d) c t = ap some ((==_iff d c).0 t)

key_of_test :
    (m c : ℕ) (key : Key)
    → (m == 0) ≡ false
    → key_types (some key) c ≡ true
    → read_key (state_of m key) ≡ some c
unfolding read_key state_of
key_of_test m c (key, true) h t = rw h (char_of_test _ c t)
key_of_test m c (key, false) h t = char_of_test _ c t

read_key-state_of :
    (m c : ℕ) (key : Key)
    → (m == 0) ≡ false
    → c < 256
    → char_to_key c ≡ some key
    → read_key (state_of m key) ≡ some c
read_key-state_of m c key h below e = key_of_test m c key h (
    ap (λ o. key_types o c) (sym e)
    ∙ byte_passes (λ b. key_types (char_to_key b) b) 256 c below keys_table)

supported-skip :
    (c : ℕ) (text : Bytes) → char_to_key c ≡ none → supported (c ∷ text) ≡ supported text
unfolding supported
supported-skip c text e = rw e refl

supported-keep :
    (c : ℕ) (text : Bytes) (key : Key)
    → char_to_key c ≡ some key
    → supported (c ∷ text) ≡ c ∷ supported text
unfolding supported
supported-keep c text key e = rw e refl

read_back-set :
    (c : ℕ) (state : KeyboardState) (calls : List KeyCall)
    → read_key state ≡ some c
    → read_back (set_keyboard state ∷ calls) ≡ c ∷ read_back calls
unfolding read_back
read_back-set c state calls e = rw e refl

-- A key that is held and released.
read_back-hold :
    (c key_ms : ℕ) (state : KeyboardState) (calls : List KeyCall)
    → read_key state ≡ some c
    → read_back (
        set_keyboard state
        ∷ wait key_ms
        ∷ set_keyboard (record { modifiers = 0; keys = no_keys })
        ∷ wait key_ms
        ∷ calls)
      ≡ c ∷ read_back calls
unfolding read_back read_key lowest_key
read_back-hold c key_ms state calls e = rw e refl

n_suc : (n k : ℕ) → n + suc k ≡ n + 1 + k
n_suc n k = omega arith

module _ (m : ℕ) (works : ℕ → Bool) (key_ms : ℕ) where
  -- The whole text is typed, or the call for one of its characters fails and is the last one.
  abbrev pub IsTyped : ℕ → Bytes → List KeyCall × Option ℕ → Type 0
  IsTyped n text result =
      ((result.1 ≡ some (n + length (supported text))) × (read_back result.0 ≡ supported text))
      ⊎ ((k : ℕ) × (works (n + k) ≡ false)
          × (k < length (supported text))
          × (result.1 ≡ none)
          × (read_back result.0 ≡ take (suc k) (supported text)))

  -- One more character that has a key.
  IsTyped-suc :
      (n c : ℕ) (text shown : Bytes) (result whole : List KeyCall × Option ℕ)
      → shown ≡ c ∷ supported text
      → (whole.1 ≡ result.1) × (read_back whole.0 ≡ c ∷ read_back result.0)
      → IsTyped (n + 1) text result
      → ((whole.1 ≡ some (n + length shown)) × (read_back whole.0 ≡ shown))
        ⊎ ((k : ℕ) × (works (n + k) ≡ false)
            × (k < length shown)
            × (whole.1 ≡ none)
            × (read_back whole.0 ≡ take (suc k) shown))
  IsTyped-suc n c text shown result whole s (same, r) (inl (count, read)) =
      inl (same ∙ rw (s, count) (ap some (omega arith)), r ∙ rw (read, s) refl)
  IsTyped-suc n c text shown result whole s (same, r) (inr (k, failed, below, count, read)) = inr (
    suc k,
    ap works (n_suc n k) ∙ failed,
    rw s (omega (arith, below)),
    same ∙ count,
    r ∙ rw (read, s) refl,
  )

  type_keys-nil : (n : ℕ) → IsTyped n [] (type_keys m works key_ms n [])
  unfolding type_keys supported read_back
  type_keys-nil n = inl (ap some (omega arith), refl)

  type_keys-skip :
      (n c : ℕ) (text : Bytes)
      → char_to_key c ≡ none
      → type_keys m works key_ms n (c ∷ text) ≡ type_keys m works key_ms n text
  unfolding type_keys
  type_keys-skip n c text e = rw e refl

  type_keys-hold :
      (n c : ℕ) (text : Bytes) (key : Key)
      → char_to_key c ≡ some key
      → works n ≡ true
      → read_key (state_of m key) ≡ some c
      → let rest = type_keys m works key_ms (n + 1) text in
        ((type_keys m works key_ms n (c ∷ text)).1 ≡ rest.1)
        × (read_back (type_keys m works key_ms n (c ∷ text)).0 ≡ c ∷ read_back rest.0)
  unfolding type_keys
  type_keys-hold n c text key e w read = rw (e, w) (refl, read_back-hold c _ _ _ read)

  type_keys-fail :
      (n c : ℕ) (text : Bytes) (key : Key)
      → char_to_key c ≡ some key
      → works n ≡ false
      → type_keys m works key_ms n (c ∷ text) ≡ (set_keyboard (state_of m key) ∷ [], none)
  unfolding type_keys
  type_keys-fail n c text key e w = rw (e, w) refl

  -- A US keyboard's layout reads from the calls just the characters of the text that have a key, and
  -- the count is theirs; or the call for one of them fails, and the calls end there. Shift's bit is
  -- not 0.
  pub type_keys-IsTyped :
      (h : (m == 0) ≡ false) (n : ℕ) (text : Bytes)
      → IsBytes text
      → IsTyped n text (type_keys m works key_ms n text)
  unfolding read_back
  type_keys-IsTyped h n [] bytes = type_keys-nil n
  type_keys-IsTyped h n (c ∷ text) (below, bytes) = elim (Option-cases (char_to_key c)) [
    | inl e ↦
        rw (type_keys-skip n c text e, supported-skip c text e) (type_keys-IsTyped h n text bytes)
    | inr (key, e) ↦
        let read = read_key-state_of m c key h below e in
        elim (Bool-cases (works n)) [
          | inl w ↦
              IsTyped-suc n c text (supported (c ∷ text)) (type_keys m works key_ms (n + 1) text)
                (type_keys m works key_ms n (c ∷ text)) (supported-keep c text key e)
                (type_keys-hold n c text key e w read) (type_keys-IsTyped h (n + 1) text bytes)
          | inr w ↦
              rw (type_keys-fail n c text key e w, supported-keep c text key e)
                (inr (0, ap works (omega arith) ∙ w, omega arith, refl, read_back-set c _ [] read))
        ]
  ]
