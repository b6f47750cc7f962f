-- ===== src/Input/Typing.antt =====
-- `CharToKey` and `TypeText` of agent/source/handlers/input.cpp.
pub mod ReadBack
use switch_mcp.Base.{
  ℕ, zero, suc, ◌+◌, ◌-◌, ◌*◌, ◌/◌, ◌%◌, ◌^◌, bit_or, Bool, true, false, ◌&&◌, List, [], ◌∷◌, ◌++◌,
  Option, none, some, ltb, leb, ◌==◌, if◌then◌else◌, Bytes, is_empty, refl,
}
use switch_mcp.Json.Value.{boolean, int, as_int, as_string}
use switch_mcp.Wire.Words.{lt64}
use switch_mcp.Agent.{Request, Reply, empty_reply, field_of, put, refuse, Answer, or_return}

-- A key: its usage id, and whether Shift is needed.
abbrev pub Key : Type 0
Key = ℕ × Bool

-- The cases of the switch.
abbrev pub symbol_keys : List (ℕ × Key)
symbol_keys =
    (32, (44, false))
    ∷ (10, (40, false))
    ∷ (45, (45, false))
    ∷ (95, (45, true))
    ∷ (61, (46, false))
    ∷ (43, (46, true))
    ∷ (91, (47, false))
    ∷ (93, (48, false))
    ∷ (92, (49, false))
    ∷ (59, (51, false))
    ∷ (58, (51, true))
    ∷ (39, (52, false))
    ∷ (34, (52, true))
    ∷ (44, (54, false))
    ∷ (60, (54, true))
    ∷ (46, (55, false))
    ∷ (62, (55, true))
    ∷ (47, (56, false))
    ∷ (63, (56, true))
    ∷ (33, (30, true))
    ∷ (64, (31, true))
    ∷ (35, (32, true))
    ∷ (36, (33, true))
    ∷ (37, (34, true))
    ∷ (94, (35, true))
    ∷ (38, (36, true))
    ∷ (42, (37, true))
    ∷ (40, (38, true))
    ∷ (41, (39, true))
    ∷ []

abbrev pub symbol_key : ℕ → List (ℕ × Key) → Option Key
symbol_key c [] = none
symbol_key c ((d, key) ∷ rest) = if c == d then some key else symbol_key c rest

-- `CharToKey`: the key, or nothing for what it does not support.
unfoldable pub char_to_key : ℕ → Option Key
char_to_key c =
    if leb 97 c && leb c 122
    then some (4 + (c - 97), false)
    else if leb 65 c && leb c 90
    then some (4 + (c - 65), true)
    else if leb 49 c && leb c 57
    then some (30 + (c - 49), false)
    else if c == 48
    then some (39, false)
    else symbol_key c symbol_keys

-- The state given to the keyboard's auto-pilot, its keys in 64-bit words.
pub record KeyboardState : Type 0 where
  pub modifiers : ℕ
  pub keys : List ℕ

abbrev pub no_keys : List ℕ
no_keys = 0 ∷ 0 ∷ 0 ∷ 0 ∷ []

-- `words[i] |= bits`
unfoldable pub or_into : ℕ → ℕ → List ℕ → List ℕ
or_into i bits [] = []
or_into zero bits (word ∷ words) = bit_or word bits ∷ words
or_into (suc i) bits (word ∷ words) = word ∷ or_into i bits words

-- The state that holds a key; `shift_modifier` is `HidKeyboardModifier_Shift`.
unfoldable pub state_of : ℕ → Key → KeyboardState
state_of shift_modifier (key, shift) = record {
  modifiers = if shift then shift_modifier else 0;
  keys = or_into (key / 64) (2 ^ (key % 64)) no_keys;
}

-- The calls on the auto-pilot, and the waits in ms.
pub data KeyCall : Type 0 where
  set_keyboard : KeyboardState → KeyCall
  unset_keyboard : KeyCall
  wait : ℕ → KeyCall

module _ (shift_modifier : ℕ) (works : ℕ → Bool) (key_ms : ℕ) where
  -- The loop over the text, so many characters typed before: its calls, and the count at its end
  -- if no call fails. `works` is whether the call for a character succeeds; what releasing a key
  -- returns is not looked at.
  unfoldable pub type_keys : ℕ → Bytes → List KeyCall × Option ℕ
  type_keys typed [] = ([], some typed)
  type_keys typed (c ∷ text) =
      let rest = type_keys (typed + 1) text in
      let skipped = type_keys typed text in
      or_return (char_to_key c) skipped (λ key.
        let held = set_keyboard (state_of shift_modifier key) in
        if works typed
        then (
          held
              ∷ wait key_ms
              ∷ set_keyboard (record { modifiers = 0; keys = no_keys })
              ∷ wait key_ms
              ∷ rest.0,
          rest.1,
        )
        else (held ∷ [], none))

abbrev pub key_ms_of : Request → ℕ
key_ms_of req =
    let ms = as_int (field_of req "key_ms") 40 in
    if lt64 ms 10 then 10 else if lt64 500 ms then 500 else ms

-- The end of `TypeText`, behind the loop.
abbrev pub typed_answer : List KeyCall × Option ℕ → Answer × List KeyCall
typed_answer (calls, none) = (refuse "kbd_failed" "keyboard auto-pilot state failed", calls)
typed_answer (calls, some typed) = (
  (true, put "typed" (int typed) (put "ok" (boolean true) empty_reply)),
  calls ++ unset_keyboard ∷ [],
)

-- `TypeText`
unfoldable pub type_text : ℕ → (ℕ → Bool) → Request → Answer × List KeyCall
type_text shift_modifier works req =
    let text = as_string (field_of req "text") [] in
    if is_empty text
    then (refuse "bad_arg" "missing text", [])
    else typed_answer (type_keys shift_modifier works (key_ms_of req) 0 text)
