-- ===== src/Files/Grepping/Lines.antt =====
-- What a search of a text for a pattern shall report, said on the lines of the text.
use switch_mcp.Base.{
  ℕ, ◌+◌, Bool, true, false, ◌&&◌, ◌||◌, List, [], ◌∷◌, ◌++◌, ltb, leb, ◌==◌, if◌then◌else◌, length,
  take, Bytes, codes, is_empty,
}
use switch_mcp.Json.Value.{Value, int, string, empty_object, set, push}

pub record Line : Type 0 where
  pub number : ℕ
  pub start : ℕ
  pub text : Bytes

-- The lines of a text that end in a newline, each with its number and the offset at which it starts,
-- behind the part of the first one that was read. The text behind the last newline is none.
abbrev pub ended_lines : Bytes → ℕ → ℕ → Bytes → List Line
ended_lines [] number start part = []
ended_lines (c ∷ cs) number start part =
    if c == 10
    then record { number = number; start = start; text = part }
      ∷ ended_lines cs (number + 1) (start + length part + 1) []
    else ended_lines cs number start (part ++ c ∷ [])

abbrev pub without_returns : Bytes → Bytes
without_returns [] = []
without_returns (c ∷ cs) = if c == 13 then without_returns cs else c ∷ without_returns cs

-- What of a line is searched: the first 4096 characters that are no carriage return.
abbrev pub searched : Bytes → Bytes
searched text = take 4096 (without_returns text)

abbrev pub is_capital : ℕ → Bool
is_capital c = leb 65 c && leb c 90

-- Equal characters or, with the case ignored, a capital letter and its small one.
abbrev pub alike : Bool → ℕ → ℕ → Bool
alike ignore_case p c =
    p == c || (ignore_case && ((is_capital p && c == p + 32) || (is_capital c && p == c + 32)))

abbrev pub starts : Bool → Bytes → Bytes → Bool
starts ignore_case [] text = true
starts ignore_case (p ∷ ps) [] = false
starts ignore_case (p ∷ ps) (c ∷ cs) = alike ignore_case p c && starts ignore_case ps cs

abbrev pub occurs : Bool → Bytes → Bytes → Bool
occurs ignore_case pattern [] = is_empty pattern
occurs ignore_case pattern (c ∷ cs) =
    starts ignore_case pattern (c ∷ cs) || occurs ignore_case pattern cs

-- The lines that hold the pattern in what is searched of them.
abbrev pub holding : Bool → Bytes → List Line → List Line
holding ignore_case pattern [] = []
holding ignore_case pattern (l ∷ ls) =
    if occurs ignore_case pattern (searched l.text)
    then l ∷ holding ignore_case pattern ls
    else holding ignore_case pattern ls

-- One object for each line: its number, its offset, and its searched text, of which more than 300
-- characters are cut.
abbrev pub told : List Line → Value → Value
told [] matches = matches
told (l ∷ ls) matches =
    let text = searched l.text in
    told ls (
      push matches (
        set (set (set empty_object (codes "line") (int l.number)) (codes "offset") (int l.start))
          (codes "text")
          (string (if ltb 300 (length text) then take 300 text ++ codes "..." else text))))
