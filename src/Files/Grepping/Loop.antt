-- ===== src/Files/Grepping/Loop.antt =====
-- The loop of `FsGrep` on a text, against the lines as the loop gathers them.
use switch_mcp.Base.{
  ℕ, zero, suc, ◌+◌, true, false, List, [], ◌∷◌, ◌≡◌, refl, arith, leb, ◌==◌, if◌then◌else◌, take,
  take_nil, Bytes, Bool-cases, inl, inr,
}
use switch_mcp.Json.Value.{Value, push}
use switch_mcp.Files.Grepping.{
  Search, Scan, match_json, hits, extend, next_line, add_match, grep_loop,
}
use switch_mcp.Files.Grepping.Lines.{Line}

-- The lines that end in a newline, with what the loop keeps of each.
abbrev pub kept_lines : Bytes → ℕ → ℕ → ℕ → Bytes → List Line
kept_lines [] number start offset line = []
kept_lines (c ∷ cs) number start offset line =
    if c == 10
    then record { number = number; start = start; text = line }
      ∷ kept_lines cs (number + 1) (offset + 1) (offset + 1) []
    else kept_lines cs number start (offset + 1) (extend c line)

abbrev pub hitting : Search → List Line → List Line
hitting s [] = []
hitting s (l ∷ ls) = if hits s l.text then l ∷ hitting s ls else hitting s ls

abbrev pub reported : List Line → Value → Value
reported [] matches = matches
reported (l ∷ ls) matches = reported ls (push matches (match_json l.number l.start l.text))

abbrev newline : Scan → Scan
newline sc = record sc { offset = sc.offset + 1; lineno = sc.lineno + 1 }

abbrev lines_behind : Bytes → Scan → List Line
lines_behind cs sc = kept_lines cs (sc.lineno + 1 + 1) (sc.offset + 1) (sc.offset + 1) []

-- A line that hits, with or without room for it.
at_hit :
    (s : Search) (cs : Bytes) (sc : Scan) (room : ℕ)
    → s.limit ≡ sc.found + room
    → ((room' : ℕ)
        → s.limit ≡ sc.found + 1 + room'
        → (grep_loop s cs (next_line (add_match (newline sc)))).matches
          ≡ reported (take room' (hitting s (lines_behind cs sc))) (add_match (newline sc)).matches)
    → (if leb s.limit sc.found
        then record (newline sc) { truncated = true }
        else grep_loop s cs (next_line (add_match (newline sc)))).matches
      ≡ reported
          (take room (
            record { number = sc.lineno + 1; start = sc.line_start; text = sc.line }
            ∷ hitting s (lines_behind cs sc)))
          sc.matches
at_hit s cs sc zero e rest =
    let full : leb s.limit sc.found ≡ true = ground (arith, e) in rw full refl
at_hit s cs sc (suc room) e rest =
    let free : leb s.limit sc.found ≡ false = ground (arith, e) in
    rw free (rest room (omega (arith, e)))

pub grep_loop-from :
    (s : Search) (text : Bytes) (sc : Scan) (room : ℕ)
    → s.limit ≡ sc.found + room
    → (grep_loop s text sc).matches
      ≡ reported
          (take room (hitting s (kept_lines text (sc.lineno + 1) sc.line_start sc.offset sc.line)))
          sc.matches
unfolding grep_loop
grep_loop-from s [] sc room e = rw take_nil refl
grep_loop-from s (c ∷ cs) sc room e = elim (Bool-cases (c == 10)) [
  | inr more ↦ rw more (grep_loop-from s cs _ room e)
  | inl ended ↦ rw ended (elim (Bool-cases (hits s sc.line)) [
    | inr miss ↦ rw miss (grep_loop-from s cs _ room e)
    | inl hit ↦ rw hit (at_hit s cs sc room e (λ room' e'. grep_loop-from s cs _ room' e'))
  ])
]
