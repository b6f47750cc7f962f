-- ===== src/Files/Grepping.antt =====
-- `FsGrep` of agent/source/handlers/fs.cpp.
pub mod Lines
pub mod Loop
pub mod Reference
use switch_mcp.Base.{
  ℕ, zero, suc, ◌+◌, Bool, true, false, not, ◌&&◌, ◌||◌, List, [], ◌∷◌, ◌++◌, ltb, leb, ◌==◌,
  if◌then◌else◌, length, take, Bytes, codes, eq, is_empty, finds,
}
use switch_mcp.Json.Value.{
  Value, boolean, int, string, as_bool, as_string, empty_object, empty_array, set, push,
}
use switch_mcp.Agent.{
  Request, Reply, empty_reply, field_of, put, refuse, or_return, Answer, bounded_int,
}
use switch_mcp.Files.{Opened, Storage}
use switch_mcp.Files.Reading.{requested}
use switch_mcp.Files.Finding.{lower, told_if}

abbrev pub max_line : ℕ
max_line = 4096

-- `pattern`, `ignore_case` and `limit`.
pub record Search : Type 0 where
  pub needle : Bytes
  pub ignore_case : Bool
  pub limit : ℕ

-- The variables of the loop.
pub record Scan : Type 0 where
  pub matches : Value
  pub found : ℕ
  pub line : Bytes
  pub lineno : ℕ
  pub offset : ℕ
  pub line_start : ℕ
  pub truncated : Bool

abbrev pub shown : Bytes → Bytes
shown line = if ltb 300 (length line) then take 300 line ++ codes "..." else line

abbrev pub match_json : ℕ → ℕ → Bytes → Value
match_json lineno start line =
    set (set (set empty_object (codes "line") (int lineno)) (codes "offset") (int start))
      (codes "text") (string (shown line))

abbrev pub hits : Search → Bytes → Bool
hits s line = finds s.needle (if s.ignore_case then lower line else line)

-- A character that ends no line.
abbrev pub extend : ℕ → Bytes → Bytes
extend c line =
    if c == 13 then line else if ltb (length line) max_line then line ++ c ∷ [] else line

abbrev pub next_line : Scan → Scan
next_line sc = record sc { line = []; line_start = sc.offset }

abbrev pub add_match : Scan → Scan
add_match sc = record sc {
  matches = push sc.matches (match_json sc.lineno sc.line_start sc.line);
  found = sc.found + 1;
}

-- The loop over `fgetc`; the `break` leaves the line as it is.
unfoldable pub grep_loop : Search → Bytes → Scan → Scan
grep_loop s [] sc = sc
grep_loop s (c ∷ cs) sc =
    let read = record sc { offset = sc.offset + 1 } in
    let ended = record read { lineno = sc.lineno + 1 } in
    if not (c == 10)
    then grep_loop s cs (record read { line = extend c sc.line })
    else if not (hits s sc.line)
    then grep_loop s cs (next_line ended)
    else if leb s.limit sc.found
    then record ended { truncated = true }
    else grep_loop s cs (next_line (add_match ended))

abbrev pub first_line : Scan
first_line = record {
  matches = empty_array;
  found = 0;
  line = [];
  lineno = 0;
  offset = 0;
  line_start = 0;
  truncated = false;
}

unfoldable pub grep_reply : Scan → Reply
grep_reply sc =
    let counted = put "count" (int sc.found) (put "lines_scanned" (int sc.lineno) empty_reply) in
    put "matches" sc.matches (told_if sc.truncated (put "truncated" (boolean true) counted) counted)

unfoldable pub search_of : Request → Search
search_of req =
    let pattern = as_string (field_of req "pattern") [] in
    let ignore_case = as_bool (field_of req "ignore_case") false in
    record {
      needle = if ignore_case then lower pattern else pattern;
      ignore_case = ignore_case;
      limit = bounded_int req "limit" 100 1 1000;
    }

unfoldable pub fs_grep : (storage : Storage) → Bool → Request → storage.Disk → Answer
fs_grep storage mounted req d =
    or_return (requested mounted req []) (refuse "bad_path" "invalid path or unknown device")
      (λ (dev, _).
        if is_empty (as_string (field_of req "pattern") [])
        then refuse "bad_arg" "need a 'pattern'"
        else or_return (storage.open_read dev d) (refuse "not_found" "cannot open file")
            (λ f. (true, grep_reply (grep_loop (search_of req) f.text first_line))))
