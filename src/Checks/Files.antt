-- ===== src/Checks/Files.antt =====
-- The theorems on files, at concrete inputs.
use switch_mcp.Base.{
  refl, ℕ, ◌*◌, ◌<◌, ◌^◌, ◌≤◌, ◌≡◌, arith, true, false, Bool-cases, inl, inr, List, [], ◌∷◌, ◌++◌,
  none, some, Bytes, codes, eq, eq_iff, length, take, All, if◌then◌else◌, Bool,
}
use switch_mcp.Json.Value.{
  string, object, end, field, empty_array, find, as_int, as_string, as_bool, boolean, int,
}
use switch_mcp.Agent.{Request, default_config, field_of, bounded_int}
use switch_mcp.Files.{Storage, Entry, regular, Opened}
use switch_mcp.Files.Changing.Confined.{write, handle, OnSd, KeptOnSd, handle-KeptOnSd}
use switch_mcp.Files.Copying.{copy_tree}
use switch_mcp.Files.Copying.Kept.{IsBelow, KeptBelow, copy_tree-Kept}
use switch_mcp.Files.Grepping.{search_of, first_line, grep_loop}
use switch_mcp.Files.Grepping.Lines.{Line, ended_lines, holding, told}
use switch_mcp.Files.Grepping.Reference.{grep_loop-reference}
use switch_mcp.Files.Reading.Download.{download, download_whole}
use switch_mcp.Diagnostics.{default_log, read_log}
use switch_mcp.Diagnostics.Tail.{Asked, IsTail, read_log-IsTail}
use switch_mcp.Files.Finding.{Wanted, Walk, walk_find}
use switch_mcp.Files.Finding.Bounds.{IsBounded, walk_find-IsBounded}

abbrev log_call : Bytes → List Bytes → Bool × List Bytes
log_call p d = (true, p ∷ d)

-- A disk with the file `s/f`; its state lists the paths that were changed.
abbrev storage : Storage
storage = record {
  Disk = List Bytes;
  stat = λ p d.
      if eq p (codes "s/f") then some (record { is_dir = false; size = 2; mtime = 0 }) else none;
  opendir = λ p d.
      if eq p (codes "s") then some (record { name = codes "f"; kind = regular } ∷ []) else none;
  open_read = λ p d. some (record { text = codes "hi"; faulty = false });
  statvfs = λ p d. none;
  open_truncated = log_call;
  open_update = log_call;
  write_at = λ p at bs d. (length bs, p ∷ d);
  mkdir = log_call;
  rmdir = log_call;
  remove = log_call;
  rename = λ from to d. (true, from ∷ to ∷ d);
}

abbrev request : Request
request = record {
  msg = object (field (codes "path") (string (codes "/x")) end);
  payload = codes "hi";
  cfg = default_config;
}

on_card : KeptOnSd storage (All OnSd)
on_card = record {
  by_truncation = λ dev d on p. (on, p);
  by_opening = λ dev d on p. (on, p);
  by_writing = λ dev at bs d on p. (on, p);
  by_mkdir = λ dev d on p. (on, p);
  by_rmdir = λ dev d on p. (on, p);
  by_remove = λ dev d on p. (on, p);
  by_rename = λ from to d f t p. (f, (t, p));
}

handle-KeptOnSd_example : All OnSd (handle write storage request []).2
handle-KeptOnSd_example = handle-KeptOnSd storage (All OnSd) on_card write request [] tt

below : KeptBelow storage (codes "b") (All (IsBelow (codes "b")))
below = record {
  by_mkdir = λ p d b q. (b, q);
  by_truncation = λ p d b q. (b, q);
  by_writing = λ p at bs d b q. (b, q);
}

short_paths :
    (p : Bytes) (d : List Bytes) (es : List Entry) → storage.opendir p d ≡ some es → length p ≤ 1
short_paths p d es e = elim (Bool-cases (eq p (codes "s"))) [
  | inl y ↦ rw ((eq_iff p (codes "s")).0 y) (omega arith)
  | inr n ↦ ground (arith, e, n)
]

copy_tree-Kept_example :
    (ok : Bool) × (d : List Bytes) × (copy_tree storage 3 (codes "s") (codes "b") [] ≡ some (ok, d))
    × All (IsBelow (codes "b")) d
copy_tree-Kept_example =
    copy_tree-Kept storage (codes "b") (All (IsBelow (codes "b"))) below 1 short_paths 3 (codes "s")
      [] (omega arith) tt

-- A search for `ER` in either case, for no more than five lines.
abbrev log_request : Request
log_request = record {
  msg = object (
      field (codes "ignore_case") (boolean true)
        (field (codes "limit") (int 5) (field (codes "pattern") (string (codes "ER")) end)));
  payload = [];
  cfg = default_config;
}

abbrev log_text : Bytes
log_text = codes "error" ++ 13 ∷ 10 ∷ codes "fine" ++ 10 ∷ codes "er"

grep_loop-reference_example :
    (grep_loop (search_of log_request) log_text first_line).matches
    ≡ told
        (take (bounded_int log_request "limit" 100 1 1000) (
          holding
            (as_bool (field_of log_request "ignore_case") false)
            (as_string (field_of log_request "pattern") [])
            (ended_lines log_text 1 0 [])))
        empty_array
grep_loop-reference_example = grep_loop-reference log_request log_text

-- Of that text the first line is reported, with the case ignored, and the last one is not.
abbrev found_line : Line
found_line = record { number = 1; start = 0; text = codes "error" ++ 13 ∷ [] }

found_lines : holding true (codes "ER") (ended_lines log_text 1 0 []) ≡ found_line ∷ []
found_lines = refl

abbrev file : Opened
file = record { text = codes "abcde"; faulty = false }

download_whole_example : download 6 2 0 file ≡ codes "abcde"
download_whole_example = download_whole 6 2 file (omega arith) (omega arith) (omega arith)

abbrev wanted : Wanted
wanted = record { needle = codes "f"; files_only = true; limit = 3 }

abbrev new_walk : Walk
new_walk = record { entries = empty_array; found = 0; scanned = 0 }

new_walk-IsBounded : IsBounded wanted new_walk
new_walk-IsBounded = record { by_limit = omega arith; by_scan = omega arith; by_cap = omega arith }

walk_find-IsBounded_example :
    IsBounded wanted (walk_find storage [] wanted 2 (codes "s") (codes "/") new_walk)
walk_find-IsBounded_example =
    walk_find-IsBounded storage [] wanted 2 (codes "s") (codes "/") new_walk new_walk-IsBounded

-- The request names no path and no number, so the default log is read.
asked_bytes : as_int (field_of log_request "max_bytes") (16 * 1024) < 2 ^ 64
unfolding find as_int
asked_bytes = omega arith

read_log-IsTail_example :
    (n : ℕ) × Asked (as_int (field_of log_request "max_bytes") (16 * 1024)) n
    × IsTail storage []
        (as_string (field_of log_request "path") default_log)
        n
        (read_log storage [] log_request)
read_log-IsTail_example = read_log-IsTail storage [] log_request asked_bytes
