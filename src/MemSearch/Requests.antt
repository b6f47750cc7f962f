-- ===== src/MemSearch/Requests.antt =====
-- `SearchBegin`, `SearchNext`, `SearchResults` and `SearchReset` of
-- agent/source/handlers/memsearch.cpp.
use switch_mcp.Base.{
  ℕ, ◌+◌, ◌*◌, Bool, true, false, not, ◌&&◌, ◌||◌, List, [], ◌∷◌, ◌++◌, Option, none, some, ltb,
  leb, ◌==◌, if◌then◌else◌, length, Bytes, codes, eq,
}
use switch_mcp.Json.Value.{
  Value, boolean, int, string, has, as_int, as_string, empty_object, empty_array, set, push,
}
use switch_mcp.Wire.Words.{to_i32, lt32, widen}
use switch_mcp.Agent.{Request, Reply, empty_reply, field_of, put, fail}
use switch_mcp.MemSearch.{
  Candidate, Search, MemoryInfo, Metadata, CheatService, Handled, failed, em_dash, on_attached,
  load_value, ensure_cheat_process, get_mappings, regions_of, Scanned, scan_regions,
}

-- The tests of `SearchNext`: the operator, the value that is asked for, the value at the last
-- scan and the value now.
unfoldable pub keeps : Bytes → ℕ → ℕ → ℕ → Option Bool
keeps op want was now =
    if eq op (codes "eq")
    then some (now == want)
    else if eq op (codes "ne")
    then some (not (now == want))
    else if eq op (codes "gt")
    then some (ltb want now)
    else if eq op (codes "lt")
    then some (ltb now want)
    else if eq op (codes "changed")
    then some (not (now == was))
    else if eq op (codes "unchanged")
    then some (now == was)
    else if eq op (codes "increased")
    then some (ltb was now)
    else if eq op (codes "decreased")
    then some (ltb now was)
    else none

abbrev pub needs_value : Bytes → Bool
needs_value op =
    eq op (codes "eq") || eq op (codes "ne") || eq op (codes "gt") || eq op (codes "lt")

-- A candidate that was read: the rest of the loop with it, if it is kept.
abbrev pub judged : Option Bool → ℕ → ℕ → Option (List Candidate) → Option (List Candidate)
judged none addr now rest = none
judged (some false) addr now rest = rest
judged (some true) addr now none = none
judged (some true) addr now (some kept) = some (record { addr = addr; value = now } ∷ kept)

abbrev pub with_value :
    Bytes → ℕ → ℕ → Candidate → Option Bytes → Option (List Candidate) → Option (List Candidate)
with_value op want width c none rest = rest
with_value op want width c (some raw) rest =
    judged (keeps op want c.value (load_value width raw)) c.addr (load_value width raw) rest

module _ (svc : CheatService) where
  open svc use {read_mem, metadata}

  -- The loop of `SearchNext`. `none` is its `return Fail(...)`.
  unfoldable pub filter : Bytes → ℕ → ℕ → List Candidate → Option (List Candidate)
  filter op want width [] = some []
  filter op want width (c ∷ cs) =
      with_value op want width c (read_mem c.addr width) (filter op want width cs)

  abbrev pub next_reply : Bytes → Search → List Candidate → Reply
  next_reply op s kept =
      let counted = put "candidates" (int (length kept)) (
        put "before" (int (length s.candidates)) (
          put "op" (string op)
            (put "generation" (int (widen (to_i32 (s.generation + 1)))) empty_reply))) in
      if length kept == 0
      then put "note"
          (string (
            codes "every candidate was eliminated "
            ++ em_dash
            ++ codes
                " the value probably is not this width, or the observation was wrong. Start over."))
          counted
      else counted

  abbrev pub next_filtered : Bytes → Option (List Candidate) → Search → Handled
  next_filtered op none s =
      failed "bad_arg" "op must be eq, ne, gt, lt, changed, unchanged, increased or decreased" s
  next_filtered op (some kept) s = (
    true,
    next_reply op s kept,
    record s { candidates = kept; generation = to_i32 (s.generation + 1) },
  )

  unfoldable pub next_attached : Request → Search → Handled
  next_attached req s =
      let op = as_string (field_of req "op") (codes "eq") in
      let want = as_int (field_of req "value") 0 in
      if length s.candidates == 0
      then failed "no_search"
          "no active search; call search.begin first (or the previous scan eliminated every candidate)"
          s
      else if needs_value op && not (has req.msg (codes "value"))
      then (false, fail "bad_arg" (op ++ codes " needs a 'value'"), s)
      else next_filtered op (filter op want s.width s.candidates) s

  unfoldable pub search_next : Request → Search → Handled
  search_next req s = on_attached (next_attached req) (ensure_cheat_process svc s)

  unfoldable pub is_width : ℕ → Bool
  is_width width = (width == 1) || (width == 2) || (width == 4) || (width == 8)

  abbrev pub begin_reply : ℕ → ℕ → Scanned → Reply
  begin_reply regions width sc =
      let scanned_regions = put "regions_scanned" (int regions) empty_reply in
      let budgeted =
        if sc.budget_hit
        then put "budget_note"
            (string (
              codes
                "stopped at max_bytes; raise it or narrow with region= if the address you want was not reached"))
            (put "budget_exhausted" (boolean true) scanned_regions)
        else scanned_regions in
      let counted = put "width" (int width) (
        put "bytes_scanned" (int sc.scanned)
          (put "candidates" (int (length sc.found)) (put "generation" (int 1) budgeted))) in
      if sc.truncated
      then put "note"
          (string (
            codes "hit the candidate cap. Narrow with search.next, or pick a rarer starting value "
            ++ em_dash
            ++ codes " a truncated set may not contain the address you want."))
          (put "truncated" (boolean true) counted)
      else counted

  abbrev pub scan_done : ℕ → ℕ → Search → Option Scanned → Option Handled
  scan_done regions width s none = none
  scan_done regions width s (some sc) = some (
    true,
    begin_reply regions width sc,
    record s { candidates = sc.found; width = width; generation = 1 },
  )

  -- From the budget on.
  unfoldable pub begin_scan : ℕ → Request → ℕ → List (ℕ × ℕ) → Search → Option Handled
  begin_scan fuel req width regions s =
      let want = as_int (field_of req "value") 0 in
      let budget = as_int (field_of req "max_bytes") (512 * 1024 * 1024) in
      scan_done (length regions) width s (
        scan_regions svc fuel width want budget regions
          (record { found = []; scanned = 0; truncated = false; budget_hit = false }))

  abbrev pub begin_mapped : ℕ → Request → ℕ → List (ℕ × ℕ) → Search → Option Handled
  begin_mapped fuel req width [] s = some (
      failed "no_regions"
        "no readable+writable mappings matched; try region=\"\" to scan everything writable" s)
  begin_mapped fuel req width (r ∷ regions) s = begin_scan fuel req width (r ∷ regions) s

  abbrev pub begin_listed :
      ℕ → Request → ℕ → Metadata → Option (List MemoryInfo) → Search → Option Handled
  begin_listed fuel req width m none s =
      some (failed "ipc_failed" "GetCheatProcessMappings failed" s)
  begin_listed fuel req width m (some maps) s =
      begin_mapped fuel req width (regions_of svc m (as_string (field_of req "region") []) maps) s

  abbrev pub begin_with : ℕ → Request → ℕ → Option Metadata → Search → Option Handled
  begin_with fuel req width none s = some (failed "ipc_failed" "GetCheatProcessMetadata failed" s)
  begin_with fuel req width (some m) s =
      if has req.msg (codes "base") && has req.msg (codes "size")
      then begin_scan fuel req width
          ((as_int (field_of req "base") 0, as_int (field_of req "size") 0) ∷ []) s
      else begin_listed fuel req width m (get_mappings svc) s

  unfoldable pub begin_attached : ℕ → Request → Search → Option Handled
  begin_attached fuel req s =
      let width = to_i32 (as_int (field_of req "width") 4) in
      if not (is_width width)
      then some (failed "bad_arg" "width must be 1, 2, 4 or 8" s)
      else begin_with fuel req width metadata s

  abbrev pub begin_opened : ℕ → Request → Handled → Option Handled
  begin_opened fuel req (false, r, s) = some (false, r, s)
  begin_opened fuel req (true, r, s) = begin_attached fuel req s

  -- `fuel` bounds the chunks of a region.
  unfoldable pub search_begin : ℕ → Request → Search → Option Handled
  search_begin fuel req s = begin_opened fuel req (ensure_cheat_process svc s)

abbrev pub candidate_json : Candidate → (ℕ → Bytes) → Value
candidate_json c print_hex =
    set (set empty_object (codes "addr") (string (codes "0x" ++ print_hex c.addr))) (codes "value")
      (int c.value)

-- The loop of `SearchResults`: the array, and `n` behind it. `%lx` is a parameter.
unfoldable pub list_results : (ℕ → Bytes) → ℕ → List Candidate → ℕ → Value → Value × ℕ
list_results print_hex limit [] n arr = (arr, n)
list_results print_hex limit (c ∷ cs) n arr =
    let rest = list_results print_hex limit cs (n + 1) (push arr (candidate_json c print_hex)) in
    if leb limit n then (arr, n + 1) else rest

unfoldable pub results_limit : Request → ℕ
results_limit req =
    let limit = to_i32 (as_int (field_of req "limit") 50) in
    if lt32 limit 1 || lt32 1000 limit then 50 else limit

unfoldable pub search_results : (ℕ → Bytes) → Request → Search → Handled
search_results print_hex req s =
    let (arr, n) = list_results print_hex (results_limit req) s.candidates 0 empty_array in
    (
      true,
      put "results" arr (
          put "shown" (int n) (
            put "width" (int (widen s.width)) (
              put "total" (int (length s.candidates))
                (put "generation" (int (widen s.generation)) empty_reply)))),
      s,
    )

unfoldable pub search_reset : Search → Handled
search_reset s =
    (true, put "ok" (boolean true) empty_reply, record s { candidates = []; generation = 0 })
