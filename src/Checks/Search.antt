-- ===== src/Checks/Search.antt =====
-- The theorems on the memory search and on the configuration, at concrete inputs.
use switch_mcp.Base.{
  ◌+◌, ◌≤◌, ◌≡◌, ◌++◌, refl, arith, ltb, true, false, List, [], ◌∷◌, Option, none, some, length,
  take, Bytes, codes, if◌then◌else◌,
}
use switch_mcp.Json.Value.{string, object, end, field, as_int, as_string, find, empty_array}
use switch_mcp.Agent.{Request, default_config, field_of}
use switch_mcp.MemSearch.{
  Candidate, Search, CheatService, Handled, scan_words, ensure_cheat_process, open_service,
  max_candidates,
}
use switch_mcp.MemSearch.Requests.{
  search_next, next_attached, begin_scan, filter, keeps, list_results,
}
use switch_mcp.MemSearch.Filter.{increased, spelling, Survivors, search_next-Survivors}
use switch_mcp.MemSearch.Scan.{words, holding, scan_words-holding}
use switch_mcp.MemSearch.Bounds.{begin_scan-Leaves}
use switch_mcp.MemSearch.Results.{listed, list_results_shown}

-- A process whose every byte is 9, but for an unmapped address.
abbrev service : CheatService
service = record {
  get_service = true;
  has_cheat_process = some true;
  application_process = none;
  force_open = λ pid. false;
  metadata = none;
  mapping_count = none;
  mappings = none;
  read_mem = λ addr n. if ltb addr 100 then none else some (take n (9 ∷ 9 ∷ 9 ∷ 9 ∷ []));
  perm_r = 1;
  perm_w = 2;
  scannable_types = 5 ∷ [];
}

abbrev table : List Candidate
table =
    record { addr = 4; value = 1 }
    ∷ record { addr = 200; value = 5 }
    ∷ record { addr = 300; value = 9 }
    ∷ []

abbrev search : Search
search = record { is_open = false; candidates = table; width = 1; generation = 1 }

abbrev request : Request
request = record {
  msg = object (field (codes "op") (string (codes "increased")) end);
  payload = [];
  cfg = default_config;
}

asked : as_string (field_of request "op") (codes "eq") ≡ spelling increased
unfolding find
asked = refl

succeeded : (search_next service request search).0 ≡ true
unfolding search_next ensure_cheat_process open_service next_attached filter keeps find as_int
    switch_mcp.Wire.Words.decode
succeeded = refl

search_next-Survivors_example :
    Survivors service increased
      (as_int (field_of request "value") 0)
      1
      table
      ((search_next service request search).2.candidates)
search_next-Survivors_example =
    search_next-Survivors service increased request search asked succeeded

abbrev memory : Bytes
memory = 9 ∷ 0 ∷ 7 ∷ 0 ∷ 9 ∷ 0 ∷ []

not_cut : (scan_words 3 2 9 1000 memory []).0 ≡ false
unfolding scan_words switch_mcp.Wire.Words.decode
not_cut = refl

scan_words-holding_example :
    (scan_words 3 2 9 1000 memory []).1 ≡ [] ++ holding 9 (words 3 2 1000 memory)
scan_words-holding_example = scan_words-holding 3 2 9 1000 memory [] not_cut

begin_scan-Leaves_example :
    (r : Handled) × (begin_scan service 3 request 1 ((96, 8) ∷ (4096, 70000) ∷ []) search ≡ some r)
    × (r.0 ≡ true)
    × (length (r.2.candidates) ≤ max_candidates)
begin_scan-Leaves_example =
    begin_scan-Leaves service 3 request 1 ((96, 8) ∷ (4096, 70000) ∷ []) search
      (omega arith, omega arith, (omega arith, omega arith, tt))

list_results_shown_example :
    ((list_results (λ n. []) 2 table 0 empty_array).0 ≡ listed (λ n. []) (take 2 table) empty_array)
    × ((list_results (λ n. []) 2 table 0 empty_array).1
        ≡ (if ltb 2 (length table) then 2 + 1 else length table))
list_results_shown_example = list_results_shown (λ n. []) 2 table

abbrev config_file : Option Bytes
config_file = some (codes "tier = invasive\nallow_hardware=true\n")
