-- ===== src/Diagnostics.antt =====
-- `ProcessList`, `CrashReports` and `ReadLog` of agent/source/handlers/sysinfo.cpp. The files are those
-- of the record `Storage`, read without faults; the process services are parameters.
pub mod Tail
use switch_mcp.Base.{
  ℕ, ◌-◌, ◌*◌, ◌^◌, Bool, true, false, not, ◌||◌, List, [], ◌∷◌, ◌++◌, Option, none, some, ltb,
  ◌==◌, if◌then◌else◌, Bytes, codes, has_prefix, finds, length, drop,
}
use switch_mcp.Json.Value.{
  Value, boolean, int, string, has, as_int, as_string, empty_object, empty_array, set, push,
}
use switch_mcp.HexText.{padded_hex}
use switch_mcp.Wire.Words.{lt64}
use switch_mcp.Agent.{Request, Reply, empty_reply, field_of, put, refuse, Answer, or_return, c_str}
use switch_mcp.Files.{Entry, Stat, Storage}
use switch_mcp.Files.Reading.{is_dot, child}

abbrev pub process_json : Option ℕ → ℕ → Value
process_json none pid = set empty_object (codes "pid") (int pid)
process_json (some tid) pid =
    set (set empty_object (codes "pid") (int pid)) (codes "tid") (string (padded_hex 16 tid))

unfoldable pub push_processes : (ℕ → Option ℕ) → List ℕ → Value → Value
push_processes program_of [] list = list
push_processes program_of (pid ∷ pids) list =
    push_processes program_of pids (push list (process_json (program_of pid) pid))

-- `ProcessList`
unfoldable pub process_list : Option (List ℕ) → (ℕ → Option ℕ) → Answer
process_list processes program_of =
    or_return processes (refuse "svc_failed" "svcGetProcessList failed")
      (λ pids. (true, put "processes" (push_processes program_of pids empty_array) empty_reply))

abbrev pub crash_dir : Bytes
crash_dir = codes "sdmc:/atmosphere/crash_reports"

abbrev pub with_stat : Option Stat → Value → Value
with_stat none e = e
with_stat (some st) e = set (set e (codes "size") (int st.size)) (codes "mtime") (int st.mtime)

abbrev pub default_log : Bytes
default_log = codes "sdmc:/config/switch-agentd/agent.log"

-- `path.rfind("sdmc:/", 0) != 0 || path.find("..") != npos`
abbrev pub is_refused : Bytes → Bool
is_refused path = not (has_prefix (codes "sdmc:/") path) || finds (codes "..") path

abbrev pub max_bytes_of : Request → ℕ
max_bytes_of req =
    let asked = as_int (field_of req "max_bytes") (16 * 1024) in
    if not (lt64 0 asked) || lt64 (256 * 1024) asked then 16 * 1024 else asked

-- The offset at which `ReadLog` starts in a file of this size.
abbrev pub start_of : ℕ → ℕ → ℕ
start_of max_bytes size = if ltb max_bytes size then size - max_bytes else 0

abbrev pub log_reply : ℕ → Bytes → Reply
log_reply max_bytes text =
    let start = start_of max_bytes (length text) in
    put "truncated" (boolean (ltb 0 start)) (put "content" (string (drop start text)) empty_reply)

module _ (storage : Storage) (d : storage.Disk) where
  open storage use {stat, opendir, open_read}

  unfoldable pub list_reports : List Entry → Value → Value
  list_reports [] list = list
  list_reports (e ∷ es) list =
      let told = push list (
        with_stat (stat (child crash_dir e.name) d)
          (set empty_object (codes "name") (string e.name))) in
      list_reports es (if is_dot e.name then list else told)

  -- `CrashReports`
  unfoldable pub crash_reports : Request → Answer
  crash_reports req =
      let name = as_string (field_of req "name") [] in
      if has req.msg (codes "name")
      then if finds (codes "..") name
        then refuse "bad_path" "invalid name"
        else or_return (open_read (child crash_dir name) d)
            (refuse "not_found" "no such crash report")
            (λ f. (true, put "content" (string f.text) (put "name" (string name) empty_reply)))
      else (
        true,
        put "reports"
            (or_return (opendir crash_dir d) empty_array (λ es. list_reports es empty_array))
            empty_reply,
      )

  -- `ReadLog`
  unfoldable pub read_log : Request → Answer
  read_log req =
      let path = as_string (field_of req "path") default_log in
      if is_refused path
      then refuse "bad_path" "only sdmc: paths without .. allowed"
      else or_return (open_read path d) (refuse "not_found" "cannot open log")
          (λ f. (true, log_reply (max_bytes_of req) f.text))
