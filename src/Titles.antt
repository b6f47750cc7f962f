-- ===== src/Titles.antt =====
-- agent/source/handlers/titles.cpp. What the services return is a parameter; ids of titles are 64-bit
-- words.
pub mod Paging
use switch_mcp.Base.{
  ℕ, zero, suc, ◌+◌, ◌-◌, Bool, true, false, not, ◌&&◌, List, [], ◌∷◌, ◌++◌, Option, none, some,
  ltb, ◌==◌, if◌then◌else◌, Bytes, codes, eq, is_empty, length, take, drop,
}
use switch_mcp.Json.Value.{
  Value, boolean, int, string, has, as_bool, as_string, empty_object, empty_array, set, push,
}
use switch_mcp.HexText.{strtoull_hex, padded_hex}
use switch_mcp.Agent.{Request, Reply, empty_reply, field_of, put, refuse, Answer, or_return, c_str}

-- `NacpLanguageEntry`
pub record Language : Type 0 where
  pub name : Bytes
  pub author : Bytes

-- `NsApplicationControlData` as loaded: the entry that `nacpGetLanguageEntry` yields, the sixteen
-- entries, the version, the icon's buffer, and the size that the service reports.
pub record Control : Type 0 where
  pub entry : Option Language
  pub lang : List Language
  pub display_version : Bytes
  pub icon : Bytes
  pub loaded : ℕ

-- The locations of `Launch`, in their order.
pub data Storage : Type 0 where
  built_in_user sd_card any : Storage

-- The calls of the services. `nacp_size` is the size of the NACP.
pub record TitleService : Type 0 where
  pub records : ℕ → Option (List ℕ)
  pub control : ℕ → Option Control
  pub nacp_size : ℕ
  pub application_process : Option ℕ
  pub program_of : ℕ → Option ℕ
  pub launch : Storage → ℕ → Option ℕ
  pub terminate : ℕ → Bool
  pub delete : ℕ → Bool

-- `TidToHex`
abbrev pub tid_to_hex : ℕ → Bytes
tid_to_hex tid = padded_hex 16 tid

-- The name at hand has a first character that is not zero.
abbrev pub is_named : Option Language → Bool
is_named none = false
is_named (some l) = not (is_empty (c_str l.name))

abbrev pub first_named : List Language → Option Language → Option Language
first_named [] entry = entry
first_named (l ∷ rest) entry = if is_named (some l) then some l else first_named rest entry

-- The entry that is shown.
unfoldable pub language_of : Control → Option Language
language_of c = if is_named c.entry then c.entry else first_named c.lang c.entry

abbrev pub with_names : Option Language → Value → Value
with_names none t = t
with_names (some l) t =
    if is_named (some l)
    then set (set t (codes "name") (string (c_str l.name))) (codes "author")
        (string (c_str l.author))
    else t

abbrev pub title_json : Option Control → ℕ → Value
title_json none tid = set empty_object (codes "tid") (string (tid_to_hex tid))
title_json (some c) tid =
    set (with_names (language_of c) (set empty_object (codes "tid") (string (tid_to_hex tid))))
      (codes "version") (string (c_str c.display_version))

abbrev pub page_size : ℕ
page_size = 32

-- The records of the loop of `Titles`, from an offset on. The rounds bound its calls.
unfoldable pub listed_records : ℕ → (ℕ → Option (List ℕ)) → ℕ → List ℕ
listed_records zero records offset = []
listed_records (suc rounds) records offset = or_return (records offset) [] (λ got.
    let rest = listed_records rounds records (offset + length got) in
    if length got == 0 then [] else if ltb (length got) page_size then got else got ++ rest)

unfoldable pub push_titles : TitleService → List ℕ → Value → Value
push_titles svc [] list = list
push_titles svc (tid ∷ tids) list =
    push_titles svc tids (push list (title_json (svc.control tid) tid))

-- `Titles`
unfoldable pub titles : ℕ → TitleService → Answer
titles rounds svc = (
  true,
  put "titles" (push_titles svc (listed_records rounds svc.records 0) empty_array) empty_reply,
)

abbrev pub tid_of : Request → ℕ
tid_of req = strtoull_hex (c_str (as_string (field_of req "tid") (codes "0")))

-- `TitleIcon`
unfoldable pub title_icon : TitleService → Request → Answer
title_icon svc req =
    let tid = tid_of req in
    if tid == 0
    then refuse "bad_arg" "missing tid"
    else or_return (svc.control tid) (refuse "not_found" "no control data for title") (λ c.
      let icon_size = c.loaded - svc.nacp_size in
      if icon_size == 0
      then refuse "not_found" "no icon"
      else (true, record (put "jpeg" (boolean true) empty_reply) { out = take icon_size c.icon }))

-- The application, if one runs.
abbrev pub foreground : TitleService → Option ℕ
foreground svc = or_return svc.application_process none (λ pid. if pid == 0 then none else some pid)

abbrev pub with_tid : Option ℕ → Reply → Reply
with_tid none r = r
with_tid (some tid) r = put "tid" (string (tid_to_hex tid)) r

-- `RunningApp`
unfoldable pub running_app : TitleService → Answer
running_app svc =
    or_return (foreground svc) (true, put "running" (boolean false) empty_reply)
      (λ pid. (
        true,
        with_tid (svc.program_of pid)
            (put "pid" (int pid) (put "running" (boolean true) empty_reply)),
      ))

abbrev pub storages : List Storage
storages = built_in_user ∷ sd_card ∷ any ∷ []

-- The loop of `Launch`: the process of the first location that works.
unfoldable pub launch_from : (Storage → ℕ → Option ℕ) → List Storage → ℕ → Option ℕ
launch_from launch [] tid = none
launch_from launch (s ∷ rest) tid =
    let further = launch_from launch rest tid in or_return (launch s tid) further (λ pid. some pid)

abbrev pub takeover : Bytes
takeover = codes "0142b048fd620000"

-- `Launch`
unfoldable pub launch_title : TitleService → Request → Answer
launch_title svc req =
    let tid = tid_of req in
    if eq (as_string (field_of req "tid") []) takeover && not (as_bool (field_of req "force") false)
    then refuse "use_album_applet"
        "0142b048fd620000 is the hbloader takeover ID. Launching it directly spawns a process that renders nothing and then blocks the real launch path. Start homebrew via the Album applet, or hold R while launching a game. Pass force=true if you really mean it."
    else if tid == 0
    then refuse "bad_arg" "missing tid"
    else or_return (launch_from svc.launch storages tid)
        (refuse "launch_failed" "pmshellLaunchProgram failed")
        (λ pid. (true, put "pid" (int pid) (put "ok" (boolean true) empty_reply)))

-- `pmshellTerminateProgram`, and the title it is called for.
abbrev pub terminated : TitleService → ℕ → Answer × List ℕ
terminated svc tid = (
  if svc.terminate tid
      then (true, put "ok" (boolean true) empty_reply)
      else refuse "terminate_failed" "pmshellTerminateProgram failed",
  tid ∷ [],
)

-- `Terminate`: its answer, and the titles that it terminates.
unfoldable pub terminate_title : TitleService → Request → Answer × List ℕ
terminate_title svc req =
    let asked = if has req.msg (codes "tid") then tid_of req else 0 in
    if asked == 0
    then or_return (foreground svc) (refuse "no_app" "no foreground application running", [])
        (λ pid.
          or_return (svc.program_of pid) (refuse "no_app" "cannot resolve foreground title", [])
            (terminated svc))
    else terminated svc asked

-- `Uninstall`: its answer, and the titles that it deletes.
unfoldable pub uninstall : TitleService → Request → Answer × List ℕ
uninstall svc req =
    let tid = tid_of req in
    if not req.cfg.allow_nand_write
    then (refuse "disabled" "uninstall requires allow_nand_write=true in config", [])
    else if tid == 0
    then (refuse "bad_arg" "missing tid", [])
    else if svc.delete tid
    then ((true, put "ok" (boolean true) empty_reply), tid ∷ [])
    else (refuse "uninstall_failed" "nsDeleteApplicationCompletely failed", tid ∷ [])
