-- ===== src/System.antt =====
-- agent/source/handlers/system.cpp: the settings, the clock, the network and the fatal reports. What the
-- services return is a parameter, and the files are those of the record `Storage`, read without faults.
-- `FsCopy` stands with the other handlers that change files.
use switch_mcp.Base.{
  ℕ, zero, suc, ◌+◌, ◌*◌, ◌/◌, ◌^◌, bit_and, Bool, true, false, not, ◌&&◌, ◌||◌, List, [], ◌∷◌,
  ◌++◌, String, Option, none, some, ltb, leb, ◌==◌, if◌then◌else◌, Bytes, codes, eq, is_empty,
  finds, length, take, get_or,
}
use switch_mcp.Json.Value.{
  Value, boolean, int, string, as_bool, as_int, as_string, empty_object, empty_array, set, push,
}
use switch_mcp.Json.Number.{decimal}
use switch_mcp.HexText.{padded_hex}
use switch_mcp.Wire.Words.{decode, lt64, widen}
use switch_mcp.Agent.{Request, Reply, empty_reply, field_of, put, fail, refuse, Answer, or_return}
use switch_mcp.Files.{Entry, Stat, Storage}
use switch_mcp.Files.Reading.{is_dot, child}

-- A switch that a request turns on or off, `works` being what the service answers.
abbrev pub toggle : String → String → String → (Bool → Bool) → Request → Answer
toggle code message key works req =
    let enable = as_bool (field_of req "enable") true in
    if works enable
    then (true, put key (boolean enable) (put "ok" (boolean true) empty_reply))
    else refuse code message

-- `SetAutoBrightness`
unfoldable pub set_auto_brightness : (Bool → Bool) → Request → Answer
set_auto_brightness works req =
    toggle "lbl_failed" "auto-brightness toggle failed" "auto_brightness" works req

-- `SetWireless`
unfoldable pub set_wireless : (Bool → Bool) → Request → Answer
set_wireless works req = toggle "nifm_failed" "cannot toggle wireless" "wireless_enabled" works req

-- `GetTime`
unfoldable pub get_time : Option ℕ → Answer
get_time clock =
    or_return clock (refuse "time_failed" "cannot read time")
      (λ ts. (true, put "unix_time" (int ts) empty_reply))

-- `SetTime`
unfoldable pub set_time : (ℕ → Bool) → Request → Answer
set_time works req =
    let ts = as_int (field_of req "unix_time") 0 in
    if not (lt64 0 ts)
    then refuse "bad_arg" "missing unix_time"
    else if works ts
    then (true, put "unix_time" (int ts) (put "ok" (boolean true) empty_reply))
    else refuse "time_failed" "cannot set time"

-- The plans, as 32-bit patterns, and the flags.
pub record SleepState : Type 0 where
  pub flags : ℕ
  pub handheld_sleep_plan : ℕ
  pub console_sleep_plan : ℕ

abbrev pub handheld_names : List Bytes
handheld_names =
    codes "1min" ∷ codes "3min" ∷ codes "5min" ∷ codes "10min" ∷ codes "30min" ∷ codes "never" ∷ []

abbrev pub console_names : List Bytes
console_names = codes "1h" ∷ codes "2h" ∷ codes "3h" ∷ codes "6h" ∷ codes "12h" ∷ codes "never" ∷ []

-- The name of a plan, which is told for the plans that have one.
abbrev pub put_plan : String → List Bytes → ℕ → Reply → Reply
put_plan key names plan r = if leb plan 5 then put key (string (get_or names plan [])) r else r

-- `GetSleep`
unfoldable pub get_sleep : Option SleepState → Answer
get_sleep settings = or_return settings (refuse "setsys_failed" "cannot read sleep settings") (λ s.
    let plans =
      put "console_sleep_plan" (int (widen s.console_sleep_plan))
        (put "handheld_sleep_plan" (int (widen s.handheld_sleep_plan)) empty_reply) in
    let named =
      put_plan "console" console_names s.console_sleep_plan
        (put_plan "handheld" handheld_names s.handheld_sleep_plan plans) in
    (
      true,
      put "wakes_at_power_state_change" (boolean (not (bit_and s.flags 2 == 0))) (
          put "sleeps_while_playing_media" (boolean (not (bit_and s.flags 1 == 0)))
            (put "flags" (int s.flags) named)),
    ))

-- An item of the settings: its size or the result code, and its bytes.
pub data Sized : Type 0 where
  missing : ℕ → Sized
  has_size : ℕ → Sized

-- The hexadecimal digits of bytes.
unfoldable pub hex_of : Bytes → Bytes
hex_of [] = []
hex_of (b ∷ bs) = padded_hex 2 b ++ hex_of bs

abbrev pub are_printable : Bytes → Bool
are_printable [] = true
are_printable (b ∷ bs) = if not (b == 0) && (ltb b 32 || ltb 126 b) then false else are_printable bs

abbrev pub first_is_set : Bytes → Bool
first_is_set [] = false
first_is_set (b ∷ bs) = not (b == 0)

-- The decoded view of a small item.
abbrev pub put_value : Bytes → Reply → Reply
put_value buf r =
    let valued = put "value" (int (decode buf)) r in
    if leb 1 (length buf) && leb (length buf) 8
    then (if length buf == 1 then put "as_bool" (boolean (first_is_set buf)) valued else valued)
    else r

abbrev pub item_reply : Bytes → Bytes → Bytes → Reply
item_reply name key buf =
    let shown = put "hex" (string (hex_of buf)) (
      put_value buf (
        put "size" (int (length buf))
          (put "key" (string key) (put "name" (string name) empty_reply)))) in
    if not (is_empty buf) && are_printable buf then put "as_string" (string buf) shown else shown

abbrev pub sized_item : (ℕ → Option Bytes) → Bytes → Bytes → Sized → Answer
sized_item read name key (missing rc) =
    (false, fail "not_found" (codes "no such settings item (rc=" ++ decimal rc ++ codes ")"))
sized_item read name key (has_size size) =
    if size == 0 || ltb 65536 size
    then (false, fail "bad_size" (codes "settings item exists but has size " ++ decimal size))
    else or_return (read size) (refuse "read_failed" "cannot read settings item")
        (λ buf. (true, item_reply name key buf))

-- `SettingsGet`. The services take the name, the key and the size of the buffer.
unfoldable pub settings_get :
    (Bytes → Bytes → Sized) → (Bytes → Bytes → ℕ → Option Bytes) → Request → Answer
settings_get size_of read req =
    let name = as_string (field_of req "name") [] in
    let key = as_string (field_of req "key") [] in
    if is_empty name || is_empty key
    then refuse "bad_arg" "need both 'name' and 'key'"
    else sized_item (read name key) name key (size_of name key)

-- `%u.%u.%u.%u` of an address, the lowest byte first.
abbrev pub dotted : ℕ → Bytes
dotted v =
    decimal (bit_and v 255)
    ++ b'.' ∷ decimal (bit_and (v / 2 ^ 8) 255)
    ++ b'.' ∷ decimal (bit_and (v / 2 ^ 16) 255)
    ++ b'.' ∷ decimal (bit_and (v / 2 ^ 24) 255)

pub record IpConfig : Type 0 where
  pub address : ℕ
  pub subnet_mask : ℕ
  pub gateway : ℕ
  pub dns_primary : ℕ
  pub dns_secondary : ℕ

abbrev pub put_config : Option IpConfig → Reply → Reply
put_config none r = r
put_config (some c) r = put "dns_secondary" (string (dotted c.dns_secondary)) (
    put "dns_primary" (string (dotted c.dns_primary)) (
      put "gateway" (string (dotted c.gateway)) (
        put "subnet_mask" (string (dotted c.subnet_mask))
          (put "address" (string (dotted c.address)) r))))

-- `NetInfo`
unfoldable pub net_info : Option ℕ → Option IpConfig → Option Bool → Bool → Answer
net_info ip config enabled accepted =
    let addressed = or_return ip empty_reply (λ v. put "ip" (string (dotted v)) empty_reply) in
    let configured = put_config config addressed in
    (
      true,
      put "internet_request_accepted" (boolean accepted)
          (or_return enabled configured (λ on. put "wireless_enabled" (boolean on) configured)),
    )

abbrev pub fatal_dir : Bytes
fatal_dir = codes "sdmc:/atmosphere/fatal_reports"

-- How much of a report is read: parts of 4096 bytes, while fewer than 48000 bytes are there.
abbrev pub max_report : ℕ
max_report = 12 * 4096

abbrev pub is_skipped : Bytes → Bool
is_skipped name = is_dot name || eq name (codes "dumps")

abbrev pub with_size : Option Stat → Value → Value
with_size none e = e
with_size (some st) e = set e (codes "size") (int st.size)

module _ (storage : Storage) (d : storage.Disk) where
  open storage use {stat, opendir, open_read}

  -- The loop over the directory, so many entries being left: the entries and their number.
  unfoldable pub list_fatal : List Entry → ℕ → Value → ℕ → Value × ℕ
  list_fatal [] left arr count = (arr, count)
  list_fatal (e ∷ es) zero arr count = (arr, count)
  list_fatal (e ∷ es) (suc left) arr count =
      let told = push arr (
        with_size (stat (child fatal_dir e.name) d)
          (set empty_object (codes "name") (string e.name))) in
      let skipped = list_fatal es (suc left) arr count in
      let listed = list_fatal es left told (count + 1) in
      if is_skipped e.name then skipped else listed

  -- `FatalReports`
  unfoldable pub fatal_reports : Request → Answer
  fatal_reports req =
      let name = as_string (field_of req "name") [] in
      if is_empty name
      then or_return (opendir fatal_dir d)
          (
            true,
            put "note" (string (codes "no fatal_reports directory (nothing has gone fatal)"))
                (put "reports" empty_array empty_reply),
          )
          (λ es.
            let (arr, count) = list_fatal es 200 empty_array 0 in
            (true, put "reports" arr (put "count" (int count) empty_reply)))
      else if finds (codes "/") name || finds (codes "..") name
      then refuse "bad_path" "name must be a bare filename"
      else or_return (open_read (child fatal_dir name) d)
          (refuse "not_found" "no such fatal report")
          (λ f. (
            true,
            put "content" (string (take max_report f.text)) (put "name" (string name) empty_reply),
          ))
