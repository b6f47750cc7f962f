-- ===== src/Guards.antt =====
-- agent/source/handlers/guards.cpp: the audit journal, the preflight checks and the boot watchdog.
pub mod Trail
pub mod History
use switch_mcp.Base.{
  ℕ, zero, suc, ◌+◌, ◌-◌, ◌*◌, ◌%◌, ◌^◌, Bool, true, false, not, ◌&&◌, ◌||◌, List, [], ◌∷◌, ◌++◌,
  Option, none, some, ltb, leb, ◌==◌, if◌then◌else◌, length, take, drop, Bytes, codes,
}
use switch_mcp.Json.Value.{Value, boolean, int, string, empty_array, push, as_int}
use switch_mcp.Json.Number.{decimal, print_i64, strtoll}
use switch_mcp.Wire.Words.{to_i32, lt32, widen, lt64}
use switch_mcp.Agent.{AgentConfig, Request, Reply, empty_reply, field_of, put, c_str}

abbrev pub journal_max_bytes : ℕ
journal_max_bytes = 512 * 1024

abbrev pub min_battery_percent : ℕ
min_battery_percent = 30

-- The files of the guards on the card, `none` for one that does not exist, and `g_boot_count`.
pub record Guards : Type 0 where
  pub journal : Option Bytes
  pub rotated : Option Bytes
  pub boot_file : Option Bytes
  pub boot_count : ℕ

-- What the file system does: whether a file can be opened for writing, and whether the rename
-- succeeds, given what has the new name already.
pub record Card : Type 0 where
  pub opens : Bool
  pub renames : Option Bytes → Bool

abbrev pub spaces : ℕ → Bytes
spaces zero = []
spaces (suc n) = 32 ∷ spaces n

-- `%6llu` and `%-20s`
abbrev pub right_aligned : ℕ → Bytes → Bytes
right_aligned width s = spaces (width - length s) ++ s

abbrev pub left_aligned : ℕ → Bytes → Bytes
left_aligned width s = s ++ spaces (width - length s)

unfoldable pub journal_line : ℕ → Bytes → Bytes → Bytes
journal_line secs op detail =
    codes "["
    ++ (right_aligned 6 (decimal secs)
        ++ (codes "] " ++ (left_aligned 20 (c_str op) ++ (codes " " ++ (c_str detail ++ 10 ∷ [])))))

abbrev pub contents : Option Bytes → Bytes
contents none = []
contents (some text) = text

-- `JournalAppend`, `secs` seconds after the start.
unfoldable pub journal_append : Card → ℕ → Bytes → Bytes → Guards → Guards
journal_append card secs op detail g =
    let text = contents g.journal ++ journal_line secs op detail in
    if not card.opens
    then g
    else if ltb journal_max_bytes (length text) && card.renames g.rotated
    then record g { journal = none; rotated = some text }
    else record g { journal = some text }

-- What the services report to `PreflightCheck`, `none` where a call fails.
pub record Gauges : Type 0 where
  pub charge : Option ℕ
  pub on_charger : Option Bool
  pub free_bytes : Option ℕ

-- The verdict, the warnings and the reply so far.
abbrev pub Checked : Type 0
Checked = Bool × Value × Reply

abbrev pub check_battery : Option ℕ → Checked → Checked
check_battery none c = c
check_battery (some charge) (safe, problems, reply) =
    let measured = put "battery_percent" (int charge) reply in
    if ltb charge min_battery_percent
    then (
      false,
      push problems (
          string (
            codes
              "battery below 30%: a power loss part-way through a NAND write or a payload reboot can leave the console unbootable")),
      measured,
    )
    else (safe, problems, measured)

-- A charge that could not be read counts as 0.
abbrev pub known_charge : Option ℕ → ℕ
known_charge none = 0
known_charge (some percent) = percent

abbrev pub check_charger : Option Bool → Option ℕ → Checked → Checked
check_charger none charge c = c
check_charger (some plugged) charge (safe, problems, reply) =
    let told = put "on_charger" (boolean plugged) reply in
    if not plugged && ltb (known_charge charge) 50
    then (
      safe,
      push problems (string (codes "not on charger; plug in before anything irreversible")),
      told,
    )
    else (safe, problems, told)

abbrev pub check_space : Option ℕ → Checked → Checked
check_space none c = c
check_space (some bytes) (safe, problems, reply) =
    let told = put "sd_free_bytes" (int bytes) reply in
    if lt64 bytes (2 ^ 30)
    then (
      safe,
      push problems (
          string
            (codes "under 1 GiB free on the SD card: not enough room for a meaningful backup")),
      told,
    )
    else (safe, problems, told)

abbrev pub check_system : AgentConfig → Checked → Checked
check_system cfg (safe, problems, reply) =
    let told = put "emummc" (boolean cfg.is_emummc) reply in
    if cfg.is_emummc then (safe, problems, told) else (
      safe,
      push problems (
          string (
            codes
              "running on sysMMC: a mistake here is NOT recoverable by restoring an SD image, unlike emuMMC")),
      told,
    )

abbrev pub preflight_reply : AgentConfig → Checked → Reply
preflight_reply cfg (safe, problems, reply) = put "warnings" problems (
    put "safe_for_irreversible_ops" (boolean safe)
      (put "nand_write_allowed" (boolean cfg.allow_nand_write) reply))

-- The four checks, in their order.
unfoldable pub preflight_checks : AgentConfig → Gauges → Checked
preflight_checks cfg gauges = check_system cfg (
    check_space gauges.free_bytes (
      check_charger gauges.on_charger gauges.charge
        (check_battery gauges.charge (true, empty_array, empty_reply))))

unfoldable pub preflight_check : AgentConfig → Gauges → Reply
preflight_check cfg gauges = preflight_reply cfg (preflight_checks cfg gauges)

unfoldable pub read_limit : Request → ℕ
read_limit req =
    let max_bytes = to_i32 (as_int (field_of req "max_bytes") 16384) in
    if lt32 max_bytes 256 || lt32 48000 max_bytes then 16384 else max_bytes

abbrev pub journal_reply : ℕ → Option Bytes → Reply
journal_reply max_bytes none =
    put "note" (string (codes "no journal yet (nothing mutating has been logged)"))
      (put "content" (string []) empty_reply)
journal_reply max_bytes (some text) =
    let start = length text - max_bytes in
    put "content" (string (drop start text))
      (put "truncated" (boolean (ltb 0 start)) (put "total_bytes" (int (length text)) empty_reply))

-- `JournalRead`, on a card that reads a file whole.
unfoldable pub journal_read : Request → Guards → Reply
journal_read req g = journal_reply (read_limit req) g.journal

-- `atoi` of what is read into a buffer of 16 bytes.
abbrev pub boots_so_far : Option Bytes → ℕ → ℕ
boots_so_far none count = count
boots_so_far (some text) count = to_i32 (strtoll (c_str (take 15 text)))

abbrev pub print_i32 : ℕ → Bytes
print_i32 i = print_i64 (widen i)

-- `WatchdogOnBoot`.
unfoldable pub watchdog_on_boot : Card → ℕ → Guards → Guards
watchdog_on_boot card secs g =
    let count = to_i32 (boots_so_far g.boot_file g.boot_count + 1) in
    let counted = record g {
      boot_count = count;
      boot_file = if card.opens then some (print_i32 count) else g.boot_file;
    } in
    if lt32 count 3
    then counted
    else journal_append card secs (codes "watchdog")
        (codes "boot #" ++ (print_i32 count ++ codes " with no prior successful connection"))
        counted

-- `WatchdogOnConnect`.
unfoldable pub watchdog_on_connect : Card → Guards → Guards
watchdog_on_connect card g = if g.boot_count == 0 then g else record g {
  boot_count = 0;
  boot_file = if card.opens then some (codes "0") else g.boot_file;
}

unfoldable pub watchdog_status : Guards → Reply
watchdog_status g =
    put "healthy" (boolean (g.boot_count == 0))
      (put "boots_without_connection" (int (widen g.boot_count)) empty_reply)
