-- ===== src/Config.antt =====
-- agent/source/config.cpp. The files are their contents, or nothing where they cannot be opened;
-- the random bytes and whether the new file can be opened are parameters.
pub mod Privileges
use switch_mcp.Base.{
  ℕ, zero, suc, ◌+◌, ◌-◌, ◌*◌, ◌%◌, ◌^◌, Bool, true, false, not, ◌&&◌, ◌||◌, List, [], ◌∷◌, ◌++◌,
  Option, none, some, ltb, leb, ◌==◌, if◌then◌else◌, Bytes, codes, eq, is_empty,
}
use Prim.Native.Nat.{min}
use switch_mcp.Json.Number.{decimal, read_digits, skip_space, strtoll}
use switch_mcp.Wire.Words.{to_i32, lt32}
use switch_mcp.Agent.{AgentConfig, Tier, observe, control, invasive, default_config, c_str}
use switch_mcp.Server.Auth.{hex}

-- " \t\r\n"
abbrev pub is_blank : ℕ → Bool
is_blank c = (c == 32) || (c == 9) || (c == 13) || (c == 10)

unfoldable pub trim_front : Bytes → Bytes
trim_front [] = []
trim_front (c ∷ cs) = let rest = trim_front cs in if is_blank c then rest else c ∷ cs

unfoldable pub trim_back : Bytes → Bytes
trim_back [] = []
trim_back (c ∷ cs) = let rest = trim_back cs in if is_empty rest && is_blank c then [] else c ∷ rest

unfoldable pub trim : Bytes → Bytes
unfolding trim_front trim_back
trim s = trim_back (trim_front s)

unfoldable pub parse_tier : Bytes → Tier
parse_tier v =
    if eq v (codes "control")
    then control
    else if eq v (codes "invasive")
    then invasive
    else observe

-- What successive `fgets` calls return, into a buffer with room for so many bytes.
unfoldable pub fgets_all : ℕ → ℕ → Bytes → Bytes → List Bytes
fgets_all size room piece [] = if is_empty piece then [] else piece ∷ []
fgets_all size room piece (b ∷ bs) =
    let ended = fgets_all size size [] bs in
    let longer = fgets_all size (room - 1) (piece ++ b ∷ []) bs in
    if b == 10 || leb room 1 then (piece ++ b ∷ []) ∷ ended else longer

-- `find('=')`: what stands before and behind it.
unfoldable pub split_equals : Bytes → Option (Bytes × Bytes)
split_equals [] = none
split_equals (c ∷ cs) =
    let rest = split_equals cs in if c == b'=' then some ([], cs) else prefixed c rest
  where
    prefixed : ℕ → Option (Bytes × Bytes) → Option (Bytes × Bytes)
    prefixed c none = none
    prefixed c (some (key, value)) = some (c ∷ key, value)

abbrev pub starts_with : ℕ → Bytes → Bool
starts_with c [] = false
starts_with c (x ∷ xs) = x == c

-- The key and the value of a line, unless it is empty, a comment or has no `=`.
abbrev pub trimmed_entry : Option (Bytes × Bytes) → Option (Bytes × Bytes)
trimmed_entry none = none
trimmed_entry (some (key, value)) = some (trim key, trim value)

unfoldable pub entry : Bytes → Option (Bytes × Bytes)
entry line =
    let s = trim (c_str line) in
    if is_empty s || starts_with b'#' s || starts_with b';' s
    then none
    else trimmed_entry (split_equals s)

-- `strtoul(s, nullptr, 10)` of the C library.
abbrev pub unsigned : Bytes → ℕ
unsigned [] = 0
unsigned (c ∷ cs) =
    let saturated = min (read_digits 0 cs) (2 ^ 64 - 1) in
    if c == b'-'
    then (if leb (2 ^ 64) (read_digits 0 cs) then 2 ^ 64 - 1 else (2 ^ 64 - saturated) % 2 ^ 64)
    else if c == b'+'
    then saturated
    else min (read_digits 0 (c ∷ cs)) (2 ^ 64 - 1)

unfoldable pub strtoul : Bytes → ℕ
strtoul s = unsigned (skip_space s)

abbrev pub is_on : Bytes → Bool
is_on v = eq v (codes "true") || eq v (codes "1")

abbrev pub level_of : Bytes → ℕ
level_of v =
    if eq v (codes "error")
    then 0
    else if eq v (codes "warn")
    then 1
    else if eq v (codes "debug")
    then 3
    else 2

abbrev pub minutes_of : Bytes → ℕ
minutes_of v = let minutes = to_i32 (strtoll v) in if lt32 minutes 0 then 0 else minutes

-- One setting of the file.
unfoldable pub set_option : Bytes → Bytes → AgentConfig → AgentConfig
set_option key value cfg =
    if eq key (codes "port")
    then record cfg { port = strtoul value % 2 ^ 16 }
    else if eq key (codes "token")
    then record cfg { token = value }
    else if eq key (codes "log_level")
    then record cfg { log_level = level_of value }
    else if eq key (codes "allow_nand_write")
    then record cfg { allow_nand_write = is_on value }
    else if eq key (codes "allow_overclock")
    then record cfg { allow_overclock = is_on value }
    else if eq key (codes "allow_hardware")
    then record cfg { allow_hardware = is_on value }
    else if eq key (codes "tier")
    then record cfg { tier = parse_tier value }
    else if eq key (codes "clear_lockscreen_on_boot")
    then record cfg { clear_lockscreen_on_boot = is_on value }
    else if eq key (codes "enable_usb")
    then record cfg { enable_usb = is_on value }
    else if eq key (codes "enable_psc")
    then record cfg { enable_psc = is_on value }
    else if eq key (codes "require_hmac_auth")
    then record cfg { require_hmac_auth = is_on value }
    else if eq key (codes "keep_awake_minutes")
    then record cfg { keep_awake_minutes = minutes_of value }
    else cfg

abbrev pub set_entry : Option (Bytes × Bytes) → AgentConfig → AgentConfig
set_entry none cfg = cfg
set_entry (some (key, value)) cfg = set_option key value cfg

unfoldable pub read_lines : List Bytes → AgentConfig → AgentConfig
read_lines [] cfg = cfg
read_lines (line ∷ lines) cfg = read_lines lines (set_entry (entry line) cfg)

-- The buffer of `LoadConfig` has 512 bytes, the last of them for the zero.
abbrev pub read_file : Option Bytes → AgentConfig
read_file none = default_config
read_file (some text) = read_lines (fgets_all 511 511 [] text) default_config

-- `DetectEmummc`: the setting that decides, on the first line that has it.
abbrev pub is_enabled : Option (Bytes × Bytes) → Bool → Bool
is_enabled none rest = rest
is_enabled (some (key, value)) rest =
    if eq (trim key) (codes "enabled")
    then not (eq (trim value) (codes "0")) && not (is_empty (trim value))
    else rest

unfoldable pub find_enabled : List Bytes → Bool
find_enabled [] = false
find_enabled (line ∷ lines) =
    let s = trim (c_str line) in
    let rest = find_enabled lines in
    if is_empty s || starts_with b'#' s || starts_with b';' s || starts_with b'[' s
    then rest
    else is_enabled (split_equals s) rest

abbrev pub detect_emummc : Option Bytes → Option Bytes → Bool
detect_emummc (some text) other = find_enabled (fgets_all 255 255 [] text)
detect_emummc none (some text) = find_enabled (fgets_all 255 255 [] text)
detect_emummc none none = false

-- `LoadConfig`, without the file that it writes on the first boot.
unfoldable pub load_config : Bytes → Option Bytes → Option Bytes → Option Bytes → AgentConfig
load_config random file emummc other =
    let cfg = read_file file in
    let named = if is_empty cfg.token then record cfg { token = hex random } else cfg in
    record named { is_emummc = detect_emummc emummc other }
