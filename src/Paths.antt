-- ===== src/Paths.antt =====
-- agent/source/path.cpp, and `ResolveDevicePath` of agent/source/server.cpp.
pub mod Split
pub mod Normal
pub mod Devices
use switch_mcp.Base.{
  ℕ, zero, suc, ◌+◌, Bool, true, false, not, ◌&&◌, ◌||◌, List, [], ◌∷◌, ◌++◌, Option, none, some,
  ◌==◌, if◌then◌else◌, length, Bytes, codes, eq, is_empty,
}

-- `in.substr(i, j - i)` for `j` the next slash, or the end.
unfoldable pub first_segment : Bytes → Bytes
first_segment [] = []
first_segment (c ∷ cs) = if c == b'/' then [] else c ∷ first_segment cs

-- What is left of the text at `i = j + 1`.
unfoldable pub after_segment : Bytes → Bytes
after_segment [] = []
after_segment (c ∷ cs) = if c == b'/' then cs else after_segment cs

abbrev pub is_kept : Bytes → Bool
is_kept seg = not (is_empty seg) && not (eq seg (codes "."))

-- The `while` loop: the text not yet read, and `parts`.
unfoldable pub collect : ℕ → Bytes → List Bytes → Option (List Bytes)
collect fuel [] parts = some parts
collect zero (c ∷ cs) parts = none
collect (suc fuel) (c ∷ cs) parts =
    let seg = first_segment (c ∷ cs) in
    let rest =
      collect fuel (after_segment (c ∷ cs)) (if is_kept seg then parts ++ seg ∷ [] else parts) in
    if eq seg (codes "..") then none else rest

-- `out += parts[k]`, with a slash behind each part but the last.
unfoldable pub join : List Bytes → Bytes
join [] = []
join (s ∷ []) = s
join (s ∷ t ∷ ss) = s ++ (b'/' ∷ join (t ∷ ss))

abbrev pub rooted : List Bytes → Bytes
rooted parts = b'/' ∷ join parts

abbrev pub map_rooted : Option (List Bytes) → Option Bytes
map_rooted none = none
map_rooted (some parts) = some (rooted parts)

unfoldable pub normalize_path : Bytes → Option Bytes
unfolding collect
normalize_path [] = none
normalize_path (c ∷ cs) =
    if not (c == b'/') then none else map_rooted (collect (length (c ∷ cs)) (c ∷ cs) [])

abbrev prefixed : Bytes → Option Bytes → Option Bytes
prefixed p none = none
prefixed p (some norm) = some (p ++ norm)

-- `false` is `none`; `dev` is the value.
unfoldable pub resolve_sd_path : Bytes → Option Bytes
resolve_sd_path p = prefixed (codes "sdmc:") (normalize_path p)

abbrev pub is_sd : Bytes → Bool
is_sd device = is_empty device || eq device (codes "sd") || eq device (codes "sdmc")

abbrev pub with_access : Bytes → Bool → Option Bytes → Option (Bytes × Bool)
with_access p writable none = none
with_access p writable (some norm) = some (p ++ norm, writable)

-- The device path and `*writable`; the first argument is `g_save_mounted`.
unfoldable pub resolve_device_path : Bool → Bytes → Bytes → Option (Bytes × Bool)
resolve_device_path save_mounted device p =
    let norm = normalize_path p in
    if is_sd device
    then with_access (codes "sdmc:") true norm
    else if eq device (codes "save")
    then if not save_mounted then none else with_access (codes "save_ro:") false norm
    else none
