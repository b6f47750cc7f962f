-- ===== src/MemSearch.antt =====
-- The narrowing memory search of agent/source/handlers/memsearch.cpp. The cheat service is a
-- parameter: what each of its calls returns while one request runs.
pub mod Requests
pub mod Filter
pub mod Scan
pub mod Bounds
pub mod Endless
pub mod Results
pub mod Direct
use switch_mcp.Base.{
  ℕ, zero, suc, ◌+◌, ◌-◌, ◌/◌, ◌*◌, ◌%◌, ◌^◌, bit_and, Bool, true, false, not, ◌&&◌, ◌||◌, List, [],
  ◌∷◌, ◌++◌, String, Option, none, some, ltb, leb, ◌==◌, if◌then◌else◌, length, take, drop, Bytes,
  codes, eq, is_empty,
}
use switch_mcp.Json.Value.{Value, boolean, int, string, get, has, as_int, as_string}
use switch_mcp.Wire.Words.{decode, to_i32, lt32, widen}
use switch_mcp.Agent.{Request, Reply, empty_reply, field_of, put, fail}

abbrev pub max_candidates : ℕ
max_candidates = 32768

abbrev pub scan_chunk_size : ℕ
scan_chunk_size = 64 * 1024

pub record Candidate : Type 0 where
  pub addr : ℕ
  pub value : ℕ

-- `g_open`, `g_candidates`, `g_width` and `g_generation`.
pub record Search : Type 0 where
  pub is_open : Bool
  pub candidates : List Candidate
  pub width : ℕ
  pub generation : ℕ

pub record MemoryInfo : Type 0 where
  pub addr : ℕ
  pub size : ℕ
  pub mem_type : ℕ
  pub perm : ℕ

pub record Extents : Type 0 where
  pub base : ℕ
  pub size : ℕ

pub record Metadata : Type 0 where
  pub main_nso : Extents
  pub heap : Extents

-- The results of the IPC calls, and the constants of the system library's header.
pub record CheatService : Type 0 where
  pub get_service : Bool
  pub has_cheat_process : Option Bool
  pub application_process : Option ℕ
  pub force_open : ℕ → Bool
  pub metadata : Option Metadata
  pub mapping_count : Option ℕ
  pub mappings : Option (ℕ × List MemoryInfo)
  pub read_mem : ℕ → ℕ → Option Bytes
  pub perm_r : ℕ
  pub perm_w : ℕ
  pub scannable_types : List ℕ

-- What the scan has come to.
pub record Scanned : Type 0 where
  pub found : List Candidate
  pub scanned : ℕ
  pub truncated : Bool
  pub budget_hit : Bool

-- A dash in UTF-8.
abbrev pub em_dash : Bytes
em_dash = 226 ∷ 128 ∷ 148 ∷ []

-- A handler's verdict and reply, and the state behind it.
abbrev pub Handled : Type 0
Handled = Bool × Reply × Search

abbrev pub failed : String → String → Search → Handled
failed code message s = (false, fail code (codes message), s)

-- `k` where the attempt before it succeeded.
abbrev pub on_attached : (Search → Handled) → Handled → Handled
on_attached k (false, r, s) = (false, r, s)
on_attached k (true, r, s) = k s

abbrev pub contains : ℕ → List ℕ → Bool
contains t [] = false
contains t (x ∷ xs) = (t == x) || contains t xs

-- `LoadValue`: the machine is little endian.
abbrev pub load_value : ℕ → Bytes → ℕ
load_value width bs = decode (take width bs)

-- The innermost loop, at the words that are left: `i + width <= chunk` holds for the first
-- `chunk / width` multiples of the width.
unfoldable pub scan_words : ℕ → ℕ → ℕ → ℕ → Bytes → List Candidate → Bool × List Candidate
scan_words zero width want addr bs found = (false, found)
scan_words (suc k) width want addr bs found =
    let hit = load_value width bs == want in
    let found' = if hit then found ++ (record { addr = addr; value = want } ∷ []) else found in
    let rest = scan_words k width want ((addr + width) % 2 ^ 64) (drop width bs) found' in
    if hit && leb max_candidates (length found) then (true, found) else rest

module _ (svc : CheatService) where
  open svc use {
    get_service, has_cheat_process, application_process, force_open, mapping_count, mappings,
    read_mem, perm_r, perm_w, scannable_types,
  }

  -- `Open`.
  unfoldable pub open_service : Search → Handled
  open_service s =
      if s.is_open
      then (true, empty_reply, s)
      else if not get_service
      then (
        false,
        fail "no_service" (
            codes "dmnt:cht unavailable. Atmosph"
            ++ 195
              ∷ 168
              ∷ codes
                  "re's cheat module must be enabled (dmnt_cheats_enabled_by_default, or a cheat process force-opened)."),
        s,
      )
      else (true, empty_reply, record s { is_open = true })

  abbrev pub force_opened : Option ℕ → Search → Handled
  force_opened none s =
      failed "no_app" "no cheat process and no foreground application to open one on" s
  force_opened (some pid) s =
      if pid == 0
      then failed "no_app" "no cheat process and no foreground application to open one on" s
      else if not (force_open pid)
      then failed "open_failed" "ForceOpenCheatProcess failed for the foreground application" s
      else (true, empty_reply, s)

  abbrev pub process_known : Option Bool → Search → Handled
  process_known none s = failed "ipc_failed" "HasCheatProcess failed" s
  process_known (some true) s = (true, empty_reply, s)
  process_known (some false) s = force_opened application_process s

  unfoldable pub ensure_cheat_process : Search → Handled
  ensure_cheat_process s = on_attached (process_known has_cheat_process) (open_service s)

  abbrev pub received_mappings : ℕ → Option (ℕ × List MemoryInfo) → Option (List MemoryInfo)
  received_mappings count none = none
  received_mappings count (some (got, infos)) =
      some (take (if ltb got count then got else count) infos)

  abbrev pub counted_mappings : Option ℕ → Option (List MemoryInfo)
  counted_mappings none = none
  counted_mappings (some count) =
      if (count == 0) || ltb 4096 count then none else received_mappings count mappings

  unfoldable pub get_mappings : Option (List MemoryInfo)
  get_mappings = counted_mappings mapping_count

  unfoldable pub scannable_region : MemoryInfo → Bool
  scannable_region mi =
      if (bit_and mi.perm perm_r == 0) || (bit_and mi.perm perm_w == 0)
      then false
      else contains (mi.mem_type % 256) scannable_types

  abbrev pub within : MemoryInfo → Extents → Bool
  within mi e = leb e.base mi.addr && ltb mi.addr ((e.base + e.size) % 2 ^ 64)

  -- The regions of the mappings, for the `region` that is asked for.
  unfoldable pub regions_of : Metadata → Bytes → List MemoryInfo → List (ℕ × ℕ)
  regions_of m want [] = []
  regions_of m want (mi ∷ maps) =
      let rest = regions_of m want maps in
      if not (scannable_region mi)
      then rest
      else if eq want (codes "heap") && not (within mi m.heap)
      then rest
      else if eq want (codes "main") && not (within mi m.main_nso)
      then rest
      else (mi.addr, mi.size) ∷ rest

  abbrev pub scan_read : ℕ → ℕ → ℕ → ℕ → Option Bytes → Scanned → Scanned
  scan_read width want addr chunk none sc = sc
  scan_read width want addr chunk (some bs) sc =
      let (cut, found) = scan_words (chunk / width) width want addr bs sc.found in
      record sc { found = found; truncated = cut; scanned = (sc.scanned + chunk) % 2 ^ 64 }

  -- The loop over the offsets of a region. `none` says that the fuel ran out.
  unfoldable pub scan_region : ℕ → ℕ → ℕ → ℕ → ℕ → ℕ → ℕ → Scanned → Option Scanned
  scan_region zero width want budget base size off sc = none
  scan_region (suc fuel) width want budget base size off sc =
      let chunk = if ltb (size - off) scan_chunk_size then size - off else scan_chunk_size in
      let addr = (base + off) % 2 ^ 64 in
      let sc' = scan_read width want addr chunk (read_mem addr chunk) sc in
      let rest =
        scan_region fuel width want budget base size ((off + scan_chunk_size) % 2 ^ 64) sc' in
      if not (ltb off size)
      then some sc
      else if leb budget sc.scanned
      then some (record sc { budget_hit = true })
      else if sc'.truncated
      then some sc'
      else rest

  abbrev pub and_then : Option Scanned → (Scanned → Option Scanned) → Option Scanned
  and_then none k = none
  and_then (some sc) k = k sc

  unfoldable pub scan_regions : ℕ → ℕ → ℕ → ℕ → List (ℕ × ℕ) → Scanned → Option Scanned
  scan_regions fuel width want budget [] sc = some sc
  scan_regions fuel width want budget ((base, size) ∷ regions) sc =
      if sc.truncated || sc.budget_hit
      then some sc
      else and_then (scan_region fuel width want budget base size 0 sc)
          (λ sc'. scan_regions fuel width want budget regions sc')
