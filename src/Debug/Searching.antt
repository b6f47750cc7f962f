-- ===== src/Debug/Searching.antt =====
-- `DebugSearch` of agent/source/handlers/debug.cpp. What the kernel's calls return is a parameter.
pub mod Exact
use switch_mcp.Base.{
  ℕ, zero, suc, ◌+◌, ◌-◌, ◌*◌, ◌%◌, ◌^◌, bit_and, Bool, true, false, not, ◌||◌, ◌&&◌, List, [], ◌∷◌,
  ◌++◌, Option, none, some, ltb, leb, ◌==◌, if◌then◌else◌, Bytes, codes, length, has_prefix, refl,
}
use switch_mcp.Json.Value.{Value, boolean, int, string, as_int, empty_array, push}
use switch_mcp.HexText.{print_hex}
use switch_mcp.Wire.Words.{encode, to_i32, lt64}
use switch_mcp.Agent.{Request, empty_reply, field_of, put, refuse, Answer, or_return}

-- `MemoryInfo`: a region of the process. `is_mapped` is whether its type is not `MemType_Unmapped`,
-- `is_writable` whether its permissions have `Perm_W`.
pub record Region : Type 0 where
  pub addr : ℕ
  pub size : ℕ
  pub is_mapped : Bool
  pub is_writable : Bool

-- `svcQueryDebugProcessMemory` at an address, and `svcReadDebugProcessMemory` of so many bytes.
pub record Memory : Type 0 where
  pub query : ℕ → Option Region
  pub read : ℕ → ℕ → Option Bytes

abbrev pub max_regions : ℕ
max_regions = 512

abbrev pub is_scanned : Region → Bool
is_scanned r = r.is_writable && r.is_mapped && leb r.size (64 * 2 ^ 20)

abbrev pub next_region : Region → ℕ
next_region r = (r.addr + r.size) % 2 ^ 64

-- The inner loop: the addresses of the matches from the byte at `here` on, so many being left to find.
unfoldable pub scan_chunk : Bytes → ℕ → ℕ → Bytes → List ℕ
scan_chunk needle left here [] = []
scan_chunk needle zero here (c ∷ cs) = []
scan_chunk needle (suc left) here (c ∷ cs) =
    let taken = scan_chunk needle left (here + 1) cs in
    let passed = scan_chunk needle (suc left) (here + 1) cs in
    if ltb (length (c ∷ cs)) (length needle)
    then []
    else if has_prefix needle (c ∷ cs)
    then here ∷ taken
    else passed

module _ (m : Memory) (needle : Bytes) where
  abbrev pub scan_region : ℕ → Region → List ℕ
  scan_region left r =
      if is_scanned r
      then or_return (m.read r.addr r.size) [] (scan_chunk needle left r.addr)
      else []

  -- The outer loop from the region at `addr` on.
  unfoldable pub search_regions : ℕ → ℕ → ℕ → List ℕ
  search_regions zero left addr = []
  search_regions (suc regions) left addr =
      if left == 0
      then []
      else or_return (m.query addr) [] (λ r.
        let found = scan_region left r in
        if leb (next_region r) addr
        then found
        else found ++ search_regions regions (left - length found) (next_region r))

unfoldable pub push_addresses : List ℕ → Value → Value
push_addresses [] matches = matches
push_addresses (a ∷ rest) matches =
    push_addresses rest (push matches (string (codes "0x" ++ print_hex a)))

abbrev pub width_of : Request → ℕ
width_of req =
    let width = to_i32 (as_int (field_of req "width") 4) in
    if width == 1 || width == 2 || width == 4 || width == 8 then width else 4

abbrev pub max_of : Request → ℕ
max_of req =
    let asked = as_int (field_of req "max") 64 in
    if not (lt64 0 asked) || lt64 1024 asked then 64 else asked

-- `DebugSearch` of an attached process.
unfoldable pub debug_search : Memory → Request → Answer
debug_search m req =
    let needle = encode (width_of req) (as_int (field_of req "value") 0) in
    let found = search_regions m needle max_regions (max_of req) 0 in
    (
      true,
      put "truncated" (boolean (leb (max_of req) (length found))) (
          put "count" (int (length found))
            (put "matches" (push_addresses found empty_array) empty_reply)),
    )
