-- ===== src/MemSearch/Endless.antt =====
-- A first scan that never ends: `off` wraps to 0 behind a region that is nearly as large as the
-- address space, and chunks that cannot be read do not count against the budget.
use switch_mcp.Base.{
  ℕ, zero, suc, ◌+◌, ◌-◌, ◌*◌, ◌%◌, ◌^◌, ◌<◌, true, false, [], ◌∷◌, none, ◌≡◌, refl, arith, ltb,
  leb, if◌then◌else◌,
}
use switch_mcp.Json.Value.{as_int}
use switch_mcp.Agent.{Request, field_of}
use switch_mcp.MemSearch.{scan_chunk_size, Search, CheatService, Scanned, scan_region, scan_regions}
use switch_mcp.MemSearch.Requests.{begin_scan}

chunk_later : (off : ℕ) → off % 65536 ≡ 0 → ((off + 65536) % 2 ^ 64) % 65536 ≡ 0
chunk_later off h = omega (arith, h)

in_region :
    (off size : ℕ) → off % 65536 ≡ 0 → off < 2 ^ 64 → 2 ^ 64 < size + 65536 → ltb off size ≡ true
in_region off size h small large = ground (arith, h, small, large)

within_budget : (budget : ℕ) → 0 < budget → leb budget 0 ≡ false
within_budget budget h = ground (arith, h)

-- Nothing found, nothing counted.
abbrev at_start : Scanned
at_start = record { found = []; scanned = 0; truncated = false; budget_hit = false }

module _ (svc : CheatService) (unreadable : (addr n : ℕ) → svc.read_mem addr n ≡ none) where
  scan_region-Never :
      (fuel width want budget base size off : ℕ)
      → 2 ^ 64 < size + scan_chunk_size
      → off % 65536 ≡ 0
      → off < 2 ^ 64
      → 0 < budget
      → scan_region svc fuel width want budget base size off at_start ≡ none
  unfolding scan_region
  scan_region-Never zero width want budget base size off large h small room = refl
  scan_region-Never (suc fuel) width want budget base size off large h small room =
      rw
        (
          in_region off size h small large,
          within_budget budget room,
          unreadable ((base + off) % 2 ^ 64)
              (if ltb (size - off) scan_chunk_size then size - off else scan_chunk_size),
        )
        (scan_region-Never fuel width want budget base size ((off + scan_chunk_size) % 2 ^ 64) large
          (chunk_later off h) (omega arith) room)

  -- A first scan over `base` and `size`, with `size` above 2^64 - 64 KiB, with a budget, of a process
  -- that cannot be read, has no result with any fuel.
  begin_scan-Never :
      (fuel : ℕ) (req : Request) (width base size : ℕ) (s : Search)
      → 2 ^ 64 < size + scan_chunk_size
      → 0 < as_int (field_of req "max_bytes") (512 * 1024 * 1024)
      → begin_scan svc fuel req width ((base, size) ∷ []) s ≡ none
  unfolding begin_scan scan_regions
  begin_scan-Never fuel req width base size s large room =
      let never =
        scan_region-Never fuel width (as_int (field_of req "value") 0)
          (as_int (field_of req "max_bytes") (512 * 1024 * 1024)) base size 0 large refl
          (omega arith) room in
      rw never refl
