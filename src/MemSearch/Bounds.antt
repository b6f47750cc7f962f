-- ===== src/MemSearch/Bounds.antt =====
-- The bound on the candidate table, and the end of a scan.
use switch_mcp.Base.{
  ℕ, zero, suc, ◌+◌, ◌-◌, ◌*◌, ◌/◌, ◌%◌, ◌^◌, ◌≤◌, ◌<◌, true, ◌||◌, List, [], ◌∷◌, ◌++◌, Option,
  none, some, ◌≡◌, refl, arith, ltb, leb, ◌==◌, if◌then◌else◌, length, length-append, drop, Bytes,
  Bool-cases, inl, inr,
}
use switch_mcp.Agent.{Request}
use switch_mcp.MemSearch.Requests.{begin_scan, scan_done}
use switch_mcp.MemSearch.Filter.{Op, Survivors, no_more, vanished, dropped, survived}
use switch_mcp.MemSearch.{
  max_candidates, scan_chunk_size, Candidate, Search, CheatService, Handled, Scanned, load_value,
  scan_words, scan_read, scan_region, and_then, scan_regions,
}

scan_words_bound :
    (k width want addr : ℕ) (bs : Bytes) (found : List Candidate)
    → length found ≤ max_candidates
    → length ((scan_words k width want addr bs found).1) ≤ max_candidates
unfolding scan_words
scan_words_bound zero width want addr bs found le = le
scan_words_bound (suc k) width want addr bs found le =
    let later = (addr + width) % 2 ^ 64 in
    let c : Candidate = record { addr = addr; value = want } in
    elim (Bool-cases (load_value width bs == want)) [
      | inr e ↦ rw e (scan_words_bound k width want later (drop width bs) found le)
      | inl e ↦ rw e (elim (Bool-cases (leb max_candidates (length found))) [
        | inl full ↦ rw full le
        | inr room ↦ rw room (
            scan_words_bound k width want later (drop width bs) (found ++ (c ∷ []))
              (ground (arith, length-append found (c ∷ []), room)))
      ])
    ]

-- The table is within its bound.
abbrev pub IsBounded : Scanned → Type 0
IsBounded sc = length sc.found ≤ max_candidates

module _ (svc : CheatService) where
  open svc use {read_mem}

  scan_read-IsBounded :
      (width want addr chunk : ℕ) (o : Option Bytes) (sc : Scanned)
      → IsBounded sc
      → IsBounded (scan_read svc width want addr chunk o sc)
  scan_read-IsBounded width want addr chunk none sc le = le
  scan_read-IsBounded width want addr chunk (some bs) sc le =
      scan_words_bound (chunk / width) width want addr bs sc.found le

  -- The scan has ended, within the bound.
  abbrev Ends : Option Scanned → Type 0
  Ends none = ⊥
  Ends (some sc) = IsBounded sc

  abbrev EndsIf : Type 0 → Option Scanned → Type 0
  EndsIf P o = P → Ends o

  scan_region-Ends :
      (fuel width want budget base size off : ℕ) (sc : Scanned)
      → size + scan_chunk_size ≤ 2 ^ 64
      → size + scan_chunk_size ≤ off + fuel * scan_chunk_size
      → off < size + scan_chunk_size
      → IsBounded sc
      → Ends (scan_region svc fuel width want budget base size off sc)
  unfolding scan_region
  scan_region-Ends zero width want budget base size off sc fits enough within le =
      omega (arith, enough, within)
  scan_region-Ends (suc fuel) width want budget base size off sc fits enough within le =
      let chunk = if ltb (size - off) scan_chunk_size then size - off else scan_chunk_size in
      let addr = (base + off) % 2 ^ 64 in
      let sc' = scan_read svc width want addr chunk (read_mem addr chunk) sc in
      let le' : IsBounded sc' =
        scan_read-IsBounded width want addr chunk (read_mem addr chunk) sc le in
      elim (Bool-cases (ltb off size)) [
        | inr e ↦ rw e le
        | inl e ↦ rw e (elim (Bool-cases (leb budget sc.scanned)) [
          | inl b ↦ rw b le
          | inr b ↦ rw b (elim (Bool-cases (sc'.truncated)) [
            | inl c ↦ rw c le'
            | inr c ↦ rw c (
                scan_region-Ends fuel width want budget base size _ sc' fits
                  (ground (arith, e, fits, enough)) (ground (arith, e, fits)) le')
          ])
        ])
      ]

  -- Every region fits in the address space with one chunk to spare, and in the fuel.
  abbrev pub FitIn : ℕ → List (ℕ × ℕ) → Type 0
  FitIn fuel [] = Unit
  FitIn fuel ((base, size) ∷ regions) =
      (size + scan_chunk_size ≤ 2 ^ 64)
      × (size + scan_chunk_size ≤ fuel * scan_chunk_size)
      × FitIn fuel regions

  scan_regions-Ends :
      (fuel width want budget : ℕ) (regions : List (ℕ × ℕ)) (sc : Scanned)
      → FitIn fuel regions
      → IsBounded sc
      → Ends (scan_regions svc fuel width want budget regions sc)
  unfolding scan_regions
  scan_regions-Ends fuel width want budget [] sc fit le = le
  scan_regions-Ends fuel width want budget ((base, size) ∷ regions) sc fit le =
      elim (Bool-cases (sc.truncated || sc.budget_hit)) [
        | inl e ↦ rw e le
        | inr e ↦ rw e (
            go (λ sc' le'. scan_regions-Ends fuel width want budget regions sc' fit.2 le')
              (scan_region svc fuel width want budget base size 0 sc)
              (scan_region-Ends fuel width want budget base size 0 sc fit.0 (omega (arith, fit.1))
                (omega arith) le))
      ]
    where
      go :
          ((sc' : Scanned)
            → IsBounded sc'
            → Ends (scan_regions svc fuel width want budget regions sc'))
          → (o : Option Scanned) → Ends o
          → Ends (and_then svc o (λ sc'. scan_regions svc fuel width want budget regions sc'))
      go more none never = elim never [ ]
      go more (some sc') le' = more sc' le'

  -- What a scan leaves in the table.
  abbrev Leaves : Option Handled → Type 0
  Leaves o =
      (r : Handled) × (o ≡ some r) × (r.0 ≡ true) × (length (r.2.candidates) ≤ max_candidates)

  scan_done-Leaves :
      (regions width : ℕ) (s : Search) (o : Option Scanned)
      → Ends o
      → Leaves (scan_done svc regions width s o)
  scan_done-Leaves regions width s none never = elim never [ ]
  scan_done-Leaves regions width s (some sc) le = (_, refl, refl, le)

  -- A first scan ends, succeeds, and leaves no more than 32768 candidates, if each region has a size
  -- of at most 2^64 - 64 KiB and the fuel covers, in chunks of 64 KiB, each size and one chunk more. A
  -- client can ask for a larger size, where the offset wraps; nothing is said of that.
  pub begin_scan-Leaves :
      (fuel : ℕ) (req : Request) (width : ℕ) (regions : List (ℕ × ℕ)) (s : Search)
      → FitIn fuel regions
      → (r : Handled) × (begin_scan svc fuel req width regions s ≡ some r)
        × (r.0 ≡ true)
        × (length (r.2.candidates) ≤ max_candidates)
  unfolding begin_scan
  begin_scan-Leaves fuel req width regions s fit =
      scan_done-Leaves (length regions) width s _
        (scan_regions-Ends fuel width _ _ regions _ fit (omega arith))

-- What survives is no more than there was.
pub Survivors-length :
    (svc : CheatService) (op : Op) (want width : ℕ) {cs kept : List Candidate}
    → Survivors svc op want width cs kept
    → length kept ≤ length cs
Survivors-length svc op want width no_more = omega arith
Survivors-length svc op want width (vanished c cs kept e f) =
    omega (arith, Survivors-length svc op want width f)
Survivors-length svc op want width (dropped c cs kept raw e n f) =
    omega (arith, Survivors-length svc op want width f)
Survivors-length svc op want width (survived c cs kept raw e p f) =
    omega (arith, Survivors-length svc op want width f)
