-- ===== src/Debug/Searching/Exact.antt =====
-- The search of the debugger finds all the places that hold the value, up to the number asked for.
use switch_mcp.Base.{ℕ, zero, suc, ◌+◌, List, [], ◌∷◌, ◌++◌, Bytes, has_prefix, leb, if◌then◌else◌}
use switch_mcp.Agent.{or_return}
use switch_mcp.Debug.Searching.{Region, Memory, is_scanned, next_region}

-- All the addresses at which the bytes begin with the needle.
unfoldable pub positions : Bytes → ℕ → Bytes → List ℕ
positions needle here [] = []
positions needle here (c ∷ cs) =
    let rest = positions needle (here + 1) cs in
    if has_prefix needle (c ∷ cs) then here ∷ rest else rest

module _ (m : Memory) (needle : Bytes) where
  abbrev pub region_positions : Region → List ℕ
  region_positions r =
      if is_scanned r then or_return (m.read r.addr r.size) [] (positions needle r.addr) else []

  -- The places of the first so many regions from an address on.
  unfoldable pub all_positions : ℕ → ℕ → List ℕ
  all_positions zero addr = []
  all_positions (suc regions) addr = or_return (m.query addr) [] (λ r.
      if leb (next_region r) addr
      then region_positions r
      else region_positions r ++ all_positions regions (next_region r))
