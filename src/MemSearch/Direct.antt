-- ===== src/MemSearch/Direct.antt =====
-- `CheatReadMem`, `CheatWriteMem` and `CheatMappings` of agent/source/handlers/memsearch.cpp. The
-- write, `%lx` and the execute permission's bit are parameters.
use switch_mcp.Base.{
  ℕ, ◌+◌, ◌%◌, ◌^◌, ◌≤◌, bit_and, Bool, true, false, ◌||◌, List, [], ◌∷◌, ◌++◌, Option, none, some,
  leb, ◌==◌, if◌then◌else◌, length, Bytes, codes, is_empty, arith, Bool-cases, inl, inr,
}
use switch_mcp.Json.Value.{
  Value, boolean, int, string, as_int, empty_object, empty_array, set, push,
}
use switch_mcp.Wire.Words.{to_i32, lt32}
use switch_mcp.Agent.{Request, Reply, empty_reply, field_of, put}
use switch_mcp.MemSearch.{
  Search, MemoryInfo, CheatService, Handled, failed, on_attached, ensure_cheat_process,
  get_mappings, scannable_region,
}

-- `len`, with the default for what is out of range.
unfoldable pub read_length : Request → ℕ
read_length req =
    let len = to_i32 (as_int (field_of req "len") 256) in
    if lt32 len 1 || lt32 (2 ^ 20) len then 256 else len

abbrev pub read_reply : ℕ → ℕ → Option Bytes → Search → Handled
read_reply addr len none s =
    failed "read_failed" "ReadCheatProcessMemory failed (address not mapped?)" s
read_reply addr len (some bs) s = (
  true,
  record (put "paused" (boolean false) (put "len" (int len) (put "addr" (int addr) empty_reply))) {
    out = bs;
  },
  s,
)

-- What the loop of `CheatMappings` has come to.
pub record Mapped : Type 0 where
  pub entries : Value
  pub shown : ℕ
  pub scannable : ℕ
  pub total_rw : ℕ

unfoldable pub mappings_limit : Request → ℕ
mappings_limit req =
    let limit = to_i32 (as_int (field_of req "limit") 60) in
    if lt32 limit 1 || lt32 500 limit then 60 else limit

module _ (svc : CheatService) where
  unfoldable pub read_attached : Request → Search → Handled
  read_attached req s =
      let addr = as_int (field_of req "addr") 0 in
      let len = read_length req in
      if addr == 0
      then failed "bad_arg" "missing addr" s
      else read_reply addr len (svc.read_mem addr len) s

  unfoldable pub cheat_read_mem : Request → Search → Handled
  cheat_read_mem req s = on_attached (read_attached req) (ensure_cheat_process svc s)

  unfoldable pub write_attached : (ℕ → Bytes → Bool) → Request → Search → Handled
  write_attached write_mem req s =
      let addr = as_int (field_of req "addr") 0 in
      if addr == 0
      then failed "bad_arg" "missing addr" s
      else if is_empty req.payload
      then failed "bad_arg" "no payload to write" s
      else if write_mem addr req.payload
      then (true, put "addr" (int addr) (put "written" (int (length req.payload)) empty_reply), s)
      else failed "write_failed" "WriteCheatProcessMemory failed" s

  unfoldable pub cheat_write_mem : (ℕ → Bytes → Bool) → Request → Search → Handled
  cheat_write_mem write_mem req s =
      on_attached (write_attached write_mem req) (ensure_cheat_process svc s)

  abbrev pub flag : ℕ → ℕ → ℕ → ℕ
  flag perm bit letter = if bit_and perm bit == 0 then b'-' else letter

  abbrev pub mapping_json : (ℕ → Bytes) → ℕ → MemoryInfo → Value
  mapping_json print_hex perm_x mi =
      let perm =
        flag mi.perm svc.perm_r b'r'
        ∷ flag mi.perm svc.perm_w b'w'
        ∷ flag mi.perm perm_x b'x'
        ∷ [] in
      set
        (set
          (set
            (set (set empty_object (codes "addr") (string (codes "0x" ++ print_hex mi.addr)))
              (codes "size") (string (codes "0x" ++ print_hex mi.size)))
            (codes "perm") (string perm))
          (codes "type") (int (mi.mem_type % 256)))
        (codes "scannable") (boolean (scannable_region svc mi))

  abbrev pub count_mapping : MemoryInfo → Mapped → Mapped
  count_mapping mi m =
      if scannable_region svc mi
      then record m { scannable = m.scannable + 1; total_rw = (m.total_rw + mi.size) % 2 ^ 64 }
      else m

  unfoldable pub list_mappings : (ℕ → Bytes) → ℕ → ℕ → List MemoryInfo → Mapped → Mapped
  list_mappings print_hex perm_x limit [] m = m
  list_mappings print_hex perm_x limit (mi ∷ maps) m =
      let n = count_mapping mi m in
      let n' = if leb limit n.shown then n else record n {
        shown = n.shown + 1;
        entries = push n.entries (mapping_json print_hex perm_x mi);
      } in
      list_mappings print_hex perm_x limit maps n'

  abbrev pub mappings_reply : ℕ → Mapped → Reply
  mappings_reply total m = put "mappings" m.entries (
      put "shown" (int m.shown) (
        put "scannable_bytes" (int m.total_rw) (
          put "scannable_mappings" (int m.scannable)
            (put "total_mappings" (int total) empty_reply))))

  abbrev pub mappings_received :
      (ℕ → Bytes) → ℕ → Request → Option (List MemoryInfo) → Search → Handled
  mappings_received print_hex perm_x req none s =
      failed "ipc_failed" "GetCheatProcessMappings failed" s
  mappings_received print_hex perm_x req (some maps) s = (
    true,
    mappings_reply (length maps) (
        list_mappings print_hex perm_x (mappings_limit req) maps
          (record { entries = empty_array; shown = 0; scannable = 0; total_rw = 0 })),
    s,
  )

  unfoldable pub cheat_mappings : (ℕ → Bytes) → ℕ → Request → Search → Handled
  cheat_mappings print_hex perm_x req s =
      on_attached (mappings_received print_hex perm_x req (get_mappings svc))
        (ensure_cheat_process svc s)

-- Whatever `len` a request asks for, a read is of at least one byte and at most 1 MiB.
pub read_length_bounds : (req : Request) → (1 ≤ read_length req) × (read_length req ≤ 2 ^ 20)
unfolding read_length
read_length_bounds req =
    let len = to_i32 (as_int (field_of req "len") 256) in
    elim (Bool-cases (lt32 len 1 || lt32 (2 ^ 20) len)) [
      | inl e ↦ rw e (omega arith, omega arith)
      | inr e ↦ rw e (ground (arith, e), ground (arith, e))
    ]
