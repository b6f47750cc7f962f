-- ===== src/Saves.antt =====
-- agent/source/handlers/savedata.cpp. The calls of libnx are a parameter, and so is the reader's cursor:
-- the batches that it yields before it fails or is empty.
pub mod Mounting
use switch_mcp.Base.{
  ℕ, ◌+◌, Bool, true, false, not, ◌&&◌, ◌||◌, List, [], ◌∷◌, ◌++◌, String, Option, none, some, ltb,
  leb, ◌==◌, if◌then◌else◌, take, Bytes, codes, eq, is_empty,
}
use switch_mcp.Json.Value.{
  Value, boolean, int, string, as_string, empty_object, empty_array, set, push,
}
use switch_mcp.Agent.{
  Request, Reply, empty_reply, field_of, put, fail, refuse, or_return, Answer, bounded_int, c_str,
}
use switch_mcp.HexText.{strtoull_hex, padded_hex}

-- `FsSaveDataType`, with any other value.
pub data SaveType : Type 0 where
  system account bcat device temporary cache system_bcat unlisted : SaveType

-- `FsSaveDataSpaceId`, with any other value.
pub data Space : Type 0 where
  system user sd_system temporary sd_user proper_system safe_mode unlisted : Space

abbrev pub save_type_name : SaveType → Bytes
save_type_name SaveType.system = codes "system"
save_type_name SaveType.account = codes "account"
save_type_name SaveType.bcat = codes "bcat"
save_type_name SaveType.device = codes "device"
save_type_name SaveType.temporary = codes "temporary"
save_type_name SaveType.cache = codes "cache"
save_type_name SaveType.system_bcat = codes "system_bcat"
save_type_name SaveType.unlisted = codes "unknown"

abbrev pub space_name : Space → Bytes
space_name Space.system = codes "system"
space_name Space.user = codes "user"
space_name Space.sd_system = codes "sd_system"
space_name Space.temporary = codes "temporary"
space_name Space.sd_user = codes "sd_user"
space_name Space.proper_system = codes "proper_system"
space_name Space.safe_mode = codes "safe_mode"
space_name Space.unlisted = codes "unknown"

pub record SaveInfo : Type 0 where
  pub save_data_id : ℕ
  pub save_type : SaveType
  pub space : Space
  pub application_id : ℕ
  pub system_save_data_id : ℕ
  pub size : ℕ
  pub index : ℕ
  pub uid_0 : ℕ
  pub uid_1 : ℕ

-- `SetHex64`
abbrev pub set_hex64 : Value → String → ℕ → Value
set_hex64 obj key v = set obj (codes key) (string (padded_hex 16 v))

abbrev pub set_id : Value → String → ℕ → Value
set_id obj key v = if v == 0 then obj else set_hex64 obj key v

abbrev pub save_json : SaveInfo → Value
save_json s =
    let named =
      set (set_hex64 empty_object "save_data_id" s.save_data_id) (codes "type")
        (string (save_type_name s.save_type)) in
    let placed = set named (codes "space") (string (space_name s.space)) in
    let owned =
      set_id (set_id placed "application_id" s.application_id) "system_save_data_id"
        s.system_save_data_id in
    let sized = set (set owned (codes "size") (int s.size)) (codes "index") (int s.index) in
    if (s.uid_0 == 0) && (s.uid_1 == 0)
    then sized
    else set_hex64 (set_hex64 sized "uid_hi" s.uid_0) "uid_lo" s.uid_1

pub record Listing : Type 0 where
  pub saves : Value
  pub total : ℕ
  pub listed : ℕ

abbrev pub is_asked : Bytes → SaveInfo → Bool
is_asked want s = is_empty want || eq want (save_type_name s.save_type)

-- The loop over one batch.
unfoldable pub list_batch : Bytes → ℕ → List SaveInfo → Listing → Listing
list_batch want limit [] l = l
list_batch want limit (s ∷ ss) l =
    let counted = record l { total = l.total + 1 } in
    list_batch want limit ss (
      if not (is_asked want s) || leb limit l.listed
      then counted
      else record counted { listed = l.listed + 1; saves = push l.saves (save_json s) })

-- The loop over the reader.
unfoldable pub list_batches : Bytes → ℕ → List (List SaveInfo) → Listing → Listing
list_batches want limit [] l = l
list_batches want limit ([] ∷ batches) l = l
list_batches want limit ((s ∷ ss) ∷ batches) l =
    list_batches want limit batches (list_batch want limit (s ∷ ss) l)

abbrev pub list_reply : Bytes → Listing → Reply
list_reply want l =
    let counted = put "listed" (int l.listed) (put "total" (int l.total) empty_reply) in
    put "saves" l.saves (
      if ltb l.listed l.total && is_empty want
      then put "truncated" (boolean true) counted
      else counted)

-- `none` where the reader cannot be opened.
unfoldable pub save_list : Option (List (List SaveInfo)) → Request → Answer
save_list reader req =
    let want = as_string (field_of req "type") [] in
    or_return reader (refuse "fs_failed" "cannot open the save-data info reader") (λ batches. (
      true,
      list_reply want (
          list_batches want (bounded_int req "limit" 400 1 2000) batches
            (record { saves = empty_array; total = 0; listed = 0 })),
    ))

-- What is mounted under the name of the save device: a title's save, read-only, or a system save.
pub data Mounted : Type 0 where
  read_only : ℕ → ℕ → ℕ → Mounted
  of_system : Space → ℕ → ℕ → ℕ → Mounted

-- `g_save_mounted`, and the device behind it.
pub record SaveState : Type 0 where
  pub flag : Bool
  pub device : Option Mounted

-- The mounts' result codes, 0 for success; `not_found` is libnx's error.
pub record MountService : Type 0 where
  pub mount : Mounted → ℕ
  pub not_found : ℕ

-- A handler's verdict and reply, and the state behind it.
abbrev pub Handled : Type 0
Handled = Bool × Reply × SaveState

abbrev pub hex_field : Request → String → ℕ
hex_field req key = strtoull_hex (c_str (as_string (field_of req key) (codes "0")))

-- The spaces that are tried.
abbrev pub spaces_of : Bytes → List Space
spaces_of space =
    if eq space (codes "system")
    then Space.system ∷ []
    else if eq space (codes "sd_system")
    then Space.sd_system ∷ []
    else if eq space (codes "proper_system")
    then Space.proper_system ∷ []
    else Space.system ∷ Space.sd_system ∷ Space.proper_system ∷ []

-- The buffer of the message has 256 bytes.
unfoldable pub mount_message : ℕ → Bytes
mount_message rc = take 255 (
    codes "cannot mount that save (rc=0x"
    ++ (padded_hex 8 rc
        ++ (codes "). Common causes: the system already holds it open "
            ++ (226
                ∷ 128
                ∷ 148
                ∷ codes
                    " settings, account and similar system saves are mounted by their owning service and cannot be opened twice; a wrong uid for an account save (take it from save.list); or the title simply has no save data."))))

abbrev pub drop_mount : SaveState → SaveState
drop_mount s = record s { device = none }

module _ (svc : MountService) where
  -- A mount that is tried: the code, and the state behind it.
  abbrev pub try_mount : Mounted → SaveState → ℕ × SaveState
  try_mount m s = if svc.mount m == 0 then (0, record s { device = some m }) else (svc.mount m, s)

  -- The loop over the spaces, from the code so far.
  unfoldable pub mount_spaces : List Space → ℕ → ℕ → ℕ → ℕ → SaveState → ℕ × SaveState
  mount_spaces [] id uid_0 uid_1 rc s = (rc, s)
  mount_spaces (space ∷ rest) id uid_0 uid_1 rc s =
      let tried = try_mount (of_system space id uid_0 uid_1) s in
      let further = mount_spaces rest id uid_0 uid_1 tried.0 s in
      if tried.0 == 0 then tried else further

  unfoldable pub mount_done : ℕ × SaveState → Handled
  mount_done (rc, s) =
      if rc == 0
      then (
        true,
        put "note" (string (codes "browse with fs.list / fs.read using device=\"save\"")) (
            put "mode" (string (codes "read-only"))
              (put "device" (string (codes "save")) (put "ok" (boolean true) empty_reply))),
        record s { flag = true },
      )
      else (false, fail "mount_failed" (mount_message rc), s)

  unfoldable pub save_mount : Request → SaveState → Handled
  save_mount req s =
      let dropped = drop_mount s in
      let tid = hex_field req "tid" in
      let id = hex_field req "system_save_data_id" in
      let uid_0 = hex_field req "uid_hi" in
      let uid_1 = hex_field req "uid_lo" in
      if not (id == 0)
      then mount_done (
          mount_spaces (spaces_of (as_string (field_of req "space") [])) id uid_0 uid_1
            svc.not_found dropped)
      else if tid == 0
      then (false, fail "bad_arg" (codes "need tid or system_save_data_id"), dropped)
      else mount_done (try_mount (read_only tid uid_0 uid_1) dropped)

unfoldable pub save_unmount : SaveState → Handled
save_unmount s =
    (true, put "ok" (boolean true) empty_reply, record s { flag = false; device = none })
