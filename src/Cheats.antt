-- ===== src/Cheats.antt =====
-- agent/source/handlers/cheat.cpp. What the commands of the cheat service return is a parameter; the
-- numbers are those that the source sends.
use switch_mcp.Base.{
  ℕ, ◌-◌, ◌^◌, Bool, true, false, not, List, [], ◌∷◌, String, Option, none, some, ltb, ◌==◌,
  if◌then◌else◌, take, Bytes, codes,
}
use switch_mcp.Json.Value.{
  Value, boolean, int, string, as_int, empty_object, empty_array, set, push,
}
use switch_mcp.Wire.Words.{to_i32}
use switch_mcp.Agent.{Request, Reply, empty_reply, field_of, put, fail, c_str}

pub record CheatEntry : Type 0 where
  pub enabled : ℕ
  pub cheat_id : ℕ
  pub readable_name : Bytes
  pub num_opcodes : ℕ

-- `serviceDispatchOut`, `serviceDispatchIn` and the two that have both, by their command numbers.
pub record CheatIpc : Type 0 where
  pub get_service : Bool
  pub ask : ℕ → Option ℕ
  pub tell : ℕ → ℕ → Bool
  pub get_cheats : ℕ → ℕ → ℕ → Option (ℕ × List CheatEntry)
  pub freeze : ℕ → ℕ → ℕ → Option ℕ

-- A handler's verdict and reply, and `g_cht_open` behind it.
abbrev pub Handled : Type 0
Handled = Bool × Reply × Bool

abbrev pub failed : String → String → Handled
failed code message = (false, fail code (codes message), true)

abbrev pub put_if : String → Option ℕ → Reply → Reply
put_if key none r = r
put_if key (some n) r = put key (int n) r

abbrev pub max_cheats : ℕ
max_cheats = 128

abbrev pub is_set : ℕ → Bool
is_set n = not (n == 0)

abbrev pub cheat_json : CheatEntry → Value
cheat_json e =
    set
      (set
        (set (set empty_object (codes "cheat_id") (int e.cheat_id)) (codes "enabled")
          (boolean (is_set e.enabled)))
        (codes "name") (string (c_str (take 63 e.readable_name))))
      (codes "opcode_count") (int e.num_opcodes)

unfoldable pub push_cheats : List CheatEntry → Value → Value
push_cheats [] list = list
push_cheats (e ∷ es) list = push_cheats es (push list (cheat_json e))

module _ (ipc : CheatIpc) where
  -- `OpenCht`, and the handler behind it.
  unfoldable pub with_service : Bool → Handled → Handled
  with_service is_open rest =
      if is_open
      then rest
      else if not ipc.get_service
      then (false, fail "no_service" (codes "dmnt:cht unavailable (cheat module off?)"), false)
      else rest

  abbrev pub status_reply : Option ℕ → Handled
  status_reply none = failed "ipc_failed" "HasCheatProcess failed"
  status_reply (some has) =
      let told = put "has_cheat_process" (boolean (is_set has)) empty_reply in
      (
        true,
        (if is_set has
            then put_if "frozen_count" (ipc.ask 65200) (put_if "cheat_count" (ipc.ask 65100) told)
            else told),
        true,
      )

  unfoldable pub cheat_status : Bool → Handled
  cheat_status is_open = with_service is_open (status_reply (ipc.ask 65000))

  -- The buffer has room for `total` entries, and for one if there are none.
  abbrev pub listed_cheats : ℕ → Option (ℕ × List CheatEntry) → Handled
  listed_cheats total none = failed "ipc_failed" "GetCheats failed"
  listed_cheats total (some (out_count, entries)) =
      let size = if total == 0 then 1 else total in
      let shown = if ltb out_count size then out_count else size in
      (true, put "cheats" (push_cheats (take shown entries) empty_array) empty_reply, true)

  abbrev pub counted_cheats : Option ℕ → Handled
  counted_cheats none = failed "ipc_failed" "GetCheatCount failed"
  counted_cheats (some count) =
      let total = if ltb max_cheats count then max_cheats else count in
      listed_cheats total (ipc.get_cheats 65101 total 0)

  unfoldable pub cheat_list : Bool → Handled
  cheat_list is_open = with_service is_open (counted_cheats (ipc.ask 65100))

  unfoldable pub cheat_toggle : Request → Bool → Handled
  cheat_toggle req is_open =
      let id = to_i32 (as_int (field_of req "cheat_id") (2 ^ 64 - 1)) in
      with_service is_open (
        if not (ipc.tell 65103 id)
        then failed "ipc_failed" "ToggleCheat failed"
        else (true, put "cheat_id" (int id) (put "ok" (boolean true) empty_reply), true))

  abbrev pub frozen : Option ℕ → Handled
  frozen none = failed "ipc_failed" "EnableFrozenAddress failed"
  frozen (some value) =
      (true, put "frozen_value" (int value) (put "ok" (boolean true) empty_reply), true)

  unfoldable pub freeze_address : Request → Bool → Handled
  freeze_address req is_open =
      with_service is_open (
        frozen
          (ipc.freeze 65203 (as_int (field_of req "addr") 0) (as_int (field_of req "width") 4)))

  unfoldable pub unfreeze_address : Request → Bool → Handled
  unfreeze_address req is_open = with_service is_open (
      if not (ipc.tell 65204 (as_int (field_of req "addr") 0))
      then failed "ipc_failed" "DisableFrozenAddress failed"
      else (true, put "ok" (boolean true) empty_reply, true))
