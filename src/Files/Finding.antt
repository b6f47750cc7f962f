-- ===== src/Files/Finding.antt =====
-- `WalkFind` and `FsFind` of agent/source/handlers/fs.cpp.
pub mod Bounds
use switch_mcp.Base.{
  ℕ, zero, suc, ◌+◌, Bool, true, false, not, ◌&&◌, ◌||◌, List, [], ◌∷◌, ◌++◌, Option, none, some,
  ltb, leb, ◌==◌, if◌then◌else◌, Bytes, codes, eq, is_empty, finds,
}
use switch_mcp.Json.Value.{
  Value, boolean, int, string, as_bool, as_string, empty_object, empty_array, set, push,
}
use switch_mcp.Agent.{
  Request, Reply, empty_reply, field_of, put, refuse, or_return, Answer, bounded_int,
}
use switch_mcp.Files.{EntryKind, directory, regular, unknown, other, Entry, Stat, Storage}
use switch_mcp.Files.Reading.{requested, statted, dir_or_file, is_dot, child}

abbrev pub max_walk_depth : ℕ
max_walk_depth = 12

abbrev pub max_scan : ℕ
max_scan = 40000

-- `Lower`
abbrev pub lower : Bytes → Bytes
lower [] = []
lower (c ∷ cs) = (if leb b'A' c && leb c b'Z' then c + 32 else c) ∷ lower cs

-- The constants of a walk, in `FindCtx`.
pub record Wanted : Type 0 where
  pub needle : Bytes
  pub files_only : Bool
  pub limit : ℕ

-- The rest of `FindCtx`.
pub record Walk : Type 0 where
  pub entries : Value
  pub found : ℕ
  pub scanned : ℕ

abbrev pub is_full : Wanted → Walk → Bool
is_full want w = leb want.limit w.found || leb max_scan w.scanned

abbrev pub child_of : Bytes → Bytes → Bytes
child_of logical name = if eq logical (codes "/") then b'/' ∷ name else child logical name

module _ (storage : Storage) (d : storage.Disk) (want : Wanted) where
  open storage use {stat, opendir}

  abbrev pub walks_into : EntryKind → Bytes → Bool
  walks_into directory dev = true
  walks_into unknown dev = statted (stat dev d)
  walks_into regular dev = false
  walks_into other dev = false

  abbrev pub with_size : Bool → Option Stat → Value → Value
  with_size true st e = e
  with_size false none e = e
  with_size false (some st) e = set e (codes "size") (int st.size)

  abbrev pub is_wanted : Entry → Bool → Bool
  is_wanted e is_dir =
      (is_empty want.needle || finds want.needle (lower e.name)) && not (want.files_only && is_dir)

  -- The entry, when it is one of those that are looked for.
  abbrev pub note_entry : Entry → Bytes → Bytes → Bool → Walk → Walk
  note_entry e dev logical is_dir w =
      let described =
        set (set empty_object (codes "path") (string logical)) (codes "type")
          (dir_or_file is_dir) in
      if is_wanted e is_dir
      then record w {
        entries = push w.entries (with_size is_dir (stat dev d) described);
        found = w.found + 1;
      }
      else w

  -- One entry; `visit` walks a directory below.
  abbrev pub visit_entry : (Bytes → Bytes → Walk → Walk) → Bytes → Bytes → Entry → Walk → Walk
  visit_entry visit dev logical e w =
      let child_dev = child dev e.name in
      let child_log = child_of logical e.name in
      let is_dir = walks_into e.kind child_dev in
      let noted = note_entry e child_dev child_log is_dir (record w { scanned = w.scanned + 1 }) in
      if is_dir then visit child_dev child_log noted else noted

  -- The loop over a directory.
  unfoldable pub walk_entries :
      (Bytes → Bytes → Walk → Walk) → Bytes → Bytes → List Entry → Walk → Walk
  walk_entries visit dev logical [] w = w
  walk_entries visit dev logical (e ∷ es) w =
      if is_full want w
      then w
      else walk_entries visit dev logical es
          (if is_dot e.name then w else visit_entry visit dev logical e w)

  -- `WalkFind`, with the levels that are left: at depth 0 there are 13.
  unfoldable pub walk_find : ℕ → Bytes → Bytes → Walk → Walk
  walk_find zero dev logical w = w
  walk_find (suc levels) dev logical w =
      if is_full want w
      then w
      else or_return (opendir dev d) w (λ es. walk_entries (walk_find levels) dev logical es w)

abbrev pub told_if : Bool → Reply → Reply → Reply
told_if b told r = if b then told else r

unfoldable pub find_reply : Wanted → Walk → Reply
find_reply want w =
    let counted = put "count" (int w.found) (put "scanned" (int w.scanned) empty_reply) in
    let limited =
      if leb want.limit w.found then put "truncated_by_limit" (boolean true) counted else counted in
    let capped =
      if leb max_scan w.scanned
      then put "truncated_by_scan_cap" (boolean true) limited
      else limited in
    put "matches" w.entries capped

unfoldable pub wanted_of : Request → Wanted
wanted_of req = record {
  needle = lower (as_string (field_of req "name_contains") []);
  files_only = as_bool (field_of req "files_only") false;
  limit = bounded_int req "limit" 200 1 2000;
}

abbrev pub nothing_found : Walk
nothing_found = record { entries = empty_array; found = 0; scanned = 0 }

unfoldable pub fs_find : (storage : Storage) → Bool → Request → storage.Disk → Answer
fs_find storage mounted req d =
    or_return (requested mounted req (codes "/"))
      (refuse "bad_path" "invalid path or unknown device")
      (λ (dev, _).
        let want = wanted_of req in
        (
          true,
          find_reply want (
              walk_find storage d want (suc max_walk_depth) dev
                (as_string (field_of req "path") (codes "/")) nothing_found),
        ))
