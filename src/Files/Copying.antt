-- ===== src/Files/Copying.antt =====
-- `CopyTree`, `BackupSave` and `RestoreSave` of agent/source/handlers/fs.cpp.
pub mod Kept
use switch_mcp.Base.{
  ℕ, zero, suc, ◌+◌, ◌-◌, ◌*◌, ◌/◌, Bool, true, false, not, ◌&&◌, ◌||◌, List, [], ◌∷◌, ◌++◌, String,
  Option, none, some, ◌==◌, if◌then◌else◌, length, take, drop, Bytes, codes,
}
use switch_mcp.Json.Value.{Value, boolean, string, as_int, as_string}
use switch_mcp.Agent.{Request, Reply, empty_reply, field_of, put, fail, c_str}
use switch_mcp.HexText.{strtoull_hex}
use switch_mcp.Files.{Entry, Stat, Opened, Storage}
use switch_mcp.Files.Reading.{is_dot, child}

abbrev pub copy_buffer_size : ℕ
copy_buffer_size = 64 * 1024

module _ (storage : Storage) where
  open storage use {Disk, stat, opendir, open_read, open_truncated, write_at, mkdir}

  -- The rounds of the `fread` loop, with what is left to read. What `fwrite` returns is ignored.
  unfoldable pub copy_rounds : ℕ → Bytes → ℕ → Bytes → Disk → Disk
  copy_rounds zero dst at text d = d
  copy_rounds (suc rounds) dst at text d =
      let (w, d') = write_at dst at (take copy_buffer_size text) d in
      copy_rounds rounds dst (at + w) (drop copy_buffer_size text) d'

  abbrev pub rounds_of : Bytes → ℕ
  rounds_of text = (length text + (copy_buffer_size - 1)) / copy_buffer_size

  abbrev pub copy_opened : Option Opened → Bytes → Bool × Disk → Bool × Disk
  copy_opened none dst (opened, d) = (false, d)
  copy_opened (some f) dst (false, d) = (false, d)
  copy_opened (some f) dst (true, d) = (true, copy_rounds (rounds_of f.text) dst 0 f.text d)

  -- Both files are opened before either is looked at.
  unfoldable pub copy_file : Bytes → Bytes → Disk → Bool × Disk
  copy_file src dst d = copy_opened (open_read src d) dst (open_truncated dst d)

  -- The rest of the loop behind one entry. `none` says that the fuel ran out.
  abbrev pub and_rest :
      Bool → Option (Bool × Disk) → (Bool → Disk → Option (Bool × Disk)) → Option (Bool × Disk)
  and_rest ok none rest = none
  and_rest ok (some (ok', d)) rest = rest (ok && ok') d

  abbrev pub copy_entry :
      (Bytes → Bytes → Disk → Option (Bool × Disk))
      → Bytes
      → Bytes
      → Disk
      → Option Stat
      → Option (Bool × Disk)
  copy_entry visit src dst d none = some (true, d)
  copy_entry visit src dst d (some st) =
      if st.is_dir then visit src dst d else some (copy_file src dst d)

  unfoldable pub copy_entries :
      (Bytes → Bytes → Disk → Option (Bool × Disk))
      → Bytes
      → Bytes
      → List Entry
      → Bool
      → Disk
      → Option (Bool × Disk)
  copy_entries visit src dst [] ok d = some (ok, d)
  copy_entries visit src dst (e ∷ es) ok d =
      let s = child src e.name in
      if is_dot e.name
      then copy_entries visit src dst es ok d
      else and_rest ok (copy_entry visit s (child dst e.name) d (stat s d))
          (copy_entries visit src dst es)

  abbrev pub copy_listed :
      (Bytes → Bytes → Disk → Option (Bool × Disk))
      → Bytes
      → Bytes
      → Disk
      → Option (List Entry)
      → Option (Bool × Disk)
  copy_listed visit src dst d none = some (false, d)
  copy_listed visit src dst d (some es) = copy_entries visit src dst es true d

  -- `CopyTree`: the fuel bounds the depth.
  unfoldable pub copy_tree : ℕ → Bytes → Bytes → Disk → Option (Bool × Disk)
  copy_tree zero src dst d = none
  copy_tree (suc fuel) src dst d =
      let d' = (mkdir dst d).1 in copy_listed (copy_tree fuel) src dst d' (opendir src d')

  -- libnx's mounts of save data: the title, and the user's two words.
  pub record SaveDevice : Type 0 where
    pub mount_save : ℕ → ℕ → ℕ → Disk → Bool × Disk
    pub commit : Disk → Bool × Disk
    pub unmount : Disk → Disk

  abbrev pub Copied : Type 0
  Copied = Bool × Reply × Disk

  abbrev pub failing : String → String → Disk → Copied
  failing code message d = (false, fail code (codes message), d)

  abbrev pub save_folder : Request → Bytes
  save_folder req = codes "sdmc:/switch-agentd/saves/" ++ as_string (field_of req "tid") []

  abbrev pub title_of : Request → ℕ
  title_of req = strtoull_hex (c_str (as_string (field_of req "tid") (codes "0")))

  abbrev pub mount_for : SaveDevice → Request → Disk → Bool × Disk
  mount_for dev req d =
      dev.mount_save (title_of req) (as_int (field_of req "uid_lo") 0)
        (as_int (field_of req "uid_hi") 0) d

  abbrev pub backed_up : SaveDevice → Bytes → Option (Bool × Disk) → Option Copied
  backed_up dev dst none = none
  backed_up dev dst (some (ok, d)) =
      if ok
      then some (true, put "path" (string dst) (put "ok" (boolean true) empty_reply), dev.unmount d)
      else some (failing "io_error" "backup copy failed" (dev.unmount d))

  abbrev pub backup_mounted : ℕ → SaveDevice → Request → Bool × Disk → Option Copied
  backup_mounted fuel dev req (false, d) = some (failing "mount_failed" "cannot mount save data" d)
  backup_mounted fuel dev req (true, d) =
      let made =
        (mkdir (codes "sdmc:/switch-agentd/saves") ((mkdir (codes "sdmc:/switch-agentd") d).1)).1 in
      backed_up dev (save_folder req) (copy_tree fuel (codes "save:/") (save_folder req) made)

  unfoldable pub backup_save : ℕ → SaveDevice → Request → Disk → Option Copied
  backup_save fuel dev req d =
      if title_of req == 0
      then some (failing "bad_arg" "missing tid" d)
      else backup_mounted fuel dev req (mount_for dev req d)

  abbrev pub restored : SaveDevice → Bool × Disk → Copied
  restored dev (true, d) = (true, put "ok" (boolean true) empty_reply, dev.unmount d)
  restored dev (false, d) = failing "io_error" "restore/commit failed" (dev.unmount d)

  -- The commit is asked for only after a complete copy.
  abbrev pub committed : SaveDevice → Option (Bool × Disk) → Option Copied
  committed dev none = none
  committed dev (some (ok, d)) = some (restored dev (if ok then dev.commit d else (false, d)))

  abbrev pub restore_mounted : ℕ → SaveDevice → Request → Bool × Disk → Option Copied
  restore_mounted fuel dev req (false, d) = some (failing "mount_failed" "cannot mount save data" d)
  restore_mounted fuel dev req (true, d) =
      committed dev (copy_tree fuel (save_folder req) (codes "save:/") d)

  unfoldable pub restore_save : ℕ → SaveDevice → Request → Disk → Option Copied
  restore_save fuel dev req d =
      if title_of req == 0
      then some (failing "bad_arg" "missing tid" d)
      else restore_mounted fuel dev req (mount_for dev req d)
