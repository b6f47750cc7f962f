-- ===== src/Files/Changing.antt =====
-- `RequireWritableSd`, `FsWrite`, `FsDelete`, `FsMkdir` and `FsRename` of
-- agent/source/handlers/fs.cpp, and `FsCopy` of agent/source/handlers/system.cpp.
pub mod Confined
use switch_mcp.Base.{
  ℕ, zero, suc, ◌+◌, ◌-◌, ◌*◌, ◌/◌, take, drop, length, [], ℕ, Bool, true, false, not, ◌&&◌, ◌||◌,
  List, [], ◌∷◌, ◌++◌, String, Option, none, some, ◌==◌, if◌then◌else◌, Bytes, codes, eq,
}
use switch_mcp.Json.Value.{Value, boolean, int, as_int, as_string}
use switch_mcp.Agent.{Request, Reply, empty_reply, field_of, put, fail, or_return, Answer}
use switch_mcp.Paths.{resolve_sd_path}
use switch_mcp.Files.{Stat, Storage}
use switch_mcp.Files.Reading.{seek_position}

abbrev pub is_writable_device : Bytes → Bool
is_writable_device device = eq device (codes "sd") || eq device (codes "sdmc")

abbrev pub chunk_size : ℕ
chunk_size = 64 * 1024

module _ (storage : Storage) where
  open storage use {
    Disk, stat, open_read, open_truncated, open_update, write_at, mkdir, rmdir, remove, rename,
  }

  -- A handler's verdict and reply, and the disk behind it.
  abbrev pub Changed : Type 0
  Changed = Bool × Reply × Disk

  abbrev pub failing : String → Bytes → Disk → Changed
  failing code message d = (false, fail code message, d)

  -- `RequireWritableSd`, and the rest of the handler behind it.
  unfoldable pub require_writable_sd : Request → Disk → (Bytes → Changed) → Changed
  require_writable_sd req d rest =
      let device = as_string (field_of req "device") (codes "sd") in
      if not (is_writable_device device)
      then failing "read_only_device"
          (codes "device '"
            ++ (device
                ++ codes
                    "' is mounted read-only; only the SD card (device=\"sd\") can be written to"))
          d
      else or_return (resolve_sd_path (as_string (field_of req "path") []))
          (failing "bad_path" (codes "invalid or unsafe path") d) rest

  abbrev pub written : ℕ × Disk → Changed
  written (w, d) = (true, put "written" (int w) empty_reply, d)

  abbrev pub with_open : Bytes → ℕ → Bytes → Bool × Disk → Changed
  with_open dev offset payload (false, d) =
      failing "io_error" (codes "cannot open file for writing") d
  with_open dev offset payload (true, d) = written (write_at dev (seek_position offset) payload d)

  -- The second attempt of `FsWrite`, for a file that is not there yet.
  abbrev pub reopened : Bytes → Bool × Disk → Bool × Disk
  reopened dev (true, d) = (true, d)
  reopened dev (false, d) = open_truncated dev d

  unfoldable pub write_path : Request → Disk → Bytes → Changed
  write_path req d dev =
      let offset = as_int (field_of req "offset") 0 in
      with_open dev offset req.payload
        (if offset == 0 then open_truncated dev d else reopened dev (open_update dev d))

  unfoldable pub fs_write : Request → Disk → Changed
  fs_write req d = require_writable_sd req d (write_path req d)

  abbrev pub or_io_error : Bytes → Bool × Disk → Changed
  or_io_error message (false, d) = failing "io_error" message d
  or_io_error message (true, d) = (true, put "ok" (boolean true) empty_reply, d)

  unfoldable pub delete_path : Disk → Bytes → Changed
  delete_path d dev =
      or_return (stat dev d) (failing "not_found" (codes "no such path") d) (λ st.
        or_io_error (codes "delete failed") (if st.is_dir then rmdir dev d else remove dev d))

  unfoldable pub fs_delete : Request → Disk → Changed
  fs_delete req d = require_writable_sd req d (delete_path d)

  unfoldable pub fs_mkdir : Request → Disk → Changed
  fs_mkdir req d =
      require_writable_sd req d (λ dev. or_io_error (codes "mkdir failed") (mkdir dev d))

  unfoldable pub fs_rename : Request → Disk → Changed
  fs_rename req d =
      let bad = failing "bad_path" (codes "invalid or unsafe path") d in
      if not (is_writable_device (as_string (field_of req "device") (codes "sd")))
      then failing "read_only_device"
          (codes "rename is only possible on the SD card (device=\"sd\")") d
      else or_return (resolve_sd_path (as_string (field_of req "from") [])) bad (λ from.
        or_return (resolve_sd_path (as_string (field_of req "to") [])) bad
          (λ to. or_io_error (codes "rename failed") (rename from to d)))

  -- The loop of `FsCopy`: so many rounds of `fread`, each written behind what was written before. The
  -- count is the offset reached.
  unfoldable pub duplicate_rounds : ℕ → Bytes → ℕ → Bytes → Disk → ℕ × Disk
  duplicate_rounds zero dst at text d = (at, d)
  duplicate_rounds (suc rounds) dst at text d =
      let (w, d') = write_at dst at (take chunk_size text) d in
      duplicate_rounds rounds dst (at + w) (drop chunk_size text) d'

  -- What the source holds once the destination is open is copied.
  abbrev pub duplicated : Bytes → Bytes → Bool × Disk → Changed
  duplicated from to (false, d) = failing "io_error" (codes "cannot open destination") d
  duplicated from to (true, d) =
      let text = or_return (open_read from d) [] (λ f. f.text) in
      let (total, d') =
        duplicate_rounds ((length text + (chunk_size - 1)) / chunk_size) to 0 text d in
      (true, put "bytes" (int total) (put "ok" (boolean true) empty_reply), d')

  unfoldable pub duplicate_path : Disk → Bytes → Bytes → Changed
  duplicate_path d from to =
      or_return (open_read from d) (failing "not_found" (codes "source not found") d)
        (λ f. duplicated from to (open_truncated to d))

  -- `FsCopy` of agent/source/handlers/system.cpp.
  unfoldable pub fs_copy : Request → Disk → Changed
  fs_copy req d =
      let bad = failing "bad_path" (codes "invalid or unsafe path") d in
      if not (is_writable_device (as_string (field_of req "device") (codes "sd")))
      then failing "read_only_device"
          (codes "fs.copy writes, so it only works on the SD card (device=\"sd\")") d
      else or_return (resolve_sd_path (as_string (field_of req "from") [])) bad (λ from.
        or_return (resolve_sd_path (as_string (field_of req "to") [])) bad (duplicate_path d from))
