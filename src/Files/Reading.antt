-- ===== src/Files/Reading.antt =====
-- `FsList`, `FsRead`, `FsStat`, `FsMounts`, `NandRead`, `FsHash` and `FsFreeSpace` of
-- agent/source/handlers/fs.cpp. The flag `mounted` is `g_save_mounted`.
pub mod Download
use switch_mcp.Base.{
  ℕ, ◌+◌, ◌-◌, ◌*◌, ◌%◌, ◌^◌, Bool, true, false, not, ◌&&◌, ◌||◌, List, [], ◌∷◌, ◌++◌, String,
  Option, none, some, ltb, leb, ◌==◌, if◌then◌else◌, length, take, drop, Bytes, codes, eq, is_empty,
  finds,
}
use switch_mcp.Json.Value.{
  Value, boolean, int, string, as_int, as_string, empty_object, empty_array, set, push,
}
use switch_mcp.Wire.Words.{lt64, to_i32}
use switch_mcp.Agent.{
  Request, Reply, empty_reply, field_of, put, refuse, or_return, Answer, bounded_length, c_str,
}
use switch_mcp.Paths.{resolve_device_path}
use switch_mcp.Server.Auth.{hex}
use switch_mcp.Files.{
  EntryKind, directory, regular, unknown, other, Entry, Stat, Opened, SpaceInfo, Storage,
}

abbrev pub dir_or_file : Bool → Value
dir_or_file is_dir = string (if is_dir then codes "dir" else codes "file")

abbrev pub statted : Option Stat → Bool
statted none = false
statted (some st) = st.is_dir

-- The path that a request names on its device, with the default where it names none.
abbrev pub requested : Bool → Request → Bytes → Option (Bytes × Bool)
requested mounted req default =
    resolve_device_path mounted (as_string (field_of req "device") (codes "sd"))
      (as_string (field_of req "path") default)

abbrev pub bad_path : Answer
bad_path = refuse "bad_path" "invalid path, or unknown/unmounted device"

-- `fseek(f, offset, SEEK_SET)` on a file just opened: a negative offset fails, and the position stays.
abbrev pub seek_position : ℕ → ℕ
seek_position offset = if lt64 offset 0 then 0 else offset

abbrev pub is_dot : Bytes → Bool
is_dot name = eq name (codes ".") || eq name (codes "..")

abbrev pub child : Bytes → Bytes → Bytes
child dir name = dir ++ (b'/' ∷ name)

-- `fseek` and `fread` of an open file, and the reply.
unfoldable pub read_part : ℕ → ℕ → Opened → Reply
read_part offset len f =
    let got = take len (drop (seek_position offset) f.text) in
    record (put "eof" (boolean (ltb (length got) len)) empty_reply) { out = got }

module _ (storage : Storage) where
  open storage use {Disk, stat, opendir, open_read, statvfs}

  -- `EntryType`: whether it is "dir".
  unfoldable pub entry_is_dir : EntryKind → Bytes → Disk → Bool
  entry_is_dir directory full d = true
  entry_is_dir regular full d = false
  entry_is_dir unknown full d = statted (stat full d)
  entry_is_dir other full d = statted (stat full d)

  abbrev pub with_stat : Option Stat → Value → Value
  with_stat none e = e
  with_stat (some st) e = set (set e (codes "size") (int st.size)) (codes "mtime") (int st.mtime)

  -- The loop of `FsList`.
  unfoldable pub list_entries : Bytes → Disk → List Entry → Value → Value
  list_entries dev d [] entries = entries
  list_entries dev d (e ∷ es) entries =
      let full = child dev e.name in
      let named =
        set (set empty_object (codes "name") (string e.name)) (codes "type")
          (dir_or_file (entry_is_dir e.kind full d)) in
      list_entries dev d es
        (if is_dot e.name then entries else push entries (with_stat (stat full d) named))

  unfoldable pub fs_list : Bool → Request → Disk → Answer
  fs_list mounted req d = or_return (requested mounted req (codes "/")) bad_path (λ (dev, _).
      or_return (opendir dev d) (refuse "not_found" "cannot open directory")
        (λ entries. (true, put "entries" (list_entries dev d entries empty_array) empty_reply)))

  unfoldable pub fs_read : Bool → Request → Disk → Answer
  fs_read mounted req d = or_return (requested mounted req []) bad_path (λ (dev, _).
      or_return (open_read dev d) (refuse "not_found" "cannot open file")
        (λ f. (true, read_part (as_int (field_of req "offset") 0) (bounded_length req) f)))

  unfoldable pub fs_stat : Bool → Request → Disk → Answer
  fs_stat mounted req d = or_return (requested mounted req []) bad_path (λ (dev, _).
      or_return (stat dev d) (refuse "not_found" "no such path") (λ st. (
        true,
        put "mtime" (int st.mtime)
            (put "size" (int st.size) (put "type" (dir_or_file st.is_dir) empty_reply)),
      )))

  -- The chunks of `FsHash` make up the file; `sha256` is the library's digest.
  unfoldable pub fs_hash : (Bytes → Bytes) → Bool → Request → Disk → Answer
  fs_hash sha256 mounted req d = or_return (requested mounted req []) bad_path (λ (dev, _).
      if not (eq (as_string (field_of req "algo") (codes "sha256")) (codes "sha256"))
      then refuse "bad_arg" "only sha256 is supported"
      else or_return (open_read dev d) (refuse "not_found" "cannot open file") (λ f.
        if f.faulty then refuse "io_error" "read failed while hashing" else (
          true,
          put "size" (int (length f.text % 2 ^ 64))
              (put "sha256" (string (hex (sha256 f.text))) (put "ok" (boolean true) empty_reply)),
        )))

  unfoldable pub space_reply : Bytes → Bool → SpaceInfo → Reply
  space_reply device writable st =
      let bsize = if st.f_frsize == 0 then st.f_bsize else st.f_frsize in
      let total = (st.f_blocks * bsize) % 2 ^ 64 in
      let avail = (st.f_bavail * bsize) % 2 ^ 64 in
      put "used_bytes" (int ((total + 2 ^ 64 - avail) % 2 ^ 64)) (
        put "free_bytes" (int avail) (
          put "total_bytes" (int total)
            (put "writable" (boolean writable) (put "device" (string device) empty_reply))))

  unfoldable pub fs_free_space : Bool → Request → Disk → Answer
  fs_free_space mounted req d =
      let device = as_string (field_of req "device") (codes "sd") in
      or_return (resolve_device_path mounted device (codes "/"))
        (refuse "bad_device" "unknown or unmounted device")
        (λ (dev, writable).
          or_return (statvfs dev d) (refuse "io_error" "cannot stat the filesystem")
            (λ st. (true, space_reply device writable st)))

abbrev pub mount : String → String → Bool → Value
mount name device writable =
    set
      (set (set empty_object (codes "name") (string (codes name))) (codes "device")
        (string (codes device)))
      (codes "writable") (boolean writable)

unfoldable pub fs_mounts : Reply
fs_mounts =
    let nand =
      set (mount "nand:user" "bis:UserDataRoot" false) (codes "access")
        (string (codes "nand.read only")) in
    put "mounts" (push (push empty_array (mount "/" "sdmc" true)) nand) empty_reply

abbrev pub is_absolute : Bytes → Bool
is_absolute [] = false
is_absolute (c ∷ cs) = c == b'/'

-- What `NandRead` finds: the partition opens or not, then the file, then the read of a part.
pub record Nand : Type 0 where
  pub user_data_root : ℕ
  pub open_partition : ℕ → Bool
  pub open_file : ℕ → Bytes → Bool
  pub read_file : ℕ → Bytes → ℕ → ℕ → Option Bytes

unfoldable pub nand_read : Nand → Request → Answer
nand_read nand req =
    let path = as_string (field_of req "path") [] in
    let part = to_i32 (as_int (field_of req "partition") nand.user_data_root) in
    let len = bounded_length req in
    if not (is_absolute path) || finds (codes "..") path
    then refuse "bad_path" "invalid path"
    else if not (nand.open_partition part)
    then refuse "bis_failed" "cannot open BIS partition"
    else if not (nand.open_file part (c_str path))
    then refuse "not_found" "cannot open NAND file"
    else or_return (nand.read_file part (c_str path) (as_int (field_of req "offset") 0) len)
        (refuse "io_error" "NAND read failed")
        (λ got.
          (true, record (put "eof" (boolean (ltb (length got) len)) empty_reply) { out = got }))
