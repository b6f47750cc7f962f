-- ===== src/Files/Changing/Confined.antt =====
-- The handlers that change files touch only paths on the SD card.
use switch_mcp.Base.{
  zero, suc, take, drop, ℕ, Bool, true, false, not, Option, none, some, ◌≡◌, refl, sym, ◌==◌, Bytes,
  codes, Bool-cases, inl, inr, eq_of_some, [], Option-cases,
}
use switch_mcp.Json.Value.{as_int, as_string}
use switch_mcp.Agent.{Request, or_return, field_of}
use switch_mcp.Paths.{normalize_path, resolve_sd_path}
use switch_mcp.Paths.Normal.{normalize_path-IsNormal}
use switch_mcp.Paths.Devices.{IsUnder}
use switch_mcp.Files.{Storage, Opened}
use switch_mcp.Files.Changing.{
  Changed, is_writable_device, require_writable_sd, with_open, reopened, write_path, fs_write,
  or_io_error, delete_path, fs_delete, fs_mkdir, fs_rename, duplicate_rounds, duplicated,
  duplicate_path, fs_copy, chunk_size, failing,
}

-- The five handlers.
pub data Change : Type 0 where
  write delete make_dir move duplicate : Change

abbrev pub handle : Change → (storage : Storage) → Request → storage.Disk → Changed storage
handle write storage = fs_write storage
handle delete storage = fs_delete storage
handle make_dir storage = fs_mkdir storage
handle move storage = fs_rename storage
handle duplicate storage = fs_copy storage

abbrev pub OnSd : Bytes → Type 0
OnSd dev = IsUnder (codes "sdmc:") dev

-- A property of the disk that every call on a path of the SD card keeps, `write_at` at any offset.
pub record KeptOnSd (storage : Storage) (P : storage.Disk → Type 0) : Type 0 where
  pub by_truncation :
      (dev : Bytes) (d : storage.Disk) → OnSd dev → P d → P ((storage.open_truncated dev d).1)
  pub by_opening :
      (dev : Bytes) (d : storage.Disk) → OnSd dev → P d → P ((storage.open_update dev d).1)
  pub by_writing :
      (dev : Bytes) (at : ℕ) (bs : Bytes) (d : storage.Disk)
      → OnSd dev
      → P d
      → P ((storage.write_at dev at bs d).1)
  pub by_mkdir : (dev : Bytes) (d : storage.Disk) → OnSd dev → P d → P ((storage.mkdir dev d).1)
  pub by_rmdir : (dev : Bytes) (d : storage.Disk) → OnSd dev → P d → P ((storage.rmdir dev d).1)
  pub by_remove : (dev : Bytes) (d : storage.Disk) → OnSd dev → P d → P ((storage.remove dev d).1)
  pub by_rename :
      (from to : Bytes) (d : storage.Disk)
      → OnSd from
      → OnSd to
      → P d
      → P ((storage.rename from to d).1)

resolve_sd_path-OnSd : (p : Bytes) {dev : Bytes} → resolve_sd_path p ≡ some dev → OnSd dev
unfolding resolve_sd_path
resolve_sd_path-OnSd p e = elim (Option-cases (normalize_path p)) [
  | inl n ↦ cc (rw n at e)
  | inr (norm, n) ↦ record {
    inner = norm;
    joined = sym (eq_of_some (rw n at e));
    normal = normalize_path-IsNormal p n;
  }
]

module _ (storage : Storage) (P : storage.Disk → Type 0) (keep : KeptOnSd storage P) where
  open storage use {Disk}

  abbrev After : Changed storage → Type 0
  After (ok, reply, d) = P d

  or_return-After :
      (o : Option Bytes) (r : Changed storage) (rest : Bytes → Changed storage)
      → After r
      → ((dev : Bytes) → o ≡ some dev → After (rest dev))
      → After (or_return o r rest)
  or_return-After none r rest p q = p
  or_return-After (some dev) r rest p q = q dev refl

  opened-After :
      (o : Option Opened) (r s : Changed storage)
      → After r
      → After s
      → After (or_return o r (λ f. s))
  opened-After none r s p q = p
  opened-After (some f) r s p q = q

  require-After :
      (req : Request) (d : Disk) (rest : Bytes → Changed storage)
      → P d
      → ((dev : Bytes) → OnSd dev → After (rest dev))
      → After (require_writable_sd storage req d rest)
  unfolding require_writable_sd
  require-After req d rest p q =
      elim (Bool-cases
        (not (is_writable_device (as_string (field_of req "device") (codes "sd"))))) [
          | inl e ↦ rw e p
          | inr e ↦ rw e (
              or_return-After _ _ rest p
                (λ dev f. q dev (resolve_sd_path-OnSd (as_string (field_of req "path") []) f)))
        ]

  or_io_error-After :
      (message : Bytes) (r : Bool × Disk) → P r.1 → After (or_io_error storage message r)
  or_io_error-After message (true, d) p = p
  or_io_error-After message (false, d) p = p

  with_open-After :
      (dev : Bytes) (offset : ℕ) (payload : Bytes) (r : Bool × Disk)
      → OnSd dev
      → P r.1
      → After (with_open storage dev offset payload r)
  with_open-After dev offset payload (true, d) on p = keep.by_writing dev _ payload d on p
  with_open-After dev offset payload (false, d) on p = p

  reopened-After :
      (dev : Bytes) (r : Bool × Disk) → OnSd dev → P r.1 → P ((reopened storage dev r).1)
  reopened-After dev (true, d) on p = p
  reopened-After dev (false, d) on p = keep.by_truncation dev d on p

  write_path-After :
      (req : Request) (d : Disk) (dev : Bytes)
      → OnSd dev
      → P d
      → After (write_path storage req d dev)
  unfolding write_path
  write_path-After req d dev on p = elim (Bool-cases (as_int (field_of req "offset") 0 == 0)) [
    | inl e ↦ rw e (
        with_open-After dev (as_int (field_of req "offset") 0) req.payload
          (storage.open_truncated dev d) on (keep.by_truncation dev d on p))
    | inr e ↦ rw e (
        with_open-After dev (as_int (field_of req "offset") 0) req.payload
          (reopened storage dev (storage.open_update dev d)) on
          (reopened-After dev (storage.open_update dev d) on (keep.by_opening dev d on p)))
  ]

  delete_path-After : (d : Disk) (dev : Bytes) → OnSd dev → P d → After (delete_path storage d dev)
  unfolding delete_path
  delete_path-After d dev on p = elim (Option-cases (storage.stat dev d)) [
    | inl e ↦ rw e p
    | inr (st, e) ↦ rw e (elim (Bool-cases st.is_dir) [
      | inl y ↦ rw y (or_io_error-After _ (storage.rmdir dev d) (keep.by_rmdir dev d on p))
      | inr n ↦ rw n (or_io_error-After _ (storage.remove dev d) (keep.by_remove dev d on p))
    ])
  ]

  rename-After : (req : Request) (d : Disk) → P d → After (fs_rename storage req d)
  unfolding fs_rename
  rename-After req d p =
      elim (Bool-cases
        (not (is_writable_device (as_string (field_of req "device") (codes "sd"))))) [
          | inl e ↦ rw e p
          | inr e ↦ rw e (
              or_return-After _ _ _ p (λ from f. or_return-After _ _ _ p (λ to t.
                or_io_error-After _ (storage.rename from to d) (
                  keep.by_rename from to d
                    (resolve_sd_path-OnSd (as_string (field_of req "from") []) f)
                    (resolve_sd_path-OnSd (as_string (field_of req "to") []) t) p))))
        ]

  duplicate_rounds-After :
      (rounds : ℕ) (dst : Bytes) (at : ℕ) (text : Bytes) (d : Disk)
      → OnSd dst
      → P d
      → P ((duplicate_rounds storage rounds dst at text d).1)
  unfolding duplicate_rounds
  duplicate_rounds-After zero dst at text d on p = p
  duplicate_rounds-After (suc rounds) dst at text d on p =
      duplicate_rounds-After rounds dst _ (drop chunk_size text) _ on
        (keep.by_writing dst at (take chunk_size text) d on p)

  duplicated-After :
      (from to : Bytes) (r : Bool × Disk) → OnSd to → P r.1 → After (duplicated storage from to r)
  duplicated-After from to (false, d) on p = p
  duplicated-After from to (true, d) on p = duplicate_rounds-After _ to 0 _ d on p

  duplicate_path-After :
      (d : Disk) (from to : Bytes) → OnSd to → P d → After (duplicate_path storage d from to)
  unfolding duplicate_path
  duplicate_path-After d from to on p =
      opened-After (storage.open_read from d) _
        (duplicated storage from to (storage.open_truncated to d)) p
        (duplicated-After from to (storage.open_truncated to d) on (keep.by_truncation to d on p))

  two_paths-After :
      (req : Request) (bad : Changed storage) (rest : Bytes → Bytes → Changed storage)
      → After bad
      → ((from to : Bytes) → OnSd from → OnSd to → After (rest from to))
      → After (
          or_return (resolve_sd_path (as_string (field_of req "from") [])) bad (λ from.
            or_return (resolve_sd_path (as_string (field_of req "to") [])) bad (rest from)))
  two_paths-After req bad rest p q =
      or_return-After (resolve_sd_path (as_string (field_of req "from") [])) bad _ p (λ from f.
        or_return-After (resolve_sd_path (as_string (field_of req "to") [])) bad (rest from) p
          (λ to t.
            q from to (resolve_sd_path-OnSd (as_string (field_of req "from") []) f)
              (resolve_sd_path-OnSd (as_string (field_of req "to") []) t)))

  copy-After : (req : Request) (d : Disk) → P d → After (fs_copy storage req d)
  unfolding fs_copy
  copy-After req d p =
      elim (Bool-cases
        (not (is_writable_device (as_string (field_of req "device") (codes "sd"))))) [
          | inl e ↦ rw e p
          | inr e ↦ rw e (
              two_paths-After req (failing storage "bad_path" (codes "invalid or unsafe path") d)
                (duplicate_path storage d) p
                (λ from to on_from on. duplicate_path-After d from to on p))
        ]

  -- Writing, deleting, making a directory, renaming and copying keep every property of the disk that is kept by
  -- the calls on paths under the SD card's mount point: no request reaches any other path.
  pub handle-KeptOnSd :
      (change : Change) (req : Request) (d : Disk) → P d → P ((handle change storage req d).2)
  unfolding fs_write fs_delete fs_mkdir
  handle-KeptOnSd write req d p =
      require-After req d _ p (λ dev on. write_path-After req d dev on p)
  handle-KeptOnSd delete req d p = require-After req d _ p (λ dev on. delete_path-After d dev on p)
  handle-KeptOnSd make_dir req d p =
      require-After req d _ p
        (λ dev on. or_io_error-After _ (storage.mkdir dev d) (keep.by_mkdir dev d on p))
  handle-KeptOnSd move req d p = rename-After req d p
  handle-KeptOnSd duplicate req d p = copy-After req d p
