-- ===== src/Files.antt =====
-- The files of agent/source/handlers/fs.cpp. The C library's files and libnx's devices are a
-- parameter: a state `Disk`, and what each call returns on it.
pub mod Reading
pub mod Finding
pub mod Grepping
pub mod Changing
pub mod Copying
use switch_mcp.Base.{ℕ, Bool, List, Option, Bytes}

-- `d_type` of a directory entry.
pub data EntryKind : Type 0 where
  directory regular unknown other : EntryKind

pub record Entry : Type 0 where
  pub name : Bytes
  pub kind : EntryKind

-- What `stat` reports.
pub record Stat : Type 0 where
  pub is_dir : Bool
  pub size : ℕ
  pub mtime : ℕ

-- A file opened for reading: the bytes that `fread` yields, and `ferror` behind them.
pub record Opened : Type 0 where
  pub text : Bytes
  pub faulty : Bool

pub record SpaceInfo : Type 0 where
  pub f_frsize : ℕ
  pub f_bsize : ℕ
  pub f_blocks : ℕ
  pub f_bavail : ℕ

-- The calls, which read a path up to its first zero byte. Those that change the disk say whether they succeed; `write_at` says how many bytes
-- were written at an offset.
pub record Storage : Type 1 where
  pub Disk : Type 0
  pub stat : Bytes → Disk → Option Stat
  pub opendir : Bytes → Disk → Option (List Entry)
  pub open_read : Bytes → Disk → Option Opened
  pub statvfs : Bytes → Disk → Option SpaceInfo
  pub open_truncated : Bytes → Disk → Bool × Disk
  pub open_update : Bytes → Disk → Bool × Disk
  pub write_at : Bytes → ℕ → Bytes → Disk → ℕ × Disk
  pub mkdir : Bytes → Disk → Bool × Disk
  pub rmdir : Bytes → Disk → Bool × Disk
  pub remove : Bytes → Disk → Bool × Disk
  pub rename : Bytes → Bytes → Disk → Bool × Disk
