-- ===== src/Paths/Devices.antt =====
-- What the two resolvers accept, and what they let a client write to.
use switch_mcp.Base.{
  Bool, true, false, none, some, ◌≡◌, ◌⊎◌, sym, ap, ◌++◌, Bytes, codes, eq, Bool-cases, inl, inr,
  eq_of_some, Option-cases,
}
use switch_mcp.Paths.{normalize_path, resolve_device_path, resolve_sd_path, is_sd, with_access}
use switch_mcp.Paths.Normal.{IsNormal, normalize_path-IsNormal}

-- The path of a device lies under its mount point, with a normal path behind the colon.
pub record IsUnder (mount dev : Bytes) : Type 0 where
  pub inner : Bytes
  pub joined : dev ≡ mount ++ inner
  pub normal : IsNormal inner

-- What a resolution may grant: the SD card for writing, or the mounted save for reading.
pub record Grants (mounted : Bool) (device dev : Bytes) (writable : Bool) : Type 0 where
  pub where_to :
      ((is_sd device ≡ true) × (writable ≡ true) × IsUnder (codes "sdmc:") dev)
      ⊎ ((is_sd device ≡ false)
          × (eq device (codes "save") ≡ true)
          × (mounted ≡ true)
          × (writable ≡ false)
          × IsUnder (codes "save_ro:") dev)

with_access-some :
    (m : Bytes) (w : Bool) (p : Bytes) {dev : Bytes} {writable : Bool}
    → with_access m w (normalize_path p) ≡ some (dev, writable)
    → (writable ≡ w) × IsUnder m dev
with_access-some m w p e = elim (Option-cases (normalize_path p)) [
  | inl n ↦ cc (rw n at e)
  | inr (q, n) ↦
      let e' = eq_of_some (rw n at e) in
      (
        sym (ap (λ x. x.1) e'),
        record { inner = q; joined = sym (ap (λ x. x.0) e'); normal = normalize_path-IsNormal p n },
      )
]

-- Whatever `ResolveDevicePath` accepts lies under the SD card's mount point, or, while a save is
-- mounted and the device is "save", under that mount; behind the mount's colon stands a normal
-- path. `*writable` is true exactly in the first case.
pub resolve_device_path-Grants :
    (mounted : Bool) (device p : Bytes) {dev : Bytes} {writable : Bool}
    → resolve_device_path mounted device p ≡ some (dev, writable)
    → Grants mounted device dev writable
unfolding resolve_device_path
resolve_device_path-Grants mounted device p e = elim (Bool-cases (is_sd device)) [
  | inl sd ↦
      let (w, u) = with_access-some (codes "sdmc:") true p (rw sd at e) in
      record { where_to = inl (sd, w, u) }
  | inr sd ↦ elim (Bool-cases (eq device (codes "save"))) [
    | inr save ↦ cc (rw (sd, save) at e)
    | inl save ↦ elim (Bool-cases mounted) [
      | inr m ↦ cc (rw (sd, save, m) at e)
      | inl m ↦
          let (w, u) = with_access-some (codes "save_ro:") false p (rw (sd, save, m) at e) in
          record { where_to = inr (sd, save, m, w, u) }
    ]
  ]
]

-- With the SD card as device, `ResolveDevicePath` and `ResolveSdPath` accept the same paths and
-- give the same device path, and the former always reports it writable.
pub resolve_device_path_sd :
    (mounted : Bool) (device p : Bytes)
    → is_sd device ≡ true
    → resolve_device_path mounted device p
      ≡ elim (resolve_sd_path p) [ none ↦ none | some dev ↦ some (dev, true) ]
unfolding resolve_device_path resolve_sd_path
resolve_device_path_sd mounted device p sd =
    rw sd (elim (Option-cases (normalize_path p)) [ inl n ↦ rw n | inr (q, n) ↦ rw n ])
