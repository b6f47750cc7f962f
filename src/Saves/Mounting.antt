-- ===== src/Saves/Mounting.antt =====
-- What a mount leaves: the flag behind `ResolveDevicePath`, and the device itself.
use switch_mcp.Base.{
  ℕ, true, false, not, List, [], ◌∷◌, none, some, ◌≡◌, ◌==◌, Bool-cases, inl, inr, ==_iff,
}
use switch_mcp.Json.Value.{as_string}
use switch_mcp.Agent.{Request, Reply, field_of}
use switch_mcp.Saves.{
  Space, Mounted, read_only, of_system, SaveState, MountService, Handled, hex_field, spaces_of,
  drop_mount, try_mount, mount_spaces, mount_done, save_mount,
}

-- A request that mounts leaves the mount, which libnx reported as done, with the flag set. One that
-- does not leaves nothing mounted and the flag as it was.
pub data Result (svc : MountService) (s : SaveState) : Handled → Type 0 where
  mounted :
      (m : Mounted) (reply : Reply)
      → svc.mount m ≡ 0
      → Result svc s (true, reply, record { flag = true; device = some m })
  failed : (reply : Reply) → Result svc s (false, reply, record { flag = s.flag; device = none })

module _ (svc : MountService) (s : SaveState) where
  -- A mount that was tried behind the unmount.
  data Tried : ℕ × SaveState → Type 0 where
    held : (m : Mounted) → svc.mount m ≡ 0 → Tried (0, record (drop_mount s) { device = some m })
    refused : (rc : ℕ) → (rc == 0) ≡ false → Tried (rc, drop_mount s)

  try_mount-Tried : (m : Mounted) → Tried (try_mount svc m (drop_mount s))
  try_mount-Tried m = elim (Bool-cases (svc.mount m == 0)) [
    | inl e ↦ rw e (held m ((==_iff (svc.mount m) 0).0 e))
    | inr e ↦ rw e (refused (svc.mount m) e)
  ]

  mount_spaces-Tried :
      (spaces : List Space) (id uid_0 uid_1 rc : ℕ)
      → (rc == 0) ≡ false
      → Tried (mount_spaces svc spaces id uid_0 uid_1 rc (drop_mount s))
  unfolding mount_spaces
  mount_spaces-Tried [] id uid_0 uid_1 rc e = refused rc e
  mount_spaces-Tried (space ∷ rest) id uid_0 uid_1 rc e =
      let m = of_system space id uid_0 uid_1 in
      elim (Bool-cases ((try_mount svc m (drop_mount s)).0 == 0)) [
        | inl y ↦ rw y (try_mount-Tried m)
        | inr n ↦ rw n (mount_spaces-Tried rest id uid_0 uid_1 _ n)
      ]

  mount_done-Result : (r : ℕ × SaveState) → Tried r → Result svc s (mount_done svc r)
  unfolding mount_done
  mount_done-Result r (held m e) = mounted m _ e
  mount_done-Result r (refused rc e) = rw e (failed _)

  -- Given that libnx's error code is not 0, `SaveMount` ends in one of two ways: the save is mounted and
  -- the flag is set, or nothing is mounted and the flag is what it was before, also where it was set.
  pub save_mount-Result :
      (req : Request) → (svc.not_found == 0) ≡ false → Result svc s (save_mount svc req s)
  unfolding save_mount
  save_mount-Result req e = elim (Bool-cases (not (hex_field req "system_save_data_id" == 0))) [
    | inl y ↦ rw y (
        mount_done-Result _ (
          mount_spaces-Tried (spaces_of (as_string (field_of req "space") [])) _ _ _ svc.not_found
            e))
    | inr n ↦ rw n (elim (Bool-cases (hex_field req "tid" == 0)) [
      | inl z ↦ rw z (failed _)
      | inr t ↦ rw t (mount_done-Result _ (try_mount-Tried (read_only _ _ _)))
    ])
  ]
