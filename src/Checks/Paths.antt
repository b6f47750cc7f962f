-- ===== src/Checks/Paths.antt =====
-- The path theorems at concrete paths.
use switch_mcp.Base.{◌≡◌, refl, true, false, some, Bytes, codes}
use switch_mcp.Paths.{
  first_segment, after_segment, collect, join, normalize_path, resolve_sd_path, resolve_device_path,
}
use switch_mcp.Paths.Split.{reference, normalize_path-reference}
use switch_mcp.Paths.Normal.{IsNormal, normalize_path-IsNormal}
use switch_mcp.Paths.Devices.{Grants, resolve_device_path-Grants}

abbrev dotted : Bytes
dotted = codes "/a/./b//c"

abbrev plain : Bytes
plain = codes "/a/b/c"

dotted_normal : normalize_path dotted ≡ some plain
unfolding normalize_path collect join first_segment after_segment
dotted_normal = refl

dotted_granted : resolve_device_path false (codes "sd") dotted ≡ some (codes "sdmc:/a/b/c", true)
unfolding normalize_path collect join first_segment after_segment resolve_device_path
    resolve_sd_path
dotted_granted = refl

normalize_path-reference_example : normalize_path dotted ≡ reference dotted
normalize_path-reference_example = normalize_path-reference dotted

normalize_path-IsNormal_example : IsNormal plain
normalize_path-IsNormal_example = normalize_path-IsNormal dotted dotted_normal

resolve_device_path-Grants_example : Grants false (codes "sd") (codes "sdmc:/a/b/c") true
resolve_device_path-Grants_example =
    resolve_device_path-Grants false (codes "sd") dotted dotted_granted
