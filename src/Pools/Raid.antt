-- ===== src/Pools/Raid.antt =====
-- internal/storagepool/create.go: what CreatePool checks of a request before it touches a disk.
pub mod Devices
pub mod Accepted
use Prim.Native.Char.{Char}
use Prim.Native.String
use mathlib.Core.List
use yesnas_server.Prelude.{
  ℕ, ◌%◌, ◌≡◌, refl, String, Bool, true, false, List, [], ◌∷◌, ◌||◌, ◌&&◌, not, str_eq, ltb, ◌==◌,
  length, if◌then◌else◌,
}
use yesnas_server.Prelude.Result.{Result, ok, err, ◌>>=◌, ◌>>◌, check}
use yesnas_server.Prelude.Text.{trim_space, to_lower, is_empty}
use yesnas_server.Prelude.FilePath.{clean, has_prefix}
use yesnas_server.Pools.Schedule.{normalize_auto_snapshot}

unfoldable pub validate_name : String → Result (Unit {0})
validate_name name = if is_empty name then err "storage pool name is required" else ok tt

unfoldable pub normalize_raid_level : (Char → Char) → String → Result String
normalize_raid_level wide value =
    let level = to_lower wide (trim_space value) in
    if str_eq level "single"
      || str_eq level "raid0"
      || str_eq level "raid1"
      || str_eq level "raid5"
      || str_eq level "raidi5"
      || str_eq level "raid10"
    then ok (if str_eq level "raidi5" then "raid5" else level)
    else err (String.◌++◌ "unsupported raid level: " value)

unfoldable pub validate_raid_device_count : String → ℕ → Result (Unit {0})
validate_raid_device_count level count =
    if str_eq level "single"
    then check (not (ltb count 1)) "single requires at least 1 device"
    else if str_eq level "raid0" || str_eq level "raid1"
    then check (not (ltb count 2)) (String.◌++◌ level " requires at least 2 devices")
    else if str_eq level "raid5"
    then check (not (ltb count 3)) "raid5 requires at least 3 devices"
    else if str_eq level "raid10"
    then check (not (ltb count 4 || not (count % 2 == 0)))
        "raid10 requires at least 4 devices and an even device count"
    else ok tt

abbrev pub contains : String → List String → Bool
contains s [] = false
contains s (x ∷ xs) = str_eq x s || contains s xs

-- The loop of normalizeDevicePaths; `seen` holds the keys of the map.
unfoldable pub clean_device_paths : List String → List String → Result (List String)
unfolding clean trim_space has_prefix
clean_device_paths [] seen = ok []
clean_device_paths (path ∷ paths) seen =
    let cleaned = clean (trim_space path) in
    let rest = clean_device_paths paths (cleaned ∷ seen) in
    if is_empty cleaned || not (has_prefix "/dev/" cleaned)
    then err (String.◌++◌ "invalid device path: " path)
    else if contains cleaned seen
    then err (String.◌++◌ "duplicate device path: " cleaned)
    else do result ← rest; ok (cleaned ∷ result)

unfoldable pub normalize_device_paths : List String → Result (List String)
unfolding clean_device_paths
normalize_device_paths [] = err "at least one device path is required"
normalize_device_paths (path ∷ paths) = clean_device_paths (path ∷ paths) []

pub record CreateRequest : Type 0 where
  pub name : String
  pub raid_level : String
  pub device_paths : List String
  pub cache_disk_paths : List String
  pub auto_snapshot_enabled : Bool
  pub auto_snapshot_schedule : String

-- What the checks of CreatePool compute from a request.
pub record PoolPlan : Type 0 where
  pub schedule : String
  pub level : String
  pub devices : List String

-- CreatePool up to and with validateRaidDeviceCount.
unfoldable pub plan_pool : (Char → Char) → CreateRequest → Result PoolPlan
plan_pool wide req = do
  validate_name (trim_space req.name)
  schedule ← normalize_auto_snapshot req.auto_snapshot_enabled req.auto_snapshot_schedule
  check (not (ltb 0 (length req.cache_disk_paths)))
      "cache disk is not supported for btrfs pools yet"
  level ← normalize_raid_level wide req.raid_level
  devices ← normalize_device_paths req.device_paths
  validate_raid_device_count level (length devices)
  ok (record { schedule = schedule; level = level; devices = devices })
