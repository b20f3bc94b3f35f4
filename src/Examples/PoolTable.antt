-- ===== src/Examples/PoolTable.antt =====
-- Requests for pools of internal/storagepool/create.go and update.go at concrete inputs.
use Prim.Native.Char.{Char}
use yesnas_server.Prelude.{
  ℕ, ◌≡◌, ◌≢◌, refl, String, Bool, true, false, Option, none, some, List, [], ◌∷◌,
}
use yesnas_server.Prelude.Result.{ok}
use yesnas_server.Prelude.Table.{count_where, first_where, update_where}
use yesnas_server.Pools.Schedule.{normalize_auto_snapshot, normalize_weekly_schedule}
use yesnas_server.Pools.Schedule.Calendar.{
  utc, utc-IsZone, initial_auto_snapshot_next_run, next_auto_snapshot_time,
}
use yesnas_server.Pools.Store.{StoragePool, get, update_auto_snapshot_config}
use yesnas_server.Pools.Update.{UpdateRequest, Reached, store_config, update_pool}
use yesnas_server.Pools.Update.Effect.{IsConfigured, update_pool_success}
use yesnas_server.Pools.Raid.{CreateRequest, PoolPlan, plan_pool}
use yesnas_server.Pools.Raid.Accepted.{IsPlan, plan_pool-IsPlan}

abbrev ascii : Char → Char
ascii c = c

abbrev request : CreateRequest
request = record {
  name = " tank ";
  raid_level = " RAID1";
  device_paths = "/dev/sda" ∷ " /dev//sdb" ∷ [];
  cache_disk_paths = [];
  auto_snapshot_enabled = false;
  auto_snapshot_schedule = "daily";
}

abbrev plan : PoolPlan
plan = record { schedule = ""; level = "raid1"; devices = "/dev/sda" ∷ "/dev/sdb" ∷ [] }

plan_pool-IsPlan_example : IsPlan ascii request plan
unfolding plan_pool yesnas_server.Pools.Raid.validate_name
    yesnas_server.Pools.Raid.normalize_raid_level yesnas_server.Pools.Raid.normalize_device_paths
    yesnas_server.Pools.Raid.validate_raid_device_count
    yesnas_server.Pools.Schedule.normalize_auto_snapshot yesnas_server.Prelude.Text.to_lower
plan_pool-IsPlan_example = plan_pool-IsPlan ascii request plan refl

abbrev pool : StoragePool
pool = record {
  id = "p1";
  storage_id = "s1";
  name = "tank";
  filesystem = "btrfs";
  raid_level = "raid1";
  mount_path = "/mnt/tank";
  data_path = "/mnt/tank/data";
  auto_snapshot_enabled = false;
  auto_snapshot_schedule = "";
  last_auto_snapshot_at = none;
  next_auto_snapshot_at = none;
  updated_at = none;
}

abbrev configured : StoragePool
configured = record pool {
  auto_snapshot_enabled = true;
  auto_snapshot_schedule = "4";
  next_auto_snapshot_at = some 604800000000000;
  updated_at = some 1000;
}

abbrev weekly : UpdateRequest
weekly = record { auto_snapshot_enabled = true; auto_snapshot_schedule = "4" }

abbrev reached : Reached
reached = record { exec = true; reload = true }

updated :
    update_pool ascii utc reached 1000 (some pool) weekly (pool ∷ [])
    ≡ (ok configured, configured ∷ [])
unfolding update_pool store_config update_auto_snapshot_config get normalize_auto_snapshot
    normalize_weekly_schedule initial_auto_snapshot_next_run next_auto_snapshot_time count_where
    first_where update_where
updated = refl

update_pool_success_example :
    (p : StoragePool) × (get "p1" (pool ∷ []) ≡ some p)
    × IsConfigured utc weekly 1000 p configured
    × (get "p1" (configured ∷ []) ≡ some configured)
    × ((k : String) → k ≢ "p1" → get k (configured ∷ []) ≡ get k (pool ∷ []))
update_pool_success_example =
    update_pool_success ascii utc utc-IsZone reached 1000 pool weekly (pool ∷ []) (configured ∷ [])
      configured updated
