-- ===== src/Pools/Store.antt =====
-- internal/storagepool/store.go: the storage_pool table. The columns that only the benchmark and
-- the cache write are left out. Times are nanoseconds.
use yesnas_server.Prelude.{
  ℕ, String, Bool, Option, some, List, [], ◌∷◌, ◌++◌, str_eq, ltb, if◌then◌else◌,
}
use yesnas_server.Prelude.Result.{Result, ok, err}
use yesnas_server.Prelude.Text.{is_empty}
use yesnas_server.Prelude.Table.{first_where, update_where, delete_where, count_where}

pub record StoragePool : Type 0 where
  pub id : String
  pub storage_id : String
  pub name : String
  pub filesystem : String
  pub raid_level : String
  pub mount_path : String
  pub data_path : String
  pub auto_snapshot_enabled : Bool
  pub auto_snapshot_schedule : String
  pub last_auto_snapshot_at : Option ℕ
  pub next_auto_snapshot_at : Option ℕ
  pub updated_at : Option ℕ

abbrev pub has_id : String → StoragePool → Bool
has_id id p = str_eq p.id id

-- Get and GetByName, when the query succeeds; `none` is sql.ErrNoRows.
unfoldable pub get : String → List StoragePool → Option StoragePool
get id = first_where (has_id id)

unfoldable pub get_by_name : String → List StoragePool → Option StoragePool
get_by_name name = first_where (λ p. str_eq p.name name)

unfoldable pub delete_by_id : String → List StoragePool → List StoragePool
delete_by_id id = delete_where (has_id id)

unfoldable pub queued_pool : ℕ → ℕ → StoragePool → StoragePool
queued_pool next now p = record p { next_auto_snapshot_at = some next; updated_at = some now }

unfoldable pub update_auto_snapshot_queued : String → ℕ → ℕ → List StoragePool → List StoragePool
unfolding queued_pool
update_auto_snapshot_queued id next now = update_where (has_id id) (queued_pool next now)

unfoldable pub succeeded_pool : ℕ → ℕ → ℕ → StoragePool → StoragePool
succeeded_pool last next now p = record p {
  last_auto_snapshot_at = some last;
  next_auto_snapshot_at = some next;
  updated_at = some now;
}

unfoldable pub update_auto_snapshot_success :
    String → ℕ → ℕ → ℕ → List StoragePool → List StoragePool
unfolding succeeded_pool
update_auto_snapshot_success id last next now =
    update_where (has_id id) (succeeded_pool last next now)

unfoldable pub configured_pool : Bool → String → Option ℕ → ℕ → StoragePool → StoragePool
configured_pool enabled schedule next now p = record p {
  auto_snapshot_enabled = enabled;
  auto_snapshot_schedule = schedule;
  next_auto_snapshot_at = next;
  updated_at = some now;
}

-- UpdateAutoSnapshotConfig, with the number of rows that it changed.
unfoldable pub update_auto_snapshot_config :
    String → Bool → String → Option ℕ → ℕ → List StoragePool → List StoragePool × ℕ
unfolding configured_pool
update_auto_snapshot_config id enabled schedule next now t = (
  update_where (has_id id) (configured_pool enabled schedule next now) t,
  count_where (has_id id) t,
)

unfoldable pub merged_pool : StoragePool → ℕ → StoragePool → StoragePool
merged_pool pool now p = record p {
  storage_id = pool.storage_id;
  name = pool.name;
  filesystem = pool.filesystem;
  raid_level = pool.raid_level;
  mount_path = pool.mount_path;
  data_path = pool.data_path;
  auto_snapshot_enabled = pool.auto_snapshot_enabled;
  auto_snapshot_schedule = pool.auto_snapshot_schedule;
  last_auto_snapshot_at = pool.last_auto_snapshot_at;
  next_auto_snapshot_at = pool.next_auto_snapshot_at;
  updated_at = some now;
}

-- UpsertCloudPoolRecord: INSERT ... ON CONFLICT(id) DO UPDATE.
unfoldable pub upsert_cloud_pool_record :
    StoragePool → ℕ → List StoragePool → Result (List StoragePool)
unfolding merged_pool
upsert_cloud_pool_record pool now t =
    if is_empty pool.id
    then err "storage pool id is required"
    else if ltb 0 (count_where (has_id pool.id) t)
    then ok (update_where (has_id pool.id) (merged_pool pool now) t)
    else ok (t ++ (record pool { updated_at = some now }) ∷ [])
