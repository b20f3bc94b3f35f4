-- ===== src/Pools/Update.antt =====
-- internal/storagepool/update.go: UpdatePool, the change of a pool's automatic snapshots.
pub mod Effect
use Prim.Native.Char.{Char}
use yesnas_server.Prelude.{
  ℕ, String, Bool, true, false, Option, none, some, List, [], ◌∷◌, str_eq, ltb, ◌==◌, not,
  if◌then◌else◌,
}
use yesnas_server.Prelude.Result.{Result, ok, err}
use yesnas_server.Pools.Schedule.{normalize_auto_snapshot}
use yesnas_server.Pools.Schedule.Calendar.{Zone, initial_auto_snapshot_next_run}
use yesnas_server.Pools.Store.{StoragePool, get, update_auto_snapshot_config}

pub record UpdateRequest : Type 0 where
  pub auto_snapshot_enabled : Bool
  pub auto_snapshot_schedule : String

-- Whether the statements of the operation reach the database.
pub record Reached : Type 0 where
  pub exec : Bool
  pub reload : Bool

abbrev reloaded : Option StoragePool → Result StoragePool
reloaded none = err "reload storage pool"
reloaded (some p) = ok p

-- After the schedule was normalised.
unfoldable pub store_config :
    Reached
    → String
    → Bool
    → String
    → Option ℕ
    → ℕ
    → List StoragePool
    → Result StoragePool × List StoragePool
store_config db id enabled schedule next now t =
    let (t', affected) = update_auto_snapshot_config id enabled schedule next now t in
    if not db.exec
    then (err "update storage pool snapshot settings", t)
    else if affected == 0
    then (err "update storage pool snapshot settings: no rows", t')
    else if not db.reload
    then (err "reload storage pool", t')
    else (reloaded (get id t'), t')

unfoldable pub update_pool :
    (Char → Char)
    → Zone
    → Reached
    → ℕ
    → Option StoragePool
    → UpdateRequest
    → List StoragePool
    → Result StoragePool × List StoragePool
unfolding store_config
update_pool wide z db now none req t = (err "storage pool is required", t)
update_pool wide z db now (some pool) req t =
    elim (normalize_auto_snapshot req.auto_snapshot_enabled req.auto_snapshot_schedule) [
      | err e ↦ (err e, t)
      | ok schedule ↦
          store_config db pool.id req.auto_snapshot_enabled schedule
            (initial_auto_snapshot_next_run wide z req.auto_snapshot_enabled schedule now) now t
    ]
