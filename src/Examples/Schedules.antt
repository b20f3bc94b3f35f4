-- ===== src/Examples/Schedules.antt =====
-- Schedules of internal/storagepool/create.go at concrete inputs.
use Prim.Native.Char.{Char}
use yesnas_server.Prelude.{ℕ, ◌<◌, ◌≡◌, refl, some}
use yesnas_server.Prelude.Result.{ok, err}
use yesnas_server.Prelude.Text.{trim_space, to_lower}
use yesnas_server.Pools.Schedule.{normalize_weekly_schedule, schedule_malformed}
use yesnas_server.Pools.Schedule.Calendar.{
  utc, utc-IsZone, utc-BeginsAtMidnight, next_auto_snapshot_time,
}
use yesnas_server.Pools.Schedule.Spec.{present, normalize_weekly_schedule_lem}
use yesnas_server.Pools.Schedule.Idempotent.{normalize_idem}
use yesnas_server.Pools.Schedule.NextRun.{IsNextRun, next_auto_snapshot_time-IsNextRun}
use yesnas_server.Pools.Schedule.Keyword.{hours, IsNextStroke, next_auto_snapshot_time-IsNextStroke}
use yesnas_server.Jobs.Snapshots.{next_auto_snapshot_after}
use yesnas_server.Jobs.Scheduling.{next_auto_snapshot_after_ends}

abbrev ascii : Char → Char
ascii c = c

accepted : normalize_weekly_schedule " 5133 " ≡ ok "135"
unfolding normalize_weekly_schedule
accepted = refl

normalize_weekly_schedule_lem_example : normalize_weekly_schedule " 5133 " ≡ ok "135"
unfolding present trim_space
normalize_weekly_schedule_lem_example = normalize_weekly_schedule_lem " 5133 "

normalize_idem_example : normalize_weekly_schedule "135" ≡ ok "135"
normalize_idem_example = normalize_idem " 5133 " "135" accepted

next_auto_snapshot_time-IsNextRun_example :
    IsNextRun utc "135" 1000 (next_auto_snapshot_time ascii utc 1000 " 5133 ")
next_auto_snapshot_time-IsNextRun_example =
    next_auto_snapshot_time-IsNextRun ascii utc utc-IsZone 1000 " 5133 " "135" accepted

refused : normalize_weekly_schedule " Hourly" ≡ err schedule_malformed
unfolding normalize_weekly_schedule
refused = refl

next_auto_snapshot_time-IsNextStroke_example :
    IsNextStroke utc hours 1000 (next_auto_snapshot_time ascii utc 1000 " Hourly")
unfolding trim_space to_lower
next_auto_snapshot_time-IsNextStroke_example =
    next_auto_snapshot_time-IsNextStroke ascii utc utc-IsZone utc-BeginsAtMidnight 1000 " Hourly"
      schedule_malformed refused

next_auto_snapshot_after_ends_example :
    (run : ℕ) × (next_auto_snapshot_after ascii utc (some 7) "135" 100000 ≡ some run)
    × (100000 < run)
next_auto_snapshot_after_ends_example =
    next_auto_snapshot_after_ends ascii utc utc-IsZone (some 7) "135" 100000
