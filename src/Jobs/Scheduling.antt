-- ===== src/Jobs/Scheduling.antt =====
-- The scheduler of automatic snapshots: internal/jobs/jobs.go, nextAutoSnapshotAfter and
-- enqueueDueAutoSnapshotJobs.
use Prim.Native.Char.{Char}
use mathlib.Core.Path.{subst}
use yesnas_server.Prelude.{
  ℕ, zero, suc, ◌+◌, ◌≤◌, ◌<◌, ◌≡◌, ◌⊎◌, refl, String, Bool, true, false, Option, some, List, [],
  ◌∷◌, str_eq_iff, ltb, ltb→lt, lt→ltb, arith, Bool-cases, Option-cases, inl, inr,
}
use yesnas_server.Prelude.Table.{count_where, count_where-append_one}
use yesnas_server.Pools.Schedule.Calendar.{Zone, IsZone, next_auto_snapshot_time}
use yesnas_server.Pools.Schedule.NextRun.{next_auto_snapshot_time-later}
use yesnas_server.Pools.Store.{StoragePool}
use yesnas_server.Jobs.Model.{Job}
use yesnas_server.Jobs.Statements.{
  insert_job, is_active_snapshot, has_pending_or_running_auto_snapshot_job,
}
use yesnas_server.Jobs.World.{World, Env, read_active, write_queued, insert_snapshot}
use yesnas_server.Jobs.Snapshots.{
  advance, base_time, next_auto_snapshot_after, is_due, auto_snapshot_job,
  enqueue_auto_snapshot_job, queue_pool, enqueue_due_pool, enqueue_due_pools,
  enqueue_due_auto_snapshot_jobs,
}

module _ (wide : Char → Char) (z : Zone) (laws : IsZone z) where
  advance_ends :
      (fuel : ℕ) (schedule : String) (now next : ℕ)
      → now < next + fuel
      → (run : ℕ) × (advance wide z (suc fuel) schedule now next ≡ some run) × (now < run)
  unfolding advance
  advance_ends zero schedule now next h = elim (Bool-cases (ltb now next)) [
    | inl e ↦ (next, rw e refl, ltb→lt now next e)
    | inr e ↦ absurd (ground (arith, lt→ltb now next (omega arith)))
  ]
  advance_ends (suc fuel) schedule now next h = elim (Bool-cases (ltb now next)) [
    | inl e ↦ (next, rw e refl, ltb→lt now next e)
    | inr e ↦
        let later = next_auto_snapshot_time-later wide z laws next schedule in
        rw e (
          advance_ends fuel schedule now (next_auto_snapshot_time wide z next schedule)
            (omega arith))
  ]

  -- The search for the next run ends, for every schedule and whenever the last run was due, and
  -- what it finds lies in the future, in a zone whose days begin at 0:00.
  pub next_auto_snapshot_after_ends :
      (last : Option ℕ) (schedule : String) (now : ℕ)
      → (run : ℕ) × (next_auto_snapshot_after wide z last schedule now ≡ some run) × (now < run)
  unfolding next_auto_snapshot_after
  next_auto_snapshot_after_ends last schedule now =
      advance_ends now schedule now (next_auto_snapshot_time wide z (base_time last now) schedule)
        (omega (arith, next_auto_snapshot_time-later wide z laws (base_time last now) schedule))

-- The jobs that wait or run for the automatic snapshots of a pool.
abbrev pub active : String → List Job → ℕ
active pool = count_where (is_active_snapshot pool)

auto_snapshot_job-is_other :
    (env : Env) (pool : StoragePool) (id : String)
    → is_active_snapshot id (auto_snapshot_job env pool) ≡ true
    → pool.id ≡ id
unfolding auto_snapshot_job
auto_snapshot_job-is_other env pool id h = (str_eq_iff pool.id id).0 (ground (arith, h))

-- The jobs of a pool's environment after it was queued are those before, or one job more.
queue_pool-jobs :
    (wide : Char → Char) (z : Zone) (env : Env) (pool : StoragePool) (w : World)
    → ((queue_pool wide z env pool w).jobs ≡ w.jobs)
      ⊎ ((queue_pool wide z env pool w).jobs ≡ insert_job (auto_snapshot_job env pool) w.jobs)
unfolding queue_pool enqueue_auto_snapshot_job
queue_pool-jobs wide z env pool w =
    elim (Option-cases (
      next_auto_snapshot_after wide z pool.next_auto_snapshot_at pool.auto_snapshot_schedule
        env.now)) [
          | inl e ↦ rw (e, queue_pool) (inl refl)
          | inr found ↦
              rw (found.1, queue_pool)
                (elim (Bool-cases (env.db_ok write_queued)) [
                  | inl queued ↦ rw queued (elim (Bool-cases (env.db_ok insert_snapshot)) [
                    | inl inserted ↦ rw inserted (inr refl)
                    | inr failed ↦ rw failed (inl refl)
                  ])
                  | inr failed ↦ rw failed (inl refl)
                ])
        ]

-- One job more, in a pool that has none that is active.
active-insert_auto_snapshot_job :
    (env : Env) (pool : StoragePool) (id : String) (t : List Job)
    → active pool.id t ≡ 0
    → active id t ≤ 1
    → active id (insert_job (auto_snapshot_job env pool) t) ≤ 1
unfolding insert_job
active-insert_auto_snapshot_job env pool id t none_yet h =
    let item = auto_snapshot_job env pool in
    rw (count_where-append_one (is_active_snapshot id) t item)
      (elim (Bool-cases (is_active_snapshot id item)) [
        | inl e ↦
            let none_here =
              subst (λ x. active x t ≡ 0) (auto_snapshot_job-is_other env pool id e) none_yet in
            rw e (omega (arith, none_here))
        | inr e ↦ rw e h
      ])

queue_pool-active :
    (wide : Char → Char) (z : Zone) (env : Env) (pool : StoragePool) (id : String) (w : World)
    → active pool.id w.jobs ≡ 0
    → active id w.jobs ≤ 1
    → active id (queue_pool wide z env pool w).jobs ≤ 1
queue_pool-active wide z env pool id w none_yet h = elim (queue_pool-jobs wide z env pool w) [
  | inl e ↦ rw e h
  | inr e ↦ rw e (active-insert_auto_snapshot_job env pool id w.jobs none_yet h)
]

idle_zero : (n : ℕ) → ltb 0 n ≡ false → n ≡ 0
idle_zero n h = ground arith

-- The scheduler's check of a pool keeps every pool at one active snapshot job at most.
enqueue_due_pool-active :
    (wide : Char → Char) (z : Zone) (env : Env) (pool : StoragePool) (id : String) (w : World)
    → active id w.jobs ≤ 1
    → active id (enqueue_due_pool wide z env pool w).jobs ≤ 1
unfolding enqueue_due_pool has_pending_or_running_auto_snapshot_job
enqueue_due_pool-active wide z env pool id w h = elim (Bool-cases (is_due env.now pool)) [
  | inr e ↦ rw e h
  | inl e ↦ rw e (elim (Bool-cases (env.db_ok read_active)) [
    | inr failed ↦ rw failed h
    | inl read ↦ rw read (elim (Bool-cases (ltb 0 (active pool.id w.jobs))) [
      | inl busy ↦ rw busy h
      | inr idle ↦
          rw idle
            (queue_pool-active wide z env pool id w (idle_zero (active pool.id w.jobs) idle) h)
    ])
  ])
]

enqueue_due_pools-active :
    (wide : Char → Char) (z : Zone) (env : StoragePool → Env) (pools : List StoragePool)
    (id : String) (w : World)
    → active id w.jobs ≤ 1
    → active id (enqueue_due_pools wide z env pools w).jobs ≤ 1
unfolding enqueue_due_pools
enqueue_due_pools-active wide z env [] id w h = h
enqueue_due_pools-active wide z env (pool ∷ pools) id w h =
    enqueue_due_pools-active wide z env pools id (enqueue_due_pool wide z (env pool) pool w)
      (enqueue_due_pool-active wide z (env pool) pool id w h)

-- A round of the scheduler, whichever of its statements fail, leaves a pool with at most one
-- automatic snapshot that waits or runs, if it had at most one before.
pub enqueue_due_auto_snapshot_jobs-active :
    (wide : Char → Char) (z : Zone) (listed : Bool) (env : StoragePool → Env) (id : String)
    (w : World)
    → active id w.jobs ≤ 1
    → active id (enqueue_due_auto_snapshot_jobs wide z listed env w).jobs ≤ 1
unfolding enqueue_due_auto_snapshot_jobs
enqueue_due_auto_snapshot_jobs-active wide z true env id w h =
    enqueue_due_pools-active wide z env w.pools id w h
enqueue_due_auto_snapshot_jobs-active wide z false env id w h = h
