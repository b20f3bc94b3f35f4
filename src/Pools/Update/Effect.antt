-- ===== src/Pools/Update/Effect.antt =====
-- What UpdatePool leaves in the table: internal/storagepool/update.go.
use Prim.Native.Char.{Char}
use mathlib.Core.Option
use mathlib.Core.Path.{subst}
use yesnas_server.Prelude.{
  ℕ, ◌≡◌, refl, ap, sym, ◌∙◌, ◌≢◌, String, Bool, true, false, Option, none, some, List, str_eq_iff,
  if◌then◌else◌, arith, Option-cases, inl, inr,
}
use yesnas_server.Prelude.Result.{Result, ok, err}
use yesnas_server.Prelude.Table.{first_where-update_where, first_where_holds}
use yesnas_server.Pools.Schedule.{normalize_auto_snapshot, normalize_weekly_schedule}
use yesnas_server.Pools.Schedule.Spec.{normalize-nonempty}
use yesnas_server.Pools.Schedule.Calendar.{
  Zone, IsZone, initial_auto_snapshot_next_run, next_auto_snapshot_time,
}
use yesnas_server.Pools.Schedule.NextRun.{IsNextRun, next_auto_snapshot_time-IsNextRun}
use yesnas_server.Pools.Schedule.Idempotent.{normalize-digits, trim_space-digits, normalize_idem}
use yesnas_server.Pools.Store.{
  StoragePool, get, has_id, update_auto_snapshot_config, configured_pool,
}
use yesnas_server.Pools.Update.{UpdateRequest, Reached, store_config, update_pool}

-- The row of any pool after the update: the pool itself with its new settings, all others as
-- they were.
config-get :
    (id k : String) (enabled : Bool) (schedule : String) (next : Option ℕ) (now : ℕ)
    (t : List StoragePool)
    → get k (update_auto_snapshot_config id enabled schedule next now t).0
      ≡ Option.map
          (λ p. if has_id id p then configured_pool enabled schedule next now p else p)
          (get k t)
unfolding get update_auto_snapshot_config
config-get id k enabled schedule next now t =
    first_where-update_where (has_id k) (has_id id) (configured_pool enabled schedule next now) t
      (λ p. refl)

store_config-ok :
    (db : Reached) (id : String) (enabled : Bool) (schedule : String) (next : Option ℕ) (now : ℕ)
    (t t' : List StoragePool) (q : StoragePool)
    → store_config db id enabled schedule next now t ≡ (ok q, t')
    → (t' ≡ (update_auto_snapshot_config id enabled schedule next now t).0) × (get id t' ≡ some q)
unfolding store_config
store_config-ok db id enabled schedule next now t t' q h =
    ground
      (arith, Option-cases (get id (update_auto_snapshot_config id enabled schedule next now t).0))

-- The row after the update: the new settings, and every other column as it was. The schedule is
-- the one that the request gives.
pub record IsConfigured (z : Zone) (req : UpdateRequest) (now : ℕ) (p q : StoragePool)
    : Type 0 where
  pub requested :
      normalize_auto_snapshot req.auto_snapshot_enabled req.auto_snapshot_schedule
      ≡ ok q.auto_snapshot_schedule
  pub row :
      q
      ≡ configured_pool req.auto_snapshot_enabled q.auto_snapshot_schedule q.next_auto_snapshot_at
          now p
  pub off :
      req.auto_snapshot_enabled ≡ false
      → (q.auto_snapshot_schedule ≡ "") × (q.next_auto_snapshot_at ≡ none)
  pub on :
      req.auto_snapshot_enabled ≡ true
      → (next : ℕ) × (q.next_auto_snapshot_at ≡ some next)
        × IsNextRun z q.auto_snapshot_schedule now next

found_row :
    (id : String) (f : StoragePool → StoragePool) (t : List StoragePool) (q : StoragePool)
    → Option.map (λ p. if has_id id p then f p else p) (get id t) ≡ some q
    → (p : StoragePool) × (get id t ≡ some p) × (q ≡ f p)
unfolding get
found_row id f t q h = elim (Option-cases (get id t)) [
  | inl e ↦ absurd (ground arith)
  | inr (p, e) ↦ (p, e, ground (arith, first_where_holds (has_id id) t p e))
]

other_row :
    (id k : String) (f : StoragePool → StoragePool) (t : List StoragePool)
    → k ≢ id
    → Option.map (λ p. if has_id id p then f p else p) (get k t) ≡ get k t
unfolding get
other_row id k f t ne = elim (Option-cases (get k t)) [
  | inl e ↦ rw e refl
  | inr (p, e) ↦
      rw e
        (ground (arith, first_where_holds (has_id k) t p e, str_eq_iff p.id k, str_eq_iff p.id id))
]

next-IsNextRun :
    (wide : Char → Char) (z : Zone) (laws : IsZone z) (now : ℕ) (raw schedule : String)
    → normalize_weekly_schedule raw ≡ ok schedule
    → (next : ℕ) × (initial_auto_snapshot_next_run wide z true schedule now ≡ some next)
      × IsNextRun z schedule now next
unfolding initial_auto_snapshot_next_run
next-IsNextRun wide z laws now raw schedule h =
    let (shape, digits) = normalize-digits raw schedule h in
    (
      next_auto_snapshot_time wide z now schedule,
      rw (trim_space-digits schedule digits) (rw (normalize-nonempty raw schedule h) refl),
      next_auto_snapshot_time-IsNextRun wide z laws now schedule schedule
          (normalize_idem raw schedule h),
    )

module _ (wide : Char → Char) (z : Zone) (laws : IsZone z) where
  settings-IsConfigured :
      (req : UpdateRequest) (now : ℕ) (schedule : String) (p q : StoragePool)
      → normalize_auto_snapshot req.auto_snapshot_enabled req.auto_snapshot_schedule ≡ ok schedule
      → q
        ≡ configured_pool req.auto_snapshot_enabled schedule
            (initial_auto_snapshot_next_run wide z req.auto_snapshot_enabled schedule now)
            now
            p
      → IsConfigured z req now p q
  unfolding normalize_auto_snapshot configured_pool initial_auto_snapshot_next_run
  settings-IsConfigured req now schedule p q n e = record {
    requested = n ∙ ap ok (sym (ap (λ r. r.auto_snapshot_schedule) e));
    row = ground arith;
    off = λ o. ground arith;
    on = λ o.
        let named : normalize_weekly_schedule req.auto_snapshot_schedule ≡ ok schedule =
          ground arith in
        let (next, due, is_next) =
          next-IsNextRun wide z laws now req.auto_snapshot_schedule schedule named in
        let kept : schedule ≡ q.auto_snapshot_schedule = ground arith in
        (next, ground arith, subst (λ s. IsNextRun z s now next) kept is_next);
  }

  -- An update that succeeds finds the pool, gives its row the new settings and answers with that
  -- row, which the table then holds, and touches no other pool. The stored schedule is the
  -- request's, normalized. With automatic snapshots off it is empty and no run is due. With them
  -- on, in a zone whose days begin at 0:00, the next run is the first midnight after now on a
  -- weekday of the stored schedule.
  pub update_pool_success :
      (db : Reached) (now : ℕ) (pool : StoragePool) (req : UpdateRequest) (t t' : List StoragePool)
      (q : StoragePool)
      → update_pool wide z db now (some pool) req t ≡ (ok q, t')
      → (p : StoragePool) × (get pool.id t ≡ some p)
        × IsConfigured z req now p q
        × (get pool.id t' ≡ some q)
        × ((k : String) → k ≢ pool.id → get k t' ≡ get k t)
  unfolding update_pool
  update_pool_success db now pool req t t' q h =
      by_schedule (normalize_auto_snapshot req.auto_snapshot_enabled req.auto_snapshot_schedule)
        refl
    where
      by_schedule :
          (r : Result String)
          → normalize_auto_snapshot req.auto_snapshot_enabled req.auto_snapshot_schedule ≡ r
          → (p : StoragePool) × (get pool.id t ≡ some p)
            × IsConfigured z req now p q
            × (get pool.id t' ≡ some q)
            × ((k : String) → k ≢ pool.id → get k t' ≡ get k t)
      by_schedule (err m) e = absurd (ground arith)
      by_schedule (ok schedule) e =
          let next = initial_auto_snapshot_next_run wide z req.auto_snapshot_enabled schedule now in
          let h' : store_config db pool.id req.auto_snapshot_enabled schedule next now t
              ≡ (ok q, t') =
            rw (e, update_pool) at h in
          let (after, found) =
            store_config-ok db pool.id req.auto_snapshot_enabled schedule next now t t' q h' in
          let (p, was, shape) =
            found_row pool.id (configured_pool req.auto_snapshot_enabled schedule next now) t q (
              sym (config-get pool.id pool.id req.auto_snapshot_enabled schedule next now t)
              ∙ rw after at found) in
          (
            p,
            was,
            settings-IsConfigured req now schedule p q e shape,
            found,
            λ k ne.
                ap (get k) after
                ∙ config-get pool.id k req.auto_snapshot_enabled schedule next now t
                ∙ other_row pool.id k (configured_pool req.auto_snapshot_enabled schedule next now)
                    t ne,
          )
