-- ===== src/Pools/Raid/Accepted.antt =====
-- What an accepted request for a pool guarantees: create.go, the checks of CreatePool.
use Prim.Native.Char.{Char}
use Prim.Native.String
use mathlib.Core.Path.{subst}
use yesnas_server.Prelude.{
  ℕ, ◌≤◌, ◌%◌, ◌≡◌, refl, String, true, false, List, [], ◌∷◌, ◌⊎◌, inl, inr, ◌||◌, not, str_eq,
  str_eq_iff, length, ltb, map, ap, sym, if◌then◌else◌, arith, All,
}
use yesnas_server.Prelude.Result.{Result, ok, err, ◌>>=◌, ◌>>◌, check}
use yesnas_server.Prelude.Text.{trim_space, to_lower, is_empty}
use yesnas_server.Prelude.FilePath.{clean, has_prefix}
use yesnas_server.Pools.Schedule.{normalize_auto_snapshot}
use yesnas_server.Pools.Raid.Devices.{IsDevicePath, clean-IsDevicePath}
use yesnas_server.Pools.Raid.{
  contains, clean_device_paths, normalize_device_paths, normalize_raid_level,
  validate_raid_device_count, validate_name, CreateRequest, PoolPlan, plan_pool,
}

-- What btrfs asks of the number of devices at each level.
abbrev pub DevicesFit : String → ℕ → Type 0
DevicesFit level n =
    ((level ≡ "single") × (1 ≤ n))
    ⊎ ((level ≡ "raid0") × (2 ≤ n))
    ⊎ ((level ≡ "raid1") × (2 ≤ n))
    ⊎ ((level ≡ "raid5") × (3 ≤ n))
    ⊎ ((level ≡ "raid10") × (4 ≤ n) × (n % 2 ≡ 0))

abbrev pub Distinct : List String → Type 0
Distinct [] = Unit {0}
Distinct (x ∷ xs) = (contains x xs ≡ false) × Distinct xs

abbrev pub IsLevel : String → Type 0
IsLevel l = (l ≡ "single") ⊎ (l ≡ "raid0") ⊎ (l ≡ "raid1") ⊎ (l ≡ "raid5") ⊎ (l ≡ "raid10")

count-DevicesFit :
    (l : String) (n : ℕ) → IsLevel l → validate_raid_device_count l n ≡ ok tt → DevicesFit l n
unfolding validate_raid_device_count
count-DevicesFit l n (inl e) h = inl (e, ground (arith, str_eq_iff l "single"))
count-DevicesFit l n (inr (inl e)) h =
    let h' : validate_raid_device_count "raid0" n ≡ ok tt = rw e at h in inr (inl (e, ground arith))
count-DevicesFit l n (inr (inr (inl e))) h =
    let h' : validate_raid_device_count "raid1" n ≡ ok tt = rw e at h in
    inr (inr (inl (e, ground arith)))
count-DevicesFit l n (inr (inr (inr (inl e)))) h =
    let h' : validate_raid_device_count "raid5" n ≡ ok tt = rw e at h in
    inr (inr (inr (inl (e, ground arith))))
count-DevicesFit l n (inr (inr (inr (inr e)))) h =
    let h' : validate_raid_device_count "raid10" n ≡ ok tt = rw e at h in
    inr (inr (inr (inr (e, ground arith, ground arith))))

All-contains :
    (c : String) (seen out : List String)
    → All (λ x. contains x (c ∷ seen) ≡ false) out
    → (contains c out ≡ false) × All (λ x. contains x seen ≡ false) out
All-contains c seen [] h = (refl, tt)
All-contains c seen (x ∷ out) h =
    let rest = All-contains c seen out h.1 in
    (ground (arith, str_eq_iff x c, str_eq_iff c x), (ground arith, rest.1))

cleaned_inv :
    (c path : String) (seen : List String) (rest : Result (List String)) (out : List String)
    → (if is_empty c || not (has_prefix "/dev/" c)
        then err (String.◌++◌ "invalid device path: " path)
        else if contains c seen
        then err (String.◌++◌ "duplicate device path: " c)
        else do result ← rest; ok (c ∷ result))
      ≡ ok out
    → (r : List String) × (rest ≡ ok r)
      × (out ≡ c ∷ r)
      × (has_prefix "/dev/" c ≡ true)
      × (contains c seen ≡ false)
cleaned_inv c path seen (ok r) out h = (r, refl, ground arith, ground arith, ground arith)
cleaned_inv c path seen (err e) out h = absurd (ground arith)

abbrev pub cleaned_paths : List String → List String
cleaned_paths paths = map (λ p. clean (trim_space p)) paths

abbrev pub AreAccepted : List String → List String → List String → Type 0
AreAccepted paths seen out =
    All IsDevicePath out
    × Distinct out
    × All (λ x. contains x seen ≡ false) out
    × (out ≡ cleaned_paths paths)

clean-AreAccepted :
    (paths seen out : List String)
    → clean_device_paths paths seen ≡ ok out
    → AreAccepted paths seen out
unfolding clean_device_paths
clean-AreAccepted [] seen [] h = (tt, tt, tt, refl)
clean-AreAccepted [] seen (x ∷ out) h = absurd (ground arith)
clean-AreAccepted (path ∷ paths) seen out h =
    let c = clean (trim_space path) in
    let (r, e, shape, dev, new) =
      cleaned_inv c path seen (clean_device_paths paths (c ∷ seen)) out h in
    let (devs, distinct, apart, same) = clean-AreAccepted paths (c ∷ seen) r e in
    let (fresh, others) = All-contains c seen r apart in
    subst (AreAccepted (path ∷ paths) seen) (sym shape) (
      (clean-IsDevicePath (trim_space path) dev, devs),
      (fresh, distinct),
      (new, others),
      ap (λ t. c ∷ t) same,
    )

normalize-AreAccepted :
    (paths out : List String) → normalize_device_paths paths ≡ ok out → AreAccepted paths [] out
unfolding normalize_device_paths
normalize-AreAccepted [] out h = absurd (ground arith)
normalize-AreAccepted (path ∷ paths) out h = clean-AreAccepted (path ∷ paths) [] out h

plan_inv :
    (n : Result (Unit {0})) (s : Result String) (c : Result (Unit {0})) (l : Result String)
    (d : Result (List String)) (v : String → ℕ → Result (Unit {0})) (plan : PoolPlan)
    → (do
      n
      schedule ← s
      c
      level ← l
      devices ← d
      v level (length devices)
      ok (record { schedule = schedule; level = level; devices = devices }))
      ≡ ok plan
    → (n ≡ ok tt)
      × (s ≡ ok plan.schedule)
      × (c ≡ ok tt)
      × (l ≡ ok plan.level)
      × (d ≡ ok plan.devices)
      × (v plan.level (length plan.devices) ≡ ok tt)
plan_inv n s c l d v plan h = ground arith

-- The level that a request names; raidi5 is another name of raid5.
abbrev pub NamesLevel : (Char → Char) → String → String → Type 0
NamesLevel wide raw level =
    let named = to_lower wide (trim_space raw) in
    IsLevel level × ((named ≡ level) ⊎ ((named ≡ "raidi5") × (level ≡ "raid5")))

normalize_raid_level-NamesLevel :
    (wide : Char → Char) (v l : String) → normalize_raid_level wide v ≡ ok l → NamesLevel wide v l
unfolding normalize_raid_level
normalize_raid_level-NamesLevel wide v l h = by_level (to_lower wide (trim_space v)) h
  where
    by_level :
        (s : String)
        → (if str_eq s "single"
              || str_eq s "raid0"
              || str_eq s "raid1"
              || str_eq s "raid5"
              || str_eq s "raidi5"
              || str_eq s "raid10"
            then ok (if str_eq s "raidi5" then "raid5" else s)
            else err (String.◌++◌ "unsupported raid level: " v))
          ≡ ok l
        → IsLevel l × ((s ≡ l) ⊎ ((s ≡ "raidi5") × (l ≡ "raid5")))
    by_level s h = grind (
      arith,
      str_eq_iff s "single",
      str_eq_iff s "raid0",
      str_eq_iff s "raid1",
      str_eq_iff s "raid5",
      str_eq_iff s "raidi5",
      str_eq_iff s "raid10",
    )

-- The plan that the checks accept: the level that the request names, with as many devices as it
-- needs; the devices are those of the request in their order, cleaned, each of them a path of
-- a file in /dev or deeper in its one clean form, and none of them twice.
pub record IsPlan (wide : Char → Char) (req : CreateRequest) (plan : PoolPlan) : Type 0 where
  pub named : is_empty (trim_space req.name) ≡ false
  pub uncached : length req.cache_disk_paths ≡ 0
  pub scheduled :
      normalize_auto_snapshot req.auto_snapshot_enabled req.auto_snapshot_schedule
      ≡ ok plan.schedule
  pub level : NamesLevel wide req.raid_level plan.level
  pub enough : DevicesFit plan.level (length plan.devices)
  pub requested : plan.devices ≡ cleaned_paths req.device_paths
  pub under_dev : All IsDevicePath plan.devices
  pub distinct : Distinct plan.devices

-- A request that the checks of CreatePool let through satisfies IsPlan.
pub plan_pool-IsPlan :
    (wide : Char → Char) (req : CreateRequest) (plan : PoolPlan)
    → plan_pool wide req ≡ ok plan
    → IsPlan wide req plan
unfolding plan_pool validate_name
plan_pool-IsPlan wide req plan h =
    let (n, s, c, l, d, v) =
      plan_inv (validate_name (trim_space req.name))
        (normalize_auto_snapshot req.auto_snapshot_enabled req.auto_snapshot_schedule)
        (check (not (ltb 0 (length req.cache_disk_paths)))
          "cache disk is not supported for btrfs pools yet")
        (normalize_raid_level wide req.raid_level) (normalize_device_paths req.device_paths)
        validate_raid_device_count plan h in
    let (devs, distinct, _, same) = normalize-AreAccepted req.device_paths plan.devices d in
    let level = normalize_raid_level-NamesLevel wide req.raid_level plan.level l in
    record {
      named = ground (arith, n);
      uncached = ground (arith, c);
      scheduled = s;
      level = level;
      enough = count-DevicesFit plan.level (length plan.devices) level.0 v;
      requested = same;
      under_dev = devs;
      distinct = distinct;
    }
