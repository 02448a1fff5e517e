-- ===== src/Retention.antt =====
-- src/jobs/geofence_retention.py: the purge of old coordinate hashes.
pub mod Scrubbed
pub mod Rerun
use checkin_service.Base.{
  ℕ, ◌+◌, ◌-◌, ◌*◌, Bool, true, false, ◌&&◌, ◌||◌, Option, none, some, is_some, ltb, leb,
  count_where, update_where, if◌then◌else◌, suc,
}
use checkin_service.Text.{Text, txt, strip}
use checkin_service.Text.Numerals.{ℤ, pos, negsuc, parse_int}
use checkin_service.Env.{Environment, getenv}
use checkin_service.Models.{Db, DateTime, Checkin}

-- seconds in a day, and from the first representable date, in year 1, to the epoch
abbrev pub day : ℕ
day = 86_400

abbrev pub first_date : ℕ
first_date = 62_135_596_800

-- `max(value, 0)`
unfoldable pub at_least_zero : ℤ → ℕ
at_least_zero (pos n) = n
at_least_zero (negsuc n) = 0

unfoldable pub retention_days : Environment → ℕ
unfolding at_least_zero
retention_days env =
    elim (parse_int (strip (getenv env (txt "GEOFENCE_RETENTION_DAYS") (txt "90")))) [
      | none ↦ 90
      | some value ↦ at_least_zero value
    ]

-- The number of days, 0 where the job is disabled.
unfoldable pub effective_days : Option ℤ → Environment → ℕ
unfolding at_least_zero
effective_days none env = retention_days env
effective_days (some days) env = at_least_zero days

pub record Stats : Type 0 where
  pub rows_scrubbed : ℕ
  pub cutoff : Option ℤ
  pub dry_run : Bool
  pub disabled : Bool

-- `now - timedelta(days)`, which may be before the epoch
unfoldable pub cutoff_of : DateTime → ℕ → ℤ
cutoff_of now days =
    if leb (days * day) now then pos (now - days * day) else negsuc (days * day - now - 1)

-- `checkin_at < cutoff`
unfoldable pub is_old : DateTime → ℕ → Checkin → Bool
is_old now days c = ltb (c.checkin_at + days * day) now

unfoldable pub has_hash : Checkin → Bool
has_hash c = is_some c.lat_hash || is_some c.lon_hash

unfoldable pub is_stale : DateTime → ℕ → Checkin → Bool
unfolding is_old has_hash
is_stale now days c = is_old now days c && has_hash c

unfoldable pub scrub : Checkin → Checkin
scrub c = record c { lat_hash = none; lon_hash = none }

-- `none` is the `OverflowError` of a cutoff before year 1.
unfoldable pub purge_old_geofence_hashes :
    Option ℤ → Environment → DateTime → Db → Option (Stats × Db)
purge_old_geofence_hashes max_age_days env now db =
    let days = effective_days max_age_days env in
    if leb days 0
    then some (record { rows_scrubbed = 0; cutoff = none; dry_run = false; disabled = true }, db)
    else if ltb (now + first_date) (days * day)
    then none
    else some (
      record {
        rows_scrubbed = count_where (is_stale now days) db.checkins;
        cutoff = some (cutoff_of now days);
        dry_run = false;
        disabled = false;
      },
      record db { checkins = update_where (is_stale now days) scrub db.checkins },
    )
