-- ===== src/Retention/Rerun.antt =====
-- A second run of the purge of src/jobs/geofence_retention.py.
use checkin_service.Base.{
  ℕ, ◌+◌, ◌*◌, ◌≡◌, refl, false, Bool-cases, Option, some, List, [], ◌∷◌, update_where, count_where,
  inl, inr, arith, leb, ltb,
}
use checkin_service.Text.Numerals.{ℤ}
use checkin_service.Env.{Environment}
use checkin_service.Models.{Db, DateTime, Checkin}
use checkin_service.Retention.{
  day, first_date, effective_days, Stats, has_hash, is_stale, scrub, purge_old_geofence_hashes,
}

scrub_stale : (now : DateTime) (days : ℕ) (c : Checkin) → is_stale now days (scrub c) ≡ false
unfolding is_stale scrub has_hash
scrub_stale now days c = ground arith

none_stale :
    (now : DateTime) (days : ℕ) (cs : List Checkin)
    → let done = update_where (is_stale now days) scrub cs in
      (count_where (is_stale now days) done ≡ 0)
      × (update_where (is_stale now days) scrub done ≡ done)
unfolding update_where count_where
none_stale now days [] = (refl, refl)
none_stale now days (c ∷ cs) =
    let rest = none_stale now days cs in
    elim (Bool-cases (is_stale now days c)) [
      | inl e ↦ rw e (rw (scrub_stale now days c) (omega (arith, rest.0), cc (rest.1)))
      | inr e ↦ rw e (rw e (omega (arith, rest.0), cc (rest.1)))
    ]

-- A second purge at the same time and of the same days finds nothing, and changes nothing.
pub purge_twice :
    (max_age_days : Option ℤ) (env : Environment) (now : DateTime) (db db' : Db) (stats : Stats)
    → purge_old_geofence_hashes max_age_days env now db ≡ some (stats, db')
    → purge_old_geofence_hashes max_age_days env now db'
      ≡ some (record stats { rows_scrubbed = 0 }, db')
unfolding purge_old_geofence_hashes
purge_twice max_age_days env now db db' stats h =
    let days = effective_days max_age_days env in
    elim (Bool-cases (leb days 0)) [
      | inl e ↦ ground arith
      | inr e ↦ elim (Bool-cases (ltb (now + first_date) (days * day))) [
        | inl f ↦ absurd (ground arith)
        | inr f ↦
            let rest = none_stale now days db.checkins in
            let is_db : record db { checkins = update_where (is_stale now days) scrub db.checkins }
                ≡ db' =
              ground arith in
            ground (arith, rest.0, rest.1, is_db)
      ]
    ]
