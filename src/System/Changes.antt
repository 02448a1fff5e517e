-- ===== src/System/Changes.antt =====
-- What the answer to an invitation, of src/routers/event_invitations.py, and the retention job, of
-- src/jobs/geofence_retention.py, leave of the database, under any predicate.
use checkin_service.Base.{
  Result, HttpError, ok, err, ℕ, Bool, Bool-cases, Option, Option-cases, List, inl, inr, first,
  ◌&&◌, ◌==◌, leb, ltb, ◌+◌, ◌*◌, update_where,
}
use checkin_service.Text.Numerals.{ℤ}
use checkin_service.Env.{Environment}
use checkin_service.Models.{Db, DateTime, Invitation, Checkin}
use checkin_service.Hashing.{Crypto, Keys}
use checkin_service.Auth.Roles.{Actor}
use checkin_service.Auth.Gates.{is_user}
use checkin_service.Geo.Distance.{FloatOps}
use checkin_service.Geo.Signals.{Knobs}
use checkin_service.Invitations.{Decision, respond_to_invitation}
use checkin_service.Retention.{
  purge_old_geofence_hashes, effective_days, day, first_date, is_stale, scrub,
}
use checkin_service.System.{purged}

pub respond_cases :
    (P : Result Invitation × Db → Type 0) (actor : Actor) (event_id invitation_id : ℕ)
    (d : Decision) (now : DateTime) (db : Db)
    → ((e : HttpError) → P (err e, db))
    → ((i : Invitation) (rows : List Invitation) → P (ok i, record db { invitations = rows }))
    → P (respond_to_invitation actor event_id invitation_id d now db)
unfolding respond_to_invitation
respond_cases P actor event_id invitation_id d now db failed done =
    let p = λ (i : Invitation). i.id == invitation_id && i.event_id == event_id in
    elim (Option-cases (first p db.invitations)) [
      | inl e ↦ rw (e, respond_to_invitation) (failed _)
      | inr (i, e) ↦ elim (Bool-cases (is_user actor i.invitee_user_id)) [
        | inl y ↦ rw (e, respond_to_invitation) (rw y (done _ _))
        | inr n ↦ rw (e, respond_to_invitation) (rw n (failed _))
      ]
    ]

module _ (crypto : Crypto) (keys : Keys) (fl : FloatOps) (knobs : Knobs) (env : Environment) where
  -- The job changes nothing, or the hashes of some rows.
  pub purged_cases :
      (P : Db → Type 0) (days : Option ℤ) (now : DateTime) (db : Db)
      → P db
      → ((p : Checkin → Bool) → P (record db { checkins = update_where p scrub db.checkins }))
      → P (purged crypto keys fl knobs env days now db)
  unfolding purged purge_old_geofence_hashes
  purged_cases P days now db p q =
      let n = effective_days days env in
      elim (Bool-cases (leb n 0)) [
        | inl e ↦ rw (purged, purge_old_geofence_hashes, e) p
        | inr e ↦ elim (Bool-cases (ltb (now + first_date) (n * day))) [
          | inl f ↦ rw (purged, purge_old_geofence_hashes, e) (rw f p)
          | inr f ↦ rw (purged, purge_old_geofence_hashes, e) (rw f (q (is_stale now n)))
        ]
      ]
