-- ===== src/Retention/Scrubbed.antt =====
-- What the purge of src/jobs/geofence_retention.py leaves in the database.
use checkin_service.Base.{
  ℕ, ◌<◌, ◌≡◌, refl, true, false, Bool, none, List, [], ◌∷◌, All-update_where, update_where, ◌∙◌,
  if◌then◌else◌,
}
use checkin_service.Models.{Db, DateTime, Checkin, checkin_conflict}
use checkin_service.Models.Store.{IsDistinct-update_where}
use checkin_service.Models.Sound.{IsSound, checkin_conflict_comm}
use checkin_service.Retention.{is_old, scrub}

scrub_keeps_keys : (a b : Checkin) → checkin_conflict (scrub a) b ≡ checkin_conflict a b
unfolding checkin_conflict scrub
scrub_keeps_keys a b = refl

scrub_keeps_id : (a : Checkin) → (scrub a).id ≡ a.id
unfolding scrub
scrub_keeps_id a = refl

pub scrubbed-IsSound :
    (p : Checkin → Bool) (db : Db)
    → IsSound db
    → IsSound (record db { checkins = update_where p scrub db.checkins })
scrubbed-IsSound p db s = record {
  events_distinct = s.events_distinct;
  registrations_distinct = s.registrations_distinct;
  checkins_distinct =
      IsDistinct-update_where checkin_conflict p scrub db.checkins scrub_keeps_keys
        (λ a b.
          checkin_conflict_comm a (scrub b) ∙ (scrub_keeps_keys b a ∙ checkin_conflict_comm b a))
        s.checkins_distinct;
  invitations_distinct = s.invitations_distinct;
  qr_distinct = s.qr_distinct;
  event_ids = s.event_ids;
  registration_ids = s.registration_ids;
  checkin_ids =
      All-update_where (λ (x : Checkin). x.id < db.next_id) p scrub db.checkins
        (λ x h. rw scrub_keeps_id h) s.checkin_ids;
  invitation_ids = s.invitation_ids;
  qr_ids = s.qr_ids;
}

-- Of each row, only the hashes go, and only of an old row, and all of them there.
abbrev pub AreScrubbed : DateTime → ℕ → List Checkin → List Checkin → Type 0
AreScrubbed now days [] [] = Unit
AreScrubbed now days [] (d ∷ ds) = true ≡ false
AreScrubbed now days (c ∷ cs) [] = true ≡ false
AreScrubbed now days (c ∷ cs) (d ∷ ds) =
    (d ≡ (if is_old now days c then record c { lat_hash = none; lon_hash = none } else c))
    × AreScrubbed now days cs ds
