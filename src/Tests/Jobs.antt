-- ===== src/Tests/Jobs.antt =====
-- The retention job, the picker of groups and the CSRF middleware.
use checkin_service.Base.{
  ◌≡◌, ◌↔◌, ◌⊎◌, refl, none, some, [], ◌∷◌, count_where, update_where, false, true,
}
use checkin_service.Text.{txt, member, upper, is_falsy}
use checkin_service.Text.Numerals.{pos}
use checkin_service.Env.{Environment}
use checkin_service.Models.{Db, Checkin, manual}
use checkin_service.Retention
use checkin_service.Retention.Rerun.{purge_twice}
use checkin_service.Csrf
use checkin_service.Csrf.Forwarded.{IsToken, dispatch_iff}
use checkin_service.Tests.Data.{ana, full}

abbrev unset : Environment
unset key = none

abbrev day_old : Checkin
day_old = record {
  id = 1;
  school_id = txt "s1";
  event_id = 1;
  attendee_user_id = ana;
  checkin_at = 10;
  checkin_method = manual;
  qr_token_hash = none;
  lat_hash = some (txt "a");
  lon_hash = some (txt "b");
  geofence_passed = some true;
  notes_sn = none;
}

abbrev stored : Db
stored = record full { checkins = day_old ∷ [] }

abbrev purged : Db
purged = record full { checkins = record day_old { lat_hash = none; lon_hash = none } ∷ [] }

abbrev purge_stats : Retention.Stats
purge_stats = record {
  rows_scrubbed = 1;
  cutoff = some (pos 13_600);
  dry_run = false;
  disabled = false;
}

purging :
    Retention.purge_old_geofence_hashes (some (pos 1)) unset 100_000 stored
    ≡ some (purge_stats, purged)
unfolding Retention.purge_old_geofence_hashes Retention.effective_days count_where
    Retention.cutoff_of update_where Retention.is_stale Retention.scrub
purging = refl

purge_twice_example :
    Retention.purge_old_geofence_hashes (some (pos 1)) unset 100_000 purged
    ≡ some (record purge_stats { rows_scrubbed = 0 }, purged)
purge_twice_example = purge_twice (some (pos 1)) unset 100_000 stored purged purge_stats purging

abbrev form_post : Csrf.Incoming
form_post = record {
  method = txt "POST";
  path = txt "/api/checkin/events/";
  cookies = λ name. some (txt "t");
  csrf_header = some (txt "t");
}

dispatch_iff_example : (Csrf.dispatch unset form_post ≡ Csrf.forward) ↔ (
    (Csrf.is_enabled unset ≡ false)
    ⊎ (member (upper form_post.method) Csrf.safe_methods ≡ true)
    ⊎ (member form_post.path Csrf.exempt_paths ≡ true)
    ⊎ (is_falsy (form_post.cookies (Csrf.session_cookie_name unset)) ≡ true)
    ⊎ IsToken (form_post.cookies (Csrf.csrf_cookie_name unset)) form_post.csrf_header)
dispatch_iff_example = dispatch_iff unset form_post
