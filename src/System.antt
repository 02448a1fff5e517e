-- ===== src/System.antt =====
-- The whole service over its database: a run is a sequence of requests of any callers, each with the
-- requests that commit inside it, the retention job, and the writes of other services to the
-- mirrored tables of groups.
pub mod Changes
pub mod Inserts
pub mod Lives
pub mod Refined
pub mod Errors
use checkin_service.Base.{ℕ, Bool, Option, none, some, List, [], ok, err}
use checkin_service.Text.{Text}
use checkin_service.Text.Numerals.{ℤ}
use checkin_service.Env.{Environment}
use checkin_service.Models.{Db, DateTime, Event, Group, GroupMember, Relationship}
use checkin_service.Hashing.{Crypto, Keys}
use checkin_service.Auth.Roles.{Actor}
use checkin_service.Geo.Distance.{FloatOps}
use checkin_service.Geo.Signals.{Knobs}
use checkin_service.Events.{create_event, delete_event}
use checkin_service.Events.Schema.{CreateBody, validate_create, geofence_max_radius}
use checkin_service.Events.Update.{UpdateBody, validate_update, update_event}
use checkin_service.Registrations.Defs.{register_for_event, cancel_registration}
use checkin_service.Checkins.Limiter.{Limiter}
use checkin_service.Checkins.Submit
use checkin_service.Checkins.Submit.{Request}
use checkin_service.Qr.Service.{mint_qr_token}
use checkin_service.Invitations.{Invitee, Decision, send_invitations, respond_to_invitation}
use checkin_service.Retention.{purge_old_geofence_hashes}

-- `during` is what commits between the first reads of a creation, a registration or a check-in and its
-- insert; for a batch of invitations there is one for each of its turns. A PATCH, a deletion, a
-- cancellation, a token that is minted, an answer, and what a check-in does from its insert on are one
-- step each. The last field of each is the rest of the run.
pub data Run : Type 0 where
  finished : Run
  creates : Run → Actor → CreateBody → Option Text → DateTime → Run → Run
  updates : (Event → Event → Bool) → Actor → ℕ → UpdateBody → DateTime → Run → Run
  deletes : Actor → ℕ → DateTime → Run → Run
  registers : Run → Actor → ℕ → Option Text → Option Text → DateTime → Run → Run
  cancels : Actor → ℕ → Text → DateTime → Run → Run
  checks_in : Run → Actor → ℕ → Request → Option Text → ℕ → DateTime → Limiter → Run → Run
  mints : Actor → ℕ → ℕ → Bool → Option Text → Text → ℕ → Run → Run
  invites : (ℕ → Run) → Actor → ℕ → List Invitee → DateTime → Run → Run
  answers : Actor → ℕ → ℕ → Decision → DateTime → Run → Run
  purges : Option ℤ → DateTime → Run → Run
  mirrors : List Group → List GroupMember → List Relationship → Run → Run

-- no row yet, in the tables that the service owns
abbrev pub fresh : List Group → List GroupMember → List Relationship → Db
fresh groups members relationships = record {
  events = [];
  registrations = [];
  checkins = [];
  invitations = [];
  qr_tokens = [];
  groups = groups;
  members = members;
  relationships = relationships;
  next_id = 1;
}

module _ (crypto : Crypto) (keys : Keys) (fl : FloatOps) (knobs : Knobs) (env : Environment) where
  -- POST /events, past the validators of its body
  unfoldable pub posted : (Db → Db) → Actor → CreateBody → Option Text → DateTime → Db → Db
  posted race actor body key now db = elim (validate_create fl (geofence_max_radius env) body) [
    | err e ↦ db
    | ok p ↦ (create_event race actor p key now db).1
  ]

  -- PATCH /events/{id}, past the validators of its body
  unfoldable pub amended : (Event → Event → Bool) → Actor → ℕ → UpdateBody → DateTime → Db → Db
  amended is_clean actor event_id body now db =
      elim (validate_update fl (geofence_max_radius env) body) [
        | err e ↦ db
        | ok p ↦ (update_event is_clean actor event_id p now db).1
      ]

  -- the retention job, where its cutoff is a date
  unfoldable pub purged : Option ℤ → DateTime → Db → Db
  purged days now db = elim (purge_old_geofence_hashes days env now db) [
    | none ↦ db
    | some out ↦ out.1
  ]

  unfoldable pub run : Run → Db → Db
  unfolding posted amended purged
  run finished db = db
  run (creates during actor body key now rest) db =
      run rest (posted (run during) actor body key now db)
  run (updates is_clean actor event_id body now rest) db =
      run rest (amended is_clean actor event_id body now db)
  run (deletes actor event_id now rest) db = run rest (delete_event actor event_id now db).1
  run (registers during actor event_id attendee key now rest) db =
      run rest (register_for_event (run during) actor event_id attendee key now db).1
  run (cancels actor event_id target now rest) db =
      run rest (cancel_registration actor event_id target now db).1
  run (checks_in during actor event_id q ip tick now limiter rest) db =
      run rest
        (Submit.submit_checkin crypto keys fl knobs (run during) actor event_id q ip tick now
          limiter db).2
  run (mints actor event_id ttl single_use attendee nonce now rest) db =
      run rest (mint_qr_token crypto keys actor event_id ttl single_use attendee nonce now db).1
  run (invites during actor event_id items now rest) db =
      run rest
        (send_invitations crypto keys (λ n d. run (during n) d) actor event_id items now db).1
  run (answers actor event_id invitation_id decision now rest) db =
      run rest (respond_to_invitation actor event_id invitation_id decision now db).1
  run (purges days now rest) db = run rest (purged days now db)
  run (mirrors groups members relationships rest) db =
      run rest (record db { groups = groups; members = members; relationships = relationships })
