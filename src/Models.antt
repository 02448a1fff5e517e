-- ===== src/Models.antt =====
-- The ORM models (src/models/): one record for each table, with all columns of its own tables and
-- those columns of the three mirrored tables of groups that the service reads; the
-- enumerations of its columns, and the unique constraints of `__table_args__`. A `DateTime` is a

pub mod Store
pub mod Sound
use checkin_service.Base.{
  ℕ, Bool, true, false, ◌&&◌, ◌||◌, Option, none, some, List, ◌==◌, if◌then◌else◌,
}
use checkin_service.Text.{Text, text_eq}

abbrev pub DateTime : Type 0
DateTime = ℕ

abbrev pub Float : Type 0
Float = ℕ

pub data EventType : Type 0 where
  rush coach_clinic brand_activation agency_mixer generic : EventType

pub data CheckinMethod : Type 0 where
  manual qr geo qr_geo nfc no_checkin : CheckinMethod

pub data EventStatus : Type 0 where
  draft published active completed cancelled : EventStatus

pub data Visibility : Type 0 where
  public school_only unlisted invite_only group_only : Visibility

pub data GroupKind : Type 0 where
  school_admin_group team_lead_cohort : GroupKind

pub record Event : Type 0 where
  pub id : ℕ
  pub school_id : Text
  pub owner_user_id : Text
  pub event_type : EventType
  pub title : Text
  pub description_sn : Option Text
  pub location_name : Option Text
  pub latitude : Option Float
  pub longitude : Option Float
  pub geofence_radius_m : Option ℕ
  pub start_time : Option DateTime
  pub end_time : Option DateTime
  pub max_capacity : Option ℕ
  pub checkin_method : CheckinMethod
  pub status : EventStatus
  pub visibility : Visibility
  pub allow_nfc_checkin : Bool
  pub organizer_role : Option Text
  pub group_id : Option ℕ
  pub group_kind : Option GroupKind
  pub idempotency_key : Option Text
  pub created_at : DateTime
  pub updated_at : DateTime

pub data RegistrationStatus : Type 0 where
  registered waitlisted cancelled attended no_show : RegistrationStatus

pub record Registration : Type 0 where
  pub id : ℕ
  pub school_id : Text
  pub event_id : ℕ
  pub attendee_user_id : Text
  pub status : RegistrationStatus
  pub waitlist_position : Option ℕ
  pub idempotency_key : Option Text
  pub registered_at : DateTime
  pub updated_at : DateTime

pub record Checkin : Type 0 where
  pub id : ℕ
  pub school_id : Text
  pub event_id : ℕ
  pub attendee_user_id : Text
  pub checkin_at : DateTime
  pub checkin_method : CheckinMethod
  pub qr_token_hash : Option Text
  pub lat_hash : Option Text
  pub lon_hash : Option Text
  pub geofence_passed : Option Bool
  pub notes_sn : Option Text

pub data InvitationStatus : Type 0 where
  sent accepted declined revoked expired : InvitationStatus

pub record Invitation : Type 0 where
  pub id : ℕ
  pub school_id : Text
  pub event_id : ℕ
  pub inviter_user_id : Text
  pub hashed_inviter_id : Text
  pub invitee_user_id : Text
  pub hashed_invitee_id : Text
  pub status : InvitationStatus
  pub reason_sn : Option Text
  pub created_at : DateTime
  pub responded_at : Option DateTime

pub data EventTable : Type 0 where
  events greek_rush_events : EventTable

pub record QrToken : Type 0 where
  pub id : ℕ
  pub school_id : Text
  pub event_table : EventTable
  pub event_id : ℕ
  pub token_hash : Text
  pub nonce : Text
  pub issued_at : DateTime
  pub expires_at : DateTime
  pub single_use : Bool
  pub used_at : Option DateTime
  pub used_by_user_id : Option Text
  pub issued_by_user_id : Text

pub record Group : Type 0 where
  pub id : ℕ
  pub school_id : Text
  pub name : Text
  pub sport : Option Text
  pub team_lead_user_id : Option Text
  pub created_by_user_id : Text
  pub is_active : Bool

pub data MemberStatus : Type 0 where
  pending active declined removed : MemberStatus

pub record GroupMember : Type 0 where
  pub group_id : ℕ
  pub user_id : Option Text
  pub status : MemberStatus

pub data Consent : Type 0 where
  pending accepted declined revoked : Consent

pub record Relationship : Type 0 where
  pub team_lead_user_id : Text
  pub member_user_id : Option Text
  pub sport : Option Text
  pub consent_status : Consent

-- Two optional keys that collide in a unique index: NULL collides with nothing.
unfoldable pub same_key : Option Text → Option Text → Bool
same_key none b = false
same_key (some a) none = false
same_key (some a) (some b) = text_eq a b

-- `column == s`, at a nullable column
unfoldable pub column_eq : Option Text → Text → Bool
column_eq none s = false
column_eq (some t) s = text_eq t s

-- The primary key and `uk_ev_school_idem`.
unfoldable pub event_conflict : Event → Event → Bool
unfolding same_key
event_conflict a b =
    a.id == b.id
    || (text_eq a.school_id b.school_id && same_key a.idempotency_key b.idempotency_key)

-- The primary key, `uk_er_event_attendee` and `uk_er_event_idem`.
unfoldable pub registration_conflict : Registration → Registration → Bool
unfolding same_key
registration_conflict a b =
    a.id == b.id
    || (a.event_id == b.event_id
        && (text_eq a.attendee_user_id b.attendee_user_id
            || same_key a.idempotency_key b.idempotency_key))

-- The primary key and `uk_ec_event_attendee`.
unfoldable pub checkin_conflict : Checkin → Checkin → Bool
checkin_conflict a b =
    a.id == b.id || (a.event_id == b.event_id && text_eq a.attendee_user_id b.attendee_user_id)

-- The primary key and `uk_ei_event_invitee`.
unfoldable pub invitation_conflict : Invitation → Invitation → Bool
invitation_conflict a b =
    a.id == b.id || (a.event_id == b.event_id && text_eq a.invitee_user_id b.invitee_user_id)

-- The primary key and `uk_qr_token_hash`.
unfoldable pub qr_conflict : QrToken → QrToken → Bool
qr_conflict a b = a.id == b.id || text_eq a.token_hash b.token_hash

-- The tables of the database, and the next value of the primary keys: above every key in use.
pub record Db : Type 0 where
  pub events : List Event
  pub registrations : List Registration
  pub checkins : List Checkin
  pub invitations : List Invitation
  pub qr_tokens : List QrToken
  pub groups : List Group
  pub members : List GroupMember
  pub relationships : List Relationship
  pub next_id : ℕ
