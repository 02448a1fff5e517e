-- ===== src/Tests/Data.antt =====
-- A small database, its callers, and a stand-in for each library: digests that are decimal
-- checksums, and floats that are whole numbers counted from -1000.
use checkin_service.Base.{ℕ, ◌+◌, ◌*◌, ◌-◌, true, false, none, some, List, [], ◌∷◌, ltb, leb}
use checkin_service.Text.{Text, txt}
use checkin_service.Text.Numerals.{ℤ, pos, negsuc, show_ℕ, show_ℕ-IsNumeral}
use checkin_service.Models.{
  Db, Event, generic, qr_geo, EventStatus, Visibility, GroupKind, Registration, RegistrationStatus,
  GroupMember, MemberStatus,
}
use checkin_service.Hashing.{Crypto, Keys}
use checkin_service.Auth.Roles.{Actor}
use checkin_service.Auth.Bearer.{AuthConfig, unreachable}
use checkin_service.Geo.Distance.{FloatOps}
use checkin_service.Geo.Signals.{Knobs}
use checkin_service.Qr.Split.{IsHex, numeral-free, numeral-ascii}

abbrev pub checksum : Text → ℕ
checksum [] = 7
checksum (c ∷ s) = c + 3 * checksum s

abbrev pub crypto : Crypto
crypto = record {
  sha256 = λ s. show_ℕ (checksum s);
  hmac_sha256 = λ k s. show_ℕ (checksum k + 2 * checksum s);
}

pub crypto-IsHex : IsHex crypto
crypto-IsHex = record {
  sha256_free = λ s. numeral-free _ (show_ℕ-IsNumeral (checksum s)).0;
  hmac_free = λ k s. numeral-free _ (show_ℕ-IsNumeral (checksum k + 2 * checksum s)).0;
  sha256_ascii = λ s. numeral-ascii _ (show_ℕ-IsNumeral (checksum s)).0;
  hmac_ascii = λ k s. numeral-ascii _ (show_ℕ-IsNumeral (checksum k + 2 * checksum s)).0;
}

abbrev pub keys : Keys
keys = record { pii_hmac_key = txt "pii"; qr_signing_key = txt "qr" }

abbrev of_integer : ℤ → ℕ
of_integer (pos n) = 1000 + n
of_integer (negsuc n) = 999 - n

abbrev pub floats : FloatOps
floats = record {
  of_int = of_integer;
  le = leb;
  lt = ltb;
  add = λ a b. a + b;
  sub = λ a b. a - b;
  mul = λ a b. a * b;
  div = λ a b. a;
  square = λ a. a * a;
  sqrt = λ a. a;
  sin = λ a. a;
  cos = λ a. a;
  asin = λ a. some a;
  radians = λ a. a;
  mph_per_mps = 2;
  round3 = λ a. a;
  show = show_ℕ;
}

abbrev pub knobs : Knobs
knobs = record {
  velocity_check_enabled = true;
  velocity_window_seconds = pos 3600;
  ip_country_check_enabled = true;
  velocity_max_mph = 600;
  require_device_attestation = false;
  skip_device_attestation = false;
  is_dev = false;
}

abbrev pub ana : Text
ana = txt "11"

abbrev pub ben : Text
ben = txt "12"

abbrev pub student : Text → Actor
student uid = record {
  user_id = some uid;
  role = txt "athlete";
  canonical_role = txt "athlete";
  school_id = some (txt "s1");
}

abbrev pub admin : Actor
admin = record {
  user_id = some (txt "1");
  role = txt "school_admin";
  canonical_role = txt "school_admin";
  school_id = some (txt "s1");
}

-- a door of one seat, for the members of group 5
abbrev pub party : Event
party = record {
  id = 1;
  school_id = txt "s1";
  owner_user_id = txt "7";
  event_type = generic;
  title = txt "Party";
  description_sn = none;
  location_name = none;
  latitude = some 1000;
  longitude = some 1000;
  geofence_radius_m = some 50;
  start_time = none;
  end_time = none;
  max_capacity = some 1;
  checkin_method = qr_geo;
  status = EventStatus.active;
  visibility = Visibility.group_only;
  allow_nfc_checkin = false;
  organizer_role = none;
  group_id = some 5;
  group_kind = some GroupKind.school_admin_group;
  idempotency_key = none;
  created_at = 0;
  updated_at = 0;
}

abbrev pub seat_of_ana : Registration
seat_of_ana = record {
  id = 2;
  school_id = txt "s1";
  event_id = 1;
  attendee_user_id = ana;
  status = RegistrationStatus.registered;
  waitlist_position = none;
  idempotency_key = none;
  registered_at = 10;
  updated_at = 10;
}

abbrev member_of_5 : Text → GroupMember
member_of_5 uid = record { group_id = 5; user_id = some uid; status = MemberStatus.active }

abbrev pub with_registrations : List Registration → Db
with_registrations rows = record {
  events = party ∷ [];
  registrations = rows;
  checkins = [];
  invitations = [];
  qr_tokens = [];
  groups =
      record {
        id = 5;
        school_id = txt "s1";
        name = txt "Crew";
        sport = none;
        team_lead_user_id = none;
        created_by_user_id = txt "7";
        is_active = true;
      }
      ∷ [];
  members = member_of_5 ana ∷ member_of_5 ben ∷ [];
  relationships = [];
  next_id = 3;
}

-- The only seat is taken by Ana.
abbrev pub full : Db
full = with_registrations (seat_of_ana ∷ [])

abbrev pub config : AuthConfig
config = record {
  internal_service_token = [];
  allowed_callers = [];
  validate_token = λ t. unreachable;
}
