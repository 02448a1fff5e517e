-- ===== src/Registrations/Gate.antt =====
-- What POST /events/{id}/register checks before it writes, in the order of the handler.
use checkin_service.Base.{
  ℕ, Bool, true, false, not, ◌&&◌, ◌||◌, Option, none, some, [], ◌∷◌, leb, ◌==◌, first, length,
  is_none, if◌then◌else◌, Result, ok, err, ◌>>=◌, ◌>>◌, require, http, bad_idempotency_key,
  event_not_found, attendee_user_id_required, event_not_open, invitation_required,
}
use checkin_service.Text.{Text, text_eq, is_empty, is_falsy, or_else}
use checkin_service.Models.{
  Db, Event, EventStatus, draft, published, active, completed, cancelled, Visibility, public,
  school_only, unlisted, invite_only, group_only, school_admin_group, team_lead_cohort, Invitation,
  InvitationStatus, GroupMember, MemberStatus, Relationship, Consent, column_eq,
}
use checkin_service.Auth.Roles.{Actor, is_admin}
use checkin_service.Auth.Gates.{assert_self_or_admin}

-- the class [A-Za-z0-9_\-:.]
unfoldable pub is_idem_char : ℕ → Bool
is_idem_char c =
    (leb 65 c && leb c 90)
    || (leb 97 c && leb c 122)
    || (leb 48 c && leb c 57)
    || c == b'_'
    || c == b'-'
    || c == b':'
    || c == b'.'

unfoldable pub all_idem_chars : Text → Bool
unfolding is_idem_char
all_idem_chars [] = true
all_idem_chars (c ∷ s) = is_idem_char c && all_idem_chars s

-- `$` also matches before a newline that ends the text.
unfoldable pub before_final_newline : Text → Text
before_final_newline [] = []
before_final_newline (c ∷ []) = if c == 10 then [] else c ∷ []
before_final_newline (c ∷ d ∷ s) = c ∷ before_final_newline (d ∷ s)

-- `_IDEM_RE.match(key)`
unfoldable pub matches_idem : Text → Bool
unfolding all_idem_chars before_final_newline
matches_idem key =
    let body = before_final_newline key in
    all_idem_chars body && leb 8 (length body) && leb (length body) 128

unfoldable pub validate_idem_key : Option Text → Result (Option Text)
validate_idem_key none = ok none
validate_idem_key (some key) =
    if is_empty key
    then ok none
    else if matches_idem key
    then ok (some key)
    else err (http 400 bad_idempotency_key)

-- `event.status in {"published", "active"}`
unfoldable pub is_open : EventStatus → Bool
is_open draft = false
is_open published = true
is_open active = true
is_open completed = false
is_open cancelled = false

-- `school` is a filter only where it is truthy.
unfoldable pub is_event : ℕ → Option Text → Event → Bool
is_event event_id school e =
    e.id == event_id && (is_falsy school || text_eq e.school_id (or_else school []))

unfoldable pub resolve_event_or_404 : Db → ℕ → Option Text → Result Event
resolve_event_or_404 db event_id school = elim (first (is_event event_id school) db.events) [
  | none ↦ err (http 404 event_not_found)
  | some e ↦ ok e
]

-- `payload.attendee_user_id or (actor.get("user_id") and str(actor["user_id"]))`
unfoldable pub target_user : Actor → Option Text → Result Text
target_user actor attendee =
    let target = or_else attendee (or_else actor.user_id []) in
    if is_empty target then err (http 400 attendee_user_id_required) else ok target

unfoldable pub is_owner : Actor → Event → Bool
is_owner actor event =
    not (is_falsy actor.user_id) && text_eq (or_else actor.user_id []) event.owner_user_id

unfoldable pub is_accepted : InvitationStatus → Bool
is_accepted InvitationStatus.sent = false
is_accepted InvitationStatus.accepted = true
is_accepted InvitationStatus.declined = false
is_accepted InvitationStatus.revoked = false
is_accepted InvitationStatus.expired = false

unfoldable pub accepts : ℕ → Text → Invitation → Bool
unfolding is_accepted
accepts event_id target i =
    i.event_id == event_id && text_eq i.invitee_user_id target && is_accepted i.status

-- an accepted invitation of `target` to the event
unfoldable pub is_invited : Db → ℕ → Text → Bool
is_invited db event_id target = not (is_none (first (accepts event_id target) db.invitations))

unfoldable pub is_active_member : MemberStatus → Bool
is_active_member MemberStatus.pending = false
is_active_member MemberStatus.active = true
is_active_member MemberStatus.declined = false
is_active_member MemberStatus.removed = false

unfoldable pub is_consented : Consent → Bool
is_consented Consent.pending = false
is_consented Consent.accepted = true
is_consented Consent.declined = false
is_consented Consent.revoked = false

unfoldable pub belongs : ℕ → Text → GroupMember → Bool
unfolding is_active_member
belongs group_id target m =
    m.group_id == group_id && column_eq m.user_id target && is_active_member m.status

-- `group_id` is NULL on a malformed event, and then no row compares equal to it.
unfoldable pub is_member : Db → Option ℕ → Text → Bool
is_member db none target = false
is_member db (some group_id) target = not (is_none (first (belongs group_id target) db.members))

-- The query names no team lead.
unfoldable pub follows : Text → Relationship → Bool
unfolding is_consented
follows target r = column_eq r.member_user_id target && is_consented r.consent_status

-- any accepted relationship of `target`
unfoldable pub is_in_cohort : Db → Text → Bool
is_in_cohort db target = not (is_none (first (follows target) db.relationships))

unfoldable pub group_gate : Db → Event → Text → Result (Unit {0})
group_gate db event target = elim event.group_kind [
  | none ↦ err (http 404 event_not_found)
  | some kind ↦ elim kind [
    | school_admin_group ↦ require (is_member db event.group_id target) (http 404 event_not_found)
    | team_lead_cohort ↦ require (is_in_cohort db target) (http 404 event_not_found)
  ]
]

-- The caller's school is the event's.
unfoldable pub shares_school : Actor → Event → Bool
shares_school actor event =
    not (is_falsy actor.school_id) && text_eq (or_else actor.school_id []) event.school_id

unfoldable pub visibility_gate : Db → Actor → Event → Text → Visibility → Result (Unit {0})
visibility_gate db actor event target public = ok tt
visibility_gate db actor event target unlisted = ok tt
visibility_gate db actor event target school_only =
    if is_owner actor event || is_admin actor
    then ok tt
    else require (shares_school actor event) (http 404 event_not_found)
visibility_gate db actor event target invite_only =
    if is_owner actor event || is_admin actor
    then ok tt
    else require (is_invited db event.id target) (http 403 invitation_required)
visibility_gate db actor event target group_only =
    if is_owner actor event || is_admin actor then ok tt else group_gate db event target

-- Everything before the idempotency lookup: the event and the target of the registration.
unfoldable pub register_gate : Db → Actor → ℕ → Option Text → Option Text → Result (Event × Text)
register_gate db actor event_id attendee key = do
  safe_key ← validate_idem_key key
  target ← target_user actor attendee
  assert_self_or_admin actor target
  event ← resolve_event_or_404 db event_id (if is_admin actor then actor.school_id else none)
  require (is_open event.status) (http 409 event_not_open)
  visibility_gate db actor event target event.visibility
  ok (event, target)
