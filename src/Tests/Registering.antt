-- ===== src/Tests/Registering.antt =====
-- Registering at the door of one seat.
use checkin_service.Registrations.Cancelled.{IsCancellation, cancel_registration-IsCancellation}
use checkin_service.Base.{
  [], ℕ, HttpError, err, ◌⊎◌, ◌≡◌, refl, none, some, arith, ok, first, any, count_where,
}
use checkin_service.Text.{txt, text_eq, member, lower, strip, is_space, lower_char, lstrip, rstrip}
use checkin_service.Auth.Roles.{is_bypass, actor_role, is_admin}
use checkin_service.Auth.Gates.{assert_self_or_admin, is_user}
use checkin_service.Models.Store.{add_row}
use checkin_service.Models.{Db, same_key, event_conflict, registration_conflict, column_eq}
use checkin_service.Models.Sound.{IsSound}
use checkin_service.Registrations.Gate
use checkin_service.Registrations.Defs
use checkin_service.Registrations.Admission.{IsAdmitted, register_gate-IsAdmitted}
use checkin_service.Registrations.Capacity.{IsWithinCapacity, IsQuiet, register-IsWithinCapacity}
use checkin_service.Registrations.Waitlist.{IsQueued, register-IsQueued}
use checkin_service.Registrations.Replay.{register_existing, register_twice}
use checkin_service.Tests.Data.{
  with_registrations, ana, ben, student, admin, party, seat_of_ana, full,
}

full-IsWithinCapacity : IsWithinCapacity full
unfolding Defs.active_count count_where Defs.holds_seat Defs.is_seated first
full-IsWithinCapacity = record { at_event = λ k e capacity found limited. ground arith }

full-IsQuiet : IsQuiet full full
full-IsQuiet = record { same_events = refl; no_more = λ k. omega arith }

register-IsWithinCapacity_example :
    IsWithinCapacity
      (Defs.register_for_event (λ d. d) (student ben) 1 none (some (txt "retry-key-1")) 20 full).1
register-IsWithinCapacity_example =
    register-IsWithinCapacity (λ d. d) (student ben) 1 none (some (txt "retry-key-1")) 20 full
      full-IsQuiet full-IsWithinCapacity

pub full-IsSound : IsSound full
unfolding any event_conflict registration_conflict
full-IsSound = record {
  events_distinct = (refl, tt);
  registrations_distinct = (refl, tt);
  checkins_distinct = tt;
  invitations_distinct = tt;
  qr_distinct = tt;
  event_ids = (omega arith, tt);
  registration_ids = (omega arith, tt);
  checkin_ids = tt;
  invitation_ids = tt;
  qr_ids = tt;
}

register-IsQueued_example :
    IsQueued (Defs.register_for_event (λ d. d) (student ben) 1 none none 20 full).1.registrations
register-IsQueued_example =
    register-IsQueued (λ d. d) (student ben) 1 none none 20 full (tt, tt) (omega arith) (tt, tt)

ben_may_enter : Gate.register_gate full (student ben) 1 none none ≡ ok (party, ben)
unfolding Gate.register_gate Gate.validate_idem_key Gate.target_user first assert_self_or_admin
    is_bypass member actor_role lower strip is_space Gate.resolve_event_or_404 Gate.is_event
    is_admin Gate.is_open Gate.visibility_gate Gate.is_owner Gate.group_gate Gate.is_member
    Gate.belongs column_eq is_user Gate.is_active_member lower_char lstrip rstrip text_eq
ben_may_enter = refl

register_gate-IsAdmitted_example : IsAdmitted full (student ben) 1 party ben
register_gate-IsAdmitted_example =
    register_gate-IsAdmitted full (student ben) 1 none none party ben ben_may_enter

ana_may_enter : Gate.register_gate full admin 1 (some ana) none ≡ ok (party, ana)
unfolding Gate.register_gate Gate.validate_idem_key Gate.target_user first assert_self_or_admin
    is_bypass member actor_role lower strip is_space Gate.resolve_event_or_404 Gate.is_event
    is_admin Gate.is_open Gate.visibility_gate Gate.is_owner Gate.group_gate Gate.is_member
    Gate.belongs column_eq is_user Gate.is_active_member lower_char lstrip rstrip text_eq
ana_may_enter = refl

register_existing_example :
    Defs.register_for_event (λ d. d) admin 1 (some ana) none 30 full ≡ (ok seat_of_ana, full)
unfolding first Defs.by_attendee text_eq Defs.replayed
register_existing_example =
    register_existing admin 1 (some ana) none 30 full party ana seat_of_ana ana_may_enter refl refl

ana_again :
    Defs.register_for_event (λ d. d) admin 1 (some ana) none 30 full ≡ (ok seat_of_ana, full)
unfolding first Defs.by_attendee text_eq Defs.replayed
ana_again =
    register_existing admin 1 (some ana) none 30 full party ana seat_of_ana ana_may_enter refl refl

register_twice_example :
    Defs.register_for_event (λ d. d) admin 1 (some ana) none 40 full ≡ (ok seat_of_ana, full)
register_twice_example =
    register_twice admin 1 (some ana) none 30 40 full full seat_of_ana ana_again

cancel_registration-IsCancellation_example :
    ((e : HttpError) × (Defs.cancel_registration (student ana) 1 ana 20 full ≡ (err e, full)))
    ⊎ ((k : ℕ) × ((Defs.cancel_registration (student ana) 1 ana 20 full).0 ≡ ok k)
        × IsCancellation
            (student ana)
            1
            ana
            20
            full
            (Defs.cancel_registration (student ana) 1 ana 20 full).1
            k)
cancel_registration-IsCancellation_example =
    cancel_registration-IsCancellation (student ana) 1 ana 20 full

abbrev alone : Db
alone = with_registrations []

-- Two requests that overlap both take the only seat: the second counts the seats of its snapshot.
overbooked :
    Defs.active_count
      (Defs.register_for_event
        (λ d. (Defs.register_for_event (λ e. e) (student ana) 1 none none 20 d).1)
        (student ben)
        1
        none
        none
        20
        alone).1
      1
    ≡ 2
unfolding Defs.active_count count_where Defs.holds_seat Defs.is_seated first Gate.register_gate
    Gate.validate_idem_key Gate.target_user assert_self_or_admin is_bypass member actor_role lower
    strip is_space Gate.resolve_event_or_404 Gate.is_event is_admin Gate.is_open
    Gate.visibility_gate Gate.is_owner Gate.group_gate Gate.is_member Gate.belongs column_eq is_user
    Gate.is_active_member lower_char lstrip rstrip text_eq Defs.register_for_event Defs.replayed
    Defs.enroll Defs.seat any add_row registration_conflict same_key
overbooked = refl
