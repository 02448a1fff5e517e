-- ===== src/Tests/Inviting.antt =====
-- Invitations to the party.
use checkin_service.Base.{◌≡◌, refl, none, some, List, [], ◌∷◌, ok, err, HttpError, ◌⊎◌, any}
use checkin_service.Text.{txt}
use checkin_service.Models.{
  Db, Invitation, InvitationStatus, event_conflict, registration_conflict, invitation_conflict,
}
use checkin_service.Models.Sound.{IsSound}
use checkin_service.Invitations.{Invitee, accept, status_of, respond_to_invitation}
use checkin_service.Invitations.Answered.{IsAnswer, respond-IsAnswer}
use checkin_service.Tests.Data.{ana, ben, student, full}
use checkin_service.Tests.Registering.{full-IsSound}

abbrev guests : List Invitee
guests =
    record { invitee_user_id = ana; reason = none }
    ∷ record { invitee_user_id = ben; reason = some (txt "hi") }
    ∷ record { invitee_user_id = ana; reason = none }
    ∷ []

abbrev invited : Db
invited = record full {
  invitations =
      record {
        id = 2;
        school_id = txt "s1";
        event_id = 1;
        inviter_user_id = txt "1";
        hashed_inviter_id = txt "x";
        invitee_user_id = ana;
        hashed_invitee_id = txt "y";
        status = InvitationStatus.sent;
        reason_sn = none;
        created_at = 5;
        responded_at = none;
      }
      ∷ [];
}

invited-IsSound : IsSound invited
unfolding any event_conflict registration_conflict invitation_conflict
invited-IsSound = record {
  events_distinct = full-IsSound.events_distinct;
  registrations_distinct = full-IsSound.registrations_distinct;
  checkins_distinct = tt;
  invitations_distinct = (refl, tt);
  qr_distinct = tt;
  event_ids = full-IsSound.event_ids;
  registration_ids = full-IsSound.registration_ids;
  checkin_ids = tt;
  invitation_ids = full-IsSound.registration_ids;
  qr_ids = tt;
}

respond-IsAnswer_example :
    IsSound (respond_to_invitation (student ana) 1 2 accept 60 invited).1
    × (((e : HttpError) × (respond_to_invitation (student ana) 1 2 accept 60 invited
            ≡ (err e, invited)))
        ⊎ ((i : Invitation) × ((respond_to_invitation (student ana) 1 2 accept 60 invited).0 ≡ ok i)
            × IsAnswer
                (student ana)
                1
                2
                InvitationStatus.accepted
                60
                invited
                (respond_to_invitation (student ana) 1 2 accept 60 invited).1
                i))
unfolding status_of
respond-IsAnswer_example = respond-IsAnswer (student ana) 1 2 accept 60 invited invited-IsSound
