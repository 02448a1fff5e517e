-- ===== src/Tests/Grouping.antt =====
-- The picker of groups, for the lead of the group of the small database.
use checkin_service.Base.{◌≡◌, refl, none, some, All, any, ok, ◌⊎◌}
use checkin_service.Text.{txt}
use checkin_service.Auth.Roles.{Actor}
use checkin_service.Auth.Gates.{assert_group_event_eligible, personal_namespace, digits_of}
use checkin_service.Models.{school_admin_group, team_lead_cohort}
use checkin_service.Groups.{GroupRow, Cohort, uid_of, list_eligible_groups}
use checkin_service.Groups.Picked.{list_eligible_groups-pass}
use checkin_service.Tests.Data.{student, full}

abbrev lead : Actor
lead = student (txt "7")

list_eligible_groups-pass_example :
    All
      (λ (row : GroupRow).
        assert_group_event_eligible lead school_admin_group row.group_id full ≡ ok row.school_id)
      (list_eligible_groups lead full).school_admin_groups
    × (((list_eligible_groups lead full).team_lead_cohort ≡ none)
        ⊎ ((c : Cohort) × ((list_eligible_groups lead full).team_lead_cohort ≡ some c)
            × (assert_group_event_eligible lead team_lead_cohort c.cohort_id full
                ≡ ok (personal_namespace (uid_of lead)))))
unfolding any digits_of
list_eligible_groups-pass_example = list_eligible_groups-pass lead full (refl, tt) refl
