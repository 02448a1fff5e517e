-- ===== src/Tests/Texts.antt =====
-- Sanitizing, the fence and the roles.
use checkin_service.Base.{◌≡◌, refl, true, false, none, some, ◌≤◌, All, length, ok, ◌↔◌}
use checkin_service.Text.{
  txt, text_eq, is_falsy, strip, is_space, lstrip, rstrip, member, lower, lower_char,
}
use checkin_service.Hashing.{sanitize_text, drop_controls, is_control, escape, escape_char}
use checkin_service.Hashing.Sanitized.{IsHarmless, sanitize_text-IsHarmless}
use checkin_service.Hashing.Blank.{is_blank_char, sanitize_text-none_iff}
use checkin_service.Geo.Distance.{verify_distance}
use checkin_service.Geo.Fence.{IsPassed, IsInside, verify_distance_iff}
use checkin_service.Auth.Roles.{actor_role}
use checkin_service.Auth.Gates.{assert_school_only_eligible, require_event_creator}
use checkin_service.Auth.Bearer.{require_bearer_actor}
use checkin_service.Auth.Rights.{
  assert_school_only_eligible-creator, require_bearer_actor-unconfigured,
}
use checkin_service.Tests.Data.{admin, config, floats}

sanitize_text-IsHarmless_example : IsHarmless (txt "&lt;b") × (length (txt "&lt;b") ≤ 5)
unfolding sanitize_text drop_controls is_control escape escape_char strip lstrip rstrip is_space
sanitize_text-IsHarmless_example = sanitize_text-IsHarmless (txt " <b>") 5 (txt "&lt;b") refl

sanitize_text-none_iff_example :
    (sanitize_text (some (txt " \n")) 500 ≡ none) ↔ All (λ c. is_blank_char c ≡ true) (txt " \n")
sanitize_text-none_iff_example = sanitize_text-none_iff (txt " \n") 500

verify_distance_iff_example :
    IsPassed (verify_distance floats (some 1000) (some 1000) (some 1000) (some 1000) (some 50))
    ↔ IsInside floats (some 1000) (some 1000) (some 1000) (some 1000) (some 50)
verify_distance_iff_example =
    verify_distance_iff floats (some 1000) (some 1000) (some 1000) (some 1000) (some 50)

assert_school_only_eligible-creator_example :
    (is_falsy admin.school_id ≡ false) × (require_event_creator admin ≡ ok admin)
unfolding assert_school_only_eligible member text_eq actor_role lower lower_char strip lstrip rstrip
    is_space
assert_school_only_eligible-creator_example = assert_school_only_eligible-creator admin refl

require_bearer_actor-unconfigured_example :
    require_bearer_actor config none (some (txt "x")) (some (txt "nil"))
    ≡ require_bearer_actor config none none none
require_bearer_actor-unconfigured_example =
    require_bearer_actor-unconfigured config none (some (txt "x")) none (some (txt "nil")) none refl
