-- ===== src/Checkins/Limiter/Retry.antt =====
-- The Retry-After of a request that the attendee's window refuses.
use checkin_service.Base.{
  ℕ, ◌+◌, ◌*◌, ◌-◌, ◌/◌, ◌≤◌, ◌<◌, ◌≡◌, ◌≢◌, Option, some, List, [], ◌∷◌, arith, length, All,
}
use checkin_service.Text.{Text}
use checkin_service.Text.Equality.{text_eq_refl}
use checkin_service.Checkins.Limiter.{
  Limiter, attendee_limited, window, second, attendee_event_max, prune, same_pair, rate_limit,
  rate_limit_ip, retry_after, set_attendee_event,
}
use checkin_service.Checkins.Limiter.Window.{All-prune}

length-prune-le : (dq : List ℕ) (n : ℕ) → length (prune dq n) ≤ length dq
unfolding prune
length-prune-le [] n = omega arith
length-prune-le (t ∷ dq) n = ground (arith, length-prune-le dq n)

-- After the wait the oldest time has left the window.
room_after :
    (dq : List ℕ) (now : ℕ)
    → length dq ≤ attendee_event_max
    → All (λ t. t ≤ now) dq
    → length (prune dq (now + retry_after now dq * second)) < attendee_event_max
unfolding prune retry_after
room_after [] now few past = omega arith
room_after (t ∷ dq) now few past =
    let later = now + ((window + t - now) / second + 1) * second in
    ground (arith, length-prune-le dq later)

retry_bounds :
    (dq : List ℕ) (now : ℕ)
    → All (λ t. t ≤ now) dq
    → (1 ≤ retry_after now dq) × (retry_after now dq ≤ 61)
unfolding retry_after
retry_bounds [] now past = omega arith
retry_bounds (t ∷ dq) now past = omega arith

-- A refused request leaves the pruned deque, from which its answer is computed.
refused :
    (attendee : Text) (event_id : ℕ) (ip : Option Text) (now r : ℕ) (l : Limiter)
    → (rate_limit attendee event_id ip now l).0 ≡ some (attendee_limited r)
    → (r ≡ retry_after now (prune (l.attendee_event (attendee, event_id)) now))
      × ((rate_limit attendee event_id ip now l).1.attendee_event (attendee, event_id)
          ≡ prune (l.attendee_event (attendee, event_id)) now)
unfolding rate_limit rate_limit_ip set_attendee_event same_pair
refused attendee event_id ip now r l h = ground (arith, text_eq_refl attendee)

not_refused :
    (attendee : Text) (event_id : ℕ) (ip : Option Text) (now r : ℕ) (l : Limiter)
    → length (prune (l.attendee_event (attendee, event_id)) now) < attendee_event_max
    → (rate_limit attendee event_id ip now l).0 ≢ some (attendee_limited r)
unfolding rate_limit rate_limit_ip
not_refused attendee event_id ip now r l h = ground arith

-- A request that the window of its attendee and event refuses is told to wait between 1 and 61
-- seconds; and if it is the next one of that pair, then after the wait that window lets it through.
-- The window holds at most five times, none of them in the future.
pub retry_after_suffices :
    (attendee : Text) (event_id : ℕ) (ip ip' : Option Text) (now r r' : ℕ) (l : Limiter)
    → length (l.attendee_event (attendee, event_id)) ≤ attendee_event_max
    → All (λ t. t ≤ now) (l.attendee_event (attendee, event_id))
    → (rate_limit attendee event_id ip now l).0 ≡ some (attendee_limited r)
    → (1 ≤ r)
      × (r ≤ 61)
      × ((rate_limit attendee event_id ip'
            (now + r * second)
            (rate_limit attendee event_id ip now l).1).0
          ≢ some (attendee_limited r'))
retry_after_suffices attendee event_id ip ip' now r r' l few past h =
    let dq = l.attendee_event (attendee, event_id) in
    let (told, left) = refused attendee event_id ip now r l h in
    let past' = All-prune (λ t. t ≤ now) dq now past in
    let bounds = retry_bounds (prune dq now) now past' in
    (
      rw told bounds.0,
      rw told bounds.1,
      not_refused attendee event_id ip' (now + r * second) r'
          (rate_limit attendee event_id ip now l).1
          (rw left (
            rw told
              (room_after (prune dq now) now (omega (arith, length-prune-le dq now, few)) past'))),
    )
