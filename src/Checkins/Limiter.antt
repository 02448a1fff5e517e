-- ===== src/Checkins/Limiter.antt =====
-- The sliding-window rate limiter of src/routers/checkins.py. `time.monotonic()` is a number of
-- nanoseconds. A deque is the list of its times, the oldest first.
pub mod Window
pub mod Bound
pub mod Retry
use checkin_service.Base.{
  ℕ, ◌+◌, ◌-◌, ◌*◌, ◌/◌, Bool, true, false, ◌&&◌, not, Option, none, some, List, [], ◌∷◌, ◌++◌, leb,
  ltb, ◌==◌, length, if◌then◌else◌,
}
use checkin_service.Text.{Text, text_eq, is_falsy, or_else, split, strip, is_empty}

abbrev pub second : ℕ
second = 1_000_000_000

-- _RL_ATTENDEE_EVENT_WINDOW_S and _RL_IP_WINDOW_S
abbrev pub window : ℕ
window = 60 * second

abbrev pub attendee_event_max : ℕ
attendee_event_max = 5

abbrev pub ip_max : ℕ
ip_max = 60

-- `while dq and dq[0] < now - window: dq.popleft()`
unfoldable pub prune : List ℕ → ℕ → List ℕ
prune [] now = []
prune (t ∷ dq) now = let rest = prune dq now in if ltb (t + window) now then rest else t ∷ dq

-- `_RL_ATTENDEE_EVENT` and `_RL_IP`: the deque of a key is empty until the key is used.
pub record Limiter : Type 0 where
  pub attendee_event : Text × ℕ → List ℕ
  pub ip : Text → List ℕ

unfoldable pub same_pair : Text × ℕ → Text × ℕ → Bool
same_pair a b = text_eq a.0 b.0 && a.1 == b.1

unfoldable pub set_attendee_event : Text × ℕ → List ℕ → Limiter → Limiter
unfolding same_pair
set_attendee_event k dq l = record l {
  attendee_event = λ j. if same_pair k j then dq else l.attendee_event j;
}

unfoldable pub set_ip : Text → List ℕ → Limiter → Limiter
set_ip k dq l = record l { ip = λ j. if text_eq k j then dq else l.ip j }

-- `int(window - (now - dq[0])) + 1`, at least 1, in seconds
unfoldable pub retry_after : ℕ → List ℕ → ℕ
retry_after now [] = 1
retry_after now (t ∷ dq) = (window + t - now) / second + 1

pub data Throttle : Type 0 where
  attendee_limited : ℕ → Throttle
  ip_limited : ℕ → Throttle

-- The part under the attendee's window, of which `dq_ae` is the pruned deque.
unfoldable pub rate_limit_ip :
    Text × ℕ → List ℕ → Option Text → ℕ → Limiter → Option Throttle × Limiter
unfolding set_attendee_event set_ip
rate_limit_ip key dq_ae client_ip now l =
    if is_falsy client_ip
    then (none, set_attendee_event key (dq_ae ++ now ∷ []) l)
    else let ip = or_else client_ip [] in
      let dq_ip = prune (l.ip ip) now in
      if leb ip_max (length dq_ip)
      then (some (ip_limited (retry_after now dq_ip)), set_ip ip dq_ip l)
      else (none, set_attendee_event key (dq_ae ++ now ∷ []) (set_ip ip (dq_ip ++ now ∷ []) l))

unfoldable pub rate_limit : Text → ℕ → Option Text → ℕ → Limiter → Option Throttle × Limiter
unfolding rate_limit_ip
rate_limit attendee event_id client_ip now l =
    let key : Text × ℕ = (attendee, event_id) in
    let dq_ae = prune (l.attendee_event key) now in
    let l' = set_attendee_event key dq_ae l in
    if leb attendee_event_max (length dq_ae)
    then (some (attendee_limited (retry_after now dq_ae)), l')
    else rate_limit_ip key dq_ae client_ip now l'

unfoldable pub reset : Limiter → Limiter
reset l = record { attendee_event = λ k. []; ip = λ k. [] }

unfoldable pub first_part : List Text → Text
first_part [] = []
first_part (p ∷ ps) = p

-- `_client_ip`: the leftmost entry of X-Forwarded-For, or else the peer of the socket
unfoldable pub client_ip : Option Text → Option Text → Option Text
unfolding first_part
client_ip xff peer =
    if is_falsy xff
    then peer
    else let leftmost = strip (first_part (split b',' (or_else xff []))) in
      if is_empty leftmost then peer else some leftmost
