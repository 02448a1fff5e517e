-- ===== src/Checkins/Limiter/Bound.antt =====
-- The rate limiter over a sequence of requests.
use mathlib.Core.Path.{subst}
use checkin_service.Base.{
  ℕ, ◌≤◌, ◌<◌, ◌≡◌, refl, sym, true, false, ◌&&◌, Option, List, [], ◌∷◌, ◌++◌, arith, length,
  count_where, is_none, if◌then◌else◌, Bool-cases, inl, inr,
}
use checkin_service.Text.{Text}
use checkin_service.Text.Equality.{text_eq_refl, text_eq→eq}
use checkin_service.Checkins.Limiter.{
  Limiter, Throttle, attendee_event_max, prune, same_pair, rate_limit, rate_limit_ip,
  set_attendee_event, set_ip,
}
use checkin_service.Checkins.Limiter.Window.{
  IsSpaced, Tracks, Tracks-later, Tracks-prune, Tracks-admit,
}

-- A request at the limiter, with its time.
pub record Call : Type 0 where
  pub attendee : Text
  pub event_id : ℕ
  pub ip : Option Text
  pub at : ℕ

unfoldable pub serve : Call → Limiter → Option Throttle × Limiter
serve c l = rate_limit c.attendee c.event_id c.ip c.at l

-- The times at which requests of `key` were let through, the newest first.
unfoldable pub admitted : Text × ℕ → List Call → Limiter → List ℕ → List ℕ
admitted key [] l log = log
admitted key (c ∷ calls) l log =
    admitted key calls (serve c l).1
      (if same_pair (c.attendee, c.event_id) key && is_none (serve c l).0 then c.at ∷ log else log)

-- Time does not run backwards.
abbrev pub IsTimed : ℕ → List Call → Type 0
IsTimed now [] = Unit
IsTimed now (c ∷ calls) = (now ≤ c.at) × IsTimed c.at calls

abbrev pub empty : Limiter
empty = record { attendee_event = λ k. []; ip = λ k. [] }

same_pair_refl : (k : Text × ℕ) → same_pair k k ≡ true
unfolding same_pair
same_pair_refl k = ground (arith, text_eq_refl k.0)

same_pair→eq : (a b : Text × ℕ) → same_pair a b ≡ true → a ≡ b
unfolding same_pair
same_pair→eq a b h = ground (arith, text_eq→eq a.0 b.0)

abbrev key_of : Call → Text × ℕ
key_of c = (c.attendee, c.event_id)

-- A request that is let through joins the deque of its key, and any other only prunes it.
serve_self :
    (c : Call) (l : Limiter)
    → (serve c l).1.attendee_event (key_of c) ≡ (
        if is_none (serve c l).0
        then prune (l.attendee_event (key_of c)) c.at ++ c.at ∷ []
        else prune (l.attendee_event (key_of c)) c.at)
unfolding serve rate_limit rate_limit_ip set_attendee_event same_pair set_ip
serve_self c l = ground (arith, text_eq_refl c.attendee)

serve_other :
    (key : Text × ℕ) (c : Call) (l : Limiter)
    → same_pair (key_of c) key ≡ false
    → (serve c l).1.attendee_event key ≡ l.attendee_event key
unfolding serve rate_limit rate_limit_ip set_attendee_event same_pair set_ip
serve_other key c l h = ground arith

serve_room :
    (c : Call) (l : Limiter)
    → is_none (serve c l).0 ≡ true
    → length (prune (l.attendee_event (key_of c)) c.at) < attendee_event_max
unfolding serve rate_limit rate_limit_ip set_attendee_event set_ip
serve_room c l h = ground arith

-- The log and the deque of a key after one request.
abbrev logged : Text × ℕ → Call → Limiter → List ℕ → List ℕ
logged key c l log = if same_pair (key_of c) key && is_none (serve c l).0 then c.at ∷ log else log

record IsKept (key : Text × ℕ) (l : Limiter) (log : List ℕ) (now : ℕ) : Type 0 where
  tracked : Tracks log (l.attendee_event key) now
  spaced : IsSpaced attendee_event_max log

self-IsKept :
    (c : Call) (l : Limiter) (log : List ℕ) (now : ℕ)
    → now ≤ c.at
    → IsKept (key_of c) l log now
    → IsKept (key_of c) (serve c l).1 (if is_none (serve c l).0 then c.at ∷ log else log) c.at
self-IsKept c l log now le k =
    let dq = l.attendee_event (key_of c) in
    elim (Bool-cases (is_none (serve c l).0)) [
      | inl e ↦ record {
        tracked = rw (serve_self c l) (rw e (Tracks-admit log dq now c.at le k.tracked));
        spaced = rw e (omega (arith, serve_room c l e, k.tracked.seen c.at le), k.spaced);
      }
      | inr e ↦ record {
        tracked = rw (serve_self c l) (rw e (Tracks-prune log dq now c.at le k.tracked));
        spaced = rw e k.spaced;
      }
    ]

step-IsKept :
    (key : Text × ℕ) (c : Call) (l : Limiter) (log : List ℕ) (now : ℕ)
    → now ≤ c.at
    → IsKept key l log now
    → IsKept key (serve c l).1 (logged key c l log) c.at
step-IsKept key c l log now le k = elim (Bool-cases (same_pair (key_of c) key)) [
  | inl e ↦ rw e (
      subst (λ j. IsKept j (serve c l).1 (if is_none (serve c l).0 then c.at ∷ log else log) c.at)
        (same_pair→eq (key_of c) key e)
        (self-IsKept c l log now le
          (subst (λ j. IsKept j l log now) (sym (same_pair→eq (key_of c) key e)) k)))
  | inr e ↦ rw e record {
    tracked =
        rw (serve_other key c l e) (Tracks-later log (l.attendee_event key) now c.at le k.tracked);
    spaced = k.spaced;
  }
]

admitted-IsSpaced_from :
    (key : Text × ℕ) (calls : List Call) (l : Limiter) (log : List ℕ) (now : ℕ)
    → IsTimed now calls
    → IsKept key l log now
    → IsSpaced attendee_event_max (admitted key calls l log)
unfolding admitted
admitted-IsSpaced_from key [] l log now t k = k.spaced
admitted-IsSpaced_from key (c ∷ calls) l log now t k =
    admitted-IsSpaced_from key calls (serve c l).1 (logged key c l log) c.at t.1
      (step-IsKept key c l log now t.0 k)

-- Whatever requests arrive, in whatever mix of attendees, events and addresses: when one of an
-- attendee for an event is let through, fewer than five of that pair were let through in the 60
-- seconds before it.
pub admitted-IsSpaced :
    (key : Text × ℕ) (calls : List Call)
    → IsTimed 0 calls
    → IsSpaced attendee_event_max (admitted key calls empty [])
unfolding prune count_where
admitted-IsSpaced key calls t =
    admitted-IsSpaced_from key calls empty [] 0 t
      (record { tracked = record { past = tt; seen = λ n h. refl }; spaced = tt })
