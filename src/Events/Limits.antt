-- ===== src/Events/Limits.antt =====
-- What the validators of src/schemas/event.py let through.
use mathlib.Core.Path.{subst}
use checkin_service.Base.{
  ℕ, Bool, ◌<◌, ◌≡◌, ◌≢◌, ◌≤◌, true, false, Option, none, some, Option-cases, inl, inr, length, ok,
  arith, require, require-eq-ok, OnOk, OnOk->>=, OnOk-ok,
}
use checkin_service.Text.{Text}
use checkin_service.Text.Numerals.{ℤ, pos, negsuc}
use checkin_service.Env.{Environment}
use checkin_service.Models.{Float, generic, no_checkin, draft, Visibility}
use checkin_service.Geo.Distance.{FloatOps}
use checkin_service.Events.{EventCreate, Moment, naive, aware}
use checkin_service.Events.Schema.{
  Field, absent, null, given, supplied, geofence_max_radius, sized, ranged, within, read_value,
  mandatory, optional, defaulted, CreateBody, is_after, end_after_start, lon_requires_lat,
  validate_create, event_type_of, checkin_method_of, event_status_of, visibility_of, group_kind_of,
}

-- A condition on a value that may be missing.
abbrev pub OnSome : {A : Type 0} → (A → Type 0) → Option A → Type 0
OnSome P none = Unit
OnSome P (some a) = P a

abbrev pub IsBetween : ℕ → ℕ → ℕ → Type 0
IsBetween lo hi n = (lo ≤ n) × (n ≤ hi)

-- The cap on the radius is from 10 to 5000, whatever the environment says.
pub geofence_max_radius-IsBetween :
    (env : Environment) → IsBetween 10 5000 (geofence_max_radius env)
unfolding geofence_max_radius
geofence_max_radius-IsBetween env = ground arith

pub optional-OnSome :
    {A B : Type 0} (P : B → Type 0) (read : A → Option B) (default : Option B) (f : Field A)
    (o : Option B)
    → ((a : A) (b : B) → read a ≡ some b → P b)
    → OnSome P default
    → optional read default f ≡ ok o
    → OnSome P o
unfolding optional read_value
optional-OnSome P read default absent o good d h =
    let e : default ≡ o = cc h in subst (OnSome P) e d
optional-OnSome P read default null o good d h = let e : none ≡ o = cc h in subst (OnSome P) e tt
optional-OnSome P read default (given a) o good d h = elim (Option-cases (read a)) [
  | inl e ↦ absurd (ground arith)
  | inr (b, e) ↦ let k : some b ≡ o = ground arith in subst (OnSome P) k (good a b e)
]

mandatory-reads :
    {A B : Type 0} (read : A → Option B) (f : Field A) (b : B)
    → mandatory read f ≡ ok b
    → (a : A) × (read a ≡ some b)
unfolding mandatory read_value
mandatory-reads read absent b h = absurd (ground arith)
mandatory-reads read null b h = absurd (ground arith)
mandatory-reads read (given a) b h = (a, ground arith)

pub ranged-IsBetween : (lo hi : ℕ) (z : ℤ) (n : ℕ) → ranged lo hi z ≡ some n → IsBetween lo hi n
unfolding ranged
ranged-IsBetween lo hi z n h = ground arith

pub sized-IsBetween : (lo hi : ℕ) (s t : Text) → sized lo hi s ≡ some t → IsBetween lo hi (length t)
unfolding sized
sized-IsBetween lo hi s t h = ground arith

within-IsWithin :
    (fl : FloatOps) (lo hi : ℤ) (v w : Float)
    → within fl lo hi v ≡ some w
    → (fl.le (fl.of_int lo) w ≡ true) × (fl.le w (fl.of_int hi) ≡ true)
unfolding within
within-IsWithin fl lo hi v w h = (ground arith, ground arith)

none-OnSome : {A : Type 0} (P : A → Type 0) (o : Option A) → none ≡ o → OnSome P o
none-OnSome P o e = subst (OnSome P) e tt

-- A longitude comes with a latitude.
longitude-paired :
    (fl : FloatOps) (lat lon : Option Float) (f : Field Float)
    → optional (within fl (negsuc 179) (pos 180)) none f ≡ ok lon
    → lon_requires_lat lat f ≡ true
    → OnSome (λ x. lat ≢ none) lon
unfolding lon_requires_lat optional
longitude-paired fl none lon absent g h = none-OnSome _ lon (cc g)
longitude-paired fl none lon null g h = none-OnSome _ lon (cc g)
longitude-paired fl none lon (given v) g h = absurd (cc h)
longitude-paired fl (some lat) lon f g h =
    optional-OnSome (λ x. some lat ≢ none) (within fl (negsuc 179) (pos 180)) none f lon
      (λ a b e q. cc q) tt g

-- One time is before the other: by the clock where neither has an offset, and as instants where both
-- have one. A time with an offset is not before one without.
abbrev pub IsEarlier : Moment → Moment → Type 0
IsEarlier (naive a) (naive b) = a < b
IsEarlier (naive a) (aware w b) = true ≡ false
IsEarlier (aware w a) (naive b) = true ≡ false
IsEarlier (aware w a) (aware w' b) = a < b

-- The same of times that may be missing.
abbrev pub IsBefore : Option Moment → Option Moment → Type 0
IsBefore none v = Unit
IsBefore (some start) none = Unit
IsBefore (some start) (some v) = IsEarlier start v

is_after-IsEarlier : (a b : Moment) → is_after a b ≡ ok true → IsEarlier a b
unfolding is_after
is_after-IsEarlier (naive a) (naive b) h = ground arith
is_after-IsEarlier (naive a) (aware w b) h = absurd (cc h)
is_after-IsEarlier (aware w a) (naive b) h = absurd (cc h)
is_after-IsEarlier (aware w a) (aware w' b) h = ground arith

pub end_after_start-IsBefore :
    (start v : Option Moment) (ordered : Bool)
    → end_after_start start v ≡ ok ordered
    → ordered ≡ true
    → IsBefore start v
unfolding end_after_start
end_after_start-IsBefore none v ordered h t = tt
end_after_start-IsBefore (some start) none ordered h t = tt
end_after_start-IsBefore (some start) (some v) ordered h t =
    let k : is_after start v ≡ ok true = cc (h, t) in is_after-IsEarlier start v k

-- What the columns of an event promise: it ends after it starts, its radius is from 10 to 5000 metres
-- and its capacity from 1 to 100000, where these are given.
abbrev pub AreLimited : Option Moment → Option Moment → Option ℕ → Option ℕ → Type 0
AreLimited start_time end_time radius max_capacity =
    IsBefore start_time end_time
    × OnSome (IsBetween 10 5000) radius
    × OnSome (IsBetween 1 100_000) max_capacity

abbrev pub IsCoordinate : FloatOps → ℤ → ℤ → Float → Type 0
IsCoordinate fl lo hi v = (fl.le (fl.of_int lo) v ≡ true) × (fl.le v (fl.of_int hi) ≡ true)

-- What a body promises that was validated.
pub record IsLimited (fl : FloatOps) (p : EventCreate) : Type 0 where
  pub limits : AreLimited p.start_time p.end_time p.geofence_radius_m p.max_capacity
  pub title_size : IsBetween 1 200 (length p.title)
  pub latitude_range : OnSome (IsCoordinate fl (negsuc 89) (pos 90)) p.latitude
  pub longitude_range : OnSome (IsCoordinate fl (negsuc 179) (pos 180)) p.longitude
  pub paired : OnSome (λ x. p.latitude ≢ none) p.longitude

limited :
    (fl : FloatOps) (p : EventCreate)
    → AreLimited p.start_time p.end_time p.geofence_radius_m p.max_capacity
    → IsBetween 1 200 (length p.title)
    → OnSome (IsCoordinate fl (negsuc 89) (pos 90)) p.latitude
    → OnSome (IsCoordinate fl (negsuc 179) (pos 180)) p.longitude
    → OnSome (λ x. p.latitude ≢ none) p.longitude
    → IsLimited fl p
limited fl p l t la lo pa = record {
  limits = l;
  title_size = t;
  latitude_range = la;
  longitude_range = lo;
  paired = pa;
}

radius-OnSome :
    (env : Environment) (f : Field ℤ) (o : Option ℕ)
    → optional (ranged 10 (geofence_max_radius env)) (some 100) f ≡ ok o
    → OnSome (IsBetween 10 5000) o
radius-OnSome env f o h =
    let cap = geofence_max_radius-IsBetween env in
    optional-OnSome (IsBetween 10 5000) (ranged 10 (geofence_max_radius env)) (some 100) f o
      (λ z n e.
        let r = ranged-IsBetween 10 (geofence_max_radius env) z n e in
        (r.0, omega (arith, r.1, cap.1)))
      (omega arith, omega arith) h

-- A body that passes the validators of POST /events, under any environment: the event ends after it
-- starts; its radius is from 10 to 5000 metres, its capacity from 1 to 100000 and its title from 1 to
-- 200 characters; the coordinates are in range, and a longitude comes with a latitude.
pub validate_create-IsLimited :
    (fl : FloatOps) (env : Environment) (b : CreateBody) (p : EventCreate)
    → validate_create fl (geofence_max_radius env) b ≡ ok p
    → IsLimited fl p
unfolding validate_create
validate_create-IsLimited fl env b p h =
    let checked : OnOk (IsLimited fl) (validate_create fl (geofence_max_radius env) b) =
      (OnOk->>= (IsLimited fl) (end_after_start (supplied b.start_time) (supplied b.end_time)) _
        λ ordered h0.
          OnOk->>= (IsLimited fl) (defaulted event_type_of generic b.event_type) _ λ event_type h1.
            OnOk->>= (IsLimited fl) (mandatory (sized 1 200) b.title) _ λ title h2.
              OnOk->>= (IsLimited fl) (optional (sized 0 5000) none b.description) _
                λ description h3.
                  OnOk->>= (IsLimited fl) (optional (sized 0 200) none b.location_name) _
                    λ location h4.
                      OnOk->>= (IsLimited fl)
                        (optional (within fl (negsuc 89) (pos 90)) none b.latitude) _
                        λ lat h5.
                          OnOk->>= (IsLimited fl)
                            (optional (within fl (negsuc 179) (pos 180)) none b.longitude) _
                            λ lon h6.
                              OnOk->>= (IsLimited fl)
                                (optional (ranged 10 (geofence_max_radius env)) (some 100)
                                  b.geofence_radius_m)
                                _
                                λ radius h7.
                                  OnOk->>= (IsLimited fl)
                                    (optional (ranged 1 100_000) none b.max_capacity) _
                                    λ capacity h8.
                                      OnOk->>= (IsLimited fl)
                                        (defaulted checkin_method_of no_checkin b.checkin_method) _
                                        λ method h9.
                                          OnOk->>= (IsLimited fl)
                                            (defaulted event_status_of draft b.status) _
                                            λ status h10.
                                              OnOk->>= (IsLimited fl)
                                                (defaulted visibility_of Visibility.public
                                                  b.visibility)
                                                _
                                                λ visibility h11.
                                                  OnOk->>= (IsLimited fl)
                                                    (defaulted (λ v. some v) false
                                                      b.allow_nfc_checkin)
                                                    _
                                                    λ nfc h12.
                                                      OnOk->>= (IsLimited fl)
                                                        (optional group_kind_of none b.group_kind) _
                                                        λ kind h13.
                                                          OnOk->>= (IsLimited fl)
                                                            (require ordered _) _
                                                            λ u h14.
                                                            OnOk->>= (IsLimited fl)
                                                            (require
                                                            (lon_requires_lat lat b.longitude) _)
                                                            _
                                                            λ v h15. OnOk-ok (IsLimited fl) _ (
                                                            limited fl _
                                                            ((
                                                            end_after_start-IsBefore
                                                            (supplied b.start_time)
                                                            (supplied b.end_time) ordered h0
                                                            (require-eq-ok _ _ h14),
                                                            radius-OnSome env b.geofence_radius_m
                                                            radius h7,
                                                            optional-OnSome (IsBetween 1 100_000)
                                                            (ranged 1 100_000) none b.max_capacity
                                                            capacity (ranged-IsBetween 1 100_000) tt
                                                            h8,
                                                            ))
                                                            (let (s, e) =
                                                            mandatory-reads (sized 1 200) b.title
                                                            title h2 in
                                                            sized-IsBetween 1 200 s title e)
                                                            (optional-OnSome _
                                                            (within fl (negsuc 89) (pos 90)) none
                                                            b.latitude lat
                                                            (within-IsWithin fl (negsuc 89)
                                                            (pos 90))
                                                            tt h5)
                                                            (optional-OnSome _
                                                            (within fl (negsuc 179) (pos 180)) none
                                                            b.longitude lon
                                                            (within-IsWithin fl (negsuc 179)
                                                            (pos 180))
                                                            tt h6)
                                                            (longitude-paired fl lat lon b.longitude
                                                            h6 (require-eq-ok _ _ h15)))) in
    checked.on_ok p h
