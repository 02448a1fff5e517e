-- ===== src/Geo/Fence.antt =====
-- What `verify_distance` of src/services/geofence_service.py passes.
use mathlib.Core.Path.{subst, sym}
use checkin_service.Base.{
  ℕ, suc, zero, ◌≡◌, refl, true, false, Option, none, some, ◌≤◌, ◌↔◌, arith, Result, ok,
  Result-cases, inl, inr,
}
use checkin_service.Text.Numerals.{pos, negsuc}
use checkin_service.Models.{Float}
use checkin_service.Geo.Distance.{
  FloatOps, GeofenceCheck, GeoReason, refuse, haversine_distance_m, in_range, effective_radius,
  verify_coords, verify_distance,
}

-- The radius of the fence in metres: 100 where the event has none, or zero.
abbrev pub metres : Option ℕ → ℕ
metres none = 100
metres (some zero) = 100
metres (some (suc r)) = suc r

effective_radius_lem : (fl : FloatOps) (r : Option ℕ) → effective_radius fl r ≡ metres r
unfolding effective_radius
effective_radius_lem fl none = refl
effective_radius_lem fl (some zero) = refl
effective_radius_lem fl (some (suc r)) = ground arith

-- The check ended, and passed.
pub record IsPassed (r : Result GeofenceCheck) : Type 0 where
  pub check : GeofenceCheck
  pub ended : r ≡ ok check
  pub passed : check.passed ≡ true

module _ (fl : FloatOps) where
  -- A latitude from -90 to 90 and a longitude from -180 to 180.
  abbrev pub IsOnGlobe : Float → Float → Type 0
  IsOnGlobe lat lon =
      (fl.le (fl.of_int (negsuc 89)) lat ≡ true)
      × (fl.le lat (fl.of_int (pos 90)) ≡ true)
      × (fl.le (fl.of_int (negsuc 179)) lon ≡ true)
      × (fl.le lon (fl.of_int (pos 180)) ≡ true)

  -- Both positions are given and on the globe, and the distance is within the radius, which is at
  -- most 5000.
  pub record IsInside (lat lon event_lat event_lon : Option Float) (radius : Option ℕ)
      : Type 0 where
    pub lat_at : Float
    pub lon_at : Float
    pub event_lat_at : Float
    pub event_lon_at : Float
    pub distance : Float
    pub is_lat : lat ≡ some lat_at
    pub is_lon : lon ≡ some lon_at
    pub is_event_lat : event_lat ≡ some event_lat_at
    pub is_event_lon : event_lon ≡ some event_lon_at
    pub on_globe : IsOnGlobe lat_at lon_at
    pub event_on_globe : IsOnGlobe event_lat_at event_lon_at
    pub bounded : metres radius ≤ 5000
    pub measured : haversine_distance_m fl lat_at lon_at event_lat_at event_lon_at ≡ ok distance
    pub near : fl.le distance (fl.of_int (pos (metres radius))) ≡ true

  in_range-IsOnGlobe : (lat lon : Float) → in_range fl lat lon ≡ true → IsOnGlobe lat lon
  unfolding in_range
  in_range-IsOnGlobe lat lon h = (ground arith, ground arith, ground arith, ground arith)

  IsOnGlobe-in_range : (lat lon : Float) → IsOnGlobe lat lon → in_range fl lat lon ≡ true
  unfolding in_range
  IsOnGlobe-in_range lat lon (a, b, c, d) = ground arith

  -- What passes the checks on four coordinates.
  coords_pass :
      (lat lon elat elon : Float) (radius : ℕ)
      → IsPassed (verify_coords fl lat lon elat elon radius)
      → (in_range fl lat lon ≡ true)
        × (in_range fl elat elon ≡ true)
        × (radius ≤ 5000)
        × ((d : Float) × (haversine_distance_m fl lat lon elat elon ≡ ok d)
            × (fl.le d (fl.of_int (pos radius)) ≡ true))
  unfolding verify_coords
  coords_pass lat lon elat elon radius p =
      let e = p.ended in
      let t = p.passed in
      elim (Result-cases (haversine_distance_m fl lat lon elat elon)) [
        | inl (x, h) ↦ absurd (ground arith)
        | inr (d, h) ↦ (ground arith, ground arith, ground arith, (d, h, ground arith))
      ]

  passes :
      (lat lon elat elon : Float) (radius : ℕ) (d : Float)
      → in_range fl lat lon ≡ true
      → in_range fl elat elon ≡ true
      → radius ≤ 5000
      → haversine_distance_m fl lat lon elat elon ≡ ok d
      → fl.le d (fl.of_int (pos radius)) ≡ true
      → IsPassed (verify_coords fl lat lon elat elon radius)
  unfolding verify_coords
  passes lat lon elat elon radius d a b c h n = record {
    check = record { passed = true; distance_m = some d; reason = none };
    ended = ground arith;
    passed = refl;
  }

  missing : (why : GeoReason) → IsPassed (ok (refuse why)) → false ≡ true
  missing why p =
      let e : refuse why ≡ p.check = cc (p.ended) in
      subst (λ (c : GeofenceCheck). c.passed ≡ true) (sym e) p.passed

  -- A check of the fence ends and passes exactly when both positions are given, with latitudes from
  -- -90 to 90 and longitudes from -180 to 180, the radius is at most 5000, and the distance between
  -- them could be computed and is at most the radius; a missing or zero radius counts as 100.
  pub verify_distance_iff :
      (lat lon event_lat event_lon : Option Float) (radius : Option ℕ)
      → IsPassed (verify_distance fl lat lon event_lat event_lon radius)
        ↔ IsInside lat lon event_lat event_lon radius
  unfolding verify_distance
  verify_distance_iff none lon elat elon radius =
      (λ p. absurd (cc (missing _ p)), λ i. absurd (cc (i.is_lat)))
  verify_distance_iff (some lat) none elat elon radius =
      (λ p. absurd (cc (missing _ p)), λ i. absurd (cc (i.is_lon)))
  verify_distance_iff (some lat) (some lon) none elon radius =
      (λ p. absurd (cc (missing _ p)), λ i. absurd (cc (i.is_event_lat)))
  verify_distance_iff (some lat) (some lon) (some elat) none radius =
      (λ p. absurd (cc (missing _ p)), λ i. absurd (cc (i.is_event_lon)))
  verify_distance_iff (some lat) (some lon) (some elat) (some elon) radius = (
    λ p.
        let (a, b, c, (d, h, n)) = coords_pass lat lon elat elon (metres radius) (
          subst (λ r. IsPassed (verify_coords fl lat lon elat elon r))
            (effective_radius_lem fl radius) p) in
        record {
          lat_at = lat;
          lon_at = lon;
          event_lat_at = elat;
          event_lon_at = elon;
          distance = d;
          is_lat = refl;
          is_lon = refl;
          is_event_lat = refl;
          is_event_lon = refl;
          on_globe = in_range-IsOnGlobe lat lon a;
          event_on_globe = in_range-IsOnGlobe elat elon b;
          bounded = c;
          measured = h;
          near = n;
        },
    λ i.
        let a : i.lat_at ≡ lat = cc (i.is_lat) in
        let b : i.lon_at ≡ lon = cc (i.is_lon) in
        let c : i.event_lat_at ≡ elat = cc (i.is_event_lat) in
        let d : i.event_lon_at ≡ elon = cc (i.is_event_lon) in
        let on = IsOnGlobe-in_range i.lat_at i.lon_at i.on_globe in
        let event_on = IsOnGlobe-in_range i.event_lat_at i.event_lon_at i.event_on_globe in
        rw (effective_radius_lem fl radius) (
          passes lat lon elat elon (metres radius) i.distance (cc (a, b, on)) (cc (c, d, event_on))
            i.bounded (cc (a, b, c, d, i.measured)) i.near),
  )
