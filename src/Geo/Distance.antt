-- ===== src/Geo/Distance.antt =====
-- src/services/geofence_service.py
use checkin_service.Base.{
  ℕ, Bool, false, not, ◌&&◌, Option, none, some, ltb, ◌==◌, Result, ok, err, http, domain_error,
  if◌then◌else◌,
}
use checkin_service.Text.{Text}
use checkin_service.Text.Numerals.{ℤ, pos, negsuc}
use checkin_service.Models.{Float}
use checkin_service.Hashing.{Crypto, Keys, hash_pii}

-- Doubles, by their bit patterns.
pub record FloatOps : Type 0 where
  pub of_int : ℤ → Float
  pub le : Float → Float → Bool
  pub lt : Float → Float → Bool
  pub add : Float → Float → Float
  pub sub : Float → Float → Float
  pub mul : Float → Float → Float
  pub div : Float → Float → Float
  pub square : Float → Float
  pub sqrt : Float → Float
  pub sin : Float → Float
  pub cos : Float → Float
  -- `none` is the `ValueError` of an argument beyond 1
  pub asin : Float → Option Float
  pub radians : Float → Float
  -- the literal 2.2369362921
  pub mph_per_mps : Float
  -- `round(value, 3)` and `str(value)`
  pub round3 : Float → Float
  pub show : Float → Text

-- `reason` of a `GeofenceCheckResult`
pub data GeoReason : Type 0 where
  missing_submitted_coords missing_event_coords submitted_coords_out_of_range : GeoReason
  event_coords_out_of_range invalid_radius out_of_range : GeoReason

pub record GeofenceCheck : Type 0 where
  pub passed : Bool
  pub distance_m : Option Float
  pub reason : Option GeoReason

abbrev pub refuse : GeoReason → GeofenceCheck
refuse r = record { passed = false; distance_m = none; reason = some r }

module _ (fl : FloatOps) where
  open fl use {of_int, le, add, sub, mul, div, square, sqrt, sin, cos, asin, radians}

  -- The sum under the root may be rounded to more than 1, for places on opposite sides of the globe.
  unfoldable pub haversine_distance_m : Float → Float → Float → Float → Result Float
  haversine_distance_m lat1 lon1 lat2 lon2 =
      let dlat = radians (sub lat2 lat1) in
      let dlon = radians (sub lon2 lon1) in
      let two = of_int (pos 2) in
      let a =
        add (square (sin (div dlat two)))
          (mul (mul (cos (radians lat1)) (cos (radians lat2))) (square (sin (div dlon two)))) in
      elim (asin (sqrt a)) [
        | none ↦ err (http 500 domain_error)
        | some half ↦ ok (mul (of_int (pos 6_371_000)) (mul two half))
      ]

  -- `None` passes through.
  unfoldable pub hash_coordinate : Crypto → Keys → Option Float → Option Text
  hash_coordinate crypto keys none = none
  hash_coordinate crypto keys (some v) = some (hash_pii crypto keys (fl.show (fl.round3 v)))

  -- `-90.0 <= lat <= 90.0 and -180.0 <= lon <= 180.0`
  unfoldable pub in_range : Float → Float → Bool
  in_range lat lon =
      le (of_int (negsuc 89)) lat
      && le lat (of_int (pos 90))
      && le (of_int (negsuc 179)) lon
      && le lon (of_int (pos 180))

  -- `radius_m or 100`
  unfoldable pub effective_radius : Option ℕ → ℕ
  effective_radius none = 100
  effective_radius (some r) = if r == 0 then 100 else r

  -- the checks on four coordinates
  unfoldable pub verify_coords : Float → Float → Float → Float → ℕ → Result GeofenceCheck
  unfolding in_range
  verify_coords lat lon event_lat event_lon radius =
      if not (in_range lat lon)
      then ok (refuse submitted_coords_out_of_range)
      else if not (in_range event_lat event_lon)
      then ok (refuse event_coords_out_of_range)
      else if ltb 5000 radius
      then ok (refuse invalid_radius)
      else elim (haversine_distance_m lat lon event_lat event_lon) [
        | err e ↦ err e
        | ok distance ↦
            let inside = le distance (of_int (pos radius)) in
            ok (record {
              passed = inside;
              distance_m = some distance;
              reason = if inside then none else some out_of_range;
            })
      ]

  unfoldable pub verify_distance :
      Option Float → Option Float → Option Float → Option Float → Option ℕ → Result GeofenceCheck
  verify_distance none lon event_lat event_lon radius_m = ok (refuse missing_submitted_coords)
  verify_distance (some lat) none event_lat event_lon radius_m =
      ok (refuse missing_submitted_coords)
  verify_distance (some lat) (some lon) none event_lon radius_m = ok (refuse missing_event_coords)
  verify_distance (some lat) (some lon) (some elat) none radius_m = ok (refuse missing_event_coords)
  verify_distance (some lat) (some lon) (some elat) (some elon) radius_m =
      verify_coords lat lon elat elon (effective_radius radius_m)
