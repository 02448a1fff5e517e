-- ===== src/Geo.antt =====
-- src/services/geofence_service.py and src/services/geo_verification.py: distances, the geofence,
-- the velocity check, the country check and the device attestation. The arithmetic of doubles and
-- the functions of `math` are a parameter.
pub mod Distance
pub mod Signals
pub mod Fence
