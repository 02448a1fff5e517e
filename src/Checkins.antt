-- ===== src/Checkins.antt =====
-- src/routers/checkins.py: the sliding-window rate limiter (Limiter) and the submission of a
-- check-in (Submit).
pub mod Limiter
pub mod Submit
pub mod Flows
pub mod Cleared
pub mod Refusals
pub mod Cases
pub mod Once
