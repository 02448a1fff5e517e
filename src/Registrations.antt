-- ===== src/Registrations.antt =====
-- src/routers/registrations.py: registering for an event, cancelling, and the list of an event's
-- registrations. The definitions are in Defs and its gates in Gate; the proofs are in the others.
pub mod Gate
pub mod Defs
pub mod Cases
pub mod Capacity
pub mod Cancelled
pub mod Waitlist
pub mod Access
pub mod Admission
pub mod Replay
pub mod Listing
